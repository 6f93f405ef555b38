-- ===== src/Upstream/Derived.antt =====
-- The test that `TestBasisFromStimulus` of api/stimulus.go derives.
use test_miti_check.Prelude.{
  arith, ◌≡◌, refl, sym, subst, Bool, true, false, Option, none, some, List, [], ◌∷◌, ◌++◌, ◌⊎◌,
  inl, inr, any, Bool-cases, if-both, some-injective,
}
use test_miti_check.Prelude.Text.{
  Text, text, is_empty, trim_space, has_prefix, drop_prefix, equal_fold,
}
use test_miti_check.Prelude.Results.{Result, ok, err}
use test_miti_check.Request.{value, TestBasisSpec}
use test_miti_check.Api.Submission.{basis_document}
use test_miti_check.Waf.Verdict.{test_of}
use test_miti_check.Upstream.Stimulus.{
  Stimulus, stimulus_body, rooted, stimulus_path, content_name, has_content_type, stimulus_headers,
  typed_headers, probe, with_body, basis_from_stimulus, with_query,
}
use test_miti_check.Upstream.Based.{ok-injective, err-ok}

abbrev pub IsRooted : Text → Type 0
IsRooted p = has_prefix p (b'/' ∷ []) ≡ true

-- The request keeps the headers of the stimulus, and has its content type where it gives one. The
-- executor can run the test, which expects the request to be blocked.
pub record IsProbe (s : Stimulus) (b : TestBasisSpec) : Type 0 where
  pub path : IsRooted b.request.path
  pub headers :
      (b.request.headers ≡ s.headers)
      ⊎ ((t : Text) × (s.content_type ≡ some t)
          × (has_content_type s.headers ≡ false)
          × (b.request.headers ≡ s.headers ++ ((content_name, t) ∷ [])))
  pub typed :
      (t : Text)
      → s.content_type ≡ some t
      → is_empty (trim_space t) ≡ false
      → has_content_type b.request.headers ≡ true
  pub runs : test_of (value (basis_document b)) ≡ some (b, true)

rooted-IsRooted : (p : Text) → IsRooted (rooted p)
unfolding rooted drop_prefix
rooted-IsRooted [] = refl
rooted-IsRooted (c ∷ p) = ground arith

with_query-IsRooted :
    (encode : List (Text × Text) → Text) (p : Text) (query : List (Text × Text))
    → IsRooted p
    → IsRooted (with_query encode p query)
unfolding drop_prefix
with_query-IsRooted encode p [] h = h
with_query-IsRooted encode [] (q ∷ query) h = ground arith
with_query-IsRooted encode (c ∷ p) (q ∷ query) h = ground arith

any-append :
    (p : Text × Text → Bool) (xs : List (Text × Text)) (y : Text × Text)
    → p y ≡ true
    → any p (xs ++ (y ∷ [])) ≡ true
any-append p [] y h = rw h refl
any-append p (x ∷ xs) y h = if-both (λ b. b ≡ true) (p x) _ _ refl (any-append p xs y h)

-- What the content type adds to the headers.
record IsTypedAs (headers : List (Text × Text)) (given : Option Text) : Type 0 where
  kept :
      (typed_headers headers given ≡ headers)
      ⊎ ((t : Text) × (given ≡ some t)
          × (has_content_type headers ≡ false)
          × (typed_headers headers given ≡ headers ++ ((content_name, t) ∷ [])))
  present :
      (t : Text)
      → given ≡ some t
      → is_empty (trim_space t) ≡ false
      → has_content_type (typed_headers headers given) ≡ true

refuted : {b : Bool} → b ≡ false → b ≡ true → ⊥
refuted h k = ground arith

content_name-fold : equal_fold content_name content_name ≡ true
unfolding equal_fold text
content_name-fold = refl

typed_headers-IsTypedAs :
    (headers : List (Text × Text)) (given : Option Text) → IsTypedAs headers given
unfolding typed_headers
typed_headers-IsTypedAs headers none = record { kept = inl refl; present = λ t h n. ground arith }
typed_headers-IsTypedAs headers (some t) = elim (Bool-cases (is_empty (trim_space t))) [
  | inl e ↦ record {
    kept = inl (rw e refl);
    present = λ u h n.
        absurd (refuted n (subst (λ x. is_empty (trim_space x) ≡ true) (some-injective h) e));
  }
  | inr n ↦ elim (Bool-cases (has_content_type headers)) [
    | inl e ↦ record { kept = inl (rw (n, e) refl); present = λ u h m. rw (n, e) e }
    | inr m ↦
        let q : typed_headers headers (some t) ≡ headers ++ ((content_name, t) ∷ []) =
          rw (n, m) refl in
        record {
          kept = inr (t, refl, m, q);
          present = λ u h k.
              subst (λ x. has_content_type x ≡ true) (sym q)
                (any-append (λ x. equal_fold (x.0) content_name) headers (content_name, t)
                  content_name-fold);
        }
  ]
]

probe-IsProbe :
    (encode : List (Text × Text) → Text) (s : Stimulus) (body : Text)
    → IsProbe s (probe encode s body)
unfolding probe stimulus_path stimulus_headers
probe-IsProbe encode s body =
    let typed = typed_headers-IsTypedAs s.headers s.content_type in
    record {
      path =
          with_query-IsRooted encode (rooted (trim_space s.path_key)) s.query
            (rooted-IsRooted (trim_space s.path_key));
      headers = typed.kept;
      typed = typed.present;
      runs = refl;
    }

with_body-IsProbe :
    (encode : List (Text × Text) → Text) (s : Stimulus) (answer : Result Text Text)
    (b : TestBasisSpec)
    → with_body encode s answer ≡ ok b
    → IsProbe s b
with_body-IsProbe encode s (err e) b h = absurd (err-ok h)
with_body-IsProbe encode s (ok body) b h =
    subst (IsProbe s) (ok-injective h) (probe-IsProbe encode s body)

-- A stimulus that gives a test gives one whose path starts with a slash, whose headers are the
-- stimulus's with its content type added when it has one that none of them gives, and that the
-- executor runs as a request that is expected to be blocked.
pub basis_from_stimulus-IsProbe :
    (encode : List (Text × Text) → Text) (s : Stimulus) (b : TestBasisSpec)
    → basis_from_stimulus encode s ≡ ok b
    → IsProbe s b
unfolding basis_from_stimulus
basis_from_stimulus-IsProbe encode s b h = with_body-IsProbe encode s (stimulus_body s) b h
