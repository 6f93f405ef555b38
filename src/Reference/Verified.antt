-- ===== src/Reference/Verified.antt =====
-- What `verifyDefenseRow` of api/executor_locator.go has checked of a rule that it returns.
use test_miti_check.Prelude.{
  some-injective, arith, ◌≡◌, refl, sym, ap, ◌∙◌, ℕ, Bool, true, false, Option, none, some, List,
  subst, if◌then◌else◌,
}
use test_miti_check.Prelude.Text.{Text, text, text_eq, text_eq→≡}
use test_miti_check.Prelude.Text.Numbers.{ℤ, pos, negsuc, eqb_int}
use test_miti_check.Prelude.Results.{Result, ok, or_error, require, ◌>>=◌, ◌>>◌}
use test_miti_check.Request.{CandidateSpec}
use test_miti_check.Api.Locator.{Locator}
use test_miti_check.Reference.Json.{byte_count}
use test_miti_check.Reference.Defense.{
  DefenseRow, DefenseCandidate, DefenseResult, DefenseCodec, unsigned, sha256_value, row_identifies,
  result_identifies, is_intact, is_modsecurity, supported, evidence_of, waf_candidate,
  verify_candidate, verify_result, verify_defense_row,
}

-- The rule is that of a candidate of the result that the row holds; the size and the digest that the
-- locator states are those of the result, and the digest that the candidate states is that of the rule.
pub record IsVerified (codec : DefenseCodec) (row : DefenseRow) (l : Locator)
    (found : CandidateSpec × List Text) : Type 0 where
  pub result : DefenseResult
  pub primary : DefenseCandidate
  pub decoded : codec.decode row.result_json ≡ some result
  pub selected : result.primary_candidate ≡ some primary
  pub run : (row.run_id ≡ l.run_id) × (result.run_id ≡ l.run_id)
  pub named : (row.result_id ≡ l.result_id) × (result.result_id ≡ l.result_id)
  pub hashed : l.content_sha256 ≡ sha256_value codec (codec.encode (unsigned result))
  pub sized : l.size_bytes ≡ byte_count (codec.encode (unsigned result))
  pub sealed : primary.artifact_hash ≡ sha256_value codec primary.artifact_content
  pub typed : primary.artifact_type ≡ text "modsecurity-rule"
  pub candidate : found.0 ≡ waf_candidate primary
  pub evidence : found.1 ≡ evidence_of result primary

eqb_int-pos : (z : ℤ) (m n : ℕ) → eqb_int z (pos m) ≡ true → eqb_int z (pos n) ≡ true → m ≡ n
eqb_int-pos (pos k) m n h g = ground arith
eqb_int-pos (negsuc k) m n h g = ground arith

supported-cases :
    (b c : DefenseCandidate) (t : Bool)
    → is_modsecurity b ≡ t
    → (if t then some b else none) ≡ some c
    → (◌≡◌ {A = Option DefenseCandidate} (some b) (some c)) × (is_modsecurity c ≡ true)
supported-cases b c false e h = ground arith
supported-cases b c true e h = (h, subst (λ x. is_modsecurity x ≡ true) (some-injective h) e)

supported-some :
    (o : Option DefenseCandidate) (c : DefenseCandidate)
    → supported o ≡ some c
    → (o ≡ some c) × (is_modsecurity c ≡ true)
supported-some none c h = ground arith
supported-some (some b) c h = supported-cases b c (is_modsecurity b) refl h

row_identified :
    (row : DefenseRow) (l : Locator)
    → row_identifies row l ≡ true
    → (row.run_id ≡ l.run_id) × (row.result_id ≡ l.result_id)
unfolding row_identifies
row_identified row l h = (
  text_eq→≡ row.run_id l.run_id (ground arith),
  text_eq→≡ row.result_id l.result_id (ground arith),
)

is_modsecurity-typed :
    (c : DefenseCandidate) → is_modsecurity c ≡ true → c.artifact_type ≡ text "modsecurity-rule"
unfolding is_modsecurity
is_modsecurity-typed c h = text_eq→≡ c.artifact_type (text "modsecurity-rule") (ground arith)

-- The steps of a check with two guards and a value.
two_guards-ok :
    {A B : Type 0} (s t : Bool) (o : Option A) (next : A → Result Text B) (x y z : Text) (found : B)
    → (require s x >> (require t y >> (or_error o z >>= next))) ≡ ok found
    → (s ≡ true) × (t ≡ true) × ((a : A) × (o ≡ some a) × (next a ≡ ok found))
two_guards-ok false t o next x y z found h = ground arith
two_guards-ok true false o next x y z found h = ground arith
two_guards-ok true true none next x y z found h = ground arith
two_guards-ok true true (some a) next x y z found h = (refl, refl, (a, refl, h))

guard_value-ok :
    {A : Type 0} (s : Bool) (x : Text) (a b : A)
    → (require s x >> ok a) ≡ ok b
    → (s ≡ true) × (b ≡ a)
guard_value-ok false x a b h = ground arith
guard_value-ok true x a b h = (refl, sym (ground arith))

module _ (codec : DefenseCodec) (row : DefenseRow) (l : Locator) where
  result_identified :
      (r : DefenseResult)
      → result_identifies codec r l ≡ true
      → (r.run_id ≡ l.run_id) × (r.result_id ≡ l.result_id)
  unfolding result_identifies
  result_identified r h =
      (text_eq→≡ r.run_id l.run_id (ground arith), text_eq→≡ r.result_id l.result_id (ground arith))

  intact :
      (r : DefenseResult)
      → is_intact codec r l ≡ true
      → (l.content_sha256 ≡ sha256_value codec (codec.encode (unsigned r)))
        × (l.size_bytes ≡ byte_count (codec.encode (unsigned r)))
  unfolding is_intact
  intact r h = (
    sym (text_eq→≡ r.content_sha256 l.content_sha256 (ground arith))
        ∙ text_eq→≡ r.content_sha256 (sha256_value codec (codec.encode (unsigned r)))
            (ground arith),
    eqb_int-pos r.size_bytes l.size_bytes (byte_count (codec.encode (unsigned r))) (ground arith)
        (ground arith),
  )

  verify_candidate-sealed :
      (r : DefenseResult) (c : DefenseCandidate) (found : CandidateSpec × List Text)
      → verify_candidate codec r c ≡ ok found
      → (c.artifact_hash ≡ sha256_value codec c.artifact_content)
        × (found ≡ (waf_candidate c, evidence_of r c))
  unfolding verify_candidate
  verify_candidate-sealed r c found h =
      let passed =
        guard_value-ok (text_eq c.artifact_hash (sha256_value codec c.artifact_content)) _
          (waf_candidate c, evidence_of r c) found h in
      (text_eq→≡ c.artifact_hash (sha256_value codec c.artifact_content) (passed.0), passed.1)

  verify_result-passed :
      (r : DefenseResult) (found : CandidateSpec × List Text)
      → verify_result codec l r ≡ ok found
      → (result_identifies codec r l ≡ true)
        × (is_intact codec r l ≡ true)
        × ((c : DefenseCandidate) × (supported r.primary_candidate ≡ some c)
            × (verify_candidate codec r c ≡ ok found))
  unfolding verify_result
  verify_result-passed r found h =
      two_guards-ok (result_identifies codec r l) (is_intact codec r l)
        (supported r.primary_candidate) (verify_candidate codec r) _ _ _ found h

  verify_decoded-IsVerified :
      (found : CandidateSpec × List Text) (o : Option DefenseResult)
      → codec.decode row.result_json ≡ o
      → row_identifies row l ≡ true
      → (or_error o (text "decode Defense Generation result_json") >>= verify_result codec l)
        ≡ ok found
      → IsVerified codec row l found
  verify_decoded-IsVerified found none e rows h = ground arith
  verify_decoded-IsVerified found (some r) e rows h =
      let (named, whole, (c, chosen, passed)) = verify_result-passed r found h in
      let (physical_run, physical_result) = row_identified row l rows in
      let (logical_run, logical_result) = result_identified r named in
      let (hashed, sized) = intact r whole in
      let (selected, shaped) = supported-some r.primary_candidate c chosen in
      let (sealed, same) = verify_candidate-sealed r c found passed in
      record {
        result = r;
        primary = c;
        decoded = e;
        selected = selected;
        run = (physical_run, logical_run);
        named = (physical_result, logical_result);
        hashed = hashed;
        sized = sized;
        sealed = sealed;
        typed = is_modsecurity-typed c shaped;
        candidate = ap (λ p. p.0) same;
        evidence = ap (λ p. p.1) same;
      }

  guarded-IsVerified :
      (found : CandidateSpec × List Text) (t : Bool) (x : Text)
      → row_identifies row l ≡ t
      → (require t x
          >> (or_error (codec.decode row.result_json) (text "decode Defense Generation result_json")
              >>= verify_result codec l))
        ≡ ok found
      → IsVerified codec row l found
  guarded-IsVerified found false x e h = ground arith
  guarded-IsVerified found true x e h =
      verify_decoded-IsVerified found (codec.decode row.result_json) refl e h

  -- A rule that is verified for a locator is the artifact of a ModSecurity candidate, in a result that
  -- the row of that locator holds; row, result and locator name the same run and result; the locator's
  -- digest and size are those of the result without its own digest and size; and the candidate's digest
  -- is that of its artifact. The evidence is that of the result.
  pub verify_defense_row-IsVerified :
      (found : CandidateSpec × List Text)
      → verify_defense_row codec row l ≡ ok found
      → IsVerified codec row l found
  unfolding verify_defense_row
  verify_defense_row-IsVerified found h = guarded-IsVerified found (row_identifies row l) _ refl h
