-- ===== src/Api/Accepted.antt =====
-- What `validate` of api/main.go ensures of the requests that it accepts.
use test_miti_check.Prelude.{
  arith, All, Bool-cases, ℕ, ◌≡◌, refl, String, Bool, true, false, Option, none, some, List, [],
  ◌∷◌, ◌++◌, ◌||◌, ◌⊎◌, inl, inr, not, if◌then◌else◌,
}
use test_miti_check.Prelude.Text.{Text, text, text_eq}
use test_miti_check.Api.Locator.{
  Locator, defense_generation, check_generation, valid_locator, valid_check_locator,
}
use test_miti_check.Api.Submission.{SubmitRequest}
use test_miti_check.Api.Validate.{
  report, v2_tests, locator_tests, validate_mode, validate_inline, flag, fails, present,
  check_mismatch, defense_mismatch, unique_from, unique_strings, v2_mode, locator_mode, has_inline,
  validate_locator, validate_v2, validate,
}

append-nil : (xs ys : List String) → xs ++ ys ≡ [] → (xs ≡ []) × (ys ≡ [])
append-nil [] ys h = (refl, h)
append-nil (x ∷ xs) ys h = ground arith

unique_strings-nil : (xs : List String) → unique_strings xs ≡ [] → xs ≡ []
unfolding unique_strings unique_from
unique_strings-nil [] h = refl
unique_strings-nil (x ∷ xs) h = ground arith

report-none : (tests : List (Bool × String)) → report tests ≡ [] → All (λ t. t.0 ≡ false) tests
unfolding report
report-none [] h = tt
report-none ((true, f) ∷ tests) h = ground arith
report-none ((false, f) ∷ tests) h = (refl, report-none tests h)

some_valid :
    {A : Type 0} (valid : A → Bool) (o : Option A)
    → fails valid o ≡ false
    → (a : A) × (o ≡ some a) × (valid a ≡ true)
some_valid valid none h = ground arith
some_valid valid (some a) h = (a, refl, ground arith)

-- A request by reference only: two producers' locators under the request's correlation id, and
-- nothing inline that could be executed. `check` says which locators of the check are valid.
pub record IsReferenceOnly (is_stamp : Text → Bool) (check : Locator → Bool) (r : SubmitRequest)
    : Type 0 where
  pub defense_locator : Locator
  pub check_locator : Locator
  pub has_defense : r.defense_result ≡ some defense_locator
  pub has_check : r.check_result ≡ some check_locator
  pub valid_defense : valid_locator is_stamp defense_generation defense_locator ≡ true
  pub valid_check : check check_locator ≡ true
  pub same_producers : text_eq defense_locator.correlation_id check_locator.correlation_id ≡ true
  pub same_run : text_eq defense_locator.correlation_id r.correlation_id ≡ true
  pub no_substrate : present r.substrate ≡ false
  pub no_candidate : present r.candidate ≡ false
  pub no_test : present r.test_basis ≡ false
  pub no_upstream : present r.upstream_inputs ≡ false
  pub not_enveloped : r.is_enveloped ≡ false

by_reference :
    (is_stamp : Text → Bool) (check : Locator → Bool) (r : SubmitRequest)
    → fails (valid_locator is_stamp defense_generation) r.defense_result ≡ false
    → fails check r.check_result ≡ false
    → check_mismatch r ≡ false
    → defense_mismatch r ≡ false
    → (present r.substrate
        || present r.candidate
        || present r.test_basis
        || present r.upstream_inputs)
      ≡ false
    → r.is_enveloped ≡ false
    → IsReferenceOnly is_stamp check r
by_reference is_stamp check r hd hc hcm hdm hin he =
    let (d, pd, vd) =
      some_valid (valid_locator is_stamp defense_generation) (r.defense_result) hd in
    let (c, pc, vc) = some_valid check (r.check_result) hc in
    record {
      defense_locator = d;
      check_locator = c;
      has_defense = pd;
      has_check = pc;
      valid_defense = vd;
      valid_check = vc;
      same_producers = ground arith;
      same_run = ground arith;
      no_substrate = ground arith;
      no_candidate = ground arith;
      no_test = ground arith;
      no_upstream = ground arith;
      not_enveloped = he;
    }

none_present :
    (a b c d : Bool) → a ≡ false → b ≡ false → c ≡ false → d ≡ false → (a || b || c || d) ≡ false
none_present a b c d ha hb hc hd = ground arith

inline-free :
    (is_stamp : Text → Bool) (r : SubmitRequest)
    → has_inline is_stamp r ≡ false
    → (present r.substrate
        || present r.candidate
        || present r.test_basis
        || present r.upstream_inputs)
      ≡ false
inline-free is_stamp r h = ground arith

if-true : (b : Bool) (xs ys : List String) → b ≡ true → (if b then xs else ys) ≡ [] → xs ≡ []
if-true b xs ys e h = ground arith

if-false : (b : Bool) (xs ys : List String) → b ≡ false → (if b then xs else ys) ≡ [] → ys ≡ []
if-false b xs ys e h = ground arith

or-right : (a b : Bool) → a ≡ false → (a || b) ≡ true → b ≡ true
or-right a b e h = ground arith

module _ (is_stamp : Text → Bool) (r : SubmitRequest) where
  validate_v2-reference :
      validate_v2 is_stamp r ≡ [] → IsReferenceOnly is_stamp (valid_check_locator is_stamp) r
  unfolding validate_v2 v2_tests
  validate_v2-reference h =
      let t : All (λ t. t.0 ≡ false) (v2_tests is_stamp r) =
        report-none (v2_tests is_stamp r) (unique_strings-nil (report (v2_tests is_stamp r)) h) in
      by_reference is_stamp (valid_check_locator is_stamp) r (t.1.1.0) (t.1.1.1.0) (t.1.1.1.1.0)
        (t.1.1.1.1.1.0) (inline-free is_stamp r (t.1.1.1.1.1.1.0)) (t.1.1.1.1.1.1.1.0)

  validate_locator-reference :
      validate_locator is_stamp r ≡ []
      → IsReferenceOnly is_stamp (valid_locator is_stamp check_generation) r
  unfolding validate_locator locator_tests
  validate_locator-reference h =
      let t : All (λ t. t.0 ≡ false) (locator_tests is_stamp r) =
        report-none (locator_tests is_stamp r) h in
      by_reference is_stamp (valid_locator is_stamp check_generation) r (t.1.0) (t.1.1.0)
        (t.1.1.1.0) (t.1.1.1.1.0)
        (none_present _ _ _ _ (t.1.1.1.1.1.1.1.1.1.0) (t.1.1.1.1.1.1.1.1.1.1.0)
          (t.1.1.1.1.1.1.1.1.1.1.1.0) (t.1.1.1.1.1.1.1.1.1.1.1.1.0))
        (t.1.1.1.1.1.1.1.1.1.1.1.1.1.0)

-- Whether a request names producers' results instead of inline artifacts, on either path.
abbrev pub by_locator : SubmitRequest → Bool
by_locator r = v2_mode r || locator_mode r

-- A request by locator that is accepted refers to two valid producer results of its own correlation
-- id, and carries no substrate, candidate, test or upstream content.
pub validate-IsReferenceOnly :
    (is_stamp : Text → Bool) (print : ℕ → String) (r : SubmitRequest)
    → by_locator r ≡ true
    → validate is_stamp print r ≡ []
    → IsReferenceOnly is_stamp (valid_check_locator is_stamp) r
      ⊎ IsReferenceOnly is_stamp (valid_locator is_stamp check_generation) r
unfolding validate validate_mode
validate-IsReferenceOnly is_stamp print r m h =
    let h1 =
      (append-nil (flag (not (text_eq r.contract_id (text "mitigation-check@1.0"))) "contract_id")
        (validate_mode is_stamp print r) h).1 in
    let other = if locator_mode r then validate_locator is_stamp r else validate_inline print r in
    elim (Bool-cases (v2_mode r)) [
      | inl v ↦ inl (
          validate_v2-reference is_stamp r
            (if-true (v2_mode r) (validate_v2 is_stamp r) other v h1))
      | inr v ↦
          let rest = if-false (v2_mode r) (validate_v2 is_stamp r) other v h1 in
          let l = or-right (v2_mode r) (locator_mode r) v m in
          inr (
            validate_locator-reference is_stamp r (
              if-true (locator_mode r) (validate_locator is_stamp r) (validate_inline print r) l
                rest))
    ]
