-- ===== src/Upstream/Based.antt =====
-- What resolving the test of a request changes in it: api/executor_upstream.go.
use test_miti_check.Prelude.{
  arith, ◌≡◌, refl, sym, ap, Option, none, some, List, ◌⊎◌, inl, inr, Bool-cases, if◌then◌else◌,
}
use test_miti_check.Prelude.Text.{Text, text, text_eq, is_empty}
use test_miti_check.Prelude.Results.{Result, ok, err}
use test_miti_check.Request.{Raw, missing, garbled, value, CandidateSpec, TestBasisSpec}
use test_miti_check.Api.Locator.{check_generation, capability_of}
use test_miti_check.Api.Submission.{SubmitRequest, BasisDocument, UpstreamInput, basis_document}
use test_miti_check.Waf.Earned.{IsHere}
use test_miti_check.Upstream.Reader.{Database, select_by_capability}
use test_miti_check.Upstream.Execute.{
  Resolution, with_candidate, derive_basis, with_derived, with_entry, with_basis,
}

-- What `with_basis` changes.
pub record Based (encode : List (Text × Text) → Text) (db : Database) (entries : List UpstreamInput)
    (raw : Raw BasisDocument) (s t : SubmitRequest) : Type 0 where
  pub same_rule : t.candidate ≡ s.candidate
  pub same_mode : t.execution_mode ≡ s.execution_mode
  pub test :
      (t.test_basis ≡ s.test_basis)
      ⊎ ((raw ≡ missing)
          × ((check : UpstreamInput) × (basis : TestBasisSpec) × (select_by_capability entries
                  (capability_of check_generation)
                ≡ some check)
              × (derive_basis encode db check.result_ref ≡ ok basis)
              × (t.test_basis ≡ value (basis_document basis))))

pub ok-injective {ℓ} : {A : Type ℓ} {a b : A} → ◌≡◌ {A = Result Text A} (ok a) (ok b) → a ≡ b
ok-injective h = ground arith

pub err-ok {ℓ} : {A : Type ℓ} {a : A} {e : Text} → ◌≡◌ {A = Result Text A} (err e) (ok a) → ⊥
err-ok h = ground arith

abbrev pub mode_of_text : Text → Text
mode_of_text m = if is_empty m then text "inmemory" else m

module _ (encode : List (Text × Text) → Text) (db : Database) where
  kept-Based :
      (entries : List UpstreamInput) (raw : Raw BasisDocument) (s t : Resolution)
      → ◌≡◌ {A = Result Text Resolution} (ok s) (ok t)
      → Based encode db entries raw s.request t.request
  kept-Based entries raw s t h =
      let q = ap (λ x. x.request) (ok-injective h) in
      record {
        same_rule = sym (ap (λ x. x.candidate) q);
        same_mode = sym (ap (λ x. x.execution_mode) q);
        test = inl (sym (ap (λ x. x.test_basis) q));
      }

  with_derived-Based :
      (entries : List UpstreamInput) (s : Resolution) (check : UpstreamInput)
      (answer : Result Text TestBasisSpec) (t : Resolution)
      → select_by_capability entries (capability_of check_generation) ≡ some check
      → derive_basis encode db check.result_ref ≡ answer
      → with_derived encode db s check.result_ref answer ≡ ok t
      → Based encode db entries missing s.request t.request
  with_derived-Based entries s check (err why) t e d h = absurd (err-ok h)
  with_derived-Based entries s check (ok basis) t e d h =
      let q = ap (λ x. x.request) (ok-injective h) in
      record {
        same_rule = sym (ap (λ x. x.candidate) q);
        same_mode = sym (ap (λ x. x.execution_mode) q);
        test = inr (refl, (check, basis, e, d, sym (ap (λ x. x.test_basis) q)));
      }

  with_entry-Based :
      (entries : List UpstreamInput) (s : Resolution) (check : Option UpstreamInput)
      (t : Resolution)
      → select_by_capability entries (capability_of check_generation) ≡ check
      → with_entry encode db s check ≡ ok t
      → Based encode db entries missing s.request t.request
  with_entry-Based entries s none t e h = kept-Based entries missing s t h
  with_entry-Based entries s (some check) t e h =
      with_derived-Based entries s check (derive_basis encode db check.result_ref) t e refl h

  pub with_basis-Based :
      (entries : List UpstreamInput) (raw : Raw BasisDocument) (s t : Resolution)
      → with_basis encode db entries raw s ≡ ok t
      → Based encode db entries raw s.request t.request
  unfolding with_basis
  with_basis-Based entries missing s t h =
      with_entry-Based entries s (select_by_capability entries (capability_of check_generation)) t
        refl h
  with_basis-Based entries garbled s t h = kept-Based entries garbled s t h
  with_basis-Based entries (value d) s t h = kept-Based entries (value d) s t h

pub with_candidate-fields :
    (r : SubmitRequest) (c : CandidateSpec)
    → ((with_candidate r c).candidate ≡ value c)
      × ((with_candidate r c).test_basis ≡ r.test_basis)
      × (IsHere (mode_of_text r.execution_mode)
          → IsHere (mode_of_text (with_candidate r c).execution_mode))
unfolding with_candidate text_eq text
with_candidate-fields r c = elim (Bool-cases (text_eq c.kind (text "firewall-rule"))) [
  | inl e ↦ rw e (refl, refl, λ here. (refl, refl))
  | inr n ↦ rw n (refl, refl, λ here. here)
]
