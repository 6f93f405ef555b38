-- ===== src/Api/Validate.antt =====
-- `validate` of api/main.go, `validateLocatorRequest` of api/executor_locator.go,
-- `validateV2LocatorRequest` and `uniqueStrings` of api/shared_contract_v2.go. Each answers the
-- names of the offending fields.
use Prim.Native.String
use test_miti_check.Prelude.{
  ℕ, suc, String, Bool, true, false, Option, none, some, List, [], ◌∷◌, ◌++◌, ◌&&◌, ◌||◌, not, ◌==◌,
  any, is_some, is_none, if◌then◌else◌,
}
use test_miti_check.Prelude.Text.{Text, text, text_eq, is_empty, trim_space}
use test_miti_check.Request.{Raw, missing, garbled, value, CandidateSpec}
use test_miti_check.Api.Locator.{
  defense_generation, check_generation, valid_locator, valid_check_locator,
}
use test_miti_check.Api.Submission.{
  SubmitRequest, SubstrateDocument, BasisDocument, UpstreamInput, parse_upstream_inputs,
}

-- `if bad { bad = append(bad, field) }`.
abbrev pub flag : Bool → String → List String
flag b field = if b then field ∷ [] else []

-- The fields whose tests are true, in order.
unfoldable pub report : List (Bool × String) → List String
report [] = []
report ((b, field) ∷ tests) = let rest = report tests in if b then field ∷ rest else rest

abbrev pub present {ℓ} : {A : Type ℓ} → Raw A → Bool
present missing = false
present garbled = true
present (value a) = true

abbrev pub blank : Text → Bool
blank s = is_empty (trim_space s)

-- `uniqueStrings`.
unfoldable pub unique_from : List String → List String → List String
unique_from seen [] = []
unique_from seen (v ∷ values) =
    let fresh = unique_from (v ∷ seen) values in
    let rest = unique_from seen values in if any (λ s. s == v) seen then rest else v ∷ fresh

unfoldable pub unique_strings : List String → List String
unfolding unique_from
unique_strings values = unique_from [] values

-- The correlation ids of the producers and of the request.
abbrev pub check_mismatch : SubmitRequest → Bool
check_mismatch r = elim r.defense_result [
  | none ↦ false
  | some d ↦ elim r.check_result [
    | none ↦ false
    | some c ↦ not (text_eq d.correlation_id c.correlation_id)
  ]
]

abbrev pub defense_mismatch : SubmitRequest → Bool
defense_mismatch r = elim r.defense_result [
  | none ↦ false
  | some d ↦ not (text_eq d.correlation_id r.correlation_id)
]

abbrev pub fails {ℓ} : {A : Type ℓ} → (A → Bool) → Option A → Bool
fails valid none = true
fails valid (some a) = not (valid a)

unfoldable pub v2_mode : SubmitRequest → Bool
unfolding text_eq text trim_space
v2_mode r = text_eq r.route_policy (text "shared-attack-contracts-v2") || not (blank r.profile_id)

unfoldable pub locator_mode : SubmitRequest → Bool
unfolding trim_space
locator_mode r = is_some r.defense_result || is_some r.check_result || not (blank r.route_policy)

abbrev pub is_known_mode : Text → Bool
is_known_mode m =
    text_eq m (text "local")
    || text_eq m (text "inmemory")
    || text_eq m (text "aci")
    || text_eq m (text "aci-sp")
    || text_eq m (text "github")
    || text_eq m (text "github-ghcr")
    || text_eq m (text "firewall")

abbrev pub other_mode : SubmitRequest → Bool
other_mode r = not (is_empty r.execution_mode) && not (text_eq r.execution_mode (text "inmemory"))

module _ (is_stamp : Text → Bool) where
  unfoldable pub locator_tests : SubmitRequest → List (Bool × String)
  unfolding text_eq text valid_locator
  locator_tests r =
      (not (text_eq r.route_policy (text "registered-waf-route-v1")), "route_policy")
      ∷ (fails (valid_locator is_stamp defense_generation) r.defense_result, "defense_result")
      ∷ (fails (valid_locator is_stamp check_generation) r.check_result, "check_result")
      ∷ (check_mismatch r, "check_result.correlation_id")
      ∷ (defense_mismatch r, "defense_result.correlation_id")
      ∷ (not (is_empty r.candidate_artifact_id), "candidate_artifact_id")
      ∷ (not (is_empty r.check_profile_id), "check_profile_id")
      ∷ (not (is_empty r.profile_id), "profile_id")
      ∷ (not (is_empty r.substrate_selector), "substrate_selector")
      ∷ (present r.substrate, "substrate")
      ∷ (present r.candidate, "candidate")
      ∷ (present r.test_basis, "test_basis")
      ∷ (present r.upstream_inputs, "upstream_inputs")
      ∷ (r.is_enveloped, "inline_upstream_content")
      ∷ (other_mode r, "execution_mode")
      ∷ []

  unfoldable pub validate_locator : SubmitRequest → List String
  unfolding report locator_tests
  validate_locator r = report (locator_tests r)

  abbrev pub has_inline : SubmitRequest → Bool
  has_inline r =
      not (is_empty r.candidate_artifact_id)
      || not (is_empty r.test_basis_id)
      || not (is_empty r.check_profile_id)
      || not (is_empty r.substrate_selector)
      || present r.substrate
      || present r.candidate
      || present r.test_basis
      || present r.upstream_inputs

  unfoldable pub v2_tests : SubmitRequest → List (Bool × String)
  unfolding text_eq text valid_locator valid_check_locator
  v2_tests r =
      (not (text_eq r.route_policy (text "shared-attack-contracts-v2")), "route_policy")
      ∷ (
        not (text_eq r.profile_id (text "waf-standard@2"))
            && not (text_eq r.profile_id (text "waf-standard@1")),
        "profile_id",
      )
      ∷ (fails (valid_locator is_stamp defense_generation) r.defense_result, "defense_result")
      ∷ (fails (valid_check_locator is_stamp) r.check_result, "check_result")
      ∷ (check_mismatch r, "check_result.correlation_id")
      ∷ (defense_mismatch r, "defense_result.correlation_id")
      ∷ (has_inline r, "inline_content")
      ∷ (r.is_enveloped, "inline_upstream_content")
      ∷ (other_mode r, "execution_mode")
      ∷ []

  unfoldable pub validate_v2 : SubmitRequest → List String
  unfolding report unique_strings v2_tests
  validate_v2 r = unique_strings (report (v2_tests r))

abbrev pub bad_reference : UpstreamInput → Bool
bad_reference e =
    not (text_eq e.result_ref.system (text "databricks"))
    || blank e.result_ref.catalog
    || blank e.result_ref.schema
    || blank e.result_ref.table
    || blank e.result_ref.key
    || not (text_eq e.result_ref.key e.result_id)

-- `print` is `%d`.
unfoldable pub validate_entries : (ℕ → String) → ℕ → List UpstreamInput → List String
unfolding text_eq text trim_space
validate_entries print i [] = []
validate_entries print i (e ∷ entries) =
    let prefix = String.◌++◌ "upstream_inputs[" (String.◌++◌ (print i) "]") in
    flag (blank e.capability || blank e.contract_id) prefix
    ++ flag (bad_reference e) (String.◌++◌ prefix ".result_ref")
    ++ validate_entries print (suc i) entries

unfoldable pub validate_upstream : (ℕ → String) → Raw (List UpstreamInput) → List String
unfolding validate_entries parse_upstream_inputs
validate_upstream print missing = []
validate_upstream print raw = elim (parse_upstream_inputs raw) [
  | none ↦ "upstream_inputs" ∷ []
  | some entries ↦ validate_entries print 0 entries
]

unfoldable pub validate_substrate : Raw SubstrateDocument → List String
unfolding trim_space
validate_substrate missing = []
validate_substrate garbled = "substrate" ∷ []
validate_substrate (value s) =
    flag (is_empty s.kind) "substrate.kind" ++ flag (blank s.image) "substrate.image"

unfoldable pub validate_candidate : Raw CandidateSpec → List String
unfolding trim_space
validate_candidate missing = []
validate_candidate garbled = "candidate" ∷ []
validate_candidate (value c) =
    flag (is_empty c.kind) "candidate.kind" ++ flag (blank c.rule) "candidate.rule"

abbrev pub known_basis : Text → Bool
known_basis s =
    text_eq s (text "verified-vuln-artifact") || text_eq s (text "mitigation-discriminator")

unfoldable pub validate_basis : Raw BasisDocument → List String
unfolding text_eq text
validate_basis missing = []
validate_basis garbled = "test_basis" ∷ []
validate_basis (value t) =
    flag (is_empty t.kind) "test_basis.kind"
    ++ flag (not (known_basis t.proof_basis)) "test_basis.proof_basis"
    ++ flag (is_none t.expected.blocked) "test_basis.expected.blocked"

-- The rules of a request with inline artifacts.
unfoldable pub validate_inline : (ℕ → String) → SubmitRequest → List String
unfolding validate_upstream validate_substrate validate_candidate validate_basis trim_space text_eq
    text
validate_inline print r =
    flag (blank r.candidate_artifact_id) "candidate_artifact_id"
    ++ flag (blank r.test_basis_id) "test_basis_id"
    ++ flag (blank r.check_profile_id) "check_profile_id"
    ++ validate_upstream print r.upstream_inputs
    ++ flag (not (is_empty r.execution_mode) && not (is_known_mode r.execution_mode))
        "execution_mode"
    ++ validate_substrate r.substrate
    ++ validate_candidate r.candidate
    ++ validate_basis r.test_basis

-- The rules of the request's mode.
unfoldable pub validate_mode : (Text → Bool) → (ℕ → String) → SubmitRequest → List String
unfolding v2_mode locator_mode validate_v2 validate_locator validate_inline
validate_mode is_stamp print r =
    if v2_mode r
    then validate_v2 is_stamp r
    else if locator_mode r
    then validate_locator is_stamp r
    else validate_inline print r

unfoldable pub validate : (Text → Bool) → (ℕ → String) → SubmitRequest → List String
unfolding text_eq text validate_mode
validate is_stamp print r =
    flag (not (text_eq r.contract_id (text "mitigation-check@1.0"))) "contract_id"
    ++ validate_mode is_stamp print r
