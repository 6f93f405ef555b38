-- ===== src/Api/Submission.antt =====
-- `SubmitMitigationCheckRequest` of api/main.go, `normalizeRequestDefaults` of api/lifecycle.go and
-- `parseUpstreamInputs` of api/executor_upstream.go.
use test_miti_check.Prelude.{Bool, Option, none, some, List, [], ◌∷◌, if◌then◌else◌}
use test_miti_check.Prelude.Text.{Text, text, is_empty}
use test_miti_check.Prelude.Text.Numbers.{pos}
use test_miti_check.Request.{
  Raw, missing, garbled, value, CandidateSpec, TestBasisSpec, TestRequest, TestExpected,
}
use test_miti_check.Firewall.Rule.{Connection}
use test_miti_check.Firewall.Verdict.{FirewallTestBasis}
use test_miti_check.Api.Locator.{Locator, UpstreamRef}

-- The members of the JSON object `test_basis` that some part of the program reads.
pub record BasisDocument : Type 0 where
  pub kind : Text
  pub proof_basis : Text
  pub request : Option TestRequest
  pub connection : Option Connection
  pub expected : TestExpected

pub record SubstrateDocument : Type 0 where
  pub kind : Text
  pub image : Text

pub record UpstreamInput : Type 0 where
  pub capability : Text
  pub contract_id : Text
  pub result_id : Text
  pub result_ref : UpstreamRef
  pub evidence_refs : List Text

-- `is_enveloped` is whether one of the other members of a defense-generation result is present.
pub record SubmitRequest : Type 0 where
  pub contract_id : Text
  pub request_id : Text
  pub correlation_id : Text
  pub candidate_artifact_id : Text
  pub test_basis_id : Text
  pub check_profile_id : Text
  pub substrate_selector : Text
  pub substrate : Raw SubstrateDocument
  pub candidate : Raw CandidateSpec
  pub test_basis : Raw BasisDocument
  pub execution_mode : Text
  pub route_policy : Text
  pub profile_id : Text
  pub defense_result : Option Locator
  pub check_result : Option Locator
  pub upstream_inputs : Raw (List UpstreamInput)
  pub is_enveloped : Bool
  pub has_callback : Bool

abbrev pub no_request : TestRequest
no_request = record { method = []; path = []; headers = []; body = [] }

abbrev pub no_connection : Connection
no_connection = record { protocol = []; src_ip = []; dst_ip = []; dst_port = pos 0 }

abbrev pub or_else {ℓ} : {A : Type ℓ} → Option A → A → A
or_else none d = d
or_else (some a) d = a

-- `json.Unmarshal` of the object into `TestBasisSpec` and into `FirewallTestBasis`: a member that
-- is absent leaves the zero value, and one that the struct does not have is dropped.
abbrev pub as_basis : BasisDocument → TestBasisSpec
as_basis d = record {
  kind = d.kind;
  proof_basis = d.proof_basis;
  request = or_else d.request no_request;
  expected = d.expected;
}

abbrev pub as_firewall : BasisDocument → FirewallTestBasis
as_firewall d = record {
  kind = d.kind;
  proof_basis = d.proof_basis;
  connection = or_else d.connection no_connection;
  expected = d.expected;
}

-- `json.Marshal` of a `TestBasisSpec`.
abbrev pub basis_document : TestBasisSpec → BasisDocument
basis_document b = record {
  kind = b.kind;
  proof_basis = b.proof_basis;
  request = some b.request;
  connection = none;
  expected = b.expected;
}

abbrev pub or_text : Text → Text → Text
or_text s d = if is_empty s then d else s

unfoldable pub default_request : TestRequest → TestRequest
unfolding text
default_request r = record r {
  method = or_text r.method (text "GET");
  path = or_text r.path (text "/");
}

unfoldable pub normalize_basis : Raw BasisDocument → Raw BasisDocument
unfolding default_request
normalize_basis missing = missing
normalize_basis garbled = garbled
normalize_basis (value d) =
    let b = as_basis d in value (basis_document (record b { request = default_request b.request }))

unfoldable pub normalize_request_defaults : SubmitRequest → SubmitRequest
unfolding normalize_basis text
normalize_request_defaults r = record r {
  execution_mode = or_text r.execution_mode (text "inmemory");
  test_basis = normalize_basis r.test_basis;
}

-- An error is `none`.
unfoldable pub parse_upstream_inputs : Raw (List UpstreamInput) → Option (List UpstreamInput)
parse_upstream_inputs (value (e ∷ entries)) = some (e ∷ entries)
parse_upstream_inputs _ = none
