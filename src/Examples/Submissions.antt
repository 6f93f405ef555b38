-- ===== src/Examples/Submissions.antt =====
-- Concrete submissions.
use test_miti_check.Prelude.{ℕ, true, false, none, some, List, [], ◌∷◌, ◌≡◌, ◌⊎◌, refl}
use test_miti_check.Prelude.Text.{Text, text}
use test_miti_check.Request.{value, missing}
use test_miti_check.Ledger.Row.{Row, queued}
use test_miti_check.Ledger.Durable.{durable, get_by_request}
use test_miti_check.Ledger.Store.{row_of}
use test_miti_check.Api.Locator.{Locator, check_generation, valid_locator, valid_check_locator}
use test_miti_check.Api.Submission.{SubmitRequest, BasisDocument}
use test_miti_check.Api.Validate.{validate, v2_mode, locator_mode}
use test_miti_check.Api.Accepted.{by_locator, IsReferenceOnly, validate-IsReferenceOnly}
use test_miti_check.Api.Submit.{
  Server, Headers, Moment, SubmissionResponse, document, submission, handle_async_submit,
}
use test_miti_check.Api.Answers.{handle_async_submit-Again}
use test_miti_check.Examples.Codecs.{codec}
use test_miti_check.Examples.Ledgers.{queued_row}
use test_miti_check.Examples.Services.{candidate, connection, parse_url}

abbrev server : Server
server = record {
  codec = codec;
  allowed_hosts = [];
  parse_url = parse_url;
  is_stamp = λ s. true;
  print = λ n. "0";
  normalized = λ r. some ("{}", "sha256:request");
}

abbrev headers : Headers
headers = record {
  media_type = some (text "application/json");
  idempotency_key = text "request-1";
  correlation_id = text "correlation-1";
  callback_url = [];
  callback_workflow_id = [];
  callback_signal = [];
}

abbrev inline_request : SubmitRequest
inline_request = record {
  contract_id = text "mitigation-check@1.0";
  request_id = [];
  correlation_id = [];
  candidate_artifact_id = text "candidate-1";
  test_basis_id = text "basis-1";
  check_profile_id = text "profile-1";
  substrate_selector = [];
  substrate = missing;
  candidate = value candidate;
  test_basis = missing;
  execution_mode = [];
  route_policy = [];
  profile_id = [];
  defense_result = none;
  check_result = none;
  upstream_inputs = missing;
  is_enveloped = false;
  has_callback = false;
}

abbrev moment : Moment
moment = record { now = 1; run_key = "1"; result_key = "1"; down = false }

abbrev later_moment : Moment
later_moment = record { now = 9; run_key = "2"; result_key = "2"; down = false }

abbrev response : SubmissionResponse
response = record {
  request_id = "request-1";
  correlation_id = "correlation-1";
  run_id = "mc-run-1";
  status = queued;
  status_url = "/v1/mitigation-check-runs/mc-run-1";
  result_url = "/v1/mitigation-check-runs/mc-run-1/result";
  accepted_at = 1;
}

abbrev stored : List Row
stored =
    record queued_row {
      callback = record (queued_row.callback) {
        url = none;
        workflow_id = none;
        signal = none;
        event_id = none;
        state = none;
      };
    }
    ∷ []

submits :
    handle_async_submit server moment headers (document inline_request) []
    ≡ (stored, submission 202 response)
unfolding handle_async_submit text get_by_request row_of durable
submits = refl

resubmit_example :
    (k : ℕ) × (handle_async_submit server later_moment headers (document inline_request) stored
      ≡ (stored, submission k response))
resubmit_example =
    handle_async_submit-Again server moment later_moment refl headers (document inline_request) []
      stored 202 response submits

abbrev submitted_basis : BasisDocument
submitted_basis = record {
  kind = text "firewall";
  proof_basis = text "verified-vuln-artifact";
  request = none;
  connection = none;
  expected = record { classification = []; blocked = some true; status_code = 0 };
}

abbrev digest : Text
digest = text "sha256:0123456789abcdef0123456789abcdef0123456789abcdef0123456789abcdef"

abbrev defense : Locator
defense = record {
  capability = text "defense-generation";
  contract_id = text "defense-generation-result@1.0";
  request_id = text "request-d";
  correlation_id = text "correlation-1";
  run_id = text "run-d";
  result_id = text "defense-generation-result:d";
  status = text "completed";
  terminal_state = text "candidate-produced";
  result_ref = record {
    system = text "databricks";
    catalog = text "36889_janus_dev";
    schema = text "defense_generation";
    table = text "defense_generation_results";
    key = text "defense-generation-result:d";
  };
  content_sha256 = digest;
  size_bytes = 10;
  created_at = text "2026-01-01T00:00:00Z";
}

abbrev check : Locator
check = record {
  capability = text "check-generation";
  contract_id = text "check-generation-result@1.0";
  request_id = text "request-c";
  correlation_id = text "correlation-1";
  run_id = text "run-c";
  result_id = text "check-generation-result:run-c";
  status = text "completed";
  terminal_state = text "completed";
  result_ref = record {
    system = text "databricks";
    catalog = text "36889_janus_dev";
    schema = text "check_generation";
    table = text "check_generation_results";
    key = text "check-generation-result:run-c";
  };
  content_sha256 = digest;
  size_bytes = 10;
  created_at = text "2026-01-01T00:00:00Z";
}

abbrev reference_request : SubmitRequest
reference_request = record inline_request {
  correlation_id = text "correlation-1";
  candidate_artifact_id = [];
  check_profile_id = [];
  candidate = missing;
  route_policy = text "registered-waf-route-v1";
  defense_result = some defense;
  check_result = some check;
}

by_locators : by_locator reference_request ≡ true
unfolding v2_mode locator_mode text
by_locators = refl

valid_reference : validate server.is_stamp server.print reference_request ≡ []
unfolding validate text
valid_reference = refl

reference_example :
    IsReferenceOnly server.is_stamp (valid_check_locator server.is_stamp) reference_request
    ⊎ IsReferenceOnly server.is_stamp
        (valid_locator server.is_stamp check_generation)
        reference_request
reference_example =
    validate-IsReferenceOnly server.is_stamp server.print reference_request by_locators
      valid_reference
