-- ===== src/Api/Submit.antt =====
-- `handleAsyncSubmit` and `submissionFrom` of api/lifecycle.go, and `decodeRequest` of api/main.go.
-- `mime.ParseMediaType`, the marshalling and hashing of `normalizedRequest`, the clock and the
-- fresh ids are parameters.
use Prim.Native.String
use test_miti_check.Prelude.{
  ℕ, String, Bool, true, false, Option, none, some, List, [], ◌∷◌, ◌&&◌, ◌||◌, not, ◌==◌,
  if◌then◌else◌,
}
use test_miti_check.Prelude.Text.{Text, text, text_eq, is_empty, trim_space}
use test_miti_check.Prelude.Text.Strings.{string}
use test_miti_check.Canonical.{Codec}
use test_miti_check.Ledger.Row.{Row, Status, is_terminal}
use test_miti_check.Ledger.Durable.{DurableRun}
use test_miti_check.Ledger.Store.{NewRun, create_or_get}
use test_miti_check.Callback.Metadata
use test_miti_check.Callback.Metadata.{
  CallbackMetadata, CallbackError, Url, accepted, refused, metadata_from_headers,
}
use test_miti_check.Api.Submission.{SubmitRequest, normalize_request_defaults, or_text}
use test_miti_check.Api.Validate.{validate}

-- The headers as the client gives them; `media_type` is what `mime.ParseMediaType` answers.
pub record Headers : Type 0 where
  pub media_type : Option Text
  pub idempotency_key : Text
  pub correlation_id : Text
  pub callback_url : Text
  pub callback_workflow_id : Text
  pub callback_signal : Text

-- The body as it reads and decodes.
pub data Body : Type 0 where
  too_large unreadable blank_body unknown_field not_json trailing : Body
  document : SubmitRequest → Body

-- The codes of the errors that the handlers write.
pub data Code : Type 0 where
  unsupported_media_type missing_required_header invalid_request request_identity_mismatch
        invalid_callback_location ledger_unavailable idempotency_conflict
        idempotency_callback_conflict :
      Code
  callback : CallbackError → Code

pub record SubmissionResponse : Type 0 where
  pub request_id : String
  pub correlation_id : String
  pub run_id : String
  pub status : Status
  pub status_url : String
  pub result_url : String
  pub accepted_at : ℕ

pub data Answer : Type 0 where
  error : ℕ → Code → Bool → Answer
  submission : ℕ → SubmissionResponse → Answer

abbrev pub decode_request : Body → Option SubmitRequest
decode_request (document r) = some r
decode_request _ = none

pub record Server : Type 0 where
  pub codec : Codec
  pub allowed_hosts : Text
  pub parse_url : Text → Option Url
  pub is_stamp : Text → Bool
  pub print : ℕ → String
  pub normalized : SubmitRequest → Option (String × String)

-- What a call finds: the clock, the two fresh ids, and whether the database fails.
pub record Moment : Type 0 where
  pub now : ℕ
  pub run_key : String
  pub result_key : String
  pub down : Bool

unfoldable pub submission_from : DurableRun → SubmissionResponse
submission_from run =
    let s = run.run_status in
    let url = String.◌++◌ "/v1/mitigation-check-runs/" s.run_id in
    record {
      request_id = s.request_id;
      correlation_id = s.correlation_id;
      run_id = s.run_id;
      status = s.status;
      status_url = url;
      result_url = String.◌++◌ url "/result";
      accepted_at = s.created_at;
    }

-- The zero `CallbackMetadata` where there is no callback.
abbrev pub metadata : Option CallbackMetadata → CallbackMetadata
metadata none = record { url = []; workflow_id = []; signal = [] }
metadata (some m) = m

unfoldable pub new_run : Moment → SubmitRequest → CallbackMetadata → String → String → NewRun
unfolding string
new_run at r m request digest =
    let id = String.◌++◌ "mc-run-" at.run_key in
    record {
      run_id = id;
      result_id = String.◌++◌ "mitigation-check-result:" at.result_key;
      created_at = at.now;
      request = request;
      request_id = string r.request_id;
      correlation_id = string r.correlation_id;
      request_digest = digest;
      callback_url = string m.url;
      callback_workflow_id = string m.workflow_id;
      callback_signal = string m.signal;
      callback_event_id =
          if is_empty m.url
          then ""
          else String.◌++◌ "mitigation-check:" (String.◌++◌ id ":terminal:v1");
    }

abbrev pub same_callback : DurableRun → NewRun → Bool
same_callback s n =
    s.callback_url == n.callback_url
    && s.callback_workflow_id == n.callback_workflow_id
    && s.callback_signal == n.callback_signal

abbrev pub success_code : Bool → Status → ℕ
success_code created s = if not created && is_terminal s then 200 else 202

-- The answer on the run that the ledger holds for the request.
unfoldable pub answer_of : NewRun → DurableRun → Bool → Answer
unfolding submission_from
answer_of n stored created =
    if not (stored.request_digest == n.request_digest)
    then error 409 idempotency_conflict false
    else if not (same_callback stored n)
    then error 409 idempotency_callback_conflict false
    else submission (success_code created stored.run_status.status) (submission_from stored)

-- From the answer of the ledger on.
unfoldable pub respond :
    NewRun → List Row → Option (List Row × DurableRun × Bool) → List Row × Answer
unfolding answer_of
respond n rows none = (rows, error 500 ledger_unavailable true)
respond n rows (some (rows', stored, created)) = (rows', answer_of n stored created)

-- The identities of the request, taken from the headers where the body has none.
abbrev pub identify : Text → Text → SubmitRequest → SubmitRequest
identify key correlation r = record r {
  request_id = or_text r.request_id key;
  correlation_id = or_text r.correlation_id correlation;
}

-- An early return, where the test is true.
unfoldable pub refuse_if : Bool → ℕ → Code → List Row → List Row × Answer → List Row × Answer
refuse_if b status code rows next = if b then (rows, error status code false) else next

abbrev pub is_nil : List String → Bool
is_nil [] = true
is_nil (s ∷ l) = false

unfoldable pub is_json : Option Text → Bool
unfolding text_eq text
is_json none = false
is_json (some t) = text_eq t (text "application/json")

module _ (server : Server) where
  unfoldable pub store_as :
      Moment
      → SubmitRequest
      → CallbackMetadata
      → List Row
      → Option (String × String)
      → List Row × Answer
  unfolding respond new_run create_or_get
  store_as at r m rows none = (rows, error 400 invalid_request false)
  store_as at r m rows (some (request, digest)) =
      let n = new_run at r m request digest in
      respond n rows (if at.down then none else create_or_get server.codec n rows)

  unfoldable pub store_run :
      Moment → SubmitRequest → CallbackMetadata → List Row → List Row × Answer
  unfolding store_as
  store_run at r m rows = store_as at r m rows (server.normalized r)

  -- The checks of the decoded request.
  unfoldable pub submit_request :
      Moment → Text → Text → CallbackMetadata → SubmitRequest → List Row → List Row × Answer
  unfolding refuse_if store_run validate normalize_request_defaults text_eq
  submit_request at key correlation m given rows =
      let r = normalize_request_defaults (identify key correlation given) in
      refuse_if (not (text_eq r.request_id key) || not (text_eq r.correlation_id correlation)) 400
        request_identity_mismatch rows
        (refuse_if (not (is_nil (validate server.is_stamp server.print r))) 400 invalid_request rows
          (refuse_if r.has_callback 400 invalid_callback_location rows (store_run at r m rows)))

  unfoldable pub submit_body :
      Moment → Text → Text → CallbackMetadata → Option SubmitRequest → List Row → List Row × Answer
  unfolding submit_request
  submit_body at key correlation m none rows = (rows, error 400 invalid_request false)
  submit_body at key correlation m (some r) rows = submit_request at key correlation m r rows

  unfoldable pub submit_called_back :
      Moment → Text → Text → Metadata.Answer → Body → List Row → List Row × Answer
  unfolding submit_body
  submit_called_back at key correlation (refused e) body rows = (rows, error 400 (callback e) false)
  submit_called_back at key correlation (accepted m) body rows =
      submit_body at key correlation (metadata m) (decode_request body) rows

  unfoldable pub handle_async_submit : Moment → Headers → Body → List Row → List Row × Answer
  unfolding refuse_if submit_called_back metadata_from_headers trim_space is_json
  handle_async_submit at h body rows =
      let key = trim_space h.idempotency_key in
      let correlation = trim_space h.correlation_id in
      let given =
        metadata_from_headers server.parse_url h.callback_url h.callback_workflow_id
          h.callback_signal server.allowed_hosts in
      refuse_if (not (is_json h.media_type)) 415 unsupported_media_type rows (
        refuse_if (is_empty key || is_empty correlation) 400 missing_required_header rows
          (submit_called_back at key correlation given body rows))
