-- ===== src/Ledger/Durable.antt =====
-- `DurableRun` and `getDurable` of api/lifecycle_store.go: a row as the service reads it.
use Prim.Native.String.{len}
use test_miti_check.Prelude.{
  ℕ, String, Bool, Option, none, some, List, ◌==◌, eqb, if◌then◌else◌, coalesce, find,
}
use test_miti_check.Outcome.{TerminalState, unset, RunOutcome}
use test_miti_check.Canonical.{Codec}
use test_miti_check.Ledger.Row.{
  Row, Status, completed, RunFailure, Progress, Completion, Response, empty_object, document,
}
use test_miti_check.Ledger.Statement.{completion_of}

pub record RunStatus : Type 0 where
  pub request_id : String
  pub correlation_id : String
  pub run_id : String
  pub status : Status
  pub terminal_state : Option TerminalState
  pub result_id : Option String
  pub created_at : ℕ
  pub started_at : Option ℕ
  pub updated_at : ℕ
  pub completed_at : Option ℕ
  pub progress : Progress
  pub failure : Option RunFailure
  pub completion : Option Completion

pub record DurableRun : Type 0 where
  pub run_status : RunStatus
  pub request : String
  pub request_digest : String
  pub result : Option RunOutcome
  pub result_payload : String
  pub publication_pending : Bool
  pub verification_attempt : ℕ
  pub publication_retry_at : Option ℕ
  pub worker_id : String
  pub lease_token : String
  pub attempt : ℕ
  pub cancel_requested : Bool
  pub callback_url : String
  pub callback_workflow_id : String
  pub callback_signal : String
  pub callback_event_id : String

-- NULLIF(terminal_state,'') and NULLIF(result_id,'').
abbrev state_of : TerminalState → Option TerminalState
state_of unset = none
state_of t = some t

abbrev text_of : String → Option String
text_of s = if s == "" then none else some s

abbrev result_of_response : Codec → Response → Option RunOutcome
result_of_response codec empty_object = none
result_of_response codec (document d) = codec.unmarshal d

-- The projection is decoded from the exact payload, and only without one from the JSONB column.
unfoldable pub result_of : Codec → Option String → Response → Option RunOutcome
result_of codec none response = result_of_response codec response
result_of codec (some payload) response =
    if eqb (len payload) 0 then result_of_response codec response else codec.unmarshal payload

-- `setCompletion`.
unfoldable pub completion_for :
    Status → String → String → String → Option RunOutcome → Option Completion
completion_for completed request_id correlation_id run_id (some out) =
    some (record (completion_of out) {
      request_id = request_id;
      correlation_id = correlation_id;
      run_id = run_id;
    })
completion_for _ _ _ _ _ = none

module _ (codec : Codec) where
  unfoldable pub durable : Row → DurableRun
  unfolding result_of completion_for
  durable r =
      let result = result_of codec r.result_payload r.response in
      record {
        run_status = record {
          request_id = r.request_id;
          correlation_id = r.correlation_id;
          run_id = r.run_id;
          status = r.status;
          terminal_state = state_of r.terminal_state;
          result_id = text_of r.result_id;
          created_at = r.created_at;
          started_at = r.started_at;
          updated_at = r.updated_at;
          completed_at = r.completed_at;
          progress = r.progress;
          failure = r.failure;
          completion = completion_for r.status r.request_id r.correlation_id r.run_id result;
        };
        request = r.request;
        request_digest = r.request_digest;
        result = result;
        result_payload = coalesce r.result_payload "";
        publication_pending = r.publication_pending;
        verification_attempt = r.verification_attempt;
        publication_retry_at = r.publication_retry_at;
        worker_id = coalesce r.worker_id "";
        lease_token = coalesce r.lease_token "";
        attempt = r.attempt;
        cancel_requested = r.cancel_requested;
        callback_url = coalesce r.callback.url "";
        callback_workflow_id = coalesce r.callback.workflow_id "";
        callback_signal = coalesce r.callback.signal "";
        callback_event_id = coalesce r.callback.event_id "";
      }

  -- `GetDurable`, and the same read by request id; `none` is sql.ErrNoRows.
  unfoldable pub get_durable : String → List Row → Option DurableRun
  get_durable id rows = elim (find (λ r. r.run_id == id) rows) [
    | none ↦ none
    | some r ↦ some (durable r)
  ]

  unfoldable pub get_by_request : String → List Row → Option DurableRun
  get_by_request request_id rows = elim (find (λ r. r.request_id == request_id) rows) [
    | none ↦ none
    | some r ↦ some (durable r)
  ]

  -- `GetStatus` reads the completion column instead of the result.
  unfoldable pub get_status : String → List Row → Option RunStatus
  unfolding durable
  get_status id rows = elim (find (λ r. r.run_id == id) rows) [
    | none ↦ none
    | some r ↦ some (record ((durable r).run_status) { completion = r.completion })
  ]
