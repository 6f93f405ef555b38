-- ===== src/Ledger/Row.antt =====
-- A row of the table `mitigation_check_run`, with the columns of api/lifecycle_store.go and the
-- values of its text columns as data types. Time stamps are numbers.
use test_miti_check.Prelude.{ℕ, String, Bool, true, false, Option, some, List}
use test_miti_check.Outcome.{TerminalState, ResultRef}

-- The five `status…` constants.
pub data Status : Type 0 where
  queued running completed failed canceled : Status

-- The values of `callback_state`.
pub data CallbackState : Type 0 where
  waiting pending delivering retry delivered configuration_failed : CallbackState

pub record RunFailure : Type 0 where
  pub code : String
  pub detail : String
  pub retryable : Bool

pub record Progress : Type 0 where
  pub phase : String
  pub message : String

pub record Completion : Type 0 where
  pub request_id : String
  pub correlation_id : String
  pub run_id : String
  pub result_id : String
  pub terminal_state : TerminalState
  pub result_ref : Option ResultRef
  pub evidence_refs : List String
  pub content_sha256 : String
  pub size_bytes : ℕ
  pub created_at : ℕ

-- The column `response`: the empty object with which a run is created, or a marshalled outcome.
pub data Response : Type 0 where
  empty_object : Response
  document : String → Response

-- `CallbackURL` and the two other headers, as columns; NULL where the run has no callback.
pub record Callback : Type 0 where
  pub url : Option String
  pub workflow_id : Option String
  pub signal : Option String
  pub event_id : Option String
  pub state : Option CallbackState
  pub attempt : ℕ
  pub next_at : Option ℕ
  pub delivered_at : Option ℕ
  pub configuration_failed_at : Option ℕ
  pub last_error : Option String
  pub lease_token : Option String
  pub lease_expires_at : Option ℕ

pub record Row : Type 0 where
  pub run_id : String
  pub result_id : String
  pub terminal_state : TerminalState
  pub is_match : Bool
  pub created_at : ℕ
  pub request : String
  pub response : Response
  pub request_id : String
  pub correlation_id : String
  pub request_digest : String
  pub status : Status
  pub updated_at : ℕ
  pub started_at : Option ℕ
  pub completed_at : Option ℕ
  pub progress : Progress
  pub failure : Option RunFailure
  pub completion : Option Completion
  pub worker_id : Option String
  pub lease_token : Option String
  pub lease_expires_at : Option ℕ
  pub attempt : ℕ
  pub last_heartbeat : Option ℕ
  pub cancel_requested : Bool
  pub publication_pending : Bool
  pub result_payload : Option String
  pub verification_attempt : ℕ
  pub publication_retry_at : Option ℕ
  pub callback : Callback

abbrev pub is_queued : Status → Bool
is_queued queued = true
is_queued _ = false

abbrev pub is_running : Status → Bool
is_running running = true
is_running _ = false

-- `terminalStatus` of api/lifecycle.go.
abbrev pub is_terminal : Status → Bool
is_terminal completed = true
is_terminal failed = true
is_terminal canceled = true
is_terminal _ = false

abbrev pub is_empty : Response → Bool
is_empty empty_object = true
is_empty (document d) = false

-- `callback_state IN ('pending','retry','delivering')`.
abbrev pub is_deliverable : Option CallbackState → Bool
is_deliverable (some pending) = true
is_deliverable (some retry) = true
is_deliverable (some delivering) = true
is_deliverable _ = false

abbrev pub is_delivering : Option CallbackState → Bool
is_delivering (some delivering) = true
is_delivering _ = false
