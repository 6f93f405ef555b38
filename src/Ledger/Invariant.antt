-- ===== src/Ledger/Invariant.antt =====
-- What holds of every row between two statements.
use test_miti_check.Prelude.{ℕ, true, false, none, some, ◌≡◌, ◌≢◌, ◌⊎◌, arith, is_some}
use test_miti_check.Outcome.{malfunction, canceled_run}
use test_miti_check.Ledger.Row.{
  Row, queued, completed, failed, canceled, waiting, is_terminal, is_running,
}
use test_miti_check.Ledger.Statement.{apply}
use test_miti_check.Ledger.Operation.{
  Operation, lease, heartbeat, update_progress, stage, complete, fail, fail_outcome, fail_exhausted,
  recover_canceled, cancel, mark_canceled, mark_pending, retry_verification, fail_conflict,
  claim_callback, callback_succeeded, callback_failed, callback_unconfigured, statement,
}

pub record IsSound (r : Row) : Type 0 where
  pub leased : is_some r.lease_token ≡ is_running r.status
  pub worked : is_some r.worker_id ≡ is_running r.status
  pub expires : is_some r.lease_expires_at ≡ is_running r.status
  pub finished : is_some r.completed_at ≡ is_terminal r.status
  pub failed_reason :
      r.status ≡ failed → (is_some r.failure ≡ true) × (r.terminal_state ≡ malfunction)
  pub no_failure : r.status ≢ failed → r.failure ≡ none
  pub canceled_reason :
      r.status ≡ canceled → (r.cancel_requested ≡ true) × (r.terminal_state ≡ canceled_run)
  pub completed_result :
      r.status ≡ completed → (is_some r.completion ≡ true) × (is_some r.result_payload ≡ true)
  pub no_completion : r.status ≢ completed → r.completion ≡ none
  pub outbox_closed :
      is_some r.callback.url ≡ true → is_terminal r.status ≡ false → r.callback.state ≡ some waiting
  pub outbox_open :
      is_some r.callback.url ≡ true → is_terminal r.status ≡ true → r.callback.state ≢ some waiting
  pub no_callback : is_some r.callback.url ≡ false → r.callback.state ≡ none
  pub cut_queue : r.status ≡ queued → r.cancel_requested ≡ true → r.publication_pending ≡ true
  pub retry_queue :
      is_some r.publication_retry_at ≡ true → (r.status ≡ queued) × (r.publication_pending ≡ true)
  pub settled : (r.status ≡ completed) ⊎ (r.status ≡ canceled) → r.publication_pending ≡ false

-- Every operation, on any row, keeps the invariant.
pub apply-IsSound :
    (now : ℕ) (op : Operation) (r : Row) → IsSound r → IsSound (apply (statement now op) r)
unfolding apply statement
apply-IsSound now (lease c d m) r h = ground arith
apply-IsSound now (heartbeat c d) r h = ground arith
apply-IsSound now (update_progress c p m) r h = ground arith
apply-IsSound now (stage c o p) r h = ground arith
apply-IsSound now (complete c o p) r h = ground arith
apply-IsSound now (fail c f) r h = ground arith
apply-IsSound now (fail_outcome c o p f) r h = ground arith
apply-IsSound now (fail_exhausted m) r h = ground arith
apply-IsSound now recover_canceled r h = ground arith
apply-IsSound now (cancel i) r h = ground arith
apply-IsSound now (mark_canceled c) r h = ground arith
apply-IsSound now (mark_pending c) r h = ground arith
apply-IsSound now (retry_verification c m d f) r h = ground arith
apply-IsSound now (fail_conflict c f) r h = ground arith
apply-IsSound now (claim_callback i t d) r h = ground arith
apply-IsSound now (callback_succeeded i t) r h = ground arith
apply-IsSound now (callback_failed i t d e) r h = ground arith
apply-IsSound now (callback_unconfigured i t e) r h = ground arith
