-- ===== src/Ledger/Operation.antt =====
-- The operations of the ledger on a stored row, one for each method of `RunStore` in
-- api/lifecycle_store.go that writes, and the statement that each executes.
use test_miti_check.Prelude.{ℕ, String, Bool, ◌&&◌, ◌||◌, not, ltb, leb, is_due, coalesce}
use test_miti_check.Outcome.{RunOutcome}
use test_miti_check.Ledger.Row.{Row, RunFailure, is_queued, is_running, is_empty}
use test_miti_check.Ledger.Statement.{
  Statement, lease_selected, heartbeat_update, progress_update, stage_update, complete_update,
}
use test_miti_check.Ledger.Transition.{
  fail_update, fail_outcome_update, fail_exhausted_update, recover_canceled_update, cancel_update,
  mark_canceled_update, mark_pending_update, retry_verification_update, fail_conflict_update,
}
use test_miti_check.Ledger.Outbox.{
  claimable, claim_update, succeeded_update, failed_update, configuration_failed_update,
}

-- A claim on a run: its id, the worker and the lease token that the worker was given.
pub record Claim : Type 0 where
  pub id : String
  pub worker : String
  pub token : String

pub data Operation : Type 0 where
  lease : Claim → ℕ → ℕ → Operation
  heartbeat : Claim → ℕ → Operation
  update_progress : Claim → String → String → Operation
  stage : Claim → RunOutcome → String → Operation
  complete : Claim → RunOutcome → String → Operation
  fail : Claim → RunFailure → Operation
  fail_outcome : Claim → RunOutcome → String → RunFailure → Operation
  fail_exhausted : ℕ → Operation
  recover_canceled : Operation
  cancel : String → Operation
  mark_canceled : Claim → Operation
  mark_pending : Claim → Operation
  retry_verification : Claim → ℕ → ℕ → RunFailure → Operation
  fail_conflict : Claim → RunFailure → Operation
  claim_callback : String → String → ℕ → Operation
  callback_succeeded : String → String → Operation
  callback_failed : String → String → ℕ → String → Operation
  callback_unconfigured : String → String → String → Operation

-- The WHERE clause by which `LeaseNext` chooses a row.
abbrev pub leasable : ℕ → ℕ → Row → Bool
leasable now max_attempts r =
    (not r.cancel_requested || r.publication_pending)
    && (ltb r.attempt max_attempts || not (is_empty r.response))
    && leb (coalesce r.publication_retry_at r.created_at) now
    && (is_queued r.status || (is_running r.status && is_due r.lease_expires_at now))

-- A SELECT ... FOR UPDATE and the UPDATE of the same transaction, as one statement.
unfoldable pub restrict : (Row → Bool) → Statement → Statement
restrict chosen s = record { guard = λ r. chosen r && s.guard r; assign = s.assign }

unfoldable pub statement : ℕ → Operation → Statement
unfolding restrict lease_selected heartbeat_update progress_update stage_update complete_update
    fail_update fail_outcome_update fail_exhausted_update recover_canceled_update cancel_update
    mark_canceled_update mark_pending_update retry_verification_update fail_conflict_update
    claim_update succeeded_update failed_update configuration_failed_update
statement now (lease c duration max_attempts) =
    restrict (leasable now max_attempts) (lease_selected now c.id c.worker c.token duration)
statement now (heartbeat c duration) = heartbeat_update now c.id c.worker c.token duration
statement now (update_progress c phase message) =
    progress_update now c.id c.worker c.token phase message
statement now (stage c out payload) = stage_update now c.id c.worker c.token out payload
statement now (complete c out payload) = complete_update now c.id c.worker c.token out payload
statement now (fail c f) = fail_update now c.id c.worker c.token f
statement now (fail_outcome c out result f) =
    fail_outcome_update now c.id c.worker c.token out result f
statement now (fail_exhausted max_attempts) = fail_exhausted_update now max_attempts
statement now recover_canceled = recover_canceled_update now
statement now (cancel id) = cancel_update now id
statement now (mark_canceled c) = mark_canceled_update now c.id c.worker c.token
statement now (mark_pending c) = mark_pending_update now c.id c.worker c.token
statement now (retry_verification c max_attempts delay f) =
    retry_verification_update now c.id c.worker c.token max_attempts delay f
statement now (fail_conflict c f) = fail_conflict_update now c.id c.worker c.token f
statement now (claim_callback id token duration) =
    restrict (claimable now) (claim_update now id token duration)
statement now (callback_succeeded id token) = succeeded_update now id token
statement now (callback_failed id token delay reason) = failed_update now id token delay reason
statement now (callback_unconfigured id token reason) =
    configuration_failed_update now id token reason
