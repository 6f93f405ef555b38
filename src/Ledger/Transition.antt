-- ===== src/Ledger/Transition.antt =====
-- The statements of api/lifecycle_store.go that fail, cancel, or hold back a run: `Fail` to
-- `FailPublicationConflict`.
use test_miti_check.Prelude.{
  ℕ, ◌+◌, String, true, false, none, some, ◌&&◌, not, leb, ◌==◌, if◌then◌else◌, is_due,
}
use test_miti_check.Outcome.{RunOutcome, unset, malfunction, canceled_run}
use test_miti_check.Ledger.Row.{
  queued, failed, canceled, RunFailure, document, is_queued, is_running, is_empty,
}
use test_miti_check.Ledger.Statement.{Statement, owns, lease_live, wake, release, progress}

module _ (now : ℕ) where
  unfoldable pub fail_update : String → String → String → RunFailure → Statement
  fail_update id worker token f = record {
    guard = λ r. owns id worker token r && lease_live now r;
    assign = λ r. record (release r) {
      status = failed;
      terminal_state = malfunction;
      failure = some f;
      completed_at = some now;
      updated_at = now;
      progress = progress "failed" f.detail;
      callback = wake now r.callback;
    };
  }

  -- `result` is the marshalled outcome.
  unfoldable pub fail_outcome_update :
      String → String → String → RunOutcome → String → RunFailure → Statement
  fail_outcome_update id worker token out result f = record {
    guard = λ r. owns id worker token r && not r.cancel_requested && lease_live now r;
    assign = λ r. record (release r) {
      status = failed;
      terminal_state = malfunction;
      is_match = out.is_match;
      response = document result;
      failure = some f;
      completed_at = some now;
      updated_at = now;
      progress = progress "failed" f.detail;
      callback = wake now r.callback;
    };
  }

  abbrev pub attempts_exhausted : RunFailure
  attempts_exhausted = record {
    code = "worker_attempts_exhausted";
    detail = "Worker lease expired and the attempt limit was reached";
    retryable = false;
  }

  unfoldable pub fail_exhausted_update : ℕ → Statement
  fail_exhausted_update max_attempts = record {
    guard = λ r.
        is_running r.status
        && not r.cancel_requested
        && is_empty r.response
        && is_due r.lease_expires_at now
        && leb max_attempts r.attempt;
    assign = λ r. record (release r) {
      status = failed;
      terminal_state = malfunction;
      failure = some attempts_exhausted;
      completed_at = some now;
      updated_at = now;
      progress = progress "failed" "Worker attempt limit reached";
      callback = wake now r.callback;
    };
  }

  unfoldable pub recover_canceled_update : Statement
  recover_canceled_update = record {
    guard = λ r.
        is_running r.status
        && r.cancel_requested
        && not r.publication_pending
        && is_due r.lease_expires_at now;
    assign = λ r. record (release r) {
      status = canceled;
      terminal_state = canceled_run;
      completed_at = some now;
      updated_at = now;
      progress = progress "canceled" "Cancellation recovered after worker lease expiry";
      publication_pending = false;
      callback = wake now r.callback;
    };
  }

  unfoldable pub cancel_update : String → Statement
  cancel_update id = record {
    guard = λ r. r.run_id == id && (if is_queued r.status then true else is_running r.status);
    assign = λ r.
        let at_once = is_queued r.status && not r.publication_pending in
        record r {
          cancel_requested = true;
          status = if at_once then canceled else r.status;
          terminal_state = if at_once then canceled_run else r.terminal_state;
          completed_at = if at_once then some now else r.completed_at;
          updated_at = now;
          callback = if at_once then wake now r.callback else r.callback;
          progress =
              if at_once
              then progress "canceled" "Canceled before execution"
              else if r.publication_pending
              then progress "verifying"
                  "Verifying immutable result publication; cancellation cutoff has passed"
              else progress "canceling" "Cancellation requested";
        };
  }

  unfoldable pub mark_canceled_update : String → String → String → Statement
  mark_canceled_update id worker token = record {
    guard = λ r. owns id worker token r && r.cancel_requested && not r.publication_pending;
    assign = λ r. record (release r) {
      status = canceled;
      terminal_state = canceled_run;
      completed_at = some now;
      updated_at = now;
      progress = progress "canceled" "Cancellation completed";
      publication_pending = false;
      callback = wake now r.callback;
    };
  }

  unfoldable pub mark_pending_update : String → String → String → Statement
  mark_pending_update id worker token = record {
    guard = λ r.
        owns id worker token r
        && not r.cancel_requested
        && not r.publication_pending
        && lease_live now r;
    assign = λ r. record r {
      publication_pending = true;
      publication_retry_at = none;
      updated_at = now;
      progress = progress "publishing" "Publishing immutable result";
    };
  }

  unfoldable pub retry_verification_update :
      String → String → String → ℕ → ℕ → RunFailure → Statement
  retry_verification_update id worker token max_attempts delay f = record {
    guard = λ r. owns id worker token r && r.publication_pending && lease_live now r;
    assign = λ r.
        let last = leb max_attempts (r.verification_attempt + 1) in
        record (release r) {
          verification_attempt = r.verification_attempt + 1;
          status = if last then failed else queued;
          terminal_state = if last then malfunction else unset;
          failure = if last then some f else none;
          completed_at = if last then some now else none;
          updated_at = now;
          progress =
              if last
              then progress "failed" f.detail
              else progress "verifying" "Waiting to retry immutable result verification";
          publication_pending = not last;
          publication_retry_at = if last then none else some (now + delay);
          callback = if last then wake now r.callback else r.callback;
        };
  }

  unfoldable pub fail_conflict_update : String → String → String → RunFailure → Statement
  fail_conflict_update id worker token f = record {
    guard = λ r. owns id worker token r && lease_live now r;
    assign = λ r. record (release r) {
      status = failed;
      terminal_state = malfunction;
      failure = some f;
      completed_at = some now;
      updated_at = now;
      progress = progress "failed" f.detail;
      publication_pending = false;
      callback = wake now r.callback;
    };
  }
