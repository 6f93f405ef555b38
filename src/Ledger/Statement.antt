-- ===== src/Ledger/Statement.antt =====
-- The SQL statements of api/lifecycle_store.go, each with its WHERE clause as `guard` and its SET
-- clause as `assign`, at the time `now`.
use test_miti_check.Prelude.{
  ℕ, suc, ◌+◌, String, Bool, false, none, some, List, [], ◌∷◌, ◌&&◌, ◌||◌, not, ◌==◌, if◌then◌else◌,
  is_text, is_after, is_some, coalesce,
}
use test_miti_check.Outcome.{RunOutcome}
use test_miti_check.Ledger.Row.{
  Row, Callback, running, completed, pending, Completion, Progress, document, is_running, is_empty,
}

pub record Statement : Type 0 where
  pub guard : Row → Bool
  pub assign : Row → Row

-- One row under a statement.
unfoldable pub apply : Statement → Row → Row
apply s r = if s.guard r then s.assign r else r

-- The table under a statement, and the number of rows affected.
unfoldable pub exec : Statement → List Row → List Row × ℕ
exec s [] = ([], 0)
exec s (r ∷ rows) =
    let (rest, n) = exec s rows in if s.guard r then (s.assign r ∷ rest, suc n) else (r ∷ rest, n)

-- `worker_id=$2 AND lease_token=$3 AND status='running'`.
abbrev pub owns : String → String → String → Row → Bool
owns id worker token r =
    r.run_id == id
    && is_text r.worker_id worker
    && is_text r.lease_token token
    && is_running r.status

abbrev pub lease_live : ℕ → Row → Bool
lease_live now r = is_after r.lease_expires_at now

-- `callback_state=CASE WHEN callback_url IS NULL …` and `callback_next_at=CASE …`: a run that
-- becomes terminal makes its event eligible.
abbrev pub wake : ℕ → Callback → Callback
wake now c = if is_some c.url then record c { state = some pending; next_at = some now } else c

-- `worker_id=NULL,lease_token=NULL,lease_expires_at=NULL`.
abbrev pub release : Row → Row
release r = record r { worker_id = none; lease_token = none; lease_expires_at = none }

abbrev pub progress : String → String → Progress
progress phase message = record { phase = phase; message = message }

-- The `Completion` that `CompletePublished` marshals.
abbrev pub completion_of : RunOutcome → Completion
completion_of out = record {
  request_id = out.request_id;
  correlation_id = out.correlation_id;
  run_id = out.run_id;
  result_id = out.result_id;
  terminal_state = out.terminal_state;
  result_ref = out.result_ref;
  evidence_refs = out.evidence_refs;
  content_sha256 = out.content_sha256;
  size_bytes = out.size_bytes;
  created_at = out.created_at;
}

module _ (now : ℕ) where
  -- The UPDATE of `LeaseNext`, at the row that its SELECT chose.
  unfoldable pub lease_selected : String → String → String → ℕ → Statement
  lease_selected id worker token lease = record {
    guard = λ r. r.run_id == id && (not r.cancel_requested || r.publication_pending);
    assign = λ r. record r {
      status = running;
      started_at = some (coalesce r.started_at now);
      updated_at = now;
      worker_id = some worker;
      lease_token = some token;
      lease_expires_at = some (now + lease);
      last_heartbeat = some now;
      attempt = r.attempt + 1;
      publication_retry_at = none;
      progress =
          if is_empty r.response
          then progress "executing" "Mitigation check in progress"
          else progress "publishing" "Publishing immutable result";
    };
  }

  unfoldable pub heartbeat_update : String → String → String → ℕ → Statement
  heartbeat_update id worker token lease = record {
    guard = λ r. owns id worker token r && lease_live now r;
    assign = λ r. record r {
      last_heartbeat = some now;
      lease_expires_at = some (now + lease);
      updated_at = now;
    };
  }

  unfoldable pub progress_update : String → String → String → String → String → Statement
  progress_update id worker token phase message = record {
    guard = λ r. owns id worker token r && lease_live now r;
    assign = λ r. record r { progress = progress phase message; updated_at = now };
  }

  unfoldable pub stage_update : String → String → String → RunOutcome → String → Statement
  stage_update id worker token out payload = record {
    guard = λ r.
        owns id worker token r && not r.cancel_requested && lease_live now r && is_empty r.response;
    assign = λ r. record r {
      response = document payload;
      result_payload = some payload;
      is_match = out.is_match;
      updated_at = now;
      progress = progress "publishing" "Publishing immutable result";
    };
  }

  unfoldable pub complete_update : String → String → String → RunOutcome → String → Statement
  complete_update id worker token out payload = record {
    guard = λ r. owns id worker token r && lease_live now r;
    assign = λ r. record (release r) {
      status = completed;
      terminal_state = out.terminal_state;
      is_match = out.is_match;
      response = document payload;
      result_payload = some payload;
      completion = some (completion_of out);
      completed_at = some now;
      updated_at = now;
      progress = progress "finished" "Mitigation check completed";
      publication_pending = false;
      publication_retry_at = none;
      callback = wake now r.callback;
    };
  }
