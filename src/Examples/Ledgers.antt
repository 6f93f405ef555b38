-- ===== src/Examples/Ledgers.antt =====
-- Concrete runs, and what the theorems on the ledger say of them.
use test_miti_check.Prelude.{arith, true, false, none, some, [], ◌∷◌, ◌≡◌, ◌⊎◌, refl, All, is_some}
use test_miti_check.Outcome.{unset}
use test_miti_check.Ledger.Row.{
  Row, queued, running, completed, canceled, waiting, pending, empty_object, is_terminal,
}
use test_miti_check.Ledger.Statement.{progress, apply}
use test_miti_check.Ledger.Operation.{
  Claim, statement, lease, stage, complete, mark_pending, recover_canceled,
}
use test_miti_check.Ledger.Invariant.{IsSound}
use test_miti_check.Ledger.History.{
  History, replay, replay_table, replay_table-IsSound, replay-SameResult,
}
use test_miti_check.Ledger.Edges.{SameResult, ◌⟶◌, apply-⟶}
use test_miti_check.Ledger.Fencing.{stale_holder-fenced, live_lease-Undisturbed, Undisturbed}
use test_miti_check.Ledger.Cutoff.{IsCut, replay-IsCut, recover-ends}
use test_miti_check.Ledger.Bounds.{IsBounded, replay-IsBounded}
use test_miti_check.Examples.Codecs.{sealed}

abbrev pub queued_row : Row
queued_row = record {
  run_id = "mc-run-1";
  result_id = "mitigation-check-result:1";
  terminal_state = unset;
  is_match = false;
  created_at = 1;
  request = "{}";
  response = empty_object;
  request_id = "request-1";
  correlation_id = "correlation-1";
  request_digest = "sha256:request";
  status = queued;
  updated_at = 1;
  started_at = none;
  completed_at = none;
  progress = progress "queued" "Awaiting worker";
  failure = none;
  completion = none;
  worker_id = none;
  lease_token = none;
  lease_expires_at = none;
  attempt = 0;
  last_heartbeat = none;
  cancel_requested = false;
  publication_pending = false;
  result_payload = none;
  verification_attempt = 0;
  publication_retry_at = none;
  callback = record {
    url = some "https://callbacks.example/done";
    workflow_id = some "workflow-1";
    signal = some "janus.capability-completion.v1";
    event_id = some "mitigation-check:mc-run-1:terminal:v1";
    state = some waiting;
    attempt = 0;
    next_at = some 1;
    delivered_at = none;
    configuration_failed_at = none;
    last_error = none;
    lease_token = none;
    lease_expires_at = none;
  };
}

abbrev pub running_row : Row
running_row = record queued_row {
  status = running;
  worker_id = some "worker-1";
  lease_token = some "token-1";
  lease_expires_at = some 100;
  attempt = 1;
}

-- Cancellation was requested while the run executed.
abbrev pub cut_row : Row
cut_row = record running_row { cancel_requested = true }

abbrev pub claim : Claim
claim = record { id = "mc-run-1"; worker = "worker-1"; token = "token-1" }

abbrev pub second_claim : Claim
second_claim = record { id = "mc-run-1"; worker = "worker-2"; token = "token-2" }

-- One worker leases the run, stages a result, loses the lease to another, which publishes.
abbrev pub takeover : History
takeover =
    (2, lease claim 50 3)
    ∷ (3, stage claim sealed "sealed")
    ∷ (60, lease second_claim 50 3)
    ∷ (61, mark_pending second_claim)
    ∷ (62, complete second_claim sealed "sealed")
    ∷ []

abbrev done_row : Row
done_row = record queued_row { status = completed; completed_at = some 62 }

queued_row-IsSound : IsSound queued_row
queued_row-IsSound = ground arith

cut_row-IsSound : IsSound cut_row
cut_row-IsSound = ground arith

takeover_completes : (replay takeover queued_row).status ≡ completed
unfolding replay apply statement
takeover_completes = refl

takeover_example : All IsSound (replay_table takeover (queued_row ∷ []))
takeover_example = replay_table-IsSound takeover (queued_row ∷ []) (queued_row-IsSound, tt)

terminal_example : SameResult done_row (replay takeover done_row)
terminal_example = replay-SameResult takeover done_row refl

edge_example :
    (queued ⟶ (apply (statement 2 (lease claim 50 3)) queued_row).status)
    ⊎ ((apply (statement 2 (lease claim 50 3)) queued_row).status ≡ queued)
edge_example = apply-⟶ 2 (lease claim 50 3) queued_row

fenced_example :
    apply
      (statement 70 (complete claim sealed "sealed"))
      (replay ((60, lease second_claim 50 3) ∷ []) queued_row)
    ≡ replay ((60, lease second_claim 50 3) ∷ []) queued_row
fenced_example =
    stale_holder-fenced ((60, lease second_claim 50 3) ∷ []) 70 (complete claim sealed "sealed")
      claim queued_row refl refl refl

lease_example : Undisturbed running_row (apply (statement 50 (lease second_claim 50 3)) running_row)
lease_example =
    live_lease-Undisturbed 50 100 (lease second_claim 50 3) running_row refl refl (omega arith) refl

abbrev cut : IsCut 1 cut_row
cut = record { requested = refl; unpublished = refl; leases = refl }

cut_example : IsCut 1 (replay takeover cut_row)
cut_example = replay-IsCut 1 takeover cut_row cut

recover_example :
    let s = apply (statement 100 recover_canceled) cut_row in
    (is_terminal s.status ≡ true)
    × (is_terminal running ≡ false
        → (s.status ≡ canceled) × (is_some s.callback.url ≡ true → s.callback.state ≡ some pending))
recover_example = recover-ends 1 100 cut_row cut_row-IsSound cut refl

bounded : IsBounded 3 4 queued_row
bounded = ground arith

bounds_example : IsBounded 3 4 (replay takeover queued_row)
bounds_example = replay-IsBounded 3 4 takeover queued_row refl bounded
