-- ===== src/Examples/Turns.antt =====
-- One turn of a worker on concrete ledgers, and publications to a concrete result table.
use Prim.Native.Nat.{min}
use test_miti_check.Prelude.{
  arith, ℕ, ◌*◌, ◌^◌, true, false, none, some, [], ◌∷◌, ◌++◌, ◌≡◌, ◌⊎◌, refl, All,
}
use test_miti_check.Databricks.{
  Sink, SinkRow, sent, applied, lost_after, publish, verify, merge, rows_of, row_of, verify_payload,
  result_ref,
}
use test_miti_check.Databricks.InsertOnly.{publish-sent, publish-insert_only}
use test_miti_check.Ledger.Row.{Row}
use test_miti_check.Ledger.Durable.{DurableRun, durable}
use test_miti_check.Ledger.Fencing.{never_issues}
use test_miti_check.Worker.World.{Environment, World, RunWorker}
use test_miti_check.Worker.Delay.{verification_delay, verification_delay-min, five_minutes}
use test_miti_check.Worker.Execute.{execute_one}
use test_miti_check.Worker.Published.{IsBacked, execute_one-IsBacked}
use test_miti_check.Worker.Owned.{IsOwn, IsFirst, execute_one-IsOwn, execute_one-IsFirst}
use test_miti_check.Worker.Stale.{drift, execute_one-drift}
use test_miti_check.Examples.Codecs.{codec, sealed, passes}
use test_miti_check.Examples.Ledgers.{running_row}

abbrev sink : Sink
sink = record { catalog = "main"; schema = "mitigation"; name = "results" }

abbrev environment : Environment
environment = record {
  now = λ k. 10;
  down = λ k. false;
  others = λ k. [];
  merges = λ k. [];
  delivery = λ k. applied;
  broken = λ k. none;
  parent_done = λ k. false;
  ticks = 1;
  execute = λ run. some sealed;
}

abbrev worker : RunWorker
worker = record {
  worker_id = "worker-1";
  lease = 50;
  publisher = some (some sink);
  supports_verification = true;
  max_attempts = 3;
  max_verification_attempts = 4;
  verification_backoff = 2_000_000;
}

abbrev run : DurableRun
run = durable codec running_row

abbrev start : World
start = record { ledger = running_row ∷ []; sink = []; calls = 0; trace = [] }

IsBacked-example : IsBacked (execute_one environment codec worker run start).1
IsBacked-example = execute_one-IsBacked environment codec worker run start tt

IsOwn-example :
    All
      (IsOwn environment codec worker run)
      (execute_one environment codec worker run start).1.trace
IsOwn-example = execute_one-IsOwn environment codec worker run start tt

IsFirst-example :
    All
      (IsFirst environment codec worker run)
      (execute_one environment codec worker run start).1.trace
IsFirst-example = execute_one-IsFirst environment codec worker run start tt

-- Another worker holds the run.
abbrev stolen_row : Row
stolen_row = record running_row { worker_id = some "worker-2"; lease_token = some "token-2" }

issues_none : (k : ℕ) → never_issues run.lease_token (environment.others k) ≡ true
issues_none k = refl

drift_example :
    let w : World = record { ledger = stolen_row ∷ []; sink = []; calls = 0; trace = [] } in
    let world = (execute_one environment codec worker run w).1 in
    world.ledger ≡ drift environment world.calls (stolen_row ∷ [])
unfolding durable
drift_example =
    execute_one-drift environment codec worker run (stolen_row ∷ []) issues_none [] (refl, tt)

delay_example : verification_delay 2_000_000 3 ≡ min five_minutes (2_000_000 * 2 ^ 3)
delay_example = verification_delay-min 2_000_000 3 (omega arith)

abbrev other_row : SinkRow
other_row = record {
  run_id = "mc-run-9";
  result_id = "mitigation-check-result:9";
  result_json = "{}";
}

abbrev kept_row : SinkRow
kept_row = row_of sealed "sealed"

sends : (publish codec (some sink) applied none sealed "sealed" (other_row ∷ [])).1 ≡ sent
unfolding publish verify_payload merge result_ref
sends = rw passes refl

publish_example :
    rows_of sealed.result_id
      (publish codec (some sink) applied none sealed "sealed" (other_row ∷ [])).0
    ≡ kept_row ∷ []
publish_example = publish-sent codec (some sink) none sealed "sealed" (other_row ∷ []) applied sends

insert_example :
    let after = (publish codec (some sink) lost_after none sealed "sealed" (other_row ∷ [])).0 in
    (after ≡ other_row ∷ [])
    ⊎ ((after ≡ (other_row ∷ []) ++ kept_row ∷ [])
        × (rows_of sealed.result_id (other_row ∷ []) ≡ []))
insert_example =
    publish-insert_only codec (some sink) none sealed "sealed" (other_row ∷ []) lost_after

verifies : verify codec (some sink) none sealed "sealed" (kept_row ∷ []) ≡ sent
unfolding verify verify_payload
verifies = rw (verify, passes) refl
