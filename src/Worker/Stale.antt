-- ===== src/Worker/Stale.antt =====
-- A worker that has lost its lease changes nothing in the ledger.
use test_miti_check.Prelude.{
  ℕ, zero, suc, String, true, false, none, some, List, [], ◌∷◌, ◌≡◌, refl, ap, ◌∙◌, arith, All,
  is_text, Bool-cases, inl, inr,
}
use test_miti_check.Outcome.{RunOutcome}
use test_miti_check.Canonical.{Codec, PayloadError, Result, ok, err}
use test_miti_check.Databricks.{SinkRow}
use test_miti_check.Ledger.Row.{Row}
use test_miti_check.Ledger.Statement.{Statement, apply, exec}
use test_miti_check.Ledger.Operation.{Operation, heartbeat, statement}
use test_miti_check.Ledger.Fencing.{holder, apply-fenced, never_issues, token-apply}
use test_miti_check.Ledger.History.{History, replay_table, exec-All}
use test_miti_check.Ledger.Durable.{DurableRun}
use test_miti_check.Ledger.Store
use test_miti_check.Worker.World.{
  Action, called, beat, executed, published, verified, Environment, World, RunWorker, arrive, call,
  beat_once, run_executor, publish_once, verify_once, complete_valid, complete_published,
  is_authoritative,
}
use test_miti_check.Worker.Execute.{claim, execute_one}
use test_miti_check.Worker.Logic.{Keeps, Keeps-pure, Keeps-if, keep}
use test_miti_check.Worker.Keeps.{CallRules, execute_one-Keeps}

abbrev pub Lacks : String → Row → Type 0
Lacks token r = is_text r.lease_token token ≡ false

-- A statement that changes no row changes no table.
exec-unchanged :
    (s : Statement) (P : Row → Type 0)
    → ((r : Row) → P r → apply s r ≡ r)
    → (t : List Row) → All P t
    → (exec s t).0 ≡ t
unfolding exec apply
exec-unchanged s P same [] h = refl
exec-unchanged s P same (r ∷ t) h = ground (arith, same r h.0, exec-unchanged s P same t h.1)

-- The ledger as the other processes alone make it.
pub drift : Environment → ℕ → List Row → List Row
drift env zero t = t
drift env (suc n) t = replay_table (env.others n) (drift env n t)

Lacks-replay_table :
    (token : String) (h : History) (t : List Row)
    → never_issues token h ≡ true
    → All (Lacks token) t
    → All (Lacks token) (replay_table h t)
unfolding replay_table
Lacks-replay_table token [] t n l = l
Lacks-replay_table token ((now, op) ∷ rest) t n l =
    Lacks-replay_table token rest (exec (statement now op) t).0 (ground arith) (
      exec-All (Lacks token) (statement now op)
        (λ r lacks. token-apply now op token r lacks (ground arith)) t l)

module _ (env : Environment) (codec : Codec) (w : RunWorker) (run : DurableRun) (base : List Row)
    (fresh : (k : ℕ) → never_issues run.lease_token (env.others k) ≡ true) where
  record IsDrifting (world : World) : Type 0 where
    lacking : All (Lacks run.lease_token) world.ledger
    drifted : world.ledger ≡ drift env world.calls base

  arrive-IsDrifting :
      (a : Action) (world : World) → IsDrifting world → IsDrifting (arrive env a world)
  unfolding arrive drift
  arrive-IsDrifting a world h = record {
    lacking =
        Lacks-replay_table run.lease_token (env.others world.calls) world.ledger (fresh world.calls)
          h.lacking;
    drifted = ap (replay_table (env.others world.calls)) h.drifted;
  }

  exec-same :
      (now : ℕ) (op : Operation) (t : List Row)
      → holder op ≡ some (claim env codec w run)
      → All (Lacks run.lease_token) t
      → (exec (statement now op) t).0 ≡ t
  exec-same now op t own l =
      exec-unchanged (statement now op) (Lacks run.lease_token)
        (λ r lacks. apply-fenced now op (claim env codec w run) r own lacks) t l

  same-IsDrifting :
      (world : World) (rows : List Row)
      → rows ≡ world.ledger
      → IsDrifting world
      → IsDrifting (record world { ledger = rows })
  same-IsDrifting world rows e h = record { lacking = rw e h.lacking; drifted = e ∙ h.drifted }

  call-IsDrifting :
      (op : Operation) → holder op ≡ some (claim env codec w run) → Keeps IsDrifting (call env op)
  unfolding call
  call-IsDrifting op own = record {
    at = λ world h.
        let there = arrive-IsDrifting (called op) world h in
        elim (Bool-cases (env.down world.calls)) [
          | inl e ↦ rw e there
          | inr e ↦ rw e (
              same-IsDrifting (arrive env (called op) world) _
                (exec-same (env.now world.calls) op (arrive env (called op) world).ledger own
                  there.lacking)
                there)
        ];
  }

  heartbeat-same :
      (now duration : ℕ) (t : List Row)
      → All (Lacks run.lease_token) t
      → (Store.heartbeat now (claim env codec w run) duration t).0 ≡ t
  unfolding Store.heartbeat statement
  heartbeat-same now duration t l =
      ground (arith, exec-same now (heartbeat (claim env codec w run) duration) t refl l)

  beat-IsDrifting : Keeps IsDrifting (beat_once env (claim env codec w run) w.lease)
  unfolding beat_once
  beat-IsDrifting = record {
    at = λ world h.
        let a = beat (claim env codec w run) in
        let there = arrive-IsDrifting a world h in
        elim (Bool-cases (env.down world.calls)) [
          | inl e ↦ rw e there
          | inr e ↦ rw e (
              same-IsDrifting (arrive env a world) _
                (heartbeat-same (env.now world.calls) w.lease (arrive env a world).ledger
                  there.lacking)
                there)
        ];
  }

  sink-IsDrifting :
      (world : World) (rows : List SinkRow)
      → IsDrifting world
      → IsDrifting (record world { sink = rows })
  sink-IsDrifting world rows h = record { lacking = h.lacking; drifted = h.drifted }

  complete_valid-IsDrifting :
      (out : RunOutcome) (payload : String) (valid : Result PayloadError (Unit {0}))
      → Keeps IsDrifting (complete_valid env codec (claim env codec w run) out payload valid)
  unfolding complete_valid
  complete_valid-IsDrifting out payload (err e) = Keeps-pure none
  complete_valid-IsDrifting out payload (ok _) = call-IsDrifting _ refl

  complete_published-IsDrifting :
      (out : RunOutcome) (payload : String)
      → Keeps IsDrifting (complete_published env codec (claim env codec w run) out payload)
  unfolding complete_published
  complete_published-IsDrifting out payload =
      Keeps-if (is_authoritative out.result_ref out.result_id) _ _
        (complete_valid-IsDrifting out payload _) (Keeps-pure none)

  IsDrifting-rules : CallRules env codec w run IsDrifting (λ _ _ _. Unit)
  unfolding run_executor verify_once publish_once
  IsDrifting-rules = record {
    calls = λ op _ own. call-IsDrifting op own;
    beats = beat-IsDrifting;
    executes = λ _. record { at = arrive-IsDrifting executed };
    reads = λ sink out payload. record {
      at = λ world h. (arrive-IsDrifting verified world h, λ _. tt);
    };
    publishes = λ sink out payload _. record {
      at = λ world h. (sink-IsDrifting _ _ (arrive-IsDrifting published world h), λ _. tt);
    };
    closes = λ out payload. record {
      at = λ world h. (complete_published-IsDrifting out payload).at world h.0;
    };
  }

  -- If no row carries the worker's token and the others never issue it, then whatever the turn
  -- calls, the ledger is what the other processes alone have made of it.
  pub execute_one-drift :
      (sink : List SinkRow)
      → All (Lacks run.lease_token) base
      → let start : World = record { ledger = base; sink = sink; calls = 0; trace = [] } in
        let world = (execute_one env codec w run start).1 in
        world.ledger ≡ drift env world.calls base
  unfolding drift
  execute_one-drift sink l =
      let rules = execute_one-Keeps env codec w run IsDrifting (λ _ _ _. Unit) IsDrifting-rules in
      let start : World = record { ledger = base; sink = sink; calls = 0; trace = [] } in
      (keep rules start (record { lacking = l; drifted = refl })).drifted
