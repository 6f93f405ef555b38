-- ===== src/Worker/Calls.antt =====
-- One rule for each call, for invariants that do not look at the ledger.
use test_miti_check.Prelude.{ℕ, String, none, List, inl, inr, Bool-cases}
use test_miti_check.Outcome.{RunOutcome}
use test_miti_check.Canonical.{Codec, PayloadError, Result, ok, err}
use test_miti_check.Ledger.Row.{Row}
use test_miti_check.Ledger.Operation.{Claim, Operation, complete}
use test_miti_check.Worker.World.{
  called, beat, executed, Environment, World, arrive, call, beat_once, run_executor,
  complete_published, complete_valid, is_authoritative,
}
use test_miti_check.Ledger.Durable.{DurableRun}
use test_miti_check.Worker.Logic.{Triple, Triple-if, Triple-pure}

module _ (env : Environment) (P I : World → Type 0)
    (blind : (world : World) (rows : List Row) → I world → I (record world { ledger = rows })) where
  pub call-Triple :
      (op : Operation)
      → ((world : World) → P world → I (arrive env (called op) world))
      → Triple P (call env op) (λ _. I) I
  unfolding call
  call-Triple op h = record {
    at = λ world p. elim (Bool-cases (env.down world.calls)) [
      | inl e ↦ rw e (h world p)
      | inr e ↦ rw e (blind _ _ (h world p))
    ];
  }

  pub beat_once-Triple :
      (c : Claim) (lease : ℕ)
      → ((world : World) → P world → I (arrive env (beat c) world))
      → Triple P (beat_once env c lease) (λ _. I) I
  unfolding beat_once
  beat_once-Triple c lease h = record {
    at = λ world p. elim (Bool-cases (env.down world.calls)) [
      | inl e ↦ rw e (h world p)
      | inr e ↦ rw e (blind _ _ (h world p))
    ];
  }

  pub run_executor-Triple :
      (run : DurableRun)
      → ((world : World) → P world → I (arrive env executed world))
      → Triple P (run_executor env run) (λ _. I) I
  unfolding run_executor
  run_executor-Triple run h = record { at = h }

  module _ (codec : Codec) (c : Claim) (out : RunOutcome) (payload : String) where
    complete_valid-Triple :
        (valid : Result PayloadError (Unit {0}))
        → ((world : World) → P world → I world)
        → ((world : World) → P world → I (arrive env (called (complete c out payload)) world))
        → Triple P (complete_valid env codec c out payload valid) (λ _. I) I
    unfolding complete_valid
    complete_valid-Triple (err e) weaken h = Triple-pure none weaken
    complete_valid-Triple (ok _) weaken h = call-Triple (complete c out payload) h

    pub complete_published-Triple :
        ((world : World) → P world → I world)
        → ((world : World) → P world → I (arrive env (called (complete c out payload)) world))
        → Triple P (complete_published env codec c out payload) (λ _. I) I
    unfolding complete_published
    complete_published-Triple weaken h =
        Triple-if (is_authoritative out.result_ref out.result_id) _ _
          (λ _. complete_valid-Triple _ weaken h) (λ _. Triple-pure none weaken)
