-- ===== src/Worker/Owned.antt =====
-- Which calls a worker makes: only under its own claim, and never a second execution or
-- publication of what was staged or may have been published.
use test_miti_check.Prelude.{String, false, Option, none, some, [], ◌∷◌, ◌≡◌, refl, All, All-append}
use test_miti_check.Outcome.{RunOutcome}
use test_miti_check.Canonical.{Codec}
use test_miti_check.Databricks.{Sink, sent}
use test_miti_check.Ledger.Operation.{Operation}
use test_miti_check.Ledger.Fencing.{holder}
use test_miti_check.Ledger.Durable.{DurableRun}
use test_miti_check.Worker.World.{
  Action, called, beat, executed, published, verified, Environment, World, RunWorker, arrive,
  publish_once, verify_once,
}
use test_miti_check.Worker.Execute.{claim, execute_one}
use test_miti_check.Worker.Logic.{Triple, keep}
use test_miti_check.Worker.Calls.{
  call-Triple, beat_once-Triple, run_executor-Triple, complete_published-Triple,
}
use test_miti_check.Worker.Keeps.{CallRules, execute_one-Keeps}

module _ (env : Environment) (codec : Codec) (w : RunWorker) (run : DurableRun) where
  -- A predicate on single actions that every action of the turn has, in the way the code makes it.
  record Admits (P : Action → Type 0) : Type 0 where
    operations : (op : Operation) → holder op ≡ some (claim env codec w run) → P (called op)
    heartbeats : P (beat (claim env codec w run))
    execution : run.result ≡ none → P executed
    publication : run.publication_pending ≡ false → P published
    reading : P verified

  abbrev Traced : (Action → Type 0) → World → Type 0
  Traced P world = All P world.trace

  module _ (P : Action → Type 0) (admits : Admits P) where
    arrive-Traced :
        (a : Action) → P a → (world : World) → Traced P world → Traced P (arrive env a world)
    unfolding arrive
    arrive-Traced a p world h = All-append P world.trace (a ∷ []) h (p, tt)

    reads-Traced :
        (sink : Option Sink) (out : RunOutcome) (payload : String)
        → Triple
            (Traced P)
            (verify_once env codec sink out payload)
            (λ answer world. Traced P world × (answer ≡ sent → Unit {0}))
            (Traced P)
    unfolding verify_once
    reads-Traced sink out payload = record {
      at = λ world h. (arrive-Traced verified admits.reading world h, λ _. tt);
    }

    publishes-Traced :
        (sink : Option Sink) (out : RunOutcome) (payload : String)
        → run.publication_pending ≡ false
        → Triple
            (Traced P)
            (publish_once env codec sink out payload)
            (λ answer world. Traced P world × (answer ≡ sent → Unit {0}))
            (Traced P)
    unfolding publish_once
    publishes-Traced sink out payload fresh = record {
      at = λ world h. (arrive-Traced published (admits.publication fresh) world h, λ _. tt);
    }

    Traced-rules : CallRules env codec w run (Traced P) (λ _ _ _. Unit)
    Traced-rules = record {
      calls = λ op _ own.
          call-Triple env (Traced P) (Traced P) (λ _ _ h. h) op
            (arrive-Traced (called op) (admits.operations op own));
      beats =
          beat_once-Triple env (Traced P) (Traced P) (λ _ _ h. h) _ _
            (arrive-Traced _ admits.heartbeats);
      executes = λ fresh.
          run_executor-Triple env (Traced P) (Traced P) (λ _ _ h. h) run
            (arrive-Traced executed (admits.execution fresh));
      reads = reads-Traced;
      publishes = publishes-Traced;
      closes = λ out payload.
          complete_published-Triple env _ (Traced P) (λ _ _ h. h) codec (claim env codec w run) out
            payload (λ _ h. h.0) (λ world h. arrive-Traced _ (admits.operations _ refl) world h.0);
    }

    execute_one-Traced :
        (world : World) → Traced P world → Traced P (execute_one env codec w run world).1
    execute_one-Traced =
        keep (execute_one-Keeps env codec w run (Traced P) (λ _ _ _. Unit) Traced-rules)

  abbrev pub IsOwn : Action → Type 0
  IsOwn (called op) = holder op ≡ some (claim env codec w run)
  IsOwn (beat c) = c ≡ claim env codec w run
  IsOwn _ = Unit

  -- Every call of the turn that writes to the ledger is made under the run's id, the worker's
  -- name and the token of the lease, if that held of the calls before the turn.
  pub execute_one-IsOwn :
      (world : World)
      → All IsOwn world.trace
      → All IsOwn (execute_one env codec w run world).1.trace
  execute_one-IsOwn = execute_one-Traced IsOwn (record {
    operations = λ op own. own;
    heartbeats = refl;
    execution = λ _. tt;
    publication = λ _. tt;
    reading = tt;
  })

  abbrev pub IsFirst : Action → Type 0
  IsFirst executed = run.result ≡ none
  IsFirst published = run.publication_pending ≡ false
  IsFirst _ = Unit

  -- A run whose result is staged is not executed again, and one whose publication has begun is
  -- not published again, but only read back, if that held of the actions before the turn.
  pub execute_one-IsFirst :
      (world : World)
      → All IsFirst world.trace
      → All IsFirst (execute_one env codec w run world).1.trace
  execute_one-IsFirst = execute_one-Traced IsFirst (record {
    operations = λ op own. tt;
    heartbeats = tt;
    execution = λ fresh. fresh;
    publication = λ fresh. fresh;
    reading = tt;
  })
