-- ===== src/Worker/Published.antt =====
-- The worker completes a run only with a result that stands in the result table.
use test_miti_check.Prelude.{ℕ, String, false, Option, List, [], ◌∷◌, ◌≡◌, arith, All, All-append}
use test_miti_check.Outcome.{RunOutcome}
use test_miti_check.Canonical.{Codec}
use test_miti_check.Databricks.{SinkRow, Sink, Delivery, sent, rows_of, row_of, merge, publish}
use test_miti_check.Databricks.InsertOnly.{rows_of-merge, publish-sent, verify-sent}
use test_miti_check.Ledger.Operation.{Operation, complete}
use test_miti_check.Ledger.Durable.{DurableRun}
use test_miti_check.Worker.World.{
  Action, called, executed, published, verified, Environment, World, RunWorker, merge_all, arrive,
  publish_once, verify_once,
}
use test_miti_check.Worker.Execute.{claim, execute_one}
use test_miti_check.Worker.Logic.{Triple, keep}
use test_miti_check.Worker.Calls.{
  call-Triple, beat_once-Triple, run_executor-Triple, complete_published-Triple,
}
use test_miti_check.Worker.Keeps.{CallRules, completes, execute_one-Keeps}

-- A completed result is in the table as the only row of its result id, with its run and its bytes.
abbrev pub Backed : List SinkRow → Action → Type 0
Backed sink (called (complete c out payload)) = rows_of out.result_id sink ≡ row_of out payload ∷ []
Backed sink _ = Unit

abbrev pub IsBacked : World → Type 0
IsBacked w = All (Backed w.sink) w.trace

Backed-step :
    (before after : List SinkRow)
    → ((id : String) (r : SinkRow) → rows_of id before ≡ r ∷ [] → rows_of id after ≡ r ∷ [])
    → (a : Action) → Backed before a
    → Backed after a
Backed-step before after keep (called (complete c out payload)) h = keep out.result_id _ h
Backed-step before after keep _ h = tt

All-step :
    (before after : List SinkRow)
    → ((id : String) (r : SinkRow) → rows_of id before ≡ r ∷ [] → rows_of id after ≡ r ∷ [])
    → (t : List Action) → All (Backed before) t
    → All (Backed after) t
All-step before after keep [] h = h
All-step before after keep (a ∷ t) h =
    (Backed-step before after keep a h.0, All-step before after keep t h.1)

rows_of-merge_all :
    (rows sink : List SinkRow) (id : String) (r : SinkRow)
    → rows_of id sink ≡ r ∷ []
    → rows_of id (merge_all rows sink) ≡ r ∷ []
unfolding merge_all
rows_of-merge_all [] sink id r h = h
rows_of-merge_all (x ∷ rows) sink id r h =
    rows_of-merge_all rows (merge x sink) id r (rows_of-merge id x sink r h)

not_completes :
    (sink : List SinkRow) (op : Operation) → completes op ≡ false → Backed sink (called op)
not_completes sink (complete c out payload) h = cc
not_completes sink _ h = tt

abbrev IsFound : RunOutcome → String → World → Type 0
IsFound out payload w = rows_of out.result_id w.sink ≡ row_of out payload ∷ []

module _ (env : Environment) (codec : Codec) (w : RunWorker) (run : DurableRun) where
  arrive-IsBacked :
      (a : Action) (world : World)
      → Backed (arrive env a world).sink a
      → IsBacked world
      → IsBacked (arrive env a world)
  unfolding arrive
  arrive-IsBacked a world b h =
      All-append _ world.trace (a ∷ [])
        (All-step world.sink _ (rows_of-merge_all (env.merges world.calls) world.sink) world.trace
          h)
        (b, tt)

  arrive-IsFound :
      (a : Action) (out : RunOutcome) (payload : String) (world : World)
      → IsFound out payload world
      → IsFound out payload (arrive env a world)
  unfolding arrive
  arrive-IsFound a out payload world h =
      rows_of-merge_all (env.merges world.calls) world.sink out.result_id _ h

  rows_of-publish :
      (sink : Option Sink) (d : Delivery) (b : Option ℕ) (out : RunOutcome) (payload : String)
      (rows : List SinkRow) (id : String) (r : SinkRow)
      → rows_of id rows ≡ r ∷ []
      → rows_of id (publish codec sink d b out payload rows).0 ≡ r ∷ []
  unfolding publish
  rows_of-publish sink d b out payload rows id r h =
      ground (arith, rows_of-merge id (row_of out payload) rows r)

  publish-IsBacked :
      (sink : Option Sink) (out : RunOutcome) (payload : String)
      → Triple IsBacked
          (publish_once env codec sink out payload)
          (λ answer world. IsBacked world × (answer ≡ sent → IsFound out payload world))
          IsBacked
  unfolding publish_once
  publish-IsBacked sink out payload = record {
    at = λ world h.
        let ready = arrive-IsBacked published world tt h in
        (
          All-step _ _ (rows_of-publish sink _ _ out payload (arrive env published world).sink) _
              ready,
          publish-sent codec sink (env.broken world.calls) out payload
              (arrive env published world).sink (env.delivery world.calls),
        );
  }

  verify-IsBacked :
      (sink : Option Sink) (out : RunOutcome) (payload : String)
      → Triple IsBacked
          (verify_once env codec sink out payload)
          (λ answer world. IsBacked world × (answer ≡ sent → IsFound out payload world))
          IsBacked
  unfolding verify_once
  verify-IsBacked sink out payload = record {
    at = λ world h. (
      arrive-IsBacked verified world tt h,
      verify-sent codec sink (env.broken world.calls) out payload (arrive env verified world).sink,
    );
  }

  IsBacked-rules : CallRules env codec w run IsBacked IsFound
  IsBacked-rules = record {
    calls = λ op n _.
        call-Triple env IsBacked IsBacked (λ _ _ h. h) op
          (λ world. arrive-IsBacked (called op) world (not_completes _ op n));
    beats =
        beat_once-Triple env IsBacked IsBacked (λ _ _ h. h) _ _
          (λ world. arrive-IsBacked _ world tt);
    executes = λ _.
        run_executor-Triple env IsBacked IsBacked (λ _ _ h. h) run
          (λ world. arrive-IsBacked executed world tt);
    reads = verify-IsBacked;
    publishes = λ sink out payload _. publish-IsBacked sink out payload;
    closes = λ out payload.
        complete_published-Triple env _ IsBacked (λ _ _ h. h) codec (claim env codec w run) out
          payload (λ _ h. h.0)
          (λ world h. arrive-IsBacked _ world (arrive-IsFound _ out payload world h.1) h.0);
  }

  -- Whatever other processes do and whichever calls fail, a turn of the worker calls
  -- `CompletePublished` only with a result that is then the only row of its result id in the
  -- result table, byte for byte, if that held of the calls before the turn.
  pub execute_one-IsBacked :
      (world : World) → IsBacked world → IsBacked (execute_one env codec w run world).1
  execute_one-IsBacked = keep (execute_one-Keeps env codec w run IsBacked IsFound IsBacked-rules)
