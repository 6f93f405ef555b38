-- ===== src/Worker/World.antt =====
-- What a worker acts on: the ledger, the result table, and the other processes, which may act
-- between any two of its calls; and the calls that it makes.
use test_miti_check.Prelude.{
  ℕ, suc, String, Bool, false, Option, none, some, List, [], ◌∷◌, ◌++◌, ◌==◌, ◌&&◌, eqb,
  if◌then◌else◌,
}
use test_miti_check.Outcome.{RunOutcome, ResultRef}
use test_miti_check.Canonical.{
  Codec, PayloadError, Result, ok, err, validate_canonical_result_payload,
}
use test_miti_check.Databricks.{SinkRow, Sent, Sink, Delivery, merge, publish, verify}
use test_miti_check.Ledger.Row.{Row}
use test_miti_check.Ledger.Statement.{exec}
use test_miti_check.Ledger.Operation.{Claim, Operation, stage, complete, statement}
use test_miti_check.Ledger.Durable.{DurableRun}
use test_miti_check.Ledger.History.{History, replay_table}
use test_miti_check.Ledger.Store

-- What a worker does, in order: it runs the executor, publishes, reads back, or calls the ledger.
pub data Action : Type 0 where
  executed published verified : Action
  beat : Claim → Action
  called : Operation → Action

-- The environment at the k-th call: the time, whether the database fails, what other processes did
-- to the ledger and the result table since the call before, and what the connection to the result
-- table does. `ticks` heartbeats fall into the execution; `execute` is the executor, with `none`
-- for an error or a panic.
pub record Environment : Type 0 where
  pub now : ℕ → ℕ
  pub down : ℕ → Bool
  pub others : ℕ → History
  pub merges : ℕ → List SinkRow
  pub delivery : ℕ → Delivery
  pub broken : ℕ → Option ℕ
  pub parent_done : ℕ → Bool
  pub ticks : ℕ
  pub execute : DurableRun → Option RunOutcome

pub record World : Type 0 where
  pub ledger : List Row
  pub sink : List SinkRow
  pub calls : ℕ
  pub trace : List Action

-- `RunWorker`. The publisher is an interface value: nil, or a sink, which may itself be nil.
pub record RunWorker : Type 0 where
  pub worker_id : String
  pub lease : ℕ
  pub publisher : Option (Option Sink)
  pub supports_verification : Bool
  pub max_attempts : ℕ
  pub max_verification_attempts : ℕ
  pub verification_backoff : ℕ

-- An action that may end the function early: `none` is its `return`.
abbrev pub M : Type 0 → Type 0
M A = World → Option A × World

abbrev pub continue_with : {A B : Type 0} → Option A → (A → M B) → M B
continue_with none f w = (none, w)
continue_with (some a) f w = f a w

infixl 5 ◌>>=◌ ◌>>◌
unfoldable pub ◌>>=◌ : {A B : Type 0} → M A → (A → M B) → M B
◌>>=◌ m f w = let (a, w') = m w in continue_with a f w'

abbrev pub ◌>>◌ : {A B : Type 0} → M A → M B → M B
m >> n = m >>= λ _. n

unfoldable pub pure : {A : Type 0} → A → M A
pure a w = (some a, w)

unfoldable pub stop : {A : Type 0} → M A
stop w = (none, w)

unfoldable pub merge_all : List SinkRow → List SinkRow → List SinkRow
merge_all [] sink = sink
merge_all (r ∷ rows) sink = merge_all rows (merge r sink)

abbrev pub is_authoritative : Option ResultRef → String → Bool
is_authoritative none result_id = false
is_authoritative (some ref) result_id = ref.system == "databricks" && ref.key == result_id

module _ (env : Environment) where
  -- The k-th call finds what the other processes have done, and is recorded.
  unfoldable pub arrive : Action → World → World
  arrive a w = record {
    ledger = replay_table (env.others w.calls) w.ledger;
    sink = merge_all (env.merges w.calls) w.sink;
    calls = suc w.calls;
    trace = w.trace ++ a ∷ [];
  }

  -- A method that executes one UPDATE: `none` is an error, `some b` says whether one row changed.
  unfoldable pub call : Operation → M (Option Bool)
  unfolding arrive
  call op w =
      let w' = arrive (called op) w in
      let (rows, n) = exec (statement (env.now w.calls) op) w'.ledger in
      if env.down w.calls
      then (some none, w')
      else (some (some (eqb n 1)), record w' { ledger = rows })

  unfoldable pub beat_once : Claim → ℕ → M (Option (Bool × Bool))
  unfolding arrive
  beat_once c lease w =
      let w' = arrive (beat c) w in
      let (rows, requested, owned) = Store.heartbeat (env.now w.calls) c lease w'.ledger in
      if env.down w.calls
      then (some none, w')
      else (some (some (requested, owned)), record w' { ledger = rows })

  unfoldable pub run_executor : DurableRun → M (Option RunOutcome)
  unfolding arrive
  run_executor run w = (some (env.execute run), arrive executed w)

  unfoldable pub parent_done : M Bool
  parent_done w = (some (env.parent_done w.calls), w)

  module _ (codec : Codec) where
    unfoldable pub publish_once : Option Sink → RunOutcome → String → M Sent
    unfolding arrive
    publish_once sink out payload w =
        let w' = arrive published w in
        let (rows, answer) =
          publish codec sink (env.delivery w.calls) (env.broken w.calls) out payload w'.sink in
        (some answer, record w' { sink = rows })

    unfoldable pub verify_once : Option Sink → RunOutcome → String → M Sent
    unfolding arrive
    verify_once sink out payload w =
        let w' = arrive verified w in
        (some (verify codec sink (env.broken w.calls) out payload w'.sink), w')

    -- `StageOutcome`, which validates before it writes.
    unfoldable pub stage_outcome : Claim → RunOutcome → String → M (Option Bool)
    stage_outcome c out payload = elim (validate_canonical_result_payload codec out payload) [
      | err e ↦ pure none
      | ok _ ↦ call (stage c out payload)
    ]

    unfoldable pub complete_valid :
        Claim → RunOutcome → String → Result PayloadError (Unit {0}) → M (Option Bool)
    complete_valid c out payload (err e) = pure none
    complete_valid c out payload (ok _) = call (complete c out payload)

    -- `CompletePublished`, which wants an authoritative reference and validates.
    unfoldable pub complete_published : Claim → RunOutcome → String → M (Option Bool)
    unfolding complete_valid
    complete_published c out payload =
        if is_authoritative out.result_ref out.result_id
        then complete_valid c out payload (validate_canonical_result_payload codec out payload)
        else pure none
