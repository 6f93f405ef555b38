-- ===== src/Worker/Execute.antt =====
-- `executeOne`, `reconcilePublication` and `retryVerification` of api/worker.go.
use test_miti_check.Prelude.{
  ℕ, zero, suc, ◌-◌, String, Bool, true, false, Option, none, some, ◌&&◌, ◌||◌, not, leb,
  if◌then◌else◌, is_some, is_none,
}
use test_miti_check.Outcome.{RunOutcome, is_malfunction}
use test_miti_check.Canonical.{Codec, PayloadError, Result, ok, err, canonical_result_payload}
use test_miti_check.Databricks.{sent, refused, plain, verification, absent, conflict, Sink}
use test_miti_check.Ledger.Row.{RunFailure}
use test_miti_check.Ledger.Operation.{
  Claim, Operation, fail, fail_outcome, mark_canceled, mark_pending, retry_verification,
  fail_conflict,
}
use test_miti_check.Ledger.Durable.{DurableRun}
use test_miti_check.Worker.World.{
  Environment, RunWorker, M, ◌>>=◌, ◌>>◌, pure, stop, call, beat_once, run_executor, parent_done,
  publish_once, verify_once, stage_outcome, complete_published,
}
use test_miti_check.Worker.Delay.{verification_delay}

abbrev pub execution_failed : RunFailure
execution_failed = record {
  code = "execution_failed";
  detail = "Mitigation check execution failed";
  retryable = false;
}

abbrev pub check_malfunction : RunFailure
check_malfunction = record {
  code = "mitigation_check_malfunction";
  detail = "Mitigation check reported a malfunction";
  retryable = false;
}

abbrev pub store_unavailable : RunFailure
store_unavailable = record {
  code = "result_store_unavailable";
  detail = "Authoritative Databricks result publication is unavailable";
  retryable = true;
}

abbrev pub publication_conflict : RunFailure
publication_conflict = record {
  code = "result_publication_conflict";
  detail = "Authoritative Databricks result conflicts with the staged canonical result";
  retryable = false;
}

abbrev pub verification_failed : RunFailure
verification_failed = record {
  code = "publication_verification_failed";
  detail =
      "Immutable Databricks result publication could not be verified within the bounded retry policy";
  retryable = false;
}

-- `cancellationRequested` and `leaseLost`.
pub record Flags : Type 0 where
  pub canceled : Bool
  pub lost : Bool

module _ (env : Environment) (codec : Codec) (w : RunWorker) (run : DurableRun) where
  abbrev pub claim : Claim
  claim = record { id = run.run_status.run_id; worker = w.worker_id; token = run.lease_token }

  abbrev now_at : M ℕ
  now_at world = (some (env.now world.calls), world)

  -- The heartbeat goroutine, for the ticks that fall into the execution.
  unfoldable pub monitor : ℕ → ℕ → Flags → M Flags
  monitor zero last f = pure f
  monitor (suc n) last f = do
    now ← now_at
    reply ← beat_once env claim w.lease
    elim reply [
      | none ↦
          if leb w.lease (now - last) then pure (record f { lost = true }) else monitor n last f
      | some (requested, owned) ↦
          if not owned
          then pure (record f { lost = true })
          else monitor n now (record f { canceled = f.canceled || requested })
    ]

  -- A transition whose answer is only logged, and the `return` after it.
  unfoldable pub finish : Operation → {A : Type 0} → M A
  finish op = do call env op; stop

  unfoldable pub retry_later : {A : Type 0} → M A
  unfolding finish
  retry_later = finish (
      retry_verification claim w.max_verification_attempts
        (verification_delay w.verification_backoff run.verification_attempt) verification_failed)

  -- `reconcilePublication`, which ends the run's turn on every path.
  unfoldable pub reconcile : Option Sink → RunOutcome → String → {A : Type 0} → M A
  unfolding finish retry_later
  reconcile sink out payload = do
    answer ← verify_once env codec sink out payload
    elim answer [
      | sent ↦ do complete_published env codec claim out payload; stop
      | refused plain ↦ retry_later
      | refused (verification absent) ↦ retry_later
      | refused (verification conflict) ↦ finish (fail_conflict claim publication_conflict)
      | refused (verification _) ↦ retry_later
    ]

  -- The outcome and its payload: the staged ones, or those of the executor, with `none` for its
  -- error.
  unfoldable pub obtain : M (Option (RunOutcome × String))
  obtain = elim (run.result) [
    | some out ↦ pure (some (out, run.result_payload))
    | none ↦ do
      answer ← run_executor env run
      pure (elim answer [ none ↦ none | some out ↦ some (out, "") ])
  ]

  -- `FailOutcome`, which marshals the outcome first, and the `return` after it.
  unfoldable pub fail_with : RunOutcome → RunFailure → Option String → {A : Type 0} → M A
  unfolding finish
  fail_with out failure none = stop
  fail_with out failure (some text) = finish (fail_outcome claim out text failure)

  -- The answer of the executor, once neither cancellation nor a lost lease ended the turn.
  unfoldable pub judge : Option (RunOutcome × String) → M (RunOutcome × String)
  unfolding finish fail_with
  judge none = finish (fail claim execution_failed)
  judge (some (out, payload)) =
      if is_malfunction out.terminal_state
      then fail_with out check_malfunction (codec.marshal out)
      else pure (out, payload)

  -- What follows the execution, up to the outcome of a check that did not malfunction.
  unfoldable pub settle : Flags → Option (RunOutcome × String) → M (RunOutcome × String)
  unfolding finish judge
  settle flags answer = do
    gone ← parent_done env
    if flags.canceled && not run.publication_pending
        then finish (mark_canceled claim)
        else if flags.lost || gone
        then stop
        else judge answer

  -- After a refused staging: a run whose cancellation is requested is marked canceled.
  unfoldable pub unstaged : Option Bool → M String
  unfolding finish
  unstaged none = stop
  unstaged (some _) = do
    reply ← beat_once env claim w.lease
    elim reply [
      | none ↦ stop
      | some (requested, owned) ↦ if owned && requested then finish (mark_canceled claim) else stop
    ]

  unfoldable pub staged_as : String → Option Bool → M String
  unfolding unstaged
  staged_as text (some true) = pure text
  staged_as text (some false) = unstaged (some false)
  staged_as text none = unstaged none

  unfoldable pub stage_new : RunOutcome → Result PayloadError String → M String
  unfolding staged_as
  stage_new out (err e) = stop
  stage_new out (ok text) = do
    staged ← stage_outcome env codec claim out text
    staged_as text staged

  -- The payload that is published: the staged one, or the new one once it is staged.
  unfoldable pub stage_result : RunOutcome → String → M String
  unfolding stage_new
  stage_result out payload =
      if is_some run.result
      then pure payload
      else stage_new out (canonical_result_payload codec out)

  unfoldable pub unavailable : RunOutcome → {A : Type 0} → M A
  unfolding fail_with retry_later
  unavailable out =
      if run.publication_pending
      then retry_later
      else fail_with out store_unavailable (codec.marshal out)

  unfoldable pub published_by : RunOutcome → Option (Option Sink) → M (Option Sink)
  unfolding unavailable
  published_by out none = unavailable out
  published_by out (some sink) = if is_none out.result_ref then unavailable out else pure sink

  -- The sink to publish to, if there is one and the outcome refers to it.
  unfoldable pub choose_publisher : RunOutcome → M (Option Sink)
  unfolding published_by
  choose_publisher out = published_by out w.publisher

  -- The fence before the first publication: the heartbeat, and `publication_pending`.
  unfoldable pub fence : M (Unit {0})
  unfolding finish
  fence = do
    reply ← beat_once env claim w.lease
    elim reply [
      | none ↦ stop
      | some (requested, owned) ↦
          if not owned then stop else if requested then finish (mark_canceled claim) else (do
            marked ← call env (mark_pending claim)
            elim marked [ some true ↦ pure tt | some false ↦ stop | none ↦ stop ])
    ]

  -- The first publication, or the read-back of one that may have happened.
  unfoldable pub publish_result : Option Sink → RunOutcome → String → M (Unit {0})
  unfolding retry_later reconcile
  publish_result sink out payload =
      if run.publication_pending
      then (if w.supports_verification then reconcile sink out payload else retry_later)
      else (do
        answer ← publish_once env codec sink out payload
        elim answer [
          | sent ↦ pure tt
          | refused plain ↦ retry_later
          | refused (verification _) ↦
              if w.supports_verification then reconcile sink out payload else retry_later
        ])

  -- `executeOne`.
  unfoldable pub execute_one : M (Unit {0})
  unfolding monitor obtain settle stage_result choose_publisher fence publish_result
  execute_one = do
    started ← now_at
    flags ← monitor env.ticks started (record { canceled = false; lost = false })
    answer ← obtain
    (out, unstaged_payload) ← settle flags answer
    payload ← stage_result out unstaged_payload
    sink ← choose_publisher out
    (if run.publication_pending then pure tt else fence)
    publish_result sink out payload
    complete_published env codec claim out payload
    pure tt
