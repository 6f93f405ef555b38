-- ===== src/Worker/Keeps.antt =====
-- An invariant of the worker's calls is an invariant of `executeOne`, where a result may be
-- completed only after it was found in the result table.
use test_miti_check.Prelude.{
  ℕ, zero, suc, ◌-◌, String, Bool, true, false, Option, none, some, ◌≡◌, refl, ◌&&◌, ◌||◌, not, leb,
  is_some, is_none, Option-cases, inl, inr,
}
use test_miti_check.Outcome.{RunOutcome, is_malfunction}
use test_miti_check.Canonical.{
  Codec, PayloadError, Result, Result-cases, ok, err, validate_canonical_result_payload,
}
use test_miti_check.Databricks.{
  sent, refused, plain, verification, absent, conflict, unknown, no_state, Sink,
}
use test_miti_check.Ledger.Operation.{Operation, complete}
use test_miti_check.Ledger.Row.{RunFailure}
use test_miti_check.Ledger.Fencing.{holder}
use test_miti_check.Ledger.Durable.{DurableRun}
use test_miti_check.Worker.World.{
  Environment, World, RunWorker, stop, call, beat_once, run_executor, parent_done, publish_once,
  verify_once, stage_outcome, complete_published,
}
use test_miti_check.Worker.Logic.{
  Triple, Keeps, Triple-bind, Triple-pure, Triple-stop, Triple-if, Keeps-bind, Keeps-if, Keeps-pure,
  Keeps-stop, keeps_rules,
}
use test_miti_check.Worker.Execute.{
  Flags, claim, monitor, fail_with, judge, staged_as, stage_new, unavailable, published_by, finish,
  retry_later, reconcile, obtain, settle, unstaged, stage_result, choose_publisher, fence,
  publish_result, execute_one,
}

abbrev pub completes : Operation → Bool
completes (complete c out payload) = true
completes _ = false

-- What the invariant owes the calls of the worker.
pub record CallRules (env : Environment) (codec : Codec) (w : RunWorker) (run : DurableRun)
    (I : World → Type 0) (Found : RunOutcome → String → World → Type 0) : Type 0 where
  pub calls :
      (op : Operation)
      → completes op ≡ false
      → holder op ≡ some (claim env codec w run)
      → Keeps I (call env op)
  pub beats : Keeps I (beat_once env (claim env codec w run) w.lease)
  pub executes : run.result ≡ none → Keeps I (run_executor env run)
  pub reads :
      (sink : Option Sink) (out : RunOutcome) (payload : String)
      → Triple I
          (verify_once env codec sink out payload)
          (λ answer world. I world × (answer ≡ sent → Found out payload world))
          I
  pub publishes :
      (sink : Option Sink) (out : RunOutcome) (payload : String)
      → run.publication_pending ≡ false
      → Triple I
          (publish_once env codec sink out payload)
          (λ answer world. I world × (answer ≡ sent → Found out payload world))
          I
  pub closes :
      (out : RunOutcome) (payload : String)
      → Triple
          (λ world. I world × Found out payload world)
          (complete_published env codec (claim env codec w run) out payload)
          (λ _. I)
          I

module _ (env : Environment) (codec : Codec) (w : RunWorker) (run : DurableRun) (I : World → Type 0)
    (Found : RunOutcome → String → World → Type 0) (rules : CallRules env codec w run I Found) where
  finish-Keeps :
      {A : Type 0} {Q : A → World → Type 0} (op : Operation)
      → completes op ≡ false
      → holder op ≡ some (claim env codec w run)
      → Triple I (finish env codec w run op {A = A}) Q I
  unfolding finish
  finish-Keeps op n h =
      Triple-bind (call env op) (λ _. stop) (rules.calls op n h) (λ _. Triple-stop (λ _ i. i))

  monitor-Keeps : (n last : ℕ) (f : Flags) → Keeps I (monitor env codec w run n last f)
  unfolding monitor
  monitor-Keeps zero last f = Triple-pure f (λ _ i. i)
  monitor-Keeps (suc n) last f =
      Triple-bind _ _ (record { at = λ _ i. i })
        λ now. Triple-bind _ _ rules.beats (elim [
          | none ↦ Keeps-if (leb w.lease (now - last)) _ _ (Keeps-pure _) (monitor-Keeps n last f)
          | some (requested, owned) ↦
              Keeps-if (not owned) _ _ (Keeps-pure _) (monitor-Keeps n now _)
        ])

  obtain-Keeps : Keeps I (obtain env codec w run)
  unfolding obtain
  obtain-Keeps = elim (Option-cases run.result) [
    | inl e ↦ rw (e, obtain) (search (keeps_rules, rules.executes e))
    | inr e ↦ rw (e.1, obtain) (search keeps_rules)
  ]

  retry_later-Keeps :
      {A : Type 0} {Q : A → World → Type 0} → Triple I (retry_later env codec w run {A = A}) Q I
  unfolding retry_later
  retry_later-Keeps = finish-Keeps _ refl refl

  reconcile-Keeps :
      {A : Type 0} {Q : A → World → Type 0} (sink : Option Sink) (out : RunOutcome)
      (payload : String)
      → Triple I (reconcile env codec w run sink out payload {A = A}) Q I
  unfolding reconcile
  reconcile-Keeps sink out payload = Triple-bind _ _ (rules.reads sink out payload) (elim [
    | sent ↦
        Triple-bind _ _
          (record { at = λ world h. (rules.closes out payload).at world (h.0, h.1 refl) })
          (λ _. Triple-stop (λ _ i. i))
    | refused plain ↦ record { at = λ world h. retry_later-Keeps.at world h.0 }
    | refused (verification absent) ↦ record { at = λ world h. retry_later-Keeps.at world h.0 }
    | refused (verification conflict) ↦ record {
      at = λ world h. (finish-Keeps _ refl refl).at world h.0;
    }
    | refused (verification no_state) ↦ record { at = λ world h. retry_later-Keeps.at world h.0 }
    | refused (verification unknown) ↦ record { at = λ world h. retry_later-Keeps.at world h.0 }
  ])

  fail_with-Keeps :
      {A : Type 0} (out : RunOutcome) (failure : RunFailure) (text : Option String)
      → Keeps I (fail_with env codec w run out failure text {A = A})
  unfolding fail_with
  fail_with-Keeps out failure none = Keeps-stop
  fail_with-Keeps out failure (some text) = finish-Keeps _ refl refl

  judge-Keeps : (answer : Option (RunOutcome × String)) → Keeps I (judge env codec w run answer)
  unfolding judge
  judge-Keeps none = finish-Keeps _ refl refl
  judge-Keeps (some (out, payload)) =
      Keeps-if (is_malfunction out.terminal_state) _ _ (fail_with-Keeps out _ _) (Keeps-pure _)

  settle-Keeps :
      (flags : Flags) (answer : Option (RunOutcome × String))
      → Keeps I (settle env codec w run flags answer)
  unfolding settle parent_done
  settle-Keeps flags answer =
      Triple-bind _ _ (record { at = λ _ i. i })
        λ gone.
          Keeps-if (flags.canceled && not run.publication_pending) _ _ (finish-Keeps _ refl refl)
            (Keeps-if (flags.lost || gone) _ _ Keeps-stop (judge-Keeps answer))

  unstaged-Keeps : (answer : Option Bool) → Keeps I (unstaged env codec w run answer)
  unfolding unstaged
  unstaged-Keeps none = Keeps-stop
  unstaged-Keeps (some b) = Triple-bind _ _ rules.beats (elim [
    | none ↦ Keeps-stop
    | some (requested, owned) ↦
        Keeps-if (owned && requested) _ _ (finish-Keeps _ refl refl) Keeps-stop
  ])

  staged_as-Keeps :
      (text : String) (answer : Option Bool) → Keeps I (staged_as env codec w run text answer)
  unfolding staged_as
  staged_as-Keeps text (some true) = Keeps-pure text
  staged_as-Keeps text (some false) = unstaged-Keeps (some false)
  staged_as-Keeps text none = unstaged-Keeps none

  stage_outcome-Keeps :
      (out : RunOutcome) (text : String)
      → Keeps I (stage_outcome env codec (claim env codec w run) out text)
  unfolding stage_outcome
  stage_outcome-Keeps out text =
      elim (Result-cases (validate_canonical_result_payload codec out text)) [
        | inl e ↦ rw (e.1, stage_outcome) (rules.calls _ refl refl)
        | inr e ↦ rw (e.1, stage_outcome) (Keeps-pure none)
      ]

  stage_new-Keeps :
      (out : RunOutcome) (payload : Result PayloadError String)
      → Keeps I (stage_new env codec w run out payload)
  unfolding stage_new
  stage_new-Keeps out (err e) = Keeps-stop
  stage_new-Keeps out (ok text) =
      Keeps-bind _ _ (stage_outcome-Keeps out text) (staged_as-Keeps text)

  stage_result-Keeps :
      (out : RunOutcome) (payload : String) → Keeps I (stage_result env codec w run out payload)
  unfolding stage_result
  stage_result-Keeps out payload =
      Keeps-if (is_some run.result) _ _ (Keeps-pure payload) (stage_new-Keeps out _)

  unavailable-Keeps :
      {A : Type 0} (out : RunOutcome) → Keeps I (unavailable env codec w run out {A = A})
  unfolding unavailable
  unavailable-Keeps out =
      Keeps-if run.publication_pending _ _ retry_later-Keeps (fail_with-Keeps out _ _)

  published_by-Keeps :
      (out : RunOutcome) (publisher : Option (Option Sink))
      → Keeps I (published_by env codec w run out publisher)
  unfolding published_by
  published_by-Keeps out none = unavailable-Keeps out
  published_by-Keeps out (some sink) =
      Keeps-if (is_none out.result_ref) _ _ (unavailable-Keeps out) (Keeps-pure sink)

  choose_publisher-Keeps : (out : RunOutcome) → Keeps I (choose_publisher env codec w run out)
  unfolding choose_publisher
  choose_publisher-Keeps out = published_by-Keeps out w.publisher

  fence-Keeps : Keeps I (fence env codec w run)
  unfolding fence
  fence-Keeps = Triple-bind _ _ rules.beats (elim [
    | none ↦ Keeps-stop
    | some (requested, owned) ↦ Keeps-if (not owned) _ _ Keeps-stop (
        Keeps-if requested _ _ (finish-Keeps _ refl refl) (
          Triple-bind _ _ (rules.calls _ refl refl)
            (elim [ some true ↦ Keeps-pure tt | some false ↦ Keeps-stop | none ↦ Keeps-stop ])))
  ])

  publish_result-Triple :
      (sink : Option Sink) (out : RunOutcome) (payload : String)
      → Triple I
          (publish_result env codec w run sink out payload)
          (λ _ world. I world × Found out payload world)
          I
  unfolding publish_result
  publish_result-Triple sink out payload =
      Triple-if run.publication_pending _ _
        (λ _.
          Triple-if w.supports_verification _ _ (λ _. reconcile-Keeps sink out payload)
            (λ _. retry_later-Keeps))
        (λ unpublished. Triple-bind _ _ (rules.publishes sink out payload unpublished) (elim [
          | sent ↦ Triple-pure tt (λ world h. (h.0, h.1 refl))
          | refused plain ↦ record { at = λ world h. retry_later-Keeps.at world h.0 }
          | refused (verification s) ↦
              Triple-if w.supports_verification _ _
                (λ _. record { at = λ world h. (reconcile-Keeps sink out payload).at world h.0 })
                (λ _. record { at = λ world h. retry_later-Keeps.at world h.0 })
        ]))

  -- `executeOne` keeps the invariant, whatever the environment does.
  pub execute_one-Keeps : Keeps I (execute_one env codec w run)
  unfolding execute_one
  execute_one-Keeps =
      Triple-bind _ _ (record { at = λ _ i. i })
        λ started. Keeps-bind _ _ (monitor-Keeps env.ticks started _) λ flags.
          Keeps-bind _ _ obtain-Keeps λ answer.
            Keeps-bind _ _ (settle-Keeps flags answer) λ (out, unstaged_payload).
              Keeps-bind _ _ (stage_result-Keeps out unstaged_payload) λ payload.
                Keeps-bind _ _ (choose_publisher-Keeps out) λ sink.
                  Keeps-bind _ _ (Keeps-if run.publication_pending _ _ (Keeps-pure tt) fence-Keeps)
                    λ _.
                      Triple-bind _ _ (publish_result-Triple sink out payload)
                        λ _. Triple-bind _ _ (rules.closes out payload) (λ _. Keeps-pure tt)
