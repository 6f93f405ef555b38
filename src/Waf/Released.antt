-- ===== src/Waf/Released.antt =====
-- What `executeScenario` of api/executor.go leaves behind, in every mode.
use test_miti_check.Prelude.{
  refl, ℕ, String, Option, none, some, List, ◌&&◌, not, Bool, All, if-both,
}
use test_miti_check.Prelude.Text.{Text, text, text_eq, is_empty}
use test_miti_check.Prelude.Results.{Result, ok, err}
use test_miti_check.Outcome.{RunOutcome}
use test_miti_check.Request.{CandidateSpec, TestBasisSpec, SubstrateSpec}
use test_miti_check.Api.Submission.{SubmitRequest}
use test_miti_check.Substrate.{Call, Brought}
use test_miti_check.Substrate.Local.{forward, trimmed, wait_ready}
use test_miti_check.Substrate.Conduct.{
  IsForward, IsClean, unused, used, IsAccounted, gone, held, Prints,
}
use test_miti_check.Waf.Rule.{WafRule, CompileError, compile_rule}
use test_miti_check.Waf.Verdict.{World, Ran, forwarded_run, candidate_of, test_of, substrate_of}
use test_miti_check.Waf.Scenario.{
  judged_run, test_rule, ready_run, answered_run, brought_run, mode_run, compiled_run, prepared_run,
  execute_scenario, mode_of, with_image, start_run, expecting_test,
}
use test_miti_check.Waf.Earned.{Each, bring_up-IsAccounted}

abbrev HasClean : Ran → Type 0
HasClean run = IsClean run.calls

module _ (world : World) (w : WafRule) (t : TestBasisSpec) where
  forwarded_run-IsForward :
      (calls : List Call) (answer : Result Text (ℕ × Text)) (o : RunOutcome)
      → All IsForward calls
      → All IsForward (forwarded_run t (calls, answer) o).calls
  unfolding forwarded_run
  forwarded_run-IsForward calls (err e) o h = h
  forwarded_run-IsForward calls (ok (n, body)) o h = h

  judged_run-IsForward :
      (base : Text) (found : Option Text) (o : RunOutcome)
      → All IsForward (judged_run world w t base found o).calls
  unfolding judged_run forward
  judged_run-IsForward base (some s) o = tt
  judged_run-IsForward base none o =
      forwarded_run-IsForward _ (trimmed (world.send _ _ _ _)) o (tt, tt)

  ready_run-IsForward :
      (base : Text) (e : Option Text) (o : RunOutcome)
      → All IsForward (ready_run world w t base e o).calls
  unfolding ready_run test_rule
  ready_run-IsForward base (some e) o = tt
  ready_run-IsForward base none o = judged_run-IsForward base _ _

  answered_run-IsClean :
      (b : Brought) (o : RunOutcome)
      → IsAccounted b
      → IsClean (answered_run world w t b.calls b.answer o).calls
  unfolding answered_run
  answered_run-IsClean b o (gone r a c f) = rw a c
  answered_run-IsClean b o (held s a c f) =
      let polled = wait_ready (world.polls s.base) in
      rw (a, c, f)
        (used s.resource (ready_run world w t s.base polled o).calls
          (ready_run-IsForward s.base polled o) refl)

module _ (world : World) (prints : Prints world.docker) where
  mode_run-IsClean :
      (mode : Text) (sub : SubstrateSpec) (w : WafRule) (t : TestBasisSpec) (b : Option Brought)
      (o : RunOutcome)
      → Each b
      → IsClean (mode_run world mode sub w t b o).calls
  unfolding mode_run brought_run
  mode_run-IsClean mode sub w t none o h = unused refl
  mode_run-IsClean mode sub w t (some b) o h = answered_run-IsClean world w t b _ (h b refl)

  compiled_run-IsClean :
      (mode : Text) (sub : SubstrateSpec) (c : CandidateSpec) (t : TestBasisSpec)
      (rule : Result CompileError WafRule) (o : RunOutcome)
      → IsClean (compiled_run world mode sub c t rule o).calls
  unfolding compiled_run
  compiled_run-IsClean mode sub c t (err e) o = unused refl
  compiled_run-IsClean mode sub c t (ok w) o =
      mode_run-IsClean mode sub w t _ _ (bring_up-IsAccounted world prints Unit mode _ sub _)

  prepared_run-IsClean :
      (r : SubmitRequest) (mode : Text) (sub : SubstrateSpec) (c : Option CandidateSpec)
      (t : Option (TestBasisSpec × Bool)) (o : RunOutcome)
      → IsClean (prepared_run world r mode sub c t o).calls
  unfolding prepared_run
  prepared_run-IsClean r mode sub none t o = unused refl
  prepared_run-IsClean r mode sub (some c) none o = unused refl
  prepared_run-IsClean r mode sub (some c) (some (t, b)) o =
      if-both HasClean (text_eq mode (text "github")) _ _ (unused refl) (
        if-both HasClean (text_eq mode (text "github-ghcr")) _ _ (unused refl) (
          compiled_run-IsClean mode sub c t (compile_rule world.engine c)
            (expecting_test world sub c t b o)))

  -- A run, whatever the request and the world do, either creates no container, server or
  -- container group, or creates one, makes only requests to the application after that, and
  -- releases it as its last call. A command or a request that reports that it could not create
  -- one is taken to have created nothing, and Docker is taken to print the id of a container
  -- that it starts.
  pub execute_scenario-IsClean :
      (r : SubmitRequest) (run_id result_id : String)
      → IsClean (execute_scenario world r run_id result_id).calls
  unfolding execute_scenario
  execute_scenario-IsClean r run_id result_id =
      let mode = mode_of world r in
      let sub = substrate_of r.substrate in
      if-both HasClean (text_eq mode (text "firewall")) _ _ (unused refl) (
        if-both HasClean (is_empty sub.image && not (text_eq mode (text "inmemory"))) _ _
          (unused refl)
          (prepared_run-IsClean r mode (with_image world sub) (candidate_of r.candidate)
            (test_of r.test_basis) (start_run world mode run_id result_id)))
