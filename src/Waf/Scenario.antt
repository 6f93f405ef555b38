-- ===== src/Waf/Scenario.antt =====
-- `executeScenario` of api/executor.go. `defer sb.cleanup()` is the last call of a run.
use test_miti_check.Prelude.{
  String, Bool, true, false, Option, none, some, List, [], ◌∷◌, ◌++◌, ◌&&◌, not, if◌then◌else◌,
}
use test_miti_check.Prelude.Text.{Text, text, text_eq, is_empty}
use test_miti_check.Prelude.Text.Numbers.{decimal}
use test_miti_check.Prelude.Results.{Result, ok, err}
use test_miti_check.Outcome.{RunOutcome, SubInfo}
use test_miti_check.Request.{CandidateSpec, TestBasisSpec, SubstrateSpec}
use test_miti_check.Firewall.Verdict.{note, untestable, run_firewall, embed}
use test_miti_check.Api.Submission.{SubmitRequest}
use test_miti_check.Substrate.{Call, Substrate, Brought, release}
use test_miti_check.Substrate.Local.{bring_up_local, bring_up_in_memory, wait_ready, forward}
use test_miti_check.Substrate.Azure.{bring_up_aci, bring_up_aci_sp}
use test_miti_check.Substrate.Github.{run_via_github}
use test_miti_check.Substrate.Ghcr.{run_via_ghcr}
use test_miti_check.Waf.Rule.{WafRule, CompileError, compile_rule, evaluate_rule}
use test_miti_check.Waf.Verdict.{
  World, Ran, silent, new_outcome, substrate_of, firewall_basis, candidate_of, test_of, fired,
  conclude, forwarded_run,
}

module _ (world : World) where
  -- On a substrate that is ready, from the value that the rule matches on, if there is one.
  unfoldable pub judged_run : WafRule → TestBasisSpec → Text → Option Text → RunOutcome → Ran
  unfolding forward forwarded_run conclude fired
  judged_run w t base (some s) out = silent (conclude t (fired w s out))
  judged_run w t base none out = forwarded_run t (forward world.send base t.request) out

  unfoldable pub test_rule : WafRule → TestBasisSpec → Text → RunOutcome → Ran
  unfolding evaluate_rule judged_run
  test_rule w t base out = judged_run w t base (evaluate_rule world.url w t.request) out

  unfoldable pub ready_run : WafRule → TestBasisSpec → Text → Option Text → RunOutcome → Ran
  unfolding test_rule untestable text
  ready_run w t base (some e) out =
      silent (untestable (text "substrate did not become ready: " ++ e) out)
  ready_run w t base none out = test_rule w t base (
      note (text "substrate ready (app responding on " ++ base ++ text ")")
        (record out { substrate = record (out.substrate) { ready = true } }))

  -- From the answer of bringing the substrate up on, with the release at the end.
  unfoldable pub answered_run :
      WafRule → TestBasisSpec → List Call → Result Text Substrate → RunOutcome → Ran
  unfolding ready_run wait_ready release untestable
  answered_run w t calls (err reason) out = record {
    outcome = untestable reason out;
    calls = calls;
  }
  answered_run w t calls (ok s) out =
      let run = ready_run w t s.base (wait_ready (world.polls s.base)) out in
      record { outcome = run.outcome; calls = calls ++ run.calls ++ release s.resource }

  unfoldable pub brought_run : WafRule → TestBasisSpec → Brought → RunOutcome → Ran
  unfolding answered_run
  brought_run w t b out =
      answered_run w t b.calls b.answer
        (record out { substrate = b.info; steps = out.steps ++ b.steps })

  -- The substrate of a mode, `none` for a mode that is not known.
  unfoldable pub bring_up : Text → SubInfo → SubstrateSpec → Text → Option Brought
  unfolding text_eq text bring_up_local bring_up_in_memory bring_up_aci bring_up_aci_sp
  bring_up mode info sub run_id =
      if text_eq mode (text "local")
      then some (bring_up_local world.docker info sub run_id)
      else if text_eq mode (text "inmemory")
      then some (bring_up_in_memory world.listen info sub)
      else if text_eq mode (text "aci")
      then some (bring_up_aci world.azure info sub run_id)
      else if text_eq mode (text "aci-sp")
      then some (bring_up_aci_sp world.azure info sub run_id)
      else none

  -- The limitation of a rule whose pattern was clamped.
  unfoldable pub clamp_limit : Bool → RunOutcome → RunOutcome
  unfolding text
  clamp_limit false out = out
  clamp_limit true out = record out {
    limitations =
        out.limitations
        ++ (text
            "a PCRE quantifier bound >1000 was clamped to 1000 to compile under RE2; matching differs only for inputs longer than ~1000 chars around the match")
          ∷ [];
  }

  unfoldable pub compiled_step : WafRule → RunOutcome → RunOutcome
  unfolding clamp_limit text decimal
  compiled_step w out = clamp_limit w.clamped (
      note
        (text "parsed candidate SecRule id="
          ++ w.rule_id
          ++ text " (deny→"
          ++ decimal w.status
          ++ text ")")
        out)

  abbrev pub named : CandidateSpec → WafRule → CandidateSpec
  named c w = if is_empty c.rule_id then record c { rule_id = w.rule_id } else c

  unfoldable pub mode_run :
      Text → SubstrateSpec → WafRule → TestBasisSpec → Option Brought → RunOutcome → Ran
  unfolding brought_run untestable text
  mode_run mode sub w t none out =
      silent
        (untestable (text "unknown execution_mode: " ++ mode ++ text " (use 'local' or 'aci')") out)
  mode_run mode sub w t (some b) out = brought_run w t b out

  -- From the answer of the compiler on.
  unfoldable pub compiled_run :
      Text
      → SubstrateSpec
      → CandidateSpec
      → TestBasisSpec
      → Result CompileError WafRule
      → RunOutcome
      → Ran
  unfolding mode_run bring_up untestable compiled_step text embed
  compiled_run mode sub c t (err e) out =
      silent
        (untestable (text "could not parse candidate SecRule: " ++ world.describe_compile e) out)
  compiled_run mode sub c t (ok w) start =
      let out = compiled_step w (embed (named c w) start) in
      mode_run mode sub w t (bring_up mode out.substrate sub (text out.run_id)) out

  unfoldable pub expecting_test :
      SubstrateSpec → CandidateSpec → TestBasisSpec → Bool → RunOutcome → RunOutcome
  expecting_test sub c t b out = record out {
    expected = record {
      classification = t.expected.classification;
      blocked = b;
      status_code = t.expected.status_code;
    };
    substrate = record (out.substrate) { image = sub.image };
    candidate = some c;
    test_basis = some t;
  }

  -- The rule and the test of a request, on the substrate of its mode.
  unfoldable pub prepared_run :
      SubmitRequest
      → Text
      → SubstrateSpec
      → Option CandidateSpec
      → Option (TestBasisSpec × Bool)
      → RunOutcome
      → Ran
  unfolding compiled_run expecting_test untestable run_via_github run_via_ghcr compile_rule text_eq
      text
  prepared_run r mode sub none t out =
      silent (untestable (text "candidate WAF rule not provided in request body") out)
  prepared_run r mode sub (some c) none out =
      silent (untestable (text "test basis / expected outcome not provided in request body") out)
  prepared_run r mode sub (some c) (some (t, b)) start =
      let out = expecting_test sub c t b start in
      if text_eq mode (text "github")
      then silent (run_via_github world.github r out)
      else if text_eq mode (text "github-ghcr")
      then silent (run_via_ghcr world.github r out)
      else compiled_run mode sub c t (compile_rule world.engine c) out

  abbrev pub with_image : SubstrateSpec → SubstrateSpec
  with_image sub =
      if is_empty sub.image then record sub { image = text "(no substrate provided)" } else sub

  abbrev pub mode_of : SubmitRequest → Text
  mode_of r = if is_empty r.execution_mode then text "inmemory" else r.execution_mode

  abbrev pub start_run : Text → String → String → RunOutcome
  start_run mode run_id result_id =
      let out = new_outcome run_id result_id in
      note (text "execution mode: " ++ mode)
        (record out { substrate = record (out.substrate) { runner = mode } })

  -- `executeScenario`.
  unfoldable pub execute_scenario : SubmitRequest → String → String → Ran
  unfolding prepared_run run_firewall untestable text_eq text
  execute_scenario r run_id result_id =
      let mode = mode_of r in
      let out = start_run mode run_id result_id in
      let sub = substrate_of r.substrate in
      if text_eq mode (text "firewall")
      then silent
          (run_firewall world.net world.describe r.candidate (firewall_basis r.test_basis) out)
      else if is_empty sub.image && not (text_eq mode (text "inmemory"))
      then silent (untestable (text "substrate image not provided in request body") out)
      else prepared_run r mode (with_image sub) (candidate_of r.candidate) (test_of r.test_basis)
          out
