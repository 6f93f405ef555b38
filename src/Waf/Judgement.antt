-- ===== src/Waf/Judgement.antt =====
-- When `executeScenario` of api/executor.go reports a match, how its outcome fits what it did, and
-- what it releases.
use test_miti_check.Prelude.{
  arith, ◌≡◌, refl, sym, ap, ◌∙◌, ℕ, Bool, true, false, Option, none, some, List, [], inr,
}
use test_miti_check.Prelude.Text.{Text}
use test_miti_check.Prelude.Results.{Result, ok, err}
use test_miti_check.Outcome.{RunOutcome, TerminalState, blocked, not_blocked}
use test_miti_check.Request.{TestBasisSpec}
use test_miti_check.Firewall.Verdict.{untestable, agree, limit}
use test_miti_check.Firewall.Judgement.{IsCoherent}
use test_miti_check.Substrate.{Call, Brought}
use test_miti_check.Substrate.Local.{forward, wait_ready}
use test_miti_check.Substrate.Conduct.{forwards, forwards-released, IsAccounted, gone, held}
use test_miti_check.Waf.Rule.{WafRule, evaluate_rule}
use test_miti_check.Waf.Verdict.{World, Ran, silent, fired, passed, conclude, forwarded_run}
use test_miti_check.Waf.Scenario.{judged_run, test_rule, ready_run, answered_run}

-- The outcome is coherent, a match has its reason, and a request that is reported as blocked did not
-- reach the application.
pub record IsJust (W : Type 0) (r : Ran) : Type 0 where
  pub coherent : IsCoherent r.outcome
  pub earned : r.outcome.is_match ≡ true → W
  pub shielded : r.outcome.terminal_state ≡ blocked → forwards r.calls ≡ []

-- A test is expected to be blocked as the outcome says, which is not a match yet.
pub record Starts (t : TestBasisSpec) (o : RunOutcome) : Type 0 where
  pub fresh : o.is_match ≡ false
  pub wanted : t.expected.blocked ≡ some o.expected.blocked

fired-is_match :
    (w : WafRule) (t : TestBasisSpec) (s : Text) (o : RunOutcome)
    → (conclude t (fired w s o)).is_match ≡ o.expected.blocked
unfolding conclude agree limit fired
fired-is_match w t s o = ground arith

passed-is_match :
    (t : TestBasisSpec) (n : ℕ) (s : Text) (o : RunOutcome)
    → (conclude t (passed n s o)).is_match ≡ false
unfolding conclude agree limit passed
passed-is_match t n s o = ground arith

fired-IsCoherent :
    (w : WafRule) (t : TestBasisSpec) (s : Text) (o : RunOutcome)
    → IsCoherent (conclude t (fired w s o))
unfolding conclude agree limit fired
fired-IsCoherent w t s o = ground arith

passed-IsCoherent :
    (t : TestBasisSpec) (n : ℕ) (s : Text) (o : RunOutcome) → IsCoherent (conclude t (passed n s o))
unfolding conclude agree limit passed
passed-IsCoherent t n s o = ground arith

passed-not_blocked :
    (t : TestBasisSpec) (n : ℕ) (s : Text) (o : RunOutcome)
    → (conclude t (passed n s o)).terminal_state ≡ not_blocked
unfolding conclude agree limit passed
passed-not_blocked t n s o = ground arith

refuted : {b : Bool} → b ≡ false → b ≡ true → ⊥
refuted h k = ground arith

misread : {s : TerminalState} → s ≡ not_blocked → s ≡ blocked → ⊥
misread h k = ground arith

pub untested-IsJust :
    (W : Type 0) (s : Text) (o : RunOutcome) (calls : List Call)
    → o.is_match ≡ false
    → IsJust W (record { outcome = untestable s o; calls = calls })
unfolding untestable
untested-IsJust W s o calls h = record {
  coherent = inr (inr (refl, h));
  earned = λ m. ground arith;
  shielded = λ b. ground arith;
}

module _ (world : World) (w : WafRule) (t : TestBasisSpec) (W : Type 0)
    (reason : (s : Text)
      → evaluate_rule world.url w t.request ≡ some s
      → t.expected.blocked ≡ some true
      → W) where
  fired-IsJust :
      (s : Text) (o : RunOutcome)
      → Starts t o
      → evaluate_rule world.url w t.request ≡ some s
      → IsJust W (silent (conclude t (fired w s o)))
  unfolding forwards
  fired-IsJust s o h e = record {
    coherent = fired-IsCoherent w t s o;
    earned = λ m. reason s e (h.wanted ∙ ap some (sym (fired-is_match w t s o) ∙ m));
    shielded = λ b. refl;
  }

  forwarded-IsJust :
      (o : RunOutcome) (calls : List Call) (answer : Result Text (ℕ × Text))
      → Starts t o
      → IsJust W (forwarded_run t (calls, answer) o)
  unfolding forwarded_run
  forwarded-IsJust o calls (err e) h = untested-IsJust W _ o calls h.fresh
  forwarded-IsJust o calls (ok (n, body)) h = record {
    coherent = passed-IsCoherent t n body o;
    earned = λ m. absurd (refuted (passed-is_match t n body o) m);
    shielded = λ b. absurd (misread (passed-not_blocked t n body o) b);
  }

  judged_run-IsJust :
      (base : Text) (found : Option Text) (o : RunOutcome)
      → Starts t o
      → evaluate_rule world.url w t.request ≡ found
      → IsJust W (judged_run world w t base found o)
  unfolding judged_run forward
  judged_run-IsJust base (some s) o h e = fired-IsJust s o h e
  judged_run-IsJust base none o h e = forwarded-IsJust o _ _ h

  ready_run-IsJust :
      (base : Text) (e : Option Text) (o : RunOutcome)
      → Starts t o
      → IsJust W (ready_run world w t base e o)
  unfolding ready_run test_rule
  ready_run-IsJust base (some e) o h = untested-IsJust W _ o [] h.fresh
  ready_run-IsJust base none o h =
      judged_run-IsJust base _ _ (record { fresh = h.fresh; wanted = h.wanted }) refl

  pub answered_run-IsJust :
      (b : Brought) (o : RunOutcome)
      → Starts t o
      → IsAccounted b
      → IsJust W (answered_run world w t b.calls b.answer o)
  unfolding answered_run forwards
  answered_run-IsJust b o h (gone r a c f) = rw a (untested-IsJust W r o b.calls h.fresh)
  answered_run-IsJust b o h (held s a c f) =
      let run = ready_run world w t s.base (wait_ready (world.polls s.base)) o in
      let just = ready_run-IsJust s.base (wait_ready (world.polls s.base)) o h in
      rw (a, c, f)
        (record {
          coherent = just.coherent;
          earned = just.earned;
          shielded = λ e. forwards-released s.resource run.calls ∙ just.shielded e;
        })
