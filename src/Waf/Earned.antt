-- ===== src/Waf/Earned.antt =====
-- `executeScenario` of api/executor.go as a whole: what a match that it reports rests on.
use test_miti_check.Prelude.{
  arith, ◌≡◌, refl, sym, ap, subst, ◌∙◌, String, Bool, true, false, Option, none, some, [], ◌&&◌,
  not, inl, inr, Bool-cases, Option-cases, if-both, some-injective,
}
use test_miti_check.Prelude.Text.{Text, text, text_eq, is_empty}
use test_miti_check.Prelude.Results.{Result, ok, err}
use test_miti_check.Outcome.{RunOutcome, SubInfo}
use test_miti_check.Request.{
  Raw, missing, garbled, value, CandidateSpec, TestBasisSpec, SubstrateSpec,
}
use test_miti_check.Firewall.Verdict.{untestable, run_firewall, run_basis, embed}
use test_miti_check.Firewall.Judgement.{Mitigates, run_firewall-Mitigates, run_firewall-IsCoherent}
use test_miti_check.Api.Submission.{SubmitRequest, BasisDocument, as_basis, as_firewall}
use test_miti_check.Substrate.{Brought}
use test_miti_check.Substrate.Conduct.{
  forwards, IsAccounted, Prints, bring_up_local-IsAccounted, bring_up_in_memory-IsAccounted,
  bring_up_aci-IsAccounted, bring_up_aci_sp-IsAccounted,
}
use test_miti_check.Waf.Rule.{WafRule, CompileError, compile_rule, evaluate_rule}
use test_miti_check.Waf.Verdict.{World, silent, candidate_of, test_of, substrate_of, firewall_basis}
use test_miti_check.Waf.Scenario.{
  brought_run, bring_up, mode_run, compiled_run, compiled_step, clamp_limit, expecting_test,
  prepared_run, execute_scenario, mode_of, with_image, start_run, named,
}
use test_miti_check.Waf.Judgement.{IsJust, Starts, untested-IsJust, answered_run-IsJust}

-- The rule of the request compiles, it matches a value that it selects from the request of the test,
-- and the test expects a block.
pub record Stops (world : World) (r : SubmitRequest) : Type 0 where
  pub candidate : CandidateSpec
  pub document : BasisDocument
  pub rule : WafRule
  pub found : Text
  pub given : r.candidate ≡ value candidate
  pub described : r.test_basis ≡ value document
  pub compiled : compile_rule world.engine candidate ≡ ok rule
  pub fires : evaluate_rule world.url rule ((as_basis document).request) ≡ some found
  pub wanted : document.expected.blocked ≡ some true

-- What makes a match.
pub data IsEarned (world : World) (r : SubmitRequest) : Type 0 where
  by_waf : Stops world r → IsEarned world r
  by_firewall :
      (c : CandidateSpec) (d : BasisDocument)
      → r.candidate ≡ value c
      → r.test_basis ≡ value d
      → Mitigates world.net c (as_firewall d)
      → IsEarned world r

-- The mode is not one of the two that hand the run to a GitHub workflow and report what it answers.
abbrev pub IsHere : Text → Type 0
IsHere mode = (text_eq mode (text "github") ≡ false) × (text_eq mode (text "github-ghcr") ≡ false)

-- Of a mode that is known.
abbrev pub Each : Option Brought → Type 0
Each b = (x : Brought) → b ≡ some x → IsAccounted x

module _ (world : World) (prints : Prints world.docker) (W : Type 0) where
  some-IsAccounted : (b : Brought) → IsAccounted b → Each (some b)
  some-IsAccounted b h x e = subst IsAccounted (some-injective e) h

  pub bring_up-IsAccounted :
      (mode : Text) (info : SubInfo) (sub : SubstrateSpec) (run_id : Text)
      → Each (bring_up world mode info sub run_id)
  unfolding bring_up
  bring_up-IsAccounted mode info sub run_id =
      if-both Each (text_eq mode (text "local")) _ _
        (some-IsAccounted _ (bring_up_local-IsAccounted world.docker prints info sub run_id))
        (if-both Each (text_eq mode (text "inmemory")) _ _
          (some-IsAccounted _ (bring_up_in_memory-IsAccounted world.listen info sub))
          (if-both Each (text_eq mode (text "aci")) _ _
            (some-IsAccounted _ (bring_up_aci-IsAccounted world.azure info sub run_id))
            (if-both Each (text_eq mode (text "aci-sp")) _ _
              (some-IsAccounted _ (bring_up_aci_sp-IsAccounted world.azure info sub run_id))
              (λ x e. ground arith))))

  mode_run-IsJust :
      (mode : Text) (sub : SubstrateSpec) (w : WafRule) (t : TestBasisSpec) (b : Option Brought)
      (o : RunOutcome)
      → Starts t o
      → Each b
      → ((s : Text)
          → evaluate_rule world.url w t.request ≡ some s
          → t.expected.blocked ≡ some true
          → W)
      → IsJust W (mode_run world mode sub w t b o)
  unfolding mode_run brought_run
  mode_run-IsJust mode sub w t none o h accounted reason = untested-IsJust W _ o [] h.fresh
  mode_run-IsJust mode sub w t (some b) o h accounted reason =
      answered_run-IsJust world w t W reason b _ (record { fresh = h.fresh; wanted = h.wanted })
        (accounted b refl)

  clamp_limit-Starts :
      (b : Bool) (t : TestBasisSpec) (o : RunOutcome)
      → Starts t o
      → Starts t (clamp_limit world b o)
  unfolding clamp_limit
  clamp_limit-Starts false t o h = h
  clamp_limit-Starts true t o h = record { fresh = h.fresh; wanted = h.wanted }

  compiled_step-Starts :
      (w : WafRule) (c : CandidateSpec) (t : TestBasisSpec) (o : RunOutcome)
      → Starts t o
      → Starts t (compiled_step world w (embed c o))
  unfolding compiled_step embed
  compiled_step-Starts w c t o h =
      clamp_limit-Starts w.clamped t _ (record { fresh = h.fresh; wanted = h.wanted })

  compiled_run-IsJust :
      (mode : Text) (sub : SubstrateSpec) (c : CandidateSpec) (t : TestBasisSpec)
      (rule : Result CompileError WafRule) (o : RunOutcome)
      → Starts t o
      → ((w : WafRule) (s : Text)
          → rule ≡ ok w
          → evaluate_rule world.url w t.request ≡ some s
          → t.expected.blocked ≡ some true
          → W)
      → IsJust W (compiled_run world mode sub c t rule o)
  unfolding compiled_run
  compiled_run-IsJust mode sub c t (err e) o h reason = untested-IsJust W _ o [] h.fresh
  compiled_run-IsJust mode sub c t (ok w) o h reason =
      let o' = compiled_step world w (embed (named world c w) o) in
      mode_run-IsJust mode sub w t _ o' (compiled_step-Starts w (named world c w) t o h)
        (bring_up-IsAccounted mode o'.substrate sub (text o'.run_id)) (λ s. reason w s refl)

  prepared_run-IsJust :
      (r : SubmitRequest) (mode : Text) (sub : SubstrateSpec) (c : Option CandidateSpec)
      (t : Option (TestBasisSpec × Bool)) (o : RunOutcome)
      → o.is_match ≡ false
      → IsHere mode
      → ((t' : TestBasisSpec) (b : Bool) → t ≡ some (t', b) → t'.expected.blocked ≡ some b)
      → ((c' : CandidateSpec) (t' : TestBasisSpec) (b : Bool) (w : WafRule) (s : Text)
          → c ≡ some c'
          → t ≡ some (t', b)
          → compile_rule world.engine c' ≡ ok w
          → evaluate_rule world.url w t'.request ≡ some s
          → t'.expected.blocked ≡ some true
          → W)
      → IsJust W (prepared_run world r mode sub c t o)
  unfolding prepared_run expecting_test
  prepared_run-IsJust r mode sub none t o fresh here expects reason = untested-IsJust W _ o [] fresh
  prepared_run-IsJust r mode sub (some c) none o fresh here expects reason =
      untested-IsJust W _ o [] fresh
  prepared_run-IsJust r mode sub (some c) (some (t, b)) o fresh (n, m) expects reason =
      rw (n, m)
        (compiled_run-IsJust mode sub c t (compile_rule world.engine c) _
          (record { fresh = fresh; wanted = expects t b refl }) (λ w s. reason c t b w s refl refl))

candidate_of-value :
    (raw : Raw CandidateSpec) (c : CandidateSpec) → candidate_of raw ≡ some c → raw ≡ value c
candidate_of-value missing c h = ground arith
candidate_of-value garbled c h = ground arith
candidate_of-value (value d) c h = elim (Bool-cases (is_empty d.rule)) [
  | inl e ↦ ground arith
  | inr n ↦ ap value (some-injective (sym (rw n refl) ∙ h))
]

-- What a test that can be run is decoded from.
record Decoded (raw : Raw BasisDocument) (t : TestBasisSpec) (b : Bool) : Type 0 where
  document : BasisDocument
  described : raw ≡ value document
  same : t ≡ as_basis document
  wanted : document.expected.blocked ≡ some b

none-some : {A : Type 0} {a : A} → none ≡ some a → ⊥
none-some h = ground arith

test_of-Decoded :
    (raw : Raw BasisDocument) (t : TestBasisSpec) (b : Bool)
    → test_of raw ≡ some (t, b)
    → Decoded raw t b
test_of-Decoded missing t b h = ground arith
test_of-Decoded garbled t b h = ground arith
test_of-Decoded (value d) t b h = elim (Option-cases d.expected.blocked) [
  | inl e ↦ absurd (none-some (sym (rw e refl) ∙ h))
  | inr (x, e) ↦
      let pair : (as_basis d, x) ≡ (t, b) = some-injective (sym (rw e refl) ∙ h) in
      record {
        document = d;
        described = refl;
        same = sym (ap (λ p. p.0) pair);
        wanted = e ∙ ap some (ap (λ p. p.1) pair);
      }
]

module _ (world : World) (prints : Prints world.docker) (r : SubmitRequest) where
  waf-IsEarned :
      (c : CandidateSpec) (t : TestBasisSpec) (b : Bool) (w : WafRule) (s : Text)
      → candidate_of r.candidate ≡ some c
      → test_of r.test_basis ≡ some (t, b)
      → compile_rule world.engine c ≡ ok w
      → evaluate_rule world.url w t.request ≡ some s
      → t.expected.blocked ≡ some true
      → IsEarned world r
  waf-IsEarned c t b w s hc ht hw hs e =
      let d = test_of-Decoded r.test_basis t b ht in
      by_waf (record {
        candidate = c;
        document = d.document;
        rule = w;
        found = s;
        given = candidate_of-value r.candidate c hc;
        described = d.described;
        compiled = hw;
        fires = subst (λ x. evaluate_rule world.url w (x.request) ≡ some s) d.same hs;
        wanted = subst (λ x. x.expected.blocked ≡ some true) d.same e;
      })

  firewall-IsEarned :
      (c : Raw CandidateSpec) (d : Raw BasisDocument) (o : RunOutcome)
      → r.candidate ≡ c
      → r.test_basis ≡ d
      → o.is_match ≡ false
      → (run_firewall world.net world.describe c (firewall_basis d) o).is_match ≡ true
      → IsEarned world r
  unfolding run_firewall run_basis untestable embed
  firewall-IsEarned missing d o hc hd fresh m = ground arith
  firewall-IsEarned garbled d o hc hd fresh m = ground arith
  firewall-IsEarned (value c) missing o hc hd fresh m = ground arith
  firewall-IsEarned (value c) garbled o hc hd fresh m = ground arith
  firewall-IsEarned (value c) (value d) o hc hd fresh m =
      by_firewall c d hc hd
        ((run_firewall-Mitigates world.net world.describe c (as_firewall d) o fresh).0 m)

  firewall-IsJust :
      (o : RunOutcome)
      → o.is_match ≡ false
      → IsJust (IsEarned world r) (
          silent
            (run_firewall world.net world.describe r.candidate (firewall_basis r.test_basis) o))
  unfolding forwards
  firewall-IsJust o fresh = record {
    coherent =
        run_firewall-IsCoherent world.net world.describe r.candidate (firewall_basis r.test_basis) o
          fresh;
    earned = λ m. firewall-IsEarned r.candidate r.test_basis o refl refl fresh m;
    shielded = λ b. refl;
  }

  -- A run that is not handed to a GitHub workflow, whatever the request and the substrate do, has
  -- a coherent outcome: blocked, not blocked and then no match, or could-not-test with no match. It
  -- reports a match only when the request's rule compiles, matches a value that it selects from the
  -- request of the test, and the test expects a block, or, in firewall mode, when the firewall rule
  -- denies the connection of the test and the test expects a block. And when it reports the request as
  -- blocked, it did not forward it. Docker is taken to print the id of a container that it starts.
  pub execute_scenario-IsJust :
      (run_id result_id : String)
      → IsHere (mode_of world r)
      → IsJust (IsEarned world r) (execute_scenario world r run_id result_id)
  unfolding execute_scenario
  execute_scenario-IsJust run_id result_id here =
      let mode = mode_of world r in
      let o = start_run world mode run_id result_id in
      let sub = substrate_of r.substrate in
      if-both (IsJust (IsEarned world r)) (text_eq mode (text "firewall")) _ _
        (firewall-IsJust o refl)
        (if-both (IsJust (IsEarned world r))
          (is_empty sub.image && not (text_eq mode (text "inmemory"))) _ _
          (untested-IsJust (IsEarned world r) _ o [] refl)
          (prepared_run-IsJust world prints (IsEarned world r) r mode (with_image world sub)
            (candidate_of r.candidate) (test_of r.test_basis) o refl here
            (λ t b h.
              let d = test_of-Decoded r.test_basis t b h in
              subst (λ x. x.expected.blocked ≡ some b) (sym d.same) d.wanted)
            waf-IsEarned))
