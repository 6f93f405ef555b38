-- ===== src/Firewall/Judgement.antt =====
-- When `runFirewallInMemory` reports a match, and how the parts of its outcome fit together.
use test_miti_check.Prelude.{
  arith, ◌≡◌, refl, sym, ◌∙◌, Bool, true, false, Option, none, some, ◌&&◌, ◌⊎◌, inl, inr,
  Bool-cases, if-both,
}
use test_miti_check.Prelude.Text.{Text, is_empty, trim_space}
use test_miti_check.Outcome.{RunOutcome, blocked, not_blocked, could_not_test}
use test_miti_check.Request.{Raw, missing, garbled, value, CandidateSpec}
use test_miti_check.Firewall.Address.{Ipv6}
use test_miti_check.Firewall.Rule.{FwRule}
use test_miti_check.Firewall.Compact.{RuleError, Result, ok, err}
use test_miti_check.Firewall.Iptables.{compile}
use test_miti_check.Firewall.Denied.{Denies, denies-Denies, Denies-denies}
use test_miti_check.Firewall.Verdict.{
  tested, expecting, FirewallTestBasis, untestable, denies, denied, allowed, agree, limit, evaluate,
  run_test, run_basis, run_firewall, embed,
}

-- The rule is there, it parses, it denies the connection, and blocking is what is expected.
pub record Mitigates (net : Ipv6) (c : CandidateSpec) (t : FirewallTestBasis) : Type 0 where
  pub rule : FwRule
  pub given : is_empty (trim_space c.rule) ≡ false
  pub parsed : compile net c ≡ ok rule
  pub denied : Denies net rule t.connection
  pub wanted : t.expected.blocked ≡ some true

-- The terminal state tells what the outcome reports of the connection.
abbrev pub IsCoherent : RunOutcome → Type 0
IsCoherent o =
    ((o.terminal_state ≡ blocked) × (o.actual.blocked ≡ true) × (o.actual.reached_app ≡ false))
    ⊎ ((o.terminal_state ≡ not_blocked)
        × (o.actual.blocked ≡ false)
        × (o.actual.reached_app ≡ true)
        × (o.is_match ≡ false))
    ⊎ ((o.terminal_state ≡ could_not_test) × (o.is_match ≡ false))

embed-is_match : (c : CandidateSpec) (o : RunOutcome) → (embed c o).is_match ≡ o.is_match
unfolding embed
embed-is_match c o = refl

limit-is_match : (p : Text) (o : RunOutcome) → (limit p o).is_match ≡ o.is_match
unfolding limit
limit-is_match p o = ground arith

limit-IsCoherent : (p : Text) (o : RunOutcome) → IsCoherent o → IsCoherent (limit p o)
unfolding limit
limit-IsCoherent p o h = ground arith

evaluate-is_match :
    (net : Ipv6) (r : FwRule) (t : FirewallTestBasis) (o : RunOutcome)
    → (evaluate net r t o).is_match ≡ denies net r t.connection && o.expected.blocked
unfolding evaluate limit agree denied allowed
evaluate-is_match net r t o = ground arith

evaluate-IsCoherent :
    (net : Ipv6) (r : FwRule) (t : FirewallTestBasis) (o : RunOutcome)
    → IsCoherent (evaluate net r t o)
unfolding evaluate limit agree denied allowed
evaluate-IsCoherent net r t o = ground arith

evaluate-blocked :
    (net : Ipv6) (r : FwRule) (t : FirewallTestBasis) (o : RunOutcome)
    → denies net r t.connection ≡ true
    → (evaluate net r t o).terminal_state ≡ blocked
unfolding evaluate limit agree denied allowed
evaluate-blocked net r t o d = ground arith

module _ (net : Ipv6) (describe : RuleError → Text) where
  tested-matched :
      (c : CandidateSpec) (r : Result RuleError FwRule) (t : FirewallTestBasis) (o : RunOutcome)
      → is_empty (trim_space c.rule) ≡ false
      → compile net c ≡ r
      → o.is_match ≡ false
      → t.expected.blocked ≡ some o.expected.blocked
      → (tested net describe r t o).is_match ≡ true
      → Mitigates net c t
  unfolding tested untestable
  tested-matched c (err e) t o g p fresh w m = ground arith
  tested-matched c (ok r) t o g p fresh w m =
      let both : denies net r t.connection && o.expected.blocked ≡ true =
        sym (evaluate-is_match net r t o) ∙ m in
      record {
        rule = r;
        given = g;
        parsed = p;
        denied = denies-Denies net r t.connection (ground arith);
        wanted = ground arith;
      }

  run_test-matched :
      (c : CandidateSpec) (t : FirewallTestBasis) (b : Option Bool) (o : RunOutcome)
      → is_empty (trim_space c.rule) ≡ false
      → o.is_match ≡ false
      → t.expected.blocked ≡ b
      → (run_test net describe c t b o).is_match ≡ true
      → Mitigates net c t
  unfolding run_test untestable expecting
  run_test-matched c t none o g fresh w m = ground arith
  run_test-matched c t (some b) o g fresh w m =
      tested-matched c (compile net c) t (expecting t.expected b o) g refl fresh w m

  matched-Mitigates :
      (c : CandidateSpec) (t : FirewallTestBasis) (o : RunOutcome)
      → o.is_match ≡ false
      → (run_firewall net describe (value c) (value t) o).is_match ≡ true
      → Mitigates net c t
  unfolding run_firewall run_basis untestable
  matched-Mitigates c t o fresh m = elim (Bool-cases (is_empty (trim_space c.rule))) [
    | inl g ↦ ground arith
    | inr g ↦
        run_test-matched c t (t.expected.blocked) (embed c o) g (embed-is_match c o ∙ fresh) refl
          (sym (rw g refl) ∙ m)
  ]

  Mitigates-run_firewall :
      (c : CandidateSpec) (t : FirewallTestBasis) (o : RunOutcome)
      → Mitigates net c t
      → ((run_firewall net describe (value c) (value t) o).is_match ≡ true)
        × ((run_firewall net describe (value c) (value t) o).terminal_state ≡ blocked)
  unfolding run_firewall run_basis run_test tested expecting
  Mitigates-run_firewall c t o h =
      let p = h.parsed in
      let g = h.given in
      let w = h.wanted in
      let d = Denies-denies net h.rule t.connection h.denied in
      let o' = expecting t.expected true (embed c o) in
      rw (g, w, p)
        (rw (evaluate-is_match net h.rule t o', d) refl, evaluate-blocked net h.rule t o' d)

  -- A firewall run that starts as no match reports a match only when the candidate rule is
  -- given and parses, denies the connection of the test, and the test expects the connection to
  -- be blocked; and when all that holds, it reports a match and the connection as blocked. A
  -- rule denies a connection when its action is `deny` and its protocol, its networks and its
  -- ports have the connection.
  pub run_firewall-Mitigates :
      (c : CandidateSpec) (t : FirewallTestBasis) (o : RunOutcome)
      → o.is_match ≡ false
      → ((run_firewall net describe (value c) (value t) o).is_match ≡ true → Mitigates net c t)
        × (Mitigates net c t
            → ((run_firewall net describe (value c) (value t) o).is_match ≡ true)
              × ((run_firewall net describe (value c) (value t) o).terminal_state ≡ blocked))
  run_firewall-Mitigates c t o fresh = (matched-Mitigates c t o fresh, Mitigates-run_firewall c t o)

  untestable-IsCoherent :
      (s : Text) (o : RunOutcome) → o.is_match ≡ false → IsCoherent (untestable s o)
  unfolding untestable
  untestable-IsCoherent s o fresh = inr (inr (refl, fresh))

  tested-IsCoherent :
      (r : Result RuleError FwRule) (t : FirewallTestBasis) (o : RunOutcome)
      → o.is_match ≡ false
      → IsCoherent (tested net describe r t o)
  unfolding tested untestable
  tested-IsCoherent (err e) t o fresh = inr (inr (refl, fresh))
  tested-IsCoherent (ok r) t o fresh = evaluate-IsCoherent net r t o

  run_test-IsCoherent :
      (c : CandidateSpec) (t : FirewallTestBasis) (b : Option Bool) (o : RunOutcome)
      → o.is_match ≡ false
      → IsCoherent (run_test net describe c t b o)
  unfolding run_test expecting untestable
  run_test-IsCoherent c t none o fresh = inr (inr (refl, fresh))
  run_test-IsCoherent c t (some b) o fresh =
      tested-IsCoherent (compile net c) t (expecting t.expected b o) fresh

  run_basis-IsCoherent :
      (c : CandidateSpec) (t : Raw FirewallTestBasis) (o : RunOutcome)
      → o.is_match ≡ false
      → IsCoherent (run_basis net describe c t o)
  unfolding run_basis untestable
  run_basis-IsCoherent c (value t) o fresh = run_test-IsCoherent c t (t.expected.blocked) o fresh
  run_basis-IsCoherent c missing o fresh = inr (inr (refl, fresh))
  run_basis-IsCoherent c garbled o fresh = inr (inr (refl, fresh))

  -- Every outcome of a firewall run, whatever the request decodes to, is coherent, when it starts
  -- as no match: blocked with the connection stopped, not blocked with the connection let through
  -- and no match, or could-not-test with no match.
  pub run_firewall-IsCoherent :
      (c : Raw CandidateSpec) (t : Raw FirewallTestBasis) (o : RunOutcome)
      → o.is_match ≡ false
      → IsCoherent (run_firewall net describe c t o)
  unfolding run_firewall untestable
  run_firewall-IsCoherent (value c) t o fresh =
      if-both IsCoherent (is_empty (trim_space c.rule)) _ _ (inr (inr (refl, fresh)))
        (run_basis-IsCoherent c t (embed c o) (embed-is_match c o ∙ fresh))
  run_firewall-IsCoherent missing t o fresh = inr (inr (refl, fresh))
  run_firewall-IsCoherent garbled t o fresh = inr (inr (refl, fresh))
