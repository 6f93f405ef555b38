-- ===== src/Firewall/Verdict.antt =====
-- `runFirewallInMemory` of api/substrate_firewall.go and `couldNotTest` of api/executor.go. The
-- wording of a parser's error is a parameter.
use test_miti_check.Prelude.{
  Bool, true, false, Option, none, some, [], ◌∷◌, ◌++◌, ◌&&◌, not, if◌then◌else◌,
}
use test_miti_check.Prelude.Text.{Text, text, text_eq, is_empty, trim_space}
use test_miti_check.Prelude.Text.Numbers.{decimal_int}
use test_miti_check.Outcome.{RunOutcome, TerminalState, blocked, not_blocked, could_not_test}
use test_miti_check.Request.{Raw, value, CandidateSpec, TestExpected}
use test_miti_check.Firewall.Address.{Ipv6}
use test_miti_check.Firewall.Rule.{Connection, FwRule, matches}
use test_miti_check.Firewall.Compact.{RuleError, Result, ok, err}
use test_miti_check.Firewall.Iptables.{compile}

pub record FirewallTestBasis : Type 0 where
  pub kind : Text
  pub proof_basis : Text
  pub connection : Connection
  pub expected : TestExpected

abbrev pub note : Text → RunOutcome → RunOutcome
note step out = record out { steps = out.steps ++ (step ∷ []) }

unfoldable pub untestable : Text → RunOutcome → RunOutcome
unfolding text
untestable reason out = record (note (text "could-not-test: " ++ reason) out) {
  terminal_state = could_not_test;
  actual = record (out.actual) { detail = reason };
  prose_summary = text "Could not produce a trustworthy block/pass verdict: " ++ reason;
}

-- The connection as the steps name it.
abbrev pub endpoint : Connection → Text
endpoint c = c.dst_ip ++ (b':' ∷ decimal_int c.dst_port)

unfoldable pub parsed_step : FwRule → Text
unfolding text
parsed_step r =
    text "parsed firewall rule "
    ++ r.rule_id
    ++ text " ("
    ++ r.action
    ++ text " "
    ++ r.proto
    ++ text ")"

unfoldable pub connection_step : Connection → Text
unfolding text decimal_int
connection_step c =
    text "evaluating connection " ++ c.protocol ++ text " " ++ c.src_ip ++ text " -> " ++ endpoint c

-- Whether the rule denies the connection.
unfoldable pub denies : Ipv6 → FwRule → Connection → Bool
unfolding matches text_eq text
denies net r c = matches net r c && text_eq r.action (text "deny")

unfoldable pub denied : FwRule → RunOutcome → RunOutcome
unfolding text
denied r out = record (note (text "firewall DENY matched -> connection blocked") out) {
  actual = record {
    blocked = true;
    status_code = 0;
    reached_app = false;
    matched_rule_id = r.rule_id;
    detail = text "firewall rule " ++ r.rule_id ++ text " matched; connection denied";
  };
  terminal_state = blocked;
}

unfoldable pub allowed : RunOutcome → RunOutcome
unfolding text
allowed out = record (note (text "no deny match -> connection allowed") out) {
  actual = record {
    blocked = false;
    status_code = 0;
    reached_app = true;
    matched_rule_id = [];
    detail = text "no denying firewall rule matched; connection allowed to reach the destination";
  };
  terminal_state = not_blocked;
}

unfoldable pub agree : RunOutcome → RunOutcome
agree out = record out {
  is_match =
      out.actual.blocked
      && (if out.expected.blocked then out.actual.blocked else not out.actual.blocked);
}

unfoldable pub summary : FwRule → Connection → RunOutcome → Text
unfolding text decimal_int
summary r c out =
    text "Firewall rule "
    ++ r.rule_id
    ++ text " "
    ++ (if out.actual.blocked then text "BLOCKED" else text "ALLOWED")
    ++ text " the "
    ++ c.protocol
    ++ text " connection to "
    ++ endpoint c
    ++ text "; actual "
    ++ (if out.is_match then text "matches" else text "does NOT match")
    ++ text " expected."

abbrev pub is_blocked : TerminalState → Bool
is_blocked blocked = true
is_blocked _ = false

unfoldable pub limit : Text → RunOutcome → RunOutcome
unfolding text text_eq
limit proof_basis out =
    if text_eq proof_basis (text "mitigation-discriminator") && is_blocked out.terminal_state
    then record out {
      limitations =
          out.limitations
          ++ (text "indirect proof: only discriminator behavior was proven blocked (LLD §7.3)"
              ∷ []);
    }
    else out

-- From the parsed rule on.
unfoldable pub evaluate : Ipv6 → FwRule → FirewallTestBasis → RunOutcome → RunOutcome
unfolding denies denied allowed agree summary limit parsed_step connection_step
evaluate net r test start =
    let c = test.connection in
    let out = note (connection_step c) (note (parsed_step r) start) in
    let judged = agree (if denies net r c then denied r out else allowed out) in
    limit test.proof_basis (record judged { prose_summary = summary r c judged })

unfoldable pub expecting : TestExpected → Bool → RunOutcome → RunOutcome
unfolding text
expecting e b start = record start {
  expected = record { classification = e.classification; blocked = b; status_code = e.status_code };
  substrate = record (start.substrate) { image = text "network firewall (in-memory)" };
}

-- The rule stands in the outcome.
unfoldable pub embed : CandidateSpec → RunOutcome → RunOutcome
embed candidate out = record out { candidate = some candidate }

module _ (net : Ipv6) (describe : RuleError → Text) where
  -- From the answer of the parser on.
  unfoldable pub tested : Result RuleError FwRule → FirewallTestBasis → RunOutcome → RunOutcome
  unfolding evaluate untestable text
  tested (err e) test out = untestable (text "could not parse firewall rule: " ++ describe e) out
  tested (ok r) test out = evaluate net r test out

  -- The decoded rule and test, at the expected outcome, if there is one.
  unfoldable pub run_test :
      CandidateSpec → FirewallTestBasis → Option Bool → RunOutcome → RunOutcome
  unfolding tested untestable expecting compile text
  run_test candidate test (some b) out =
      tested (compile net candidate) test (expecting test.expected b out)
  run_test candidate test none out =
      untestable (text "network-connection test / expected outcome not provided in request body")
        out

  unfoldable pub run_basis : CandidateSpec → Raw FirewallTestBasis → RunOutcome → RunOutcome
  unfolding run_test untestable text
  run_basis candidate (value test) out = run_test candidate test test.expected.blocked out
  run_basis candidate _ out =
      untestable (text "network-connection test / expected outcome not provided in request body")
        out

  unfoldable pub run_firewall : Raw CandidateSpec → Raw FirewallTestBasis → RunOutcome → RunOutcome
  unfolding run_basis untestable embed trim_space text
  run_firewall (value candidate) test out =
      if is_empty (trim_space candidate.rule)
      then untestable (text "firewall rule not provided in request body (candidate.rule)") out
      else run_basis candidate test (embed candidate out)
  run_firewall _ test out =
      untestable (text "firewall rule not provided in request body (candidate.rule)") out
