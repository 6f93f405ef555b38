-- ===== src/Waf/Verdict.antt =====
-- The parts of `executeScenario` of api/executor.go: what a run meets and answers, what it reads of
-- the request, and the outcomes that it reports; and `summarize`. A run is its outcome and the calls
-- that it makes to a substrate, in order.
use test_miti_check.Prelude.{
  ℕ, String, Bool, true, false, Option, none, some, List, [], ◌++◌, if◌then◌else◌,
}
use test_miti_check.Prelude.Text.{Text, text, is_empty}
use test_miti_check.Prelude.Text.Numbers.{decimal}
use test_miti_check.Prelude.Results.{Result, ok, err}
use test_miti_check.Outcome.{RunOutcome, unset, blocked, not_blocked}
use test_miti_check.Request.{
  Raw, missing, garbled, value, CandidateSpec, TestBasisSpec, SubstrateSpec,
}
use test_miti_check.Firewall.Address.{Ipv6}
use test_miti_check.Firewall.Compact.{RuleError}
use test_miti_check.Firewall.Verdict.{FirewallTestBasis, note, untestable, agree, limit}
use test_miti_check.Api.Submission.{SubstrateDocument, BasisDocument, as_basis, as_firewall}
use test_miti_check.Substrate.{Call, truncate}
use test_miti_check.Substrate.Local.{Docker, Poll}
use test_miti_check.Substrate.Azure.{Azure}
use test_miti_check.Substrate.Github.{Github}
use test_miti_check.Waf.Target.{Url}
use test_miti_check.Waf.Rule.{Engine, WafRule, CompileError}

-- What a run meets outside of the process: `polls` is what waiting for an address meets, and `send`
-- the client of `forward`.
pub record World : Type 0 where
  pub net : Ipv6
  pub describe : RuleError → Text
  pub describe_compile : CompileError → Text
  pub url : Url
  pub engine : Engine
  pub docker : Docker
  pub listen : Result Text ℕ
  pub azure : Azure
  pub github : Github
  pub polls : Text → List Poll
  pub send : Text → Text → List (Text × Text) → Text → Result Text (ℕ × Text)

pub record Ran : Type 0 where
  pub outcome : RunOutcome
  pub calls : List Call

abbrev pub silent : RunOutcome → Ran
silent out = record { outcome = out; calls = [] }

-- `RunOutcome{RunID: runID, ResultID: resultID}`.
abbrev pub new_outcome : String → String → RunOutcome
new_outcome run_id result_id = record {
  capability = "";
  contract_id = "";
  request_id = "";
  run_id = run_id;
  result_id = result_id;
  terminal_state = unset;
  status = "";
  correlation_id = "";
  result_ref = none;
  evidence_refs = [];
  request_sha256 = "";
  profile_id = "";
  is_match = false;
  expected = record { classification = []; blocked = false; status_code = 0 };
  actual = record {
    blocked = false;
    status_code = 0;
    reached_app = false;
    matched_rule_id = [];
    detail = [];
  };
  substrate = record {
    image = [];
    runner = [];
    container_id = [];
    host_port = 0;
    fqdn = [];
    ready = false;
  };
  candidate = none;
  test_basis = none;
  steps = [];
  prose_summary = [];
  limitations = [];
  content_sha256 = "";
  size_bytes = 0;
  created_at = 0;
}

abbrev pub zero_substrate : SubstrateSpec
zero_substrate = record { kind = []; image = [] }

-- `json.Unmarshal` into a `SubstrateSpec`, with the zero value for what it refuses.
abbrev pub substrate_of : Raw SubstrateDocument → SubstrateSpec
substrate_of (value d) = record { kind = d.kind; image = d.image }
substrate_of missing = zero_substrate
substrate_of garbled = zero_substrate

abbrev pub firewall_basis : Raw BasisDocument → Raw FirewallTestBasis
firewall_basis (value d) = value (as_firewall d)
firewall_basis missing = missing
firewall_basis garbled = garbled

-- A candidate with a rule, and a test that says what it expects.
abbrev pub candidate_of : Raw CandidateSpec → Option CandidateSpec
candidate_of (value c) = if is_empty c.rule then none else some c
candidate_of missing = none
candidate_of garbled = none

abbrev pub expected_of : TestBasisSpec → Option (TestBasisSpec × Bool)
expected_of t = elim t.expected.blocked [ none ↦ none | some b ↦ some (t, b) ]

abbrev pub test_of : Raw BasisDocument → Option (TestBasisSpec × Bool)
test_of (value d) = expected_of (as_basis d)
test_of missing = none
test_of garbled = none

unfoldable pub fired : WafRule → Text → RunOutcome → RunOutcome
unfolding text decimal truncate
fired w s out =
    record (note (text "WAF matched rule " ++ w.rule_id ++ text " on: " ++ truncate s 120) out) {
      actual = record {
        blocked = true;
        status_code = w.status;
        reached_app = false;
        matched_rule_id = w.rule_id;
        detail =
            text "WAF rule "
            ++ w.rule_id
            ++ text " matched; request denied with "
            ++ decimal w.status;
      };
      terminal_state = blocked;
    }

unfoldable pub passed : ℕ → Text → RunOutcome → RunOutcome
unfolding text decimal truncate
passed status body out =
    record (note (text "WAF did not match; request forwarded to app, status " ++ decimal status)
      out) {
        actual = record {
          blocked = false;
          status_code = status;
          reached_app = true;
          matched_rule_id = [];
          detail =
              text "WAF did not match; request reached app (status "
              ++ decimal status
              ++ text "): "
              ++ truncate body 120;
        };
        terminal_state = not_blocked;
      }

-- `summarize`.
unfoldable pub summarize : RunOutcome → Text
unfolding text
summarize o =
    text "Candidate "
    ++ (if o.actual.blocked then text "BLOCKED" else text "NOT BLOCKED")
    ++ text " the supplied sample in "
    ++ o.substrate.image
    ++ text "; actual "
    ++ (if o.is_match then text "matches" else text "does NOT match")
    ++ text " expected ("
    ++ (if o.expected.blocked then text "blocked" else text "not-blocked")
    ++ text ")."

-- The match and what is said of it.
unfoldable pub conclude : TestBasisSpec → RunOutcome → RunOutcome
unfolding agree summarize limit
conclude t out =
    let judged = agree out in
    limit t.proof_basis (record judged { prose_summary = summarize judged })

-- The answer of the application to the forwarded request.
unfoldable pub forwarded_run : TestBasisSpec → List Call × Result Text (ℕ × Text) → RunOutcome → Ran
unfolding untestable conclude passed text
forwarded_run t (calls, err e) out = record {
  outcome = untestable (text "could not observe app response: " ++ e) out;
  calls = calls;
}
forwarded_run t (calls, ok (status, body)) out = record {
  outcome = conclude t (passed status body out);
  calls = calls;
}
