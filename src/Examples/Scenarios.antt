-- ===== src/Examples/Scenarios.antt =====
-- Concrete WAF runs, in a world where everything answers.
use mathlib.Core.List.{Permᴰ}
use test_miti_check.Prelude.{
  ◌≤◌, true, false, none, some, List, [], ◌∷◌, ◌++◌, ◌≡◌, refl, subst, length, All,
}
use test_miti_check.Prelude.Text.{Text, text, text_eq, is_empty, contains, split}
use test_miti_check.Prelude.Results.{Result, ok}
use test_miti_check.Request.{missing, value, CandidateSpec, TestRequest}
use test_miti_check.Api.Submission.{SubmitRequest, BasisDocument}
use test_miti_check.Substrate.Local.{Docker, answered}
use test_miti_check.Substrate.Azure.{Azure}
use test_miti_check.Substrate.Github.{Github, WorkflowRun, listed, reported}
use test_miti_check.Substrate.Conduct.{Prints, IsClean}
use test_miti_check.Substrate.Names.{IsLabel, aci_name-IsLabel}
use test_miti_check.Substrate.Azure.{aci_name}
use test_miti_check.Waf.Pattern.{operator, extract_rx}
use test_miti_check.Waf.Quoting.{escape, extract_rx-escape}
use test_miti_check.Waf.Target.{Url, target_values, parse_targets}
use test_miti_check.Waf.Accepted.{IsTarget, parse_targets-ok}
use test_miti_check.Waf.Rule.{WafRule, Engine, evaluate_rule, stops}
use test_miti_check.Waf.Selected.{Selects, evaluate_rule-Selects}
use test_miti_check.Waf.Ordered.{Distinct, evaluate_rule-Perm}
use test_miti_check.Waf.Verdict.{World}
use test_miti_check.Waf.Scenario.{execute_scenario}
use test_miti_check.Waf.Judgement.{IsJust}
use test_miti_check.Waf.Earned.{IsEarned, execute_scenario-IsJust}
use test_miti_check.Waf.Released.{execute_scenario-IsClean}
use test_miti_check.Upstream.Based.{ok-injective}
use test_miti_check.Examples.Codecs.{sample}
use test_miti_check.Examples.Services.{ipv6, describe}

abbrev pub container_id : Text
container_id = text "4f1d9a7c0b2e8d63"

abbrev pub docker : Docker
docker = record {
  network = [];
  unavailable = none;
  start_container_net = λ image name network. ok container_id;
  start_container = λ image port. ok container_id;
  free_port = some 49152;
}

abbrev pub azure : Azure
azure = record {
  subscription = [];
  resource_group = [];
  region = [];
  tenant = [];
  client_id = [];
  secret = [];
  default_credential = none;
  secret_credential = none;
  client = none;
  begin_create = λ rg name. none;
  poll_until_done = λ name. ok none;
}

-- The pattern of a rule is looked for as it stands, and no text has an escape.
abbrev pub engine : Engine
engine pattern = ok (λ s. contains s pattern)

abbrev pub url : Url
url = record { parse_query = λ s. none; request_query = λ s. none; query_unescape = λ s. some s }

abbrev pub workflow_run : WorkflowRun
workflow_run = record {
  id = 71;
  name = text "mitigation-check";
  display_title = text "mc-mc-run-1";
  created_at = 18_000_000;
}

abbrev pub github : Github
github = record {
  repo = text "example/checks";
  token = text "token";
  workflow = [];
  ghcr_workflow = [];
  ref = [];
  username = [];
  now = 20_000_000;
  dispatch = λ repo workflow ref r. none;
  runs = listed (workflow_run ∷ []) ∷ [];
  statuses = λ id. reported (text "completed") (text "success") ∷ [];
  context_error = text "context deadline exceeded";
  artifacts = λ id.
      ok (record { name = text "mitigation-check-result"; download_url = text "https://api" } ∷ []);
  download = λ u. ok (record { is_result = true; decoded = ok sample } ∷ []);
  ensure_secret = λ t. none;
  copy = λ a b. ([], none);
}

abbrev pub world : World
world = record {
  net = ipv6;
  describe = describe;
  describe_compile = λ e. [];
  url = url;
  engine = engine;
  docker = docker;
  listen = ok 40000;
  azure = azure;
  github = github;
  polls = λ base. answered 200 ∷ [];
  send = λ method address headers body. ok (200, text "hello");
}

prints_id : (id : Text) → ◌≡◌ {A = Result Text Text} (ok container_id) (ok id) → is_empty id ≡ false
unfolding text
prints_id id h = subst (λ x. is_empty x ≡ false) (ok-injective h) refl

pub prints : Prints docker
prints = record { on_net = λ i n w id h. prints_id id h; at_port = λ i p id h. prints_id id h }

abbrev pub rule : CandidateSpec
rule = record {
  kind = text "waf-rule";
  engine = text "modsecurity";
  rule_id = [];
  rule = text "SecRule REQUEST_BODY \"@rx union select\" \"id:1001,deny,status:406\"";
  action = text "deny";
}

abbrev pub attack : TestRequest
attack = record {
  method = text "POST";
  path = text "/items";
  headers = (text "Accept", text "*/*") ∷ (text "Host", text "a") ∷ [];
  body = text "q=1 union select 2";
}

abbrev pub attack_basis : BasisDocument
attack_basis = record {
  kind = text "http-probe";
  proof_basis = text "verified-vuln-artifact";
  request = some attack;
  connection = none;
  expected = record { classification = []; blocked = some true; status_code = 406 };
}

abbrev pub no_inputs : SubmitRequest
no_inputs = record {
  contract_id = [];
  request_id = text "request-1";
  correlation_id = text "correlation-1";
  candidate_artifact_id = [];
  test_basis_id = [];
  check_profile_id = [];
  substrate_selector = [];
  substrate = missing;
  candidate = missing;
  test_basis = missing;
  execution_mode = [];
  route_policy = [];
  profile_id = [];
  defense_result = none;
  check_result = none;
  upstream_inputs = missing;
  is_enveloped = false;
  has_callback = false;
}

abbrev pub scenario : SubmitRequest
scenario = record no_inputs { candidate = value rule; test_basis = value attack_basis }

-- The run reports a match.
matched : (execute_scenario world scenario "mc-run-1" "r-1").outcome.is_match ≡ true
unfolding execute_scenario text
matched = refl

IsJust-example : IsJust (IsEarned world scenario) (execute_scenario world scenario "mc-run-1" "r-1")
unfolding text_eq text
IsJust-example = execute_scenario-IsJust world prints scenario "mc-run-1" "r-1" (refl, refl)

IsClean-example : IsClean (execute_scenario world scenario "mc-run-1" "r-1").calls
IsClean-example = execute_scenario-IsClean world prints scenario "mc-run-1" "r-1"

-- An operator with a backslash and a quote in it.
abbrev quoted_operator : Text
quoted_operator = text "@rx \\d+\""

extract_rx_example :
    extract_rx (text "SecRule ARGS " ++ 34 ∷ (escape quoted_operator ++ 34 ∷ text " \"id:1\""))
    ≡ operator quoted_operator
unfolding text
extract_rx_example = extract_rx-escape (text "SecRule ARGS ") quoted_operator (text " \"id:1\"") (
  refl,
  (
    refl,
    (refl, (refl, (refl, (refl, (refl, (refl, (refl, (refl, (refl, (refl, (refl, tt))))))))))),
  ),
)

abbrev expression : Text
expression = text "ARGS:q|REQUEST_BODY"

parse_targets_example :
    (parse_targets expression ≡ ok (split b'|' expression)
      → (split b'|' expression ≡ split b'|' expression)
        × (length (split b'|' expression) ≤ 16)
        × All IsTarget (split b'|' expression))
    × ((split b'|' expression ≡ split b'|' expression)
          × (length (split b'|' expression) ≤ 16)
          × All IsTarget (split b'|' expression)
        → parse_targets expression ≡ ok (split b'|' expression))
parse_targets_example = parse_targets-ok expression (split b'|' expression)

-- The rule as it compiles.
abbrev waf_rule : WafRule
waf_rule = record {
  rule_id = text "1001";
  status = 406;
  matches_string = λ s. contains s (text "union select");
  targets = text "REQUEST_BODY" ∷ text "REQUEST_HEADERS" ∷ [];
  clamped = false;
}

Selects-example :
    ((t : Text)
      → evaluate_rule url waf_rule attack ≡ some t
      → Selects url (target_values url waf_rule.targets attack) t × (stops waf_rule t ≡ true))
    × ((t : Text)
        → evaluate_rule url waf_rule attack ≡ none
        → Selects url (target_values url waf_rule.targets attack) t
        → stops waf_rule t ≡ false)
Selects-example = evaluate_rule-Selects url waf_rule attack

abbrev other_order : List (Text × Text)
other_order = (text "Host", text "a") ∷ (text "Accept", text "*/*") ∷ []

same_example :
    evaluate_rule url waf_rule attack
    ≡ evaluate_rule url waf_rule (record attack { headers = other_order })
unfolding text text_eq Distinct
same_example =
    evaluate_rule-Perm url waf_rule attack other_order (Permᴰ.swap refl refl) ((refl, tt), (tt, tt))

IsLabel-example : IsLabel (aci_name (text "mc-run-1"))
IsLabel-example = aci_name-IsLabel (text "mc-run-1")
