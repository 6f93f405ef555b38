-- ===== src/Examples/References.antt =====
-- A concrete run by reference. Every digest of the example is the same text.
use test_miti_check.Prelude.{true, none, some, [], ◌∷◌, ◌≡◌, refl, if◌then◌else◌}
use test_miti_check.Prelude.Text.{Text, text, text_eq}
use test_miti_check.Prelude.Text.Numbers.{pos}
use test_miti_check.Prelude.Results.{ok}
use test_miti_check.Api.Locator.{Locator}
use test_miti_check.Upstream.Stimulus.{Stimulus, compacted}
use test_miti_check.Reference.Json.{
  Json, null, string, number, array, object, no_items, item, Members, no_members, member, write,
  utf16,
}
use test_miti_check.Reference.Defense.{
  DefenseRow, DefenseCandidate, DefenseResult, DefenseCodec, verify_defense_row, waf_candidate,
}
use test_miti_check.Reference.Verified.{IsVerified, verify_defense_row-IsVerified}
use test_miti_check.Reference.Config.{Environment, Config, config_from_env}
use test_miti_check.Reference.Secure.{IsSecure, config_from_env-IsSecure}
use test_miti_check.Reference.Ordered.{write-IsSame, arrays, objects, next, ended, swapped}
use test_miti_check.Reference.Check.{CheckRow, CheckCodec}
use test_miti_check.Reference.Resolve.{Source, ResolveCodec, Artifact, execute_by_locator}
use test_miti_check.Reference.Grounded.{IsTraced, execute_by_locator-IsTraced}
use test_miti_check.Examples.Scenarios.{world, prints, rule, no_inputs}

abbrev digest : Text
digest = text "aaaaaaaaaaaaaaaaaaaaaaaaaaaaaaaaaaaaaaaaaaaaaaaaaaaaaaaaaaaaaaaa"

abbrev sealed : Text
sealed = text "sha256:aaaaaaaaaaaaaaaaaaaaaaaaaaaaaaaaaaaaaaaaaaaaaaaaaaaaaaaaaaaaaaaa"

abbrev stamp : Text
stamp = text "2026-01-02T03:04:05Z"

abbrev defense : Locator
defense = record {
  capability = text "defense-generation";
  contract_id = text "defense-generation-result@1.0";
  request_id = text "q-1";
  correlation_id = text "k-1";
  run_id = text "d-1";
  result_id = text "defense-generation-result:d-1";
  status = text "completed";
  terminal_state = text "candidate-produced";
  result_ref = record {
    system = text "databricks";
    catalog = text "36889_janus_dev";
    schema = text "defense_generation";
    table = text "defense_generation_results";
    key = text "defense-generation-result:d-1";
  };
  content_sha256 = sealed;
  size_bytes = 2;
  created_at = stamp;
}

abbrev completion : Members
completion = member (text "capability") (string (text "check-generation")) (
    member (text "contract_id") (string (text "capability-completion@1.0")) (
      member (text "run_id") (string (text "c-1")) (
        member (text "result_id") (string (text "check-generation-result:c-1")) (
          member (text "terminal_state") (string (text "completed")) (
            member (text "status") (string (text "completed")) (
              member (text "request_id") (string (text "q-1")) (
                member (text "correlation_id") (string (text "k-1")) (
                  member (text "result_ref")
                    (object (
                      member (text "system") (string (text "databricks")) (
                        member (text "catalog") (string (text "36889_janus_dev")) (
                          member (text "schema") (string (text "check_generation")) (
                            member (text "table") (string (text "check_generation_results")) (
                              member (text "key") (string (text "check-generation-result:c-1"))
                                no_members))))))
                    (member (text "upstream_result_refs") (array (item null no_items)) (
                      member (text "evidence_refs") (array (item (string (text "e-2")) no_items)) (
                        member (text "characterization_revision_id") null (
                          member (text "result_contract_type")
                            (string (text "check-generation-result"))
                            (member (text "result_contract_version") (string (text "1.0")) (
                              member (text "subject_record_revision_id") null (
                                member (text "content_sha256") (string sealed) (
                                  member (text "size_bytes") (number (text "497")) (
                                    member (text "created_at") (string stamp)
                                      no_members)))))))))))))))))

abbrev nested : Members
nested = member (text "contract_id") (string (text "check-generation@2.1")) (
    member (text "run_id") (string (text "c-1")) (
      member (text "request_id") (string (text "q-1"))
        (member (text "run_status") (string (text "completed")) no_members)))

abbrev check : Locator
check = record {
  capability = text "check-generation";
  contract_id = text "check-generation-result@1.0";
  request_id = text "q-1";
  correlation_id = text "k-1";
  run_id = text "c-1";
  result_id = text "check-generation-result:c-1";
  status = text "completed";
  terminal_state = text "completed";
  result_ref = record {
    system = text "databricks";
    catalog = text "36889_janus_dev";
    schema = text "check_generation";
    table = text "check_generation_results";
    key = text "check-generation-result:c-1";
  };
  content_sha256 = sealed;
  size_bytes = 497;
  created_at = stamp;
}

abbrev primary : DefenseCandidate
primary = record {
  candidate_id = text "candidate-1";
  artifact_type = text "modsecurity-rule";
  artifact_content = rule.rule;
  artifact_hash = sealed;
  evidence_refs = text "e-1" ∷ [];
  others = [];
}

abbrev defense_result : DefenseResult
defense_result = record {
  capability = defense.capability;
  contract_id = defense.contract_id;
  request_id = defense.request_id;
  correlation_id = defense.correlation_id;
  run_id = defense.run_id;
  result_id = defense.result_id;
  status = defense.status;
  terminal_state = defense.terminal_state;
  result_ref = some defense.result_ref;
  evidence_refs = text "e-0" ∷ text "e-1" ∷ [];
  primary_candidate = some primary;
  upstream_evidence = [];
  others = [];
  content_sha256 = sealed;
  size_bytes = pos 2;
  created_at = stamp;
}

abbrev defense_codec : DefenseCodec
defense_codec = record {
  decode = λ s. some defense_result;
  encode = λ r. text "{}";
  digest = λ s. digest;
  instant = λ s. some 1;
}

abbrev defense_row : DefenseRow
defense_row = record {
  run_id = defense.run_id;
  result_id = defense.result_id;
  terminal_state = defense.terminal_state;
  result_json = text "{}";
}

abbrev check_row : CheckRow
check_row = record {
  result_id = check.result_id;
  run_id = check.run_id;
  request_id = check.request_id;
  correlation_id = check.correlation_id;
  capability = check.capability;
  terminal_state = check.terminal_state;
  status = check.status;
  result_json = text "{}";
  completion_json = text "completion";
  result_sha256 = sealed;
  result_size_bytes = pos 2;
  created_at = stamp;
}

abbrev check_codec : CheckCodec
check_codec = record {
  shared = defense_codec;
  decode = λ s. some (object (if text_eq s (text "completion") then completion else nested));
  sort = λ v. text "{}";
  manifest = λ s. none;
  stored = λ s. some (record {
    contract_type = text "check-generation-persisted-result";
    contract_version = text "1.0";
    result_id = check.result_id;
    run_result = text "run";
  });
  ecma = some;
  integer = λ n. some (pos 497);
}

abbrev attack_stimulus : Stimulus
attack_stimulus = record {
  artifact_type = [];
  method = text "post";
  path_key = text "public_submit_php";
  query = [];
  headers = [];
  json_body = compacted (text "{\"q\":\"1 union select 2\"}");
  body_text = none;
  content_type = some (text "application/json");
}

abbrev artifact : Artifact
artifact = record {
  artifact_id = text "basis-1";
  artifact_kind = text "mitigation-checkable-signal";
  signal = some (record { candidate_family = text "http-probe"; stimulus = attack_stimulus });
}

abbrev codec : ResolveCodec
codec = record {
  rows = check_codec;
  artifacts = λ s. some (artifact ∷ []);
  encode = λ query. [];
  quote = λ s. s;
  is_stamp = λ s. true;
}

abbrev source : Source
source = record {
  defense = λ id. ok (defense_row ∷ []);
  check = λ id. ok (check_row ∷ []);
  volume = λ path size. ok [];
}

verified :
    verify_defense_row defense_codec defense_row defense
    ≡ ok (waf_candidate primary, text "e-0" ∷ text "e-1" ∷ [])
unfolding verify_defense_row waf_candidate text
verified = refl

IsVerified-example :
    IsVerified defense_codec defense_row defense
      (waf_candidate primary, text "e-0" ∷ text "e-1" ∷ [])
IsVerified-example =
    verify_defense_row-IsVerified defense_codec defense_row defense
      (waf_candidate primary, text "e-0" ∷ text "e-1" ∷ []) verified

traced_match :
    (execute_by_locator codec world
      (ok source)
      no_inputs
      defense
      check
      "mc-run-1"
      "r-1").ran.outcome.is_match
    ≡ true
unfolding execute_by_locator text
traced_match = refl

IsTraced-example : IsTraced codec world no_inputs defense check (ok source)
IsTraced-example =
    execute_by_locator-IsTraced codec world no_inputs defense check prints "mc-run-1" "r-1"
      (ok source) traced_match

abbrev first_order : Json
first_order = object (member (text "b") (number (text "1")) (member (text "a") null no_members))

abbrev second_order : Json
second_order = object (member (text "a") null (member (text "b") (number (text "1")) no_members))

write-IsSame_example :
    write some (array (item first_order no_items)) ≡ write some (array (item second_order no_items))
unfolding text_eq utf16 text
write-IsSame_example =
    write-IsSame some (array (item first_order no_items)) (array (item second_order no_items))
      (arrays (next (objects (swapped refl)) ended))

abbrev environment : Environment
environment = record {
  get = λ name.
      if text_eq name (text "DATABRICKS_HOST")
      then text " adb-1.azuredatabricks.net/ "
      else if text_eq name (text "DATABRICKS_TOKEN")
      then text "t"
      else if text_eq name (text "DATABRICKS_WAREHOUSE_ID")
      then text "w"
      else [];
  parse_url = λ s. some (record {
    scheme = text "https";
    user = none;
    hostname = text "adb-1.azuredatabricks.net";
    path = text "/";
  });
  parse_duration = λ s. none;
}

abbrev config : Config
config = record {
  base_url = text "https://adb-1.azuredatabricks.net";
  token = text "t";
  warehouse_id = text "w";
  timeout = 30_000_000;
}

accepted_config : config_from_env environment (λ s. s) ≡ ok config
unfolding config_from_env text
accepted_config = refl

IsSecure-example : IsSecure environment config
IsSecure-example = config_from_env-IsSecure environment (λ s. s) config accepted_config
