-- ===== src/Examples/Upstreams.antt =====
-- Concrete runs over upstream inputs and through a GitHub workflow.
use test_miti_check.Prelude.{true, none, some, List, [], ◌∷◌, ◌≡◌, refl}
use test_miti_check.Prelude.Text.{Text, text, text_eq}
use test_miti_check.Prelude.Results.{ok, err}
use test_miti_check.Request.{Raw, value}
use test_miti_check.Api.Locator.{UpstreamRef}
use test_miti_check.Api.Submission.{SubmitRequest, UpstreamInput}
use test_miti_check.Substrate.Github.{run_via_github}
use test_miti_check.Substrate.Ghcr.{run_via_ghcr}
use test_miti_check.Substrate.Remote.{IsOurReport, run_via_github-IsOurReport}
use test_miti_check.Waf.Verdict.{new_outcome}
use test_miti_check.Upstream.Identifier.{qualified-injective}
use test_miti_check.Upstream.Stimulus.{Stimulus, compacted, plain, basis_from_stimulus, probe}
use test_miti_check.Upstream.Derived.{IsProbe, basis_from_stimulus-IsProbe}
use test_miti_check.Upstream.Candidate.{PrimaryCandidate}
use test_miti_check.Upstream.Reader.{Database}
use test_miti_check.Upstream.Execute.{execute_upstream}
use test_miti_check.Upstream.Resolved.{IsGrounded, execute_upstream-IsGrounded}
use test_miti_check.Examples.Scenarios.{github, world, prints, rule, scenario, no_inputs}

IsOurReport-example :
    IsOurReport github
      (new_outcome "mc-run-1" "r-1")
      (run_via_github github scenario (new_outcome "mc-run-1" "r-1"))
    × IsOurReport github
        (new_outcome "mc-run-1" "r-1")
        (run_via_ghcr github scenario (new_outcome "mc-run-1" "r-1"))
IsOurReport-example = run_via_github-IsOurReport github scenario (new_outcome "mc-run-1" "r-1")

abbrev reference : UpstreamRef
reference = record {
  system = text "databricks";
  catalog = text "ma`in";
  schema = text "defense";
  table = text "results";
  key = text "defense-generation-result:1";
}

qualified_example :
    (reference.catalog ≡ reference.catalog)
    × (reference.schema ≡ reference.schema)
    × (reference.table ≡ reference.table)
unfolding text
qualified_example = qualified-injective reference reference refl refl refl refl refl

abbrev stimulus : Stimulus
stimulus = record {
  artifact_type = [];
  method = text "post";
  path_key = text "items";
  query = [];
  headers = (text "Accept", text "*/*") ∷ [];
  json_body = compacted (text "{\"q\":\"1 union select 2\"}");
  body_text = none;
  content_type = some (text "application/json");
}

abbrev encode : List (Text × Text) → Text
encode query = text "q=1"

IsProbe-example : IsProbe stimulus (probe encode stimulus (text "{\"q\":\"1 union select 2\"}"))
unfolding basis_from_stimulus
IsProbe-example = basis_from_stimulus-IsProbe encode stimulus _ refl

abbrev source : PrimaryCandidate
source = record {
  artifact_content = rule.rule;
  artifact_type = text "modsecurity-rule";
  candidate_id = text "candidate-1";
  selected_control_class = text "waf";
}

abbrev database : Database
database query key =
    ok (
      ok
        (record { primary_candidate = source; run_result = some (plain (some stimulus) (err [])) }))

abbrev entry : Text → Text → UpstreamInput
entry capability key = record {
  capability = capability;
  contract_id = [];
  result_id = [];
  result_ref = record reference { key = key };
  evidence_refs = [];
}

abbrev upstream : SubmitRequest
upstream = record no_inputs {
  upstream_inputs = value (
      entry (text "defense-generation") (text "d-1")
      ∷ entry (text "check-generation") (text "c-1")
      ∷ []);
}

abbrev unparsed : Raw (List UpstreamInput) → Text
unparsed raw = []

upstream_matched :
    (execute_upstream encode unparsed world
      (some database)
      upstream
      "mc-run-1"
      "r-1").outcome.is_match
    ≡ true
unfolding execute_upstream text
upstream_matched = refl

IsGrounded-example : IsGrounded encode unparsed world upstream (some database)
unfolding text_eq text
IsGrounded-example =
    execute_upstream-IsGrounded encode unparsed world upstream prints "mc-run-1" "r-1"
      (some database) (refl, refl) upstream_matched
