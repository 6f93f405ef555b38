-- ===== src/Upstream/Execute.antt =====
-- `executeScenarioUpstream` of api/executor_upstream.go: the resolution of the request's rule and
-- test, and the run. A database that is not configured is `none`. The wording of the errors of
-- `parseUpstreamInputs` is a parameter.
use test_miti_check.Prelude.{String, Option, none, some, List, [], ◌∷◌, ◌++◌, if◌then◌else◌}
use test_miti_check.Prelude.Text.{Text, text, text_eq}
use test_miti_check.Prelude.Results.{Result, ok, err, ◌>>=◌}
use test_miti_check.Request.{Raw, missing, garbled, value, CandidateSpec, TestBasisSpec}
use test_miti_check.Firewall.Verdict.{untestable}
use test_miti_check.Api.Locator.{UpstreamRef, defense_generation, check_generation, capability_of}
use test_miti_check.Api.Submission.{
  SubmitRequest, BasisDocument, UpstreamInput, basis_document, parse_upstream_inputs,
}
use test_miti_check.Waf.Verdict.{World, Ran, silent, new_outcome}
use test_miti_check.Waf.Scenario.{execute_scenario}
use test_miti_check.Upstream.Identifier.{qualified}
use test_miti_check.Upstream.Stimulus.{parse_stimulus, basis_from_stimulus}
use test_miti_check.Upstream.Candidate.{PrimaryCandidate, candidate_spec}
use test_miti_check.Upstream.Reader.{
  Database, select_by_capability, read_candidate, read_run_result,
}

pub record Resolution : Type 0 where
  pub request : SubmitRequest
  pub steps : List Text

abbrev pub because {ℓ} : {A : Type ℓ} → Text → Result Text A → Result Text A
because why (ok a) = ok a
because why (err e) = err (why ++ e)

abbrev pub at_row : UpstreamRef → Text
at_row r = qualified r ++ text " where result_id=" ++ r.key

-- A firewall rule runs in firewall mode.
unfoldable pub with_candidate : SubmitRequest → CandidateSpec → SubmitRequest
unfolding text_eq text
with_candidate r c =
    let resolved = record r { candidate = value c } in
    if text_eq c.kind (text "firewall-rule")
    then record resolved { execution_mode = text "firewall" }
    else resolved

module _ (encode : List (Text × Text) → Text) (db : Database) where
  -- The test of a check-generation entry.
  unfoldable pub derive_basis : UpstreamRef → Result Text TestBasisSpec
  unfolding read_run_result parse_stimulus basis_from_stimulus qualified text
  derive_basis r = do
    document ←
        because (text "could not read run_result from Databricks " ++ at_row r ++ text ": ")
          (read_run_result db r)
    stimulus ← because (text "check-generation run_result: ") (parse_stimulus document)
    because (text "convert stimulus to test_basis: ") (basis_from_stimulus encode stimulus)

  abbrev pub with_derived :
      Resolution → UpstreamRef → Result Text TestBasisSpec → Result Text Resolution
  with_derived s source (err e) = err e
  with_derived s source (ok basis) = ok (record {
    request = record (s.request) { test_basis = value (basis_document basis) };
    steps =
        s.steps
        ++ ((text "derived test_basis from check-generation run_result " ++ at_row source) ∷ []);
  })

  abbrev pub with_entry : Resolution → Option UpstreamInput → Result Text Resolution
  with_entry s none = ok s
  with_entry s (some entry) = with_derived s entry.result_ref (derive_basis entry.result_ref)

  -- An inline test stands.
  unfoldable pub with_basis :
      List UpstreamInput → Raw BasisDocument → Resolution → Result Text Resolution
  unfolding select_by_capability derive_basis capability_of qualified text
  with_basis entries missing s =
      with_entry s (select_by_capability entries (capability_of check_generation))
  with_basis entries garbled s = ok s
  with_basis entries (value d) s = ok s

  -- The request with the rule that was read, and then with its test.
  abbrev pub with_source :
      SubmitRequest
      → List UpstreamInput
      → UpstreamRef
      → Result Text PrimaryCandidate
      → Result Text Resolution
  with_source r entries source (err e) =
      err (text "could not read rule from Databricks " ++ at_row source ++ text ": " ++ e)
  with_source r entries source (ok pc) = with_basis entries r.test_basis (record {
    request = with_candidate r (candidate_spec pc);
    steps =
        (text "read " ++ (candidate_spec pc).kind ++ text " from Databricks " ++ at_row source)
        ∷ [];
  })

  abbrev pub with_selected :
      SubmitRequest → List UpstreamInput → Option UpstreamInput → Result Text Resolution
  with_selected r entries none =
      err (text "no defense-generation entry in upstream_inputs (need the rule)")
  with_selected r entries (some entry) =
      with_source r entries entry.result_ref (read_candidate db entry.result_ref)

  unfoldable pub resolve_entries : SubmitRequest → List UpstreamInput → Result Text Resolution
  unfolding select_by_capability read_candidate candidate_spec with_candidate with_basis
      capability_of qualified text
  resolve_entries r entries =
      with_selected r entries (select_by_capability entries (capability_of defense_generation))

abbrev pub with_steps : List Text → Ran → Ran
with_steps steps run = record run {
  outcome = record (run.outcome) { steps = steps ++ run.outcome.steps };
}

module _ (encode : List (Text × Text) → Text) (unparsed : Raw (List UpstreamInput) → Text)
    (world : World) where
  abbrev pub with_parsed :
      SubmitRequest → Option Database → Option (List UpstreamInput) → Result Text Resolution
  with_parsed r db none = err (text "upstream_inputs: " ++ unparsed r.upstream_inputs)
  with_parsed r none (some entries) =
      err (text "Databricks reader not configured (DATABRICKS_DSN unset)")
  with_parsed r (some db) (some entries) = resolve_entries encode db r entries

  unfoldable pub resolve : Option Database → SubmitRequest → Result Text Resolution
  unfolding parse_upstream_inputs resolve_entries text
  resolve db r = with_parsed r db (parse_upstream_inputs r.upstream_inputs)

  unfoldable pub resolved_run : Result Text Resolution → String → String → Ran
  unfolding execute_scenario untestable
  resolved_run (err reason) run_id result_id =
      silent (untestable reason (new_outcome run_id result_id))
  resolved_run (ok s) run_id result_id =
      with_steps s.steps (execute_scenario world s.request run_id result_id)

  -- `executeScenarioUpstream`.
  unfoldable pub execute_upstream : Option Database → SubmitRequest → String → String → Ran
  unfolding resolve resolved_run
  execute_upstream db r run_id result_id = resolved_run (resolve db r) run_id result_id
