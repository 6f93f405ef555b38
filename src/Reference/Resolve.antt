-- ===== src/Reference/Resolve.antt =====
-- `selectRegisteredHTTPTestBasis`, `Resolve` and `executeScenarioByLocator` of api/executor_locator.go.
-- The reads of the rows, `strconv.Quote` and the decoding of a run's artifacts are parameters.
use test_miti_check.Prelude.{
  ℕ, ◌+◌, String, Bool, Option, none, some, List, [], ◌∷◌, ◌++◌, ◌&&◌, ◌||◌, not, if◌then◌else◌,
}
use test_miti_check.Prelude.Text.{Text, text, text_eq, is_empty, trim_space, has_prefix, contains}
use test_miti_check.Prelude.Text.Numbers.{ℤ, decimal}
use test_miti_check.Prelude.Results.{Result, ok, err, or_error, require, ◌>>=◌, ◌>>◌}
use test_miti_check.Request.{value, CandidateSpec, TestBasisSpec}
use test_miti_check.Firewall.Verdict.{untestable}
use test_miti_check.Api.Locator.{Locator, defense_generation, check_generation, valid_locator}
use test_miti_check.Api.Submission.{SubmitRequest, basis_document}
use test_miti_check.Waf.Verdict.{World, Ran, silent, new_outcome}
use test_miti_check.Waf.Scenario.{execute_scenario}
use test_miti_check.Upstream.Stimulus.{Stimulus, basis_from_stimulus}
use test_miti_check.Upstream.Execute.{with_steps}
use test_miti_check.Reference.Defense.{DefenseRow, union_from, verify_defense_row}
use test_miti_check.Reference.Check.{CheckRow, CheckCodec}
use test_miti_check.Reference.Checked.{verify_check_row}

-- The members of an artifact of `checkArtifactProjection`.
pub record Signal : Type 0 where
  pub candidate_family : Text
  pub stimulus : Stimulus

pub record Artifact : Type 0 where
  pub artifact_id : Text
  pub artifact_kind : Text
  pub signal : Option Signal

-- `registeredWAFPath`.
unfoldable pub registered_path : Text → Text
unfolding trim_space text_eq text
registered_path path_key =
    let p = trim_space path_key in
    if text_eq p (text "public_submit_php")
    then text "/public/submit.php"
    else if has_prefix p (b'/' ∷ [])
    then p
    else if contains p (b'/' ∷ []) || contains p (b'.' ∷ [])
    then b'/' ∷ p
    else b'/' ∷ []

-- The signal of an artifact that is selected and eligible.
abbrev pub probing : Artifact → Option Signal → Option Signal
probing a none = none
probing a (some s) =
    if text_eq a.artifact_kind (text "mitigation-checkable-signal")
      && text_eq s.candidate_family (text "http-probe")
      && not (is_empty (trim_space a.artifact_id))
      && not (is_empty (trim_space s.stimulus.method))
      && not (is_empty (trim_space s.stimulus.path_key))
    then some s
    else none

unfoldable pub eligible : Text → Artifact → Option Signal
unfolding text_eq trim_space text
eligible selected a =
    if is_empty selected || text_eq a.artifact_id selected then probing a a.signal else none

abbrev pub as_registered : Stimulus → TestBasisSpec → TestBasisSpec
as_registered s b = record b {
  kind = text "http-request-attack";
  proof_basis = text "mitigation-discriminator";
  request = record (b.request) { path = registered_path s.path_key };
}

-- `LocatorProvenance`.
pub record Provenance : Type 0 where
  pub route_policy : Text
  pub defense_result : Locator
  pub check_result : Locator
  pub selected_test_basis_id : Text
  pub verification : Text

-- `resolvedLocatorInputs`.
pub record Inputs : Type 0 where
  pub candidate : CandidateSpec
  pub test_basis : TestBasisSpec
  pub provenance : Provenance
  pub evidence_refs : List Text

-- `locatorRowSource`.
pub record Source : Type 0 where
  pub defense : Text → Result Text (List DefenseRow)
  pub check : Text → Result Text (List CheckRow)
  pub volume : Text → ℤ → Result Text Text

-- `encode` is `url.Values.Encode`, `is_stamp` is as in `valid_locator`, and `artifacts` decodes a run.
pub record ResolveCodec : Type 0 where
  pub rows : CheckCodec
  pub artifacts : Text → Option (List Artifact)
  pub encode : List (Text × Text) → Text
  pub quote : Text → Text
  pub is_stamp : Text → Bool

unfoldable pub count_rows {ℓ} : {A : Type ℓ} → List A → ℕ
count_rows [] = 0
count_rows (row ∷ rows) = count_rows rows + 1

-- A query that has to give one row.
abbrev pub one_row {ℓ} : {A : Type ℓ} → Text → Result Text (List A) → Result Text A
one_row producer (err e) = err (text "query " ++ (producer ++ (text " row: " ++ e)))
one_row producer (ok (row ∷ [])) = ok row
one_row producer (ok rows) = err (
    producer
    ++ (text " locator resolved "
        ++ (decimal (count_rows rows) ++ text " rows, expected exactly one")))

abbrev pub inputs_of :
    Locator → Locator → CandidateSpec × List Text → Text × List Text → Text × TestBasisSpec → Inputs
inputs_of defense check found checked basis = record {
  candidate = found.0;
  test_basis = basis.1;
  provenance = record {
    route_policy = text "registered-waf-route-v1";
    defense_result = defense;
    check_result = check;
    selected_test_basis_id = basis.0;
    verification = text "physical-and-logical-sha256-verified";
  };
  evidence_refs = union_from [] (found.1 ++ checked.1);
}

-- A run, with the members of its outcome that only this execution sets.
pub record Located : Type 0 where
  pub ran : Ran
  pub provenance : Option Provenance
  pub evidence_refs : List Text

module _ (codec : ResolveCodec) where
  unfoldable pub unselected : Text → Text
  unfolding text
  unselected selected =
      if is_empty selected
      then text "Check Generation produced no supported HTTP mitigation test basis"
      else text "selected test_basis_id "
        ++ (codec.quote selected ++ text " is not an eligible HTTP mitigation artifact")

  abbrev pub registered_basis : Artifact → Signal → Result Text (Text × TestBasisSpec)
  registered_basis a s = do
    b ← basis_from_stimulus codec.encode s.stimulus
    ok (a.artifact_id, as_registered s.stimulus b)

  abbrev pub or_next :
      Artifact
      → Option Signal
      → Result Text (Text × TestBasisSpec)
      → Result Text (Text × TestBasisSpec)
  or_next a none rest = rest
  or_next a (some s) rest = registered_basis a s

  unfoldable pub select_from : Text → List Artifact → Result Text (Text × TestBasisSpec)
  unfolding eligible basis_from_stimulus registered_path unselected text
  select_from selected [] = err (unselected selected)
  select_from selected (a ∷ artifacts) =
      or_next a (eligible selected a) (select_from selected artifacts)

  -- `selectRegisteredHTTPTestBasis`.
  unfoldable pub select_basis : Text → Text → Result Text (Text × TestBasisSpec)
  unfolding select_from text
  select_basis run_result selected = do
    artifacts ← or_error (codec.artifacts run_result) (text "decode Check Generation run_result")
    select_from selected artifacts

  module _ (source : Source) (defense check : Locator) (selected : Text) where
    abbrev pub resolve_basis : CandidateSpec × List Text → Text × List Text → Result Text Inputs
    resolve_basis found checked = do
      basis ← select_basis (checked.0) selected
      ok (inputs_of defense check found checked basis)

    abbrev pub resolve_run : CandidateSpec × List Text → CheckRow → Result Text Inputs
    resolve_run found row = do
      checked ← verify_check_row codec.rows source.volume row check
      resolve_basis found checked

    -- From the Check Generation result on.
    abbrev pub resolve_check : CandidateSpec × List Text → Result Text Inputs
    resolve_check found = do
      row ← one_row (text "Check Generation") (source.check check.result_id)
      resolve_run found row

    abbrev pub resolve_rule : DefenseRow → Result Text Inputs
    resolve_rule row = do
      found ← verify_defense_row codec.rows.shared row defense
      resolve_check found

    -- From the Defense Generation result on.
    abbrev pub resolve_rows : Result Text Inputs
    resolve_rows = do
      row ← one_row (text "Defense Generation") (source.defense defense.result_id)
      resolve_rule row

    -- `Resolve`.
    unfoldable pub resolve_locators : Result Text Inputs
    unfolding valid_locator verify_defense_row verify_check_row select_basis union_from count_rows
        decimal text_eq text
    resolve_locators = do
      require (valid_locator codec.is_stamp defense_generation defense) (text "defense_result")
      require (valid_locator codec.is_stamp check_generation check) (text "check_result")
      require (text_eq defense.correlation_id check.correlation_id)
          (text "producer correlation identities differ")
      resolve_rows

  abbrev pub with_inputs : SubmitRequest → Inputs → SubmitRequest
  with_inputs r i = record r {
    execution_mode = text "inmemory";
    candidate_artifact_id = i.candidate.rule_id;
    test_basis_id = i.provenance.selected_test_basis_id;
    check_profile_id = text "mitigation-check-profile:waf-http:1";
    candidate = value i.candidate;
    test_basis = value (basis_document i.test_basis);
  }

  abbrev pub located_steps : List Text
  located_steps =
      text "verified immutable Defense Generation and Check Generation locators"
      ∷ text "hydrated registered WAF candidate and HTTP mitigation test basis"
      ∷ []

  unfoldable pub located_run :
      World → SubmitRequest → String → String → Result Text Inputs → Located
  unfolding execute_scenario untestable text
  located_run world r run_id result_id (err e) = record {
    ran = silent (
        untestable (text "reference-only input resolution failed: " ++ e)
          (new_outcome run_id result_id));
    provenance = none;
    evidence_refs = [];
  }
  located_run world r run_id result_id (ok i) = record {
    ran = with_steps located_steps (execute_scenario world (with_inputs r i) run_id result_id);
    provenance = some i.provenance;
    evidence_refs = i.evidence_refs;
  }

  -- `executeScenarioByLocator`, for the two locators of a request that has them. The source is what
  -- the configuration yields.
  unfoldable pub execute_by_locator :
      World → Result Text Source → SubmitRequest → Locator → Locator → String → String → Located
  unfolding resolve_locators located_run untestable trim_space text
  execute_by_locator world (err e) r defense check run_id result_id = record {
    ran =
        silent
          (untestable (text "reference-only input resolver: " ++ e) (new_outcome run_id result_id));
    provenance = none;
    evidence_refs = [];
  }
  execute_by_locator world (ok source) r defense check run_id result_id =
      located_run world r run_id result_id
        (resolve_locators source defense check (trim_space r.test_basis_id))
