-- ===== src/Upstream/Resolved.antt =====
-- What `executeScenarioUpstream` of api/executor_upstream.go runs, and what a match that it reports
-- rests on.
use test_miti_check.Prelude.{
  arith, ◌≡◌, refl, sym, subst, ◌∙◌, String, true, Option, none, some, List, ◌⊎◌, inl, inr,
}
use test_miti_check.Prelude.Text.{Text}
use test_miti_check.Prelude.Results.{Result, ok, err}
use test_miti_check.Request.{Raw, missing, value, TestBasisSpec}
use test_miti_check.Firewall.Verdict.{untestable}
use test_miti_check.Api.Locator.{defense_generation, check_generation, capability_of}
use test_miti_check.Api.Submission.{
  SubmitRequest, UpstreamInput, basis_document, parse_upstream_inputs,
}
use test_miti_check.Substrate.Conduct.{Prints, IsClean, unused}
use test_miti_check.Waf.Verdict.{World}
use test_miti_check.Waf.Earned.{IsEarned, IsHere, execute_scenario-IsJust}
use test_miti_check.Waf.Released.{execute_scenario-IsClean}
use test_miti_check.Upstream.Candidate.{PrimaryCandidate, candidate_spec}
use test_miti_check.Upstream.Reader.{Database, select_by_capability, read_candidate}
use test_miti_check.Upstream.Based.{err-ok, mode_of_text, with_basis-Based, with_candidate-fields}
use test_miti_check.Upstream.Execute.{
  Resolution, derive_basis, with_source, with_selected, with_parsed, resolve_entries, resolve,
  resolved_run, execute_upstream,
}

-- The rule of a resolved request is that of the first usable defense-generation entry, and its test is
-- the one of the request, or, when it has none, the one that the first usable check-generation entry
-- yields, if there is one.
pub record IsResolved (encode : List (Text × Text) → Text) (db : Database) (r : SubmitRequest)
    (s : SubmitRequest) : Type 0 where
  pub entries : List UpstreamInput
  pub entry : UpstreamInput
  pub source : PrimaryCandidate
  pub listed : parse_upstream_inputs r.upstream_inputs ≡ some entries
  pub selected : select_by_capability entries (capability_of defense_generation) ≡ some entry
  pub read : read_candidate db entry.result_ref ≡ ok source
  pub rule : s.candidate ≡ value (candidate_spec source)
  pub test :
      (s.test_basis ≡ r.test_basis)
      ⊎ ((r.test_basis ≡ missing)
          × ((check : UpstreamInput) × (basis : TestBasisSpec) × (select_by_capability entries
                  (capability_of check_generation)
                ≡ some check)
              × (derive_basis encode db check.result_ref ≡ ok basis)
              × (s.test_basis ≡ value (basis_document basis))))

module _ (encode : List (Text × Text) → Text) (db : Database) (r s : SubmitRequest) where
  -- The resolved request, and that it stays in the modes of this process.
  abbrev Resolves : Type 0
  Resolves =
      IsResolved encode db r s
      × (IsHere (mode_of_text r.execution_mode) → IsHere (mode_of_text s.execution_mode))

module _ (encode : List (Text × Text) → Text) (db : Database) (r : SubmitRequest)
    (t : Resolution) where
  with_source-Resolves :
      (entries : List UpstreamInput) (entry : UpstreamInput) (answer : Result Text PrimaryCandidate)
      → parse_upstream_inputs r.upstream_inputs ≡ some entries
      → select_by_capability entries (capability_of defense_generation) ≡ some entry
      → read_candidate db entry.result_ref ≡ answer
      → with_source encode db r entries entry.result_ref answer ≡ ok t
      → Resolves encode db r t.request
  with_source-Resolves entries entry (err e) p f a h = absurd (err-ok h)
  with_source-Resolves entries entry (ok pc) p f a h =
      let based = with_basis-Based encode db entries r.test_basis _ t h in
      let (rule, test, mode) = with_candidate-fields r (candidate_spec pc) in
      (
        record {
          entries = entries;
          entry = entry;
          source = pc;
          listed = p;
          selected = f;
          read = a;
          rule = based.same_rule ∙ rule;
          test = elim based.test [ inl e ↦ inl (e ∙ test) | inr found ↦ inr found ];
        },
        λ here. subst (λ m. IsHere (mode_of_text m)) (sym based.same_mode) (mode here),
      )

  with_selected-Resolves :
      (entries : List UpstreamInput) (selected : Option UpstreamInput)
      → parse_upstream_inputs r.upstream_inputs ≡ some entries
      → select_by_capability entries (capability_of defense_generation) ≡ selected
      → with_selected encode db r entries selected ≡ ok t
      → Resolves encode db r t.request
  with_selected-Resolves entries none p f h = absurd (err-ok h)
  with_selected-Resolves entries (some entry) p f h =
      with_source-Resolves entries entry (read_candidate db entry.result_ref) p f refl h

module _ (encode : List (Text × Text) → Text) (unparsed : Raw (List UpstreamInput) → Text)
    (world : World) (r : SubmitRequest) where
  -- A database that is configured, and the request that it resolves to.
  record Found (db : Option Database) (s : SubmitRequest) : Type 0 where
    source : Database
    given : db ≡ some source
    resolves : Resolves encode source r s

  with_parsed-Found :
      (db : Option Database) (entries : Option (List UpstreamInput)) (t : Resolution)
      → parse_upstream_inputs r.upstream_inputs ≡ entries
      → with_parsed encode unparsed world r db entries ≡ ok t
      → Found db t.request
  unfolding resolve_entries
  with_parsed-Found db none t p h = absurd (err-ok h)
  with_parsed-Found none (some entries) t p h = absurd (err-ok h)
  with_parsed-Found (some db) (some entries) t p h = record {
    source = db;
    given = refl;
    resolves =
        with_selected-Resolves encode db r t entries
          (select_by_capability entries (capability_of defense_generation)) p refl h;
  }

  -- What a match of the resolved run rests on.
  pub record IsGrounded (db : Option Database) : Type 0 where
    pub source : Database
    pub given : db ≡ some source
    pub request : SubmitRequest
    pub resolved : IsResolved encode source r request
    pub earned : IsEarned world request

  module _ (prints : Prints world.docker) (run_id result_id : String) where
    resolved_run-IsGrounded :
        (db : Option Database) (answer : Result Text Resolution)
        → ((t : Resolution) → answer ≡ ok t → Found db t.request)
        → IsHere (mode_of_text r.execution_mode)
        → (resolved_run encode unparsed world answer run_id result_id).outcome.is_match ≡ true
        → IsGrounded db
    unfolding resolved_run untestable
    resolved_run-IsGrounded db (err e) found here m = ground arith
    resolved_run-IsGrounded db (ok t) found here m =
        let f = found t refl in
        let (resolved, stays) = f.resolves in
        let just = execute_scenario-IsJust world prints t.request run_id result_id (stays here) in
        record {
          source = f.source;
          given = f.given;
          request = t.request;
          resolved = resolved;
          earned = just.earned m;
        }

    -- A run over upstream inputs that is not handed to a GitHub workflow reports a match only when
    -- the database is configured, the rule that it ran is the one read for the first usable
    -- defense-generation entry, its test is the request's own or, without one, that derived for the
    -- first usable check-generation entry, and that rule earns the match as in a direct run. Docker is
    -- taken to print the id of a container that it starts.
    pub execute_upstream-IsGrounded :
        (db : Option Database)
        → IsHere (mode_of_text r.execution_mode)
        → (execute_upstream encode unparsed world db r run_id result_id).outcome.is_match ≡ true
        → IsGrounded db
    unfolding execute_upstream resolve
    execute_upstream-IsGrounded db here m =
        resolved_run-IsGrounded db (resolve encode unparsed world db r)
          (λ t. with_parsed-Found db (parse_upstream_inputs r.upstream_inputs) t refl) here m

    resolved_run-IsClean :
        (answer : Result Text Resolution)
        → IsClean (resolved_run encode unparsed world answer run_id result_id).calls
    unfolding resolved_run
    resolved_run-IsClean (err e) = unused refl
    resolved_run-IsClean (ok t) = execute_scenario-IsClean world prints t.request run_id result_id
