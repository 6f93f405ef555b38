-- ===== src/Reference/Grounded.antt =====
-- What `executeScenarioByLocator` of api/executor_locator.go runs, and what a match that it reports
-- rests on.
use test_miti_check.Prelude.{
  arith, ◌≡◌, refl, sym, ap, subst, ◌∙◌, String, Bool, true, false, List, [], ◌∷◌,
}
use test_miti_check.Prelude.Text.{Text, text, text_eq, text_eq→≡, trim_space}
use test_miti_check.Prelude.Results.{Result, ok, err, require, ◌>>◌, bind-ok}
use test_miti_check.Request.{CandidateSpec}
use test_miti_check.Firewall.Verdict.{untestable}
use test_miti_check.Api.Locator.{Locator, defense_generation, check_generation, valid_locator}
use test_miti_check.Api.Submission.{SubmitRequest}
use test_miti_check.Substrate.Conduct.{Prints}
use test_miti_check.Waf.Verdict.{World}
use test_miti_check.Waf.Earned.{IsEarned, IsHere, execute_scenario-IsJust}
use test_miti_check.Waf.Scenario.{mode_of}
use test_miti_check.Upstream.Based.{ok-injective, err-ok}
use test_miti_check.Reference.Defense.{DefenseRow, verify_defense_row}
use test_miti_check.Reference.Verified.{IsVerified, verify_defense_row-IsVerified}
use test_miti_check.Reference.Check.{CheckRow}
use test_miti_check.Reference.Checked.{verify_check_row}
use test_miti_check.Reference.Resolve.{
  Source, ResolveCodec, Inputs, one_row, inputs_of, select_basis, resolve_basis, resolve_run,
  resolve_check, resolve_rule, resolve_rows, resolve_locators, with_inputs, located_run,
  execute_by_locator,
}

-- The rule is verified in the one row that the source has for the defense locator, and the test is
-- selected in the run that is verified in the one row that it has for the check locator.
pub record AreVerified (codec : ResolveCodec) (source : Source) (defense check : Locator)
    (selected : Text) (i : Inputs) : Type 0 where
  pub rule_row : DefenseRow
  pub rule_evidence : List Text
  pub read_rule : source.defense defense.result_id ≡ ok (rule_row ∷ [])
  pub rule : IsVerified codec.rows.shared rule_row defense (i.candidate, rule_evidence)
  pub run_row : CheckRow
  pub run : Text × List Text
  pub read_run : source.check check.result_id ≡ ok (run_row ∷ [])
  pub verified : verify_check_row codec.rows source.volume run_row check ≡ ok run
  pub test :
      select_basis codec (run.0) selected ≡ ok (i.provenance.selected_test_basis_id, i.test_basis)
  pub located : (i.provenance.defense_result ≡ defense) × (i.provenance.check_result ≡ check)

one_row-read :
    {A : Type 0} (producer : Text) (answer : Result Text (List A)) (row : A)
    → one_row producer answer ≡ ok row
    → answer ≡ ok (row ∷ [])
one_row-read producer (err e) row h = absurd (err-ok h)
one_row-read producer (ok []) row h = absurd (err-ok h)
one_row-read producer (ok (r ∷ [])) row h = ap (λ x. ok (x ∷ [])) (ok-injective h)
one_row-read producer (ok (r ∷ s ∷ rows)) row h = absurd (err-ok h)

three_guards-ok :
    {A : Type 0} (s t u : Bool) (x y z : Text) (next : Result Text A) (a : A)
    → (require s x >> (require t y >> (require u z >> next))) ≡ ok a
    → (s ≡ true) × (t ≡ true) × (u ≡ true) × (next ≡ ok a)
three_guards-ok false t u x y z next a h = absurd (err-ok h)
three_guards-ok true false u x y z next a h = absurd (err-ok h)
three_guards-ok true true false x y z next a h = absurd (err-ok h)
three_guards-ok true true true x y z next a h = (refl, refl, refl, h)

module _ (codec : ResolveCodec) (source : Source) (defense check : Locator) (selected : Text)
    (i : Inputs) where
  resolve_check-AreVerified :
      (found : CandidateSpec × List Text) (row : DefenseRow)
      → source.defense defense.result_id ≡ ok (row ∷ [])
      → IsVerified codec.rows.shared row defense found
      → resolve_check codec source defense check selected found ≡ ok i
      → AreVerified codec source defense check selected i
  resolve_check-AreVerified found row read rule h =
      let (run_row, one, h1) =
        bind-ok (one_row (text "Check Generation") (source.check check.result_id))
          (resolve_run codec source defense check selected found) i h in
      let (run, verified, h2) =
        bind-ok (verify_check_row codec.rows source.volume run_row check)
          (resolve_basis codec source defense check selected found) i h1 in
      let (basis, chosen, h3) =
        bind-ok (select_basis codec (run.0) selected)
          (λ b. ok (inputs_of defense check found run b)) i h2 in
      let same = ok-injective h3 in
      record {
        rule_row = row;
        rule_evidence = found.1;
        read_rule = read;
        rule =
            subst (λ c. IsVerified codec.rows.shared row defense (c, found.1))
              (ap (λ x. x.candidate) same) rule;
        run_row = run_row;
        run = run;
        read_run =
            one_row-read (text "Check Generation") (source.check check.result_id) run_row one;
        verified = verified;
        test = chosen ∙ ap (λ x. ok (x.provenance.selected_test_basis_id, x.test_basis)) same;
        located = (
          sym (ap (λ x. x.provenance.defense_result) same),
          sym (ap (λ x. x.provenance.check_result) same),
        );
      }

  resolve_rows-AreVerified :
      resolve_rows codec source defense check selected ≡ ok i
      → AreVerified codec source defense check selected i
  resolve_rows-AreVerified h =
      let (row, one, h1) =
        bind-ok (one_row (text "Defense Generation") (source.defense defense.result_id))
          (resolve_rule codec source defense check selected) i h in
      let (found, passed, h2) =
        bind-ok (verify_defense_row codec.rows.shared row defense)
          (resolve_check codec source defense check selected) i h1 in
      resolve_check-AreVerified found row
        (one_row-read (text "Defense Generation") (source.defense defense.result_id) row one)
        (verify_defense_row-IsVerified codec.rows.shared row defense found passed) h2

  -- What `Resolve` has checked.
  pub record IsLocated : Type 0 where
    pub defense_valid : valid_locator codec.is_stamp defense_generation defense ≡ true
    pub check_valid : valid_locator codec.is_stamp check_generation check ≡ true
    pub correlated : defense.correlation_id ≡ check.correlation_id
    pub inputs : AreVerified codec source defense check selected i

  resolve_locators-IsLocated :
      resolve_locators codec source defense check selected ≡ ok i → IsLocated
  unfolding resolve_locators
  resolve_locators-IsLocated h =
      let (d, c, same, h1) =
        three_guards-ok (valid_locator codec.is_stamp defense_generation defense)
          (valid_locator codec.is_stamp check_generation check)
          (text_eq defense.correlation_id check.correlation_id) _ _ _
          (resolve_rows codec source defense check selected) i h in
      record {
        defense_valid = d;
        check_valid = c;
        correlated = text_eq→≡ defense.correlation_id check.correlation_id same;
        inputs = resolve_rows-AreVerified h1;
      }

module _ (codec : ResolveCodec) (world : World) (r : SubmitRequest) (defense check : Locator) where
  -- What a match rests on.
  pub record IsTraced (answer : Result Text Source) : Type 0 where
    pub source : Source
    pub given : answer ≡ ok source
    pub inputs : Inputs
    pub located : IsLocated codec source defense check (trim_space r.test_basis_id) inputs
    pub earned : IsEarned world (with_inputs codec r inputs)

  inmemory-IsHere : (i : Inputs) → IsHere (mode_of world (with_inputs codec r i))
  unfolding text_eq text
  inmemory-IsHere i = (refl, refl)

  module _ (prints : Prints world.docker) (run_id result_id : String) where
    located_run-IsTraced :
        (source : Source) (answer : Result Text Inputs)
        → resolve_locators codec source defense check (trim_space r.test_basis_id) ≡ answer
        → (located_run codec world r run_id result_id answer).ran.outcome.is_match ≡ true
        → IsTraced (ok source)
    unfolding located_run untestable
    located_run-IsTraced source (err e) h m = ground arith
    located_run-IsTraced source (ok i) h m = record {
      source = source;
      given = refl;
      inputs = i;
      located =
          resolve_locators-IsLocated codec source defense check (trim_space r.test_basis_id) i h;
      earned =
          (execute_scenario-IsJust world prints (with_inputs codec r i) run_id result_id
              (inmemory-IsHere i)).earned
            m;
    }

    -- A run by reference reports a match only when the source is configured, the two locators are valid
    -- and of one correlation, the rule is verified in the one row that the source has for the defense
    -- locator, the test is the registered one that is selected in the run of the one row that passed the
    -- checks for the check locator, and that rule earns the match on that test as in a direct run.
    -- Docker is taken to print the id of a container that it starts.
    pub execute_by_locator-IsTraced :
        (answer : Result Text Source)
        → (execute_by_locator codec world answer r defense check run_id
            result_id).ran.outcome.is_match
          ≡ true
        → IsTraced answer
    unfolding execute_by_locator untestable
    execute_by_locator-IsTraced (err e) m = ground arith
    execute_by_locator-IsTraced (ok source) m =
        located_run-IsTraced source
          (resolve_locators codec source defense check (trim_space r.test_basis_id)) refl m
