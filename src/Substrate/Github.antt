-- ===== src/Substrate/Github.antt =====
-- api/substrate_github.go. The environment, GitHub's answers, the registry and the encoding of
-- the request are parameters. A loop is given what its rounds meet up to its deadline or the end of
-- the context.
use test_miti_check.Prelude.{
  ℕ, Bool, Option, none, some, List, [], ◌∷◌, ◌++◌, ◌&&◌, ◌||◌, ◌-◌, find, ltb, if◌then◌else◌,
}
use test_miti_check.Prelude.Text.{Text, text, text_eq, is_empty, first_non_empty}
use test_miti_check.Prelude.Text.Numbers.{decimal}
use test_miti_check.Prelude.Results.{Result, ok, err, or_error, ◌>>=◌}
use test_miti_check.Outcome.{RunOutcome}
use test_miti_check.Firewall.Verdict.{note, untestable}
use test_miti_check.Api.Submission.{SubmitRequest}

pub record WorkflowRun : Type 0 where
  pub id : ℕ
  pub name : Text
  pub display_title : Text
  pub created_at : ℕ

-- A round of `findRun`: the end of the context, a failed request or another status than 200, or the
-- runs listed.
pub data RunsPoll : Type 0 where
  ended : Text → RunsPoll
  unlisted : RunsPoll
  listed : List WorkflowRun → RunsPoll

-- A round of `waitRun`: an error, or a status with its conclusion.
pub data StatusPoll : Type 0 where
  failing : Text → StatusPoll
  reported : Text → Text → StatusPoll

-- A file of the artifact, by whether its name ends in `result.json`, and what decoding it answers.
pub record Entry : Type 0 where
  pub is_result : Bool
  pub decoded : Result Text RunOutcome

pub record Artifact : Type 0 where
  pub name : Text
  pub download_url : Text

-- `dispatch` takes the repository, the workflow, the ref and the request that the runner executes.
-- `context_error` is what the context answers once it has ended.
pub record Github : Type 0 where
  pub repo : Text
  pub token : Text
  pub workflow : Text
  pub ghcr_workflow : Text
  pub ref : Text
  pub username : Text
  pub now : ℕ
  pub dispatch : Text → Text → Text → SubmitRequest → Option Text
  pub runs : List RunsPoll
  pub statuses : ℕ → List StatusPoll
  pub context_error : Text
  pub artifacts : ℕ → Result Text (List Artifact)
  pub download : Text → Result Text (List Entry)
  pub ensure_secret : Text → Option Text
  pub copy : Text → Text → List Text × Option Text

-- A run of the name that was created after the time.
abbrev pub is_ours : Text → ℕ → WorkflowRun → Bool
is_ours name after r =
    (text_eq r.name name || text_eq r.display_title name) && ltb after r.created_at

-- `findRun`.
unfoldable pub find_run : Text → ℕ → List RunsPoll → Result Text ℕ
unfolding text_eq text
find_run name after [] = err (text "timed out waiting for run to appear")
find_run name after (ended e ∷ polls) = err e
find_run name after (unlisted ∷ polls) = find_run name after polls
find_run name after (listed runs ∷ polls) = elim (find (is_ours name after) runs) [
  | some r ↦ ok (r.id)
  | none ↦ find_run name after polls
]

-- `waitRun`.
unfoldable pub wait_run : Text → List StatusPoll → Result Text Text
unfolding text_eq text
wait_run context_error [] = err context_error
wait_run context_error (failing e ∷ polls) = err e
wait_run context_error (reported status conclusion ∷ polls) =
    let rest = wait_run context_error polls in
    if text_eq status (text "completed") then ok conclusion else rest

unfoldable pub first_result : List Entry → Result Text RunOutcome
unfolding text
first_result [] = err (text "result.json missing from artifact")
first_result (e ∷ entries) =
    let rest = first_result entries in if e.is_result then e.decoded else rest

abbrev pub artifact_name : Text
artifact_name = text "mitigation-check-result"

-- The address of the first artifact of the name, unless it is empty.
abbrev pub result_url : List Artifact → Option Text
result_url list = elim (find (λ a. text_eq (a.name) artifact_name) list) [
  | none ↦ none
  | some a ↦ if is_empty a.download_url then none else some a.download_url
]

-- `fetchResult`.
unfoldable pub fetch_result : Github → ℕ → Result Text RunOutcome
unfolding text_eq text first_result
fetch_result g run_id = do
  list ← g.artifacts run_id
  url ← or_error (result_url list) (text "artifact \"mitigation-check-result\" not found")
  entries ← g.download url
  first_result entries

-- The remote result under the identity of this run.
unfoldable pub overlay : Text → RunOutcome → RunOutcome → RunOutcome
unfolding text
overlay runner out result = record result {
  run_id = out.run_id;
  result_id = out.result_id;
  substrate = record (result.substrate) { runner = runner };
  steps =
      out.steps
      ++ result.steps
      ++ (text "result retrieved from GitHub artifact " ++ artifact_name) ∷ [];
}

unfoldable pub fetched : Text → Text → Result Text RunOutcome → RunOutcome → RunOutcome
unfolding untestable overlay text
fetched runner conclusion (err e) out =
    untestable (text "run " ++ conclusion ++ text ", but no usable result: " ++ e) out
fetched runner conclusion (ok result) out = overlay runner out result

unfoldable pub waited : Github → Text → ℕ → Result Text Text → RunOutcome → RunOutcome
unfolding untestable fetched fetch_result text decimal
waited g runner run_id (err e) out = untestable (text "waiting for GitHub run: " ++ e) out
waited g runner run_id (ok conclusion) out =
    fetched runner conclusion (fetch_result g run_id)
      (note (text "github run #" ++ decimal run_id ++ text " completed: " ++ conclusion) out)

unfoldable pub located : Github → Text → Result Text ℕ → RunOutcome → RunOutcome
unfolding untestable waited wait_run text decimal
located g runner (err e) out = untestable (text "could not locate GitHub run: " ++ e) out
located g runner (ok run_id) out =
    waited g runner run_id (wait_run g.context_error (g.statuses run_id))
      (note (text "github run #" ++ decimal run_id ++ text " started") out)

-- `5 * time.Second`, in microseconds as all times.
abbrev pub five_seconds : ℕ
five_seconds = 5_000_000

-- From the answer of the dispatch on. `time.Now().Add(-5 * time.Second)` is `now` less 5 seconds.
unfoldable pub dispatched : Github → Text → Text → Option Text → RunOutcome → RunOutcome
unfolding untestable located find_run text
dispatched g runner step (some e) out = untestable (text "github dispatch failed: " ++ e) out
dispatched g runner step none out =
    located g runner (find_run (text "mc-" ++ text out.run_id) (g.now - five_seconds) g.runs)
      (note step out)

abbrev pub locally : SubmitRequest → SubmitRequest
locally r = record r { execution_mode = text "local" }

abbrev pub workflow_step : Text → Text → Text → Text
workflow_step workflow repo ref =
    text "dispatched workflow " ++ workflow ++ text " on " ++ repo ++ text "@" ++ ref

-- `runViaGitHub`.
unfoldable pub run_via_github : Github → SubmitRequest → RunOutcome → RunOutcome
unfolding untestable dispatched text
run_via_github g r out =
    let workflow = first_non_empty g.workflow (text "mitigation-check.yml") in
    let ref = first_non_empty g.ref (text "main") in
    let step =
      workflow_step workflow g.repo ref ++ text " (run_id " ++ text out.run_id ++ text ")" in
    if is_empty g.repo || is_empty g.token
    then untestable (text "github actions not configured (set GITHUB_REPO, GITHUB_TOKEN)") out
    else dispatched g (text "github") step (g.dispatch g.repo workflow ref (locally r)) out
