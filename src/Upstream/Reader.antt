-- ===== src/Upstream/Reader.antt =====
-- `selectByCapability`, `ReadCandidate`, `ReadRunResult` and `extractRunResult` of
-- api/executor_upstream.go. The database is a parameter: what the query of a text answers for a key,
-- and how that decodes.
use test_miti_check.Prelude.{Bool, Option, List, ◌++◌, ◌&&◌, not, find}
use test_miti_check.Prelude.Text.{Text, text, is_empty, trim_space, equal_fold}
use test_miti_check.Prelude.Results.{Result, ok, err, or_error, require, ◌>>=◌, ◌>>◌}
use test_miti_check.Api.Locator.{UpstreamRef}
use test_miti_check.Api.Submission.{UpstreamInput}
use test_miti_check.Upstream.Identifier.{qualified}
use test_miti_check.Upstream.Stimulus.{Document}
use test_miti_check.Upstream.Candidate.{PrimaryCandidate}

-- A `result_json`: its candidate, and its `run_result`, if it is there and not `null`.
pub record ResultJson : Type 0 where
  pub primary_candidate : PrimaryCandidate
  pub run_result : Option Document

-- The error of the query, or what the decoding of its row answers.
abbrev pub Database : Type 0
Database = Text → Text → Result Text (Result Text ResultJson)

abbrev pub is_usable : Text → UpstreamInput → Bool
is_usable capability e =
    equal_fold (trim_space e.capability) capability && not (is_empty (trim_space e.result_ref.key))

-- `selectByCapability`.
unfoldable pub select_by_capability : List UpstreamInput → Text → Option UpstreamInput
unfolding equal_fold trim_space
select_by_capability entries capability = find (is_usable capability) entries

unfoldable pub query_of : UpstreamRef → Text
unfolding qualified text
query_of r = text "SELECT result_json FROM " ++ qualified r ++ text " WHERE result_id = ? LIMIT 1"

abbrev pub parsed : Result Text ResultJson → Result Text ResultJson
parsed (ok j) = ok j
parsed (err e) = err (text "result_json parse: " ++ e)

-- `ReadCandidate`.
unfoldable pub read_candidate : Database → UpstreamRef → Result Text PrimaryCandidate
unfolding query_of trim_space text
read_candidate db r = do
  row ← db (query_of r) r.key
  j ← parsed row
  require (not (is_empty (trim_space j.primary_candidate.artifact_content)))
      (text "primary_candidate.artifact_content is empty")
  ok j.primary_candidate

-- `ReadRunResult` with `extractRunResult`.
unfoldable pub read_run_result : Database → UpstreamRef → Result Text Document
unfolding query_of text
read_run_result db r = do
  row ← db (query_of r) r.key
  j ← parsed row
  or_error j.run_result (text "result_json.run_result is missing")
