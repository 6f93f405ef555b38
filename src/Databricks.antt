-- ===== src/Databricks.antt =====
-- The authoritative result table and its writer, api/databricks.go.
pub mod InsertOnly
use test_miti_check.Prelude.{
  ℕ, zero, suc, ◌+◌, String, Bool, true, false, Option, none, some, List, [], ◌∷◌, ◌++◌, ◌&&◌, not,
  ◌==◌, eqb, ltb, if◌then◌else◌, any,
}
use test_miti_check.Outcome.{RunOutcome, ResultRef}
use test_miti_check.Canonical.{Codec, Result, ok, err, validate_canonical_result_payload}

pub record SinkRow : Type 0 where
  pub run_id : String
  pub result_id : String
  pub result_json : String

-- `PublicationVerificationState`; `no_state` is the empty string of an error made without one.
pub data VerificationState : Type 0 where
  no_state unknown absent conflict : VerificationState

-- The error of a publication: one that `publicationVerificationFailure` classifies, or another.
pub data PublishError : Type 0 where
  plain : PublishError
  verification : VerificationState → PublishError

pub data Sent : Type 0 where
  sent : Sent
  refused : PublishError → Sent

pub record Sink : Type 0 where
  pub catalog : String
  pub schema : String
  pub name : String

unfoldable pub result_ref : Sink → String → ResultRef
result_ref s result_id = record {
  system = "databricks";
  catalog = s.catalog;
  schema = s.schema;
  table = s.name;
  key = result_id;
}

abbrev same_ref : ResultRef → ResultRef → Bool
same_ref a b =
    a.system == b.system
    && a.catalog == b.catalog
    && a.schema == b.schema
    && a.table == b.table
    && a.key == b.key

-- The insert-only MERGE of `immutableResultMergeSQL`.
unfoldable pub merge : SinkRow → List SinkRow → List SinkRow
merge row rows = if any (λ r. r.result_id == row.result_id) rows then rows else rows ++ row ∷ []

unfoldable pub rows_of : String → List SinkRow → List SinkRow
rows_of id [] = []
rows_of id (r ∷ rows) = let rest = rows_of id rows in if r.result_id == id then r ∷ rest else rest

-- What the connection does to the MERGE of one call, and after how many rows, if at all, the read
-- of the call breaks off.
pub data Delivery : Type 0 where
  applied lost_before lost_after : Delivery

abbrev pub row_of : RunOutcome → String → SinkRow
row_of out payload = record {
  run_id = out.run_id;
  result_id = out.result_id;
  result_json = payload;
}

-- The loop of `verifyPayload` over the rows of the result id.
unfoldable pub verify_rows : Option ℕ → RunOutcome → String → ℕ → List SinkRow → Sent
verify_rows (some n) out payload count [] = refused (verification no_state)
verify_rows none out payload count [] =
    if eqb count 0
    then refused (verification absent)
    else if ltb 1 count
    then refused (verification conflict)
    else sent
verify_rows (some zero) out payload count (r ∷ rows) = refused (verification no_state)
verify_rows (some (suc n)) out payload count (r ∷ rows) =
    let rest = verify_rows (some n) out payload (count + 1) rows in
    if r.run_id == out.run_id && r.result_json == payload
    then rest
    else refused (verification conflict)
verify_rows none out payload count (r ∷ rows) =
    let rest = verify_rows none out payload (count + 1) rows in
    if r.run_id == out.run_id && r.result_json == payload
    then rest
    else refused (verification conflict)

unfoldable pub verify_payload : Option ℕ → RunOutcome → String → List SinkRow → Sent
unfolding verify_rows rows_of
verify_payload broken out payload rows =
    verify_rows broken out payload 0 (rows_of out.result_id rows)

module _ (codec : Codec) where
  -- `Publish`, on a sink that is nil where the service is not configured for Databricks.
  unfoldable pub publish :
      Option Sink → Delivery → Option ℕ → RunOutcome → String → List SinkRow → List SinkRow × Sent
  publish none delivery broken out payload rows = (rows, refused plain)
  publish (some sink) delivery broken out payload rows = elim (out.result_ref) [
    | none ↦ (rows, refused plain)
    | some ref ↦
        if not (same_ref ref (result_ref sink out.result_id))
        then (rows, refused plain)
        else elim (validate_canonical_result_payload codec out payload) [
          | err e ↦ (rows, refused plain)
          | ok _ ↦ elim delivery [
            | lost_before ↦ (rows, refused (verification no_state))
            | lost_after ↦ (merge (row_of out payload) rows, refused (verification no_state))
            | applied ↦
                let rows' = merge (row_of out payload) rows in
                (rows', verify_payload broken out payload rows')
          ]
        ]
  ]

  -- `Verify`, which only reads.
  unfoldable pub verify : Option Sink → Option ℕ → RunOutcome → String → List SinkRow → Sent
  verify none broken out payload rows = refused plain
  verify (some sink) broken out payload rows = elim (out.result_ref) [
    | none ↦ refused plain
    | some ref ↦ elim (validate_canonical_result_payload codec out payload) [
      | err e ↦ refused plain
      | ok _ ↦ verify_payload broken out payload rows
    ]
  ]
