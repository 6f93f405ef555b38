-- ===== src/Databricks/InsertOnly.antt =====
-- The result table only grows, holds a result id at most once, and a successful call leaves exactly
-- the published row under the result id.
use test_miti_check.Prelude.{
  ℕ, zero, suc, ◌+◌, String, false, Option, none, some, List, [], ◌∷◌, ◌++◌, ◌≡◌, refl, ◌⊎◌, inl,
  inr, arith, ◌==◌, any, length, Bool-cases, eq→≡,
}
use test_miti_check.Outcome.{RunOutcome}
use test_miti_check.Canonical.{Codec}
use test_miti_check.Databricks.{
  SinkRow, sent, Sink, Delivery, merge, rows_of, row_of, verify_rows, verify_payload, publish,
  verify,
}

rows_of-append :
    (id : String) (xs ys : List SinkRow) → rows_of id (xs ++ ys) ≡ rows_of id xs ++ rows_of id ys
unfolding rows_of
rows_of-append id [] ys = refl
rows_of-append id (x ∷ xs) ys = ground (arith, rows_of-append id xs ys)

rows_of-absent :
    (id : String) (xs : List SinkRow) → any (λ r. r.result_id == id) xs ≡ false → rows_of id xs ≡ []
unfolding rows_of
rows_of-absent id [] h = refl
rows_of-absent id (x ∷ xs) h = ground (arith, rows_of-absent id xs)

-- Reading one row under an id is the same row, as published.
verify_rows-sent :
    (broken : Option ℕ) (out : RunOutcome) (payload : String) (n : ℕ) (rows : List SinkRow)
    → verify_rows broken out payload n rows ≡ sent
    → (n + length rows ≡ 1)
unfolding verify_rows
verify_rows-sent (some k) out payload n [] h = cc
verify_rows-sent none out payload n [] h = ground arith
verify_rows-sent (some zero) out payload n (r ∷ rows) h = cc
verify_rows-sent (some (suc k)) out payload n (r ∷ rows) h =
    ground (arith, verify_rows-sent (some k) out payload (n + 1) rows)
verify_rows-sent none out payload n (r ∷ rows) h =
    ground (arith, verify_rows-sent none out payload (n + 1) rows)

verify_rows-row :
    (broken : Option ℕ) (out : RunOutcome) (payload : String) (n : ℕ) (r : SinkRow)
    (rows : List SinkRow)
    → verify_rows broken out payload n (r ∷ rows) ≡ sent
    → (r.run_id ≡ out.run_id) × (r.result_json ≡ payload)
unfolding verify_rows
verify_rows-row (some zero) out payload n r rows h = cc
verify_rows-row (some (suc k)) out payload n r rows h =
    (eq→≡ _ _ (ground arith), eq→≡ _ _ (ground arith))
verify_rows-row none out payload n r rows h = (eq→≡ _ _ (ground arith), eq→≡ _ _ (ground arith))

rows_of-id :
    (id : String) (rows rest : List SinkRow) (r : SinkRow)
    → rows_of id rows ≡ r ∷ rest
    → r.result_id ≡ id
unfolding rows_of
rows_of-id id [] rest r h = cc
rows_of-id id (x ∷ rows) rest r h = elim (Bool-cases (x.result_id == id)) [
  | inl e ↦ let found : x ≡ r = ground arith in rw (← found) (eq→≡ _ _ e)
  | inr e ↦ rows_of-id id rows rest r (ground arith)
]

single :
    (broken : Option ℕ) (out : RunOutcome) (payload : String) (rows found : List SinkRow)
    → rows_of out.result_id rows ≡ found
    → verify_rows broken out payload 0 found ≡ sent
    → found ≡ row_of out payload ∷ []
single broken out payload rows [] e h =
    absurd (omega (arith, verify_rows-sent broken out payload 0 [] h))
single broken out payload rows (r ∷ []) e h =
    let (run, json) = verify_rows-row broken out payload 0 r [] h in
    let id = rows_of-id out.result_id rows [] r e in cc
single broken out payload rows (r ∷ s ∷ rest) e h =
    absurd (omega (arith, verify_rows-sent broken out payload 0 (r ∷ s ∷ rest) h))

-- A read-back that succeeds found exactly the published row under the result id.
pub verify_payload-sent :
    (broken : Option ℕ) (out : RunOutcome) (payload : String) (rows : List SinkRow)
    → verify_payload broken out payload rows ≡ sent
    → rows_of out.result_id rows ≡ row_of out payload ∷ []
unfolding verify_payload
verify_payload-sent broken out payload rows h =
    single broken out payload rows (rows_of out.result_id rows) refl h

module _ (codec : Codec) (sink : Option Sink) (broken : Option ℕ) (out : RunOutcome)
    (payload : String) (rows : List SinkRow) where
  -- A verification that succeeds found exactly the published row under the result id.
  pub verify-sent :
      verify codec sink broken out payload rows ≡ sent
      → rows_of out.result_id rows ≡ row_of out payload ∷ []
  unfolding verify
  verify-sent h = ground (arith, verify_payload-sent broken out payload rows)

  -- A publication that succeeds leaves exactly the published row under the result id.
  pub publish-sent :
      (delivery : Delivery)
      → (publish codec sink delivery broken out payload rows).1 ≡ sent
      → rows_of out.result_id (publish codec sink delivery broken out payload rows).0
        ≡ row_of out payload ∷ []
  unfolding publish
  publish-sent delivery h =
      ground (arith, verify_payload-sent broken out payload (merge (row_of out payload) rows))

  -- A publication, successful or not, keeps the stored rows and adds at most one, and none under a
  -- result id that is stored already.
  pub publish-insert_only :
      (delivery : Delivery)
      → let after = (publish codec sink delivery broken out payload rows).0 in
        (after ≡ rows)
        ⊎ ((after ≡ rows ++ row_of out payload ∷ []) × (rows_of out.result_id rows ≡ []))
  unfolding publish merge
  publish-insert_only delivery = ground (arith, rows_of-absent out.result_id rows)

-- A later merge of any row leaves the single row under a result id as it is.
pub rows_of-merge :
    (id : String) (row : SinkRow) (rows : List SinkRow) (r : SinkRow)
    → rows_of id rows ≡ r ∷ []
    → rows_of id (merge row rows) ≡ r ∷ []
unfolding merge rows_of
rows_of-merge id row rows r h =
    let same = eq→≡ row.result_id id in
    ground (arith, rows_of-append id rows (row ∷ []), rows_of-absent row.result_id rows, same)
