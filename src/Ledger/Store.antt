-- ===== src/Ledger/Store.antt =====
-- The methods of `RunStore` that choose a row or insert one: `CreateOrGet`, `LeaseNext`,
-- `Heartbeat`, `Cancel` and `ClaimNextCallback` of api/lifecycle_store.go.
use test_miti_check.Prelude.{
  ℕ, String, Bool, true, false, Option, none, some, List, [], ◌∷◌, ◌++◌, ◌==◌, ◌&&◌, not, leb, ltb,
  eqb, if◌then◌else◌, is_none, find, any, coalesce,
}
use test_miti_check.Outcome.{unset}
use test_miti_check.Canonical.{Codec}
use test_miti_check.Ledger.Row.{Row, queued, waiting, empty_object}
use test_miti_check.Ledger.Statement.{exec, progress, lease_selected, heartbeat_update}
use test_miti_check.Ledger.Transition.{cancel_update}
use test_miti_check.Ledger.Outbox.{claimable, claim_update}
use test_miti_check.Ledger.Operation.{Claim, leasable}
use test_miti_check.Ledger.Durable.{DurableRun, get_durable, get_by_request}

-- What the submission handler gives to `CreateOrGet`; an empty text is stored as NULL.
pub record NewRun : Type 0 where
  pub run_id : String
  pub result_id : String
  pub created_at : ℕ
  pub request : String
  pub request_id : String
  pub correlation_id : String
  pub request_digest : String
  pub callback_url : String
  pub callback_workflow_id : String
  pub callback_signal : String
  pub callback_event_id : String

unfoldable pub nullable : String → Option String
nullable v = if v == "" then none else some v

-- The inserted row, with the defaults of the columns that the INSERT does not name.
unfoldable pub row_of : NewRun → Row
unfolding nullable
row_of n = record {
  run_id = n.run_id;
  result_id = n.result_id;
  terminal_state = unset;
  is_match = false;
  created_at = n.created_at;
  request = n.request;
  response = empty_object;
  request_id = n.request_id;
  correlation_id = n.correlation_id;
  request_digest = n.request_digest;
  status = queued;
  updated_at = n.created_at;
  started_at = none;
  completed_at = none;
  progress = progress "queued" "Awaiting worker";
  failure = none;
  completion = none;
  worker_id = none;
  lease_token = none;
  lease_expires_at = none;
  attempt = 0;
  last_heartbeat = none;
  cancel_requested = false;
  publication_pending = false;
  result_payload = none;
  verification_attempt = 0;
  publication_retry_at = none;
  callback = record {
    url = nullable n.callback_url;
    workflow_id = nullable n.callback_workflow_id;
    signal = nullable n.callback_signal;
    event_id = nullable n.callback_event_id;
    state = if is_none (nullable n.callback_url) then none else some waiting;
    attempt = 0;
    next_at = some n.created_at;
    delivered_at = none;
    configuration_failed_at = none;
    last_error = none;
    lease_token = none;
    lease_expires_at = none;
  };
}

-- INSERT ... ON CONFLICT (request_id) DO NOTHING; a second row of a run id is refused.
unfoldable pub insert : NewRun → List Row → Option (List Row × Bool)
insert n rows =
    if any (λ r. r.request_id == n.request_id) rows
    then some (rows, false)
    else if any (λ r. r.run_id == n.run_id) rows
    then none
    else some (rows ++ row_of n ∷ [], true)

-- ORDER BY created_at, and ORDER BY callback_next_at,created_at.
abbrev pub created_before : Row → Row → Bool
created_before r s = leb r.created_at s.created_at

abbrev pub due_before : Row → Row → Bool
due_before r s =
    let a = coalesce r.callback.next_at 0 in
    let b = coalesce s.callback.next_at 0 in if eqb a b then created_before r s else ltb a b

-- The first row in the order that a SELECT ... FOR UPDATE SKIP LOCKED LIMIT 1 returns: the first in
-- the table among equals, and none that another transaction has locked.
unfoldable pub earliest : (Row → Row → Bool) → (Row → Bool) → List Row → Option Row
earliest before p [] = none
earliest before p (r ∷ rows) =
    let rest = earliest before p rows in
    if p r
    then (elim rest [ none ↦ some r | some s ↦ if before r s then some r else some s ])
    else rest

abbrev pub unlocked : List String → Row → Bool
unlocked locked r = not (any (λ id. id == r.run_id) locked)

module _ (codec : Codec) where
  -- `none` is an error, after which the transaction is rolled back.
  unfoldable pub create_or_get : NewRun → List Row → Option (List Row × DurableRun × Bool)
  unfolding insert
  create_or_get n rows = elim (insert n rows) [
    | none ↦ none
    | some (rows', created) ↦ elim (get_by_request codec n.request_id rows') [
      | none ↦ none
      | some stored ↦ some (rows', stored, created)
    ]
  ]

  -- `token` is the fresh lease token; the run is read back inside the transaction.
  unfoldable pub lease_next :
      ℕ → List String → String → String → ℕ → ℕ → List Row → List Row × Option DurableRun
  lease_next now locked worker token duration max_attempts rows =
      elim (earliest created_before (λ r. unlocked locked r && leasable now max_attempts r) rows) [
        | none ↦ (rows, none)
        | some r ↦
            let rows' = (exec (lease_selected now r.run_id worker token duration) rows).0 in
            (rows', get_durable codec r.run_id rows')
      ]

  -- `Cancel` returns the run as it then stands.
  unfoldable pub cancel : ℕ → String → List Row → List Row × Option DurableRun
  cancel now id rows =
      let rows' = (exec (cancel_update now id) rows).0 in (rows', get_durable codec id rows')

-- RETURNING cancel_requested: whether cancellation is requested, and whether the lease is owned.
unfoldable pub heartbeat : ℕ → Claim → ℕ → List Row → List Row × Bool × Bool
heartbeat now c duration rows =
    let s = heartbeat_update now c.id c.worker c.token duration in
    elim (find s.guard rows) [
      | none ↦ (rows, false, false)
      | some r ↦ ((exec s rows).0, r.cancel_requested, true)
    ]

-- `ClaimNextCallback`: the chosen row and the attempts made so far.
unfoldable pub claim_next_callback :
    ℕ → List String → String → ℕ → List Row → List Row × Option (String × ℕ)
claim_next_callback now locked token duration rows =
    elim (earliest due_before (λ r. unlocked locked r && claimable now r) rows) [
      | none ↦ (rows, none)
      | some r ↦ (
        (exec (claim_update now r.run_id token duration) rows).0,
        some (r.run_id, r.callback.attempt),
      )
    ]
