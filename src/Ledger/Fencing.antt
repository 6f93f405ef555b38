-- ===== src/Ledger/Fencing.antt =====
-- Lease fencing: what the holder of a lost lease can do, and what others can do to a live lease.
use test_miti_check.Prelude.{
  ℕ, ◌<◌, String, Bool, true, false, Option, none, some, [], ◌∷◌, ◌&&◌, not, ◌≡◌, arith, ◌==◌,
  is_text,
}
use test_miti_check.Ledger.Row.{Row, running}
use test_miti_check.Ledger.Statement.{apply}
use test_miti_check.Ledger.Operation.{
  Claim, Operation, lease, heartbeat, update_progress, stage, complete, fail, fail_outcome,
  mark_canceled, mark_pending, retry_verification, fail_conflict, statement,
}
use test_miti_check.Ledger.History.{History, replay}

-- The claim under which a worker makes the call; `none` for calls that need no lease.
abbrev pub holder : Operation → Option Claim
holder (heartbeat c d) = some c
holder (update_progress c p m) = some c
holder (stage c o p) = some c
holder (complete c o p) = some c
holder (fail c f) = some c
holder (fail_outcome c o p f) = some c
holder (mark_canceled c) = some c
holder (mark_pending c) = some c
holder (retry_verification c m d f) = some c
holder (fail_conflict c f) = some c
holder _ = none

-- A call under a token that the row does not carry changes nothing.
pub apply-fenced :
    (now : ℕ) (op : Operation) (c : Claim) (r : Row)
    → holder op ≡ some c
    → is_text r.lease_token c.token ≡ false
    → apply (statement now op) r ≡ r
unfolding apply statement
apply-fenced now (heartbeat d l) c r h f = ground arith
apply-fenced now op c r h f = ground arith

-- `LeaseNext` makes a new token for each lease; `issues` says that it made this one.
abbrev pub issues : String → Operation → Bool
issues token (lease c d m) = c.token == token
issues token _ = false

abbrev pub never_issues : String → History → Bool
never_issues token [] = true
never_issues token ((now, op) ∷ rest) = not (issues token op) && never_issues token rest

pub token-apply :
    (now : ℕ) (op : Operation) (token : String) (r : Row)
    → is_text r.lease_token token ≡ false
    → issues token op ≡ false
    → is_text (apply (statement now op) r).lease_token token ≡ false
unfolding apply statement
token-apply now (lease c d m) token r f i = ground arith
token-apply now op token r f i = ground arith

pub token-replay :
    (h : History) (token : String) (r : Row)
    → is_text r.lease_token token ≡ false
    → never_issues token h ≡ true
    → is_text (replay h r).lease_token token ≡ false
unfolding replay
token-replay [] token r f n = f
token-replay ((now, op) ∷ rest) token r f n =
    token-replay rest token (apply (statement now op) r)
      (token-apply now op token r f (ground arith)) (ground arith)

-- Once a row has lost a token, and whatever happens since that does not issue the token again, no
-- call under the token changes the row.
pub stale_holder-fenced :
    (h : History) (now : ℕ) (op : Operation) (c : Claim) (r : Row)
    → is_text r.lease_token c.token ≡ false
    → never_issues c.token h ≡ true
    → holder op ≡ some c
    → apply (statement now op) (replay h r) ≡ replay h r
stale_holder-fenced h now op c r f n o =
    apply-fenced now op c (replay h r) o (token-replay h c.token r f n)

-- What the holder of a live lease relies on.
pub record Undisturbed (r s : Row) : Type 0 where
  pub status : s.status ≡ r.status
  pub worker_id : s.worker_id ≡ r.worker_id
  pub lease_token : s.lease_token ≡ r.lease_token
  pub lease_expires_at : s.lease_expires_at ≡ r.lease_expires_at
  pub attempt : s.attempt ≡ r.attempt
  pub response : s.response ≡ r.response
  pub result_payload : s.result_payload ≡ r.result_payload
  pub publication_pending : s.publication_pending ≡ r.publication_pending
  pub verification_attempt : s.verification_attempt ≡ r.verification_attempt

abbrev pub others_claim : Row → Operation → Bool
others_claim r op = elim (holder op) [ none ↦ true | some c ↦ not (is_text r.lease_token c.token) ]

-- While a running row's lease has not expired, no call but its holder's takes the lease, moves
-- the status, or touches the staged result.
pub live_lease-Undisturbed :
    (now e : ℕ) (op : Operation) (r : Row)
    → r.status ≡ running
    → r.lease_expires_at ≡ some e
    → now < e
    → others_claim r op ≡ true
    → Undisturbed r (apply (statement now op) r)
unfolding apply statement
live_lease-Undisturbed now e (lease c d m) r s x l o = ground arith
live_lease-Undisturbed now e op r s x l o = ground arith
