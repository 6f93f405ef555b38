-- ===== src/Callback/Effect.antt =====
-- What a delivery of api/callback.go does to the run's callback columns.
use test_miti_check.Prelude.{
  arith, ℕ, ◌+◌, ◌*◌, ◌≤◌, ◌<◌, ◌^◌, ◌≡◌, refl, String, Bool, true, false, none, some, ◌⊎◌, inl,
  inr, if-both, eqb, not, if◌then◌else◌,
}
use test_miti_check.Prelude.Text.{Text, is_empty, trim_space}
use test_miti_check.Ledger.Row.{
  Row, Callback, CallbackState, delivered, configuration_failed, is_delivering,
}
use test_miti_check.Ledger.Row
use test_miti_check.Ledger.Statement.{apply}
use test_miti_check.Ledger.Outbox.{delivers}
use test_miti_check.Ledger.Operation.{
  Operation, statement, callback_succeeded, callback_unconfigured,
}
use test_miti_check.Callback.Retry.{retryable_status, base_seconds, retry_delay-bounds}
use test_miti_check.Callback.Deliver.{
  CallbackDelivery, Client, Reply, unreachable, answered, deliver, conclude, retry, payload_of,
  later,
}

-- The lease is given back and the attempt counted, in one of the three final ways; a retry waits at
-- least four fifths of the scheduled delay.
pub record IsConcluded (now : ℕ) (attempt : ℕ) (r s : Row) : Type 0 where
  pub lease_free : s.callback.lease_token ≡ none
  pub counted : s.callback.attempt ≡ r.callback.attempt + 1
  pub outcome :
      (s.callback.state ≡ some delivered)
      ⊎ (s.callback.state ≡ some configuration_failed)
      ⊎ ((s.callback.state ≡ some Row.retry)
          × ((t : ℕ) × (s.callback.next_at ≡ some t) × (now + base_seconds attempt * 800_000 ≤ t)))

-- An operation by which a delivery ends.
abbrev pub Ends : Client → CallbackDelivery → Operation → Type 0
Ends client d op =
    (op ≡ callback_succeeded d.run.run_status.run_id d.lease_token)
    ⊎ ((reason : String) × (op
          ≡ callback_unconfigured d.run.run_status.run_id d.lease_token reason))
    ⊎ ((after : ℕ) × (reason : String) × (op ≡ retry client d after reason))

conclude-Ends :
    (client : Client) (d : CallbackDelivery) (a : Reply) → Ends client d (conclude client d a)
unfolding conclude
conclude-Ends client d (unreachable cause) = inr (inr (0, cause, refl))
conclude-Ends client d (answered status header) =
    if-both (Ends client d) (eqb status 202) _ _ (inl refl) (
      if-both (Ends client d) (retryable_status status) _ _ (inr (inr (_, _, refl)))
        (inr (inl (_, refl))))

deliver-Ends :
    (client : Client) (token : Text) (d : CallbackDelivery) → Ends client d (deliver client token d)
unfolding deliver
deliver-Ends client token d =
    if-both (Ends client d) (is_empty (trim_space token)) _ _ (inr (inl (_, refl))) (
      if-both (Ends client d) (not (client.encodes (payload_of d.run))) _ _ (inr (inl (_, refl))) (
        if-both (Ends client d) (not (client.requests d.run.callback_url)) _ _ (inr (inl (_, refl)))
          (conclude-Ends client d
            (client.send (trim_space token) d.run.callback_url (payload_of d.run)))))

wait-le : (now least delay after : ℕ) → least ≤ delay → now + least ≤ now + later after delay
wait-le now least delay after h = ground arith

retry-IsConcluded :
    (now : ℕ) (client : Client) (d : CallbackDelivery) (after : ℕ) (reason : String) (r : Row)
    → client.random < 2 ^ 53
    → delivers d.run.run_status.run_id d.lease_token r ≡ true
    → IsConcluded now d.attempt r (apply (statement now (retry client d after reason)) r)
unfolding retry apply statement
retry-IsConcluded now client d after reason r small h =
    let bounds = retry_delay-bounds d.attempt client.random small in
    rw h (record {
      lease_free = refl;
      counted = refl;
      outcome = inr (inr (refl, (_, refl, wait-le now _ _ after bounds.0)));
    })

-- For every random number below one, a delivery under its own lease ends the lease and counts the
-- attempt: the event is delivered, its configuration has failed for good, or it is due again
-- after at least four fifths of the scheduled delay.
pub deliver-IsConcluded :
    (now : ℕ) (client : Client) (token : Text) (d : CallbackDelivery) (r : Row)
    → client.random < 2 ^ 53
    → delivers d.run.run_status.run_id d.lease_token r ≡ true
    → IsConcluded now d.attempt r (apply (statement now (deliver client token d)) r)
unfolding apply statement
deliver-IsConcluded now client token d r small h = elim (deliver-Ends client token d) [
  | inl e ↦ rw (e, h) (record { lease_free = refl; counted = refl; outcome = inl refl })
  | inr (inl (reason, e)) ↦
      rw (e, h) (record { lease_free = refl; counted = refl; outcome = inr (inl refl) })
  | inr (inr (after, reason, e)) ↦ rw e (retry-IsConcluded now client d after reason r small h)
]

module _ (now : ℕ) (client : Client) (d : CallbackDelivery) (r : Row)
    (held : delivers d.run.run_status.run_id d.lease_token r ≡ true) where
  abbrev Delivered : Operation → Type 0
  Delivered op = (apply (statement now op) r).callback.state ≡ some delivered

  conclude-Delivered :
      (a : Reply) → Delivered (conclude client d a) → (header : Text) × (a ≡ answered 202 header)
  unfolding apply statement conclude retry
  conclude-Delivered (unreachable cause) e = ground arith
  conclude-Delivered (answered status header) e = (header, ground arith)

  past-failure :
      (b : Bool) (reason : String) (op : Operation)
      → Delivered
          (if b then callback_unconfigured d.run.run_status.run_id d.lease_token reason else op)
      → (b ≡ false) × Delivered op
  unfolding apply statement
  past-failure true reason op e = ground arith
  past-failure false reason op e = (refl, e)

  -- A delivery under its own lease marks the event delivered only when the token is configured,
  -- a request can be made and it is answered with status 202.
  pub deliver-delivered :
      (token : Text)
      → (apply (statement now (deliver client token d)) r).callback.state ≡ some delivered
      → (is_empty (trim_space token) ≡ false)
        × (client.requests d.run.callback_url ≡ true)
        × ((header : Text) × (client.send (trim_space token) d.run.callback_url (payload_of d.run)
              ≡ answered 202 header))
  unfolding deliver
  deliver-delivered token e =
      let (set, e1) = past-failure (is_empty (trim_space token)) _ _ e in
      let (encoded, e2) = past-failure (not (client.encodes (payload_of d.run))) _ _ e1 in
      let (requested, e3) = past-failure (not (client.requests d.run.callback_url)) _ _ e2 in
      (set, ground arith, conclude-Delivered _ e3)
