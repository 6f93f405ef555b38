-- ===== src/Ledger/Cutoff.antt =====
-- Cancellation and the publication cutoff.
use test_miti_check.Ledger.Invariant.{IsSound}
use test_miti_check.Prelude.{ℕ, true, false, some, ◌≡◌, is_some, is_after, arith}
use test_miti_check.Ledger.Row.{Row, canceled, pending, is_terminal}
use test_miti_check.Ledger.Statement.{apply}
use test_miti_check.Ledger.Operation.{Operation, lease, recover_canceled, statement}
use test_miti_check.Ledger.History.{History, replay, replay-keeps}

-- A row canceled before its publication began, of a given number of leases.
pub record IsCut (attempt : ℕ) (r : Row) : Type 0 where
  pub requested : r.cancel_requested ≡ true
  pub unpublished : r.publication_pending ≡ false
  pub leases : r.attempt ≡ attempt

-- A run canceled before publication began is never leased again, and its publication never begins.
pub apply-IsCut :
    (k now : ℕ) (op : Operation) (r : Row) → IsCut k r → IsCut k (apply (statement now op) r)
unfolding apply statement
apply-IsCut k now (lease c d m) r h = ground arith
apply-IsCut k now op r h = ground arith

-- A run whose cancellation was requested while its publication had not begun stays so through
-- every history: it is not leased again, and its publication never begins.
pub replay-IsCut : (k : ℕ) (h : History) (r : Row) → IsCut k r → IsCut k (replay h r)
replay-IsCut k h r = replay-keeps (IsCut k) (apply-IsCut k) h r

-- A sound run that was canceled before publication began is terminal once recovery runs after its
-- lease has expired; if it was not terminal before, it is canceled, and its event is eligible
-- where it has a callback.
pub recover-ends :
    (k now : ℕ) (r : Row)
    → IsSound r
    → IsCut k r
    → is_after r.lease_expires_at now ≡ false
    → let s = apply (statement now recover_canceled) r in
      (is_terminal s.status ≡ true)
      × (is_terminal r.status ≡ false
          → (s.status ≡ canceled)
            × (is_some s.callback.url ≡ true → s.callback.state ≡ some pending))
unfolding apply statement
recover-ends k now r h c x = ground arith
