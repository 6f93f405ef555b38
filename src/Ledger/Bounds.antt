-- ===== src/Ledger/Bounds.antt =====
-- The bounds on how often a run is leased for execution and its publication verified.
use test_miti_check.Prelude.{ℕ, ◌≤◌, ◌<◌, Bool, true, false, [], ◌∷◌, ◌&&◌, ◌≡◌, arith, leb, eqb}
use test_miti_check.Ledger.Row.{Row, is_empty, is_terminal}
use test_miti_check.Ledger.Statement.{apply}
use test_miti_check.Ledger.Operation.{Operation, lease, retry_verification, statement}
use test_miti_check.Ledger.History.{History, replay}

-- The limits that a call names are those of `RunWorker`: at most `attempts` leases, and
-- verification up to `verifications`.
abbrev pub in_limits : ℕ → ℕ → Operation → Bool
in_limits attempts verifications (lease c d m) = leb m attempts
in_limits attempts verifications (retry_verification c m d f) = eqb m verifications
in_limits attempts verifications _ = true

abbrev pub all_in_limits : ℕ → ℕ → History → Bool
all_in_limits a v [] = true
all_in_limits a v ((now, op) ∷ rest) = in_limits a v op && all_in_limits a v rest

pub record IsBounded (attempts verifications : ℕ) (r : Row) : Type 0 where
  pub executions : is_empty r.response ≡ true → r.attempt ≤ attempts
  pub verified : r.verification_attempt ≤ verifications
  pub room : is_terminal r.status ≡ false → r.verification_attempt < verifications

apply-IsBounded :
    (a v now : ℕ) (op : Operation) (r : Row)
    → in_limits a v op ≡ true
    → IsBounded a v r
    → IsBounded a v (apply (statement now op) r)
unfolding apply statement
apply-IsBounded a v now (lease c d m) r l h = ground arith
apply-IsBounded a v now op r l h = ground arith

-- With operations inside the limits of one worker configuration, a run that starts within them is
-- leased for execution at most `attempts` times, and its publication is retried fewer than
-- `verifications` times before it is terminal.
pub replay-IsBounded :
    (a v : ℕ) (h : History) (r : Row)
    → all_in_limits a v h ≡ true
    → IsBounded a v r
    → IsBounded a v (replay h r)
unfolding replay
replay-IsBounded a v [] r l b = b
replay-IsBounded a v ((now, op) ∷ rest) r l b =
    replay-IsBounded a v rest (apply (statement now op) r) (ground arith)
      (apply-IsBounded a v now op r (ground arith) b)
