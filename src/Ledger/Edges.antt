-- ===== src/Ledger/Edges.antt =====
-- The transition diagram of a run's status, and that every operation follows it.
use test_miti_check.Prelude.{ℕ, true, ◌≡◌, ◌⊎◌, arith}
use test_miti_check.Ledger.Row.{
  Row, Status, queued, running, completed, failed, canceled, is_terminal,
}
use test_miti_check.Ledger.Statement.{apply}
use test_miti_check.Ledger.Operation.{Operation, lease, statement}

-- The transitions that README.md names, and the new lease of a running row.
infix 40 ◌⟶◌
pub data ◌⟶◌ : Status → Status → Type 0 where
  start : queued ⟶ running
  resume : running ⟶ running
  requeue : running ⟶ queued
  finish : running ⟶ completed
  break_down : running ⟶ failed
  stop : running ⟶ canceled
  withdraw : queued ⟶ canceled

ruleset edges = (start, resume, requeue, finish, break_down, stop, withdraw)

-- Every operation, on any row, leaves the status or follows an edge of the status diagram.
pub apply-⟶ :
    (now : ℕ) (op : Operation) (r : Row)
    → (r.status ⟶ (apply (statement now op) r).status)
      ⊎ ((apply (statement now op) r).status ≡ r.status)
unfolding apply statement
apply-⟶ now (lease c d m) r = grind (arith, edges)
apply-⟶ now op r = grind (arith, edges)

-- What a run reports for good once it is terminal.
pub record SameResult (r s : Row) : Type 0 where
  pub status : s.status ≡ r.status
  pub terminal_state : s.terminal_state ≡ r.terminal_state
  pub failure : s.failure ≡ r.failure
  pub completion : s.completion ≡ r.completion
  pub response : s.response ≡ r.response
  pub result_payload : s.result_payload ≡ r.result_payload
  pub completed_at : s.completed_at ≡ r.completed_at
  pub cancel_requested : s.cancel_requested ≡ r.cancel_requested
  pub attempt : s.attempt ≡ r.attempt

-- A terminal run keeps its status, result and failure under every operation.
pub apply-SameResult :
    (now : ℕ) (op : Operation) (r : Row)
    → is_terminal r.status ≡ true
    → SameResult r (apply (statement now op) r)
unfolding apply statement
apply-SameResult now (lease c d m) r h = ground arith
apply-SameResult now op r h = ground arith
