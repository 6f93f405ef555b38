-- ===== src/Ledger/History.antt =====
-- Operations of many processes in any order, on a row and on a table.
use test_miti_check.Prelude.{ℕ, true, List, [], ◌∷◌, ◌≡◌, arith, All}
use test_miti_check.Ledger.Row.{Row, is_terminal}
use test_miti_check.Ledger.Statement.{Statement, apply, exec}
use test_miti_check.Ledger.Operation.{Operation, statement}
use test_miti_check.Ledger.Invariant.{IsSound, apply-IsSound}
use test_miti_check.Ledger.Edges.{SameResult, apply-SameResult}

-- Each operation with the time at which it runs.
abbrev pub History : Type 0
History = List (ℕ × Operation)

unfoldable pub replay : History → Row → Row
replay [] r = r
replay ((now, op) ∷ rest) r = replay rest (apply (statement now op) r)

unfoldable pub replay_table : History → List Row → List Row
replay_table [] t = t
replay_table ((now, op) ∷ rest) t = replay_table rest (exec (statement now op) t).0

-- A property of rows that every operation keeps holds after every history.
pub replay-keeps {ℓ} :
    (P : Row → Type ℓ)
    → ((now : ℕ) (op : Operation) (r : Row) → P r → P (apply (statement now op) r))
    → (h : History) (r : Row) → P r
    → P (replay h r)
unfolding replay
replay-keeps P keep [] r p = p
replay-keeps P keep ((now, op) ∷ rest) r p =
    replay-keeps P keep rest (apply (statement now op) r) (keep now op r p)

pub exec-All {ℓ} :
    (P : Row → Type ℓ) (s : Statement)
    → ((r : Row) → P r → P (apply s r))
    → (t : List Row) → All P t
    → All P (exec s t).0
unfolding exec apply
exec-All P s keep [] h = h
exec-All P s keep (r ∷ t) h = ground (arith, keep r h.0, exec-All P s keep t h.1)

pub replay_table-All {ℓ} :
    (P : Row → Type ℓ)
    → ((now : ℕ) (op : Operation) (r : Row) → P r → P (apply (statement now op) r))
    → (h : History) (t : List Row) → All P t
    → All P (replay_table h t)
unfolding replay_table
replay_table-All P keep [] t p = p
replay_table-All P keep ((now, op) ∷ rest) t p =
    replay_table-All P keep rest (exec (statement now op) t).0
      (exec-All P (statement now op) (keep now op) t p)

-- Every row of a table of sound rows is sound after any operations of any processes.
pub replay_table-IsSound :
    (h : History) (t : List Row) → All IsSound t → All IsSound (replay_table h t)
replay_table-IsSound = replay_table-All IsSound apply-IsSound

SameResult-trans : {r s u : Row} → SameResult r s → SameResult s u → SameResult r u
SameResult-trans a b = ground arith

SameResult-terminal :
    {r s : Row} → is_terminal r.status ≡ true → SameResult r s → is_terminal s.status ≡ true
SameResult-terminal h a = ground arith

-- A terminal run reports the same status, result and failure after any history.
pub replay-SameResult :
    (h : History) (r : Row) → is_terminal r.status ≡ true → SameResult r (replay h r)
unfolding replay
replay-SameResult [] r t = ground arith
replay-SameResult ((now, op) ∷ rest) r t =
    let first = apply-SameResult now op r t in
    SameResult-trans first
      (replay-SameResult rest (apply (statement now op) r) (SameResult-terminal t first))
