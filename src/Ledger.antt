-- ===== src/Ledger.antt =====
-- The durable run ledger, api/lifecycle_store.go: a row of `mitigation_check_run`, the statements
-- on it, and, in the child modules, what holds of them.
pub mod Row
pub mod Statement
pub mod Transition
pub mod Outbox
pub mod Operation
pub mod Invariant
pub mod Edges
pub mod History
pub mod Fencing
pub mod Cutoff
pub mod Bounds
pub mod Durable
pub mod Store
pub mod Idempotency
