-- ===== src/Upstream.antt =====
-- The resolution of a run's rule and test from Databricks: api/executor_upstream.go and
-- api/stimulus.go.
pub mod Identifier
pub mod Stimulus
pub mod Candidate
pub mod Reader
pub mod Execute
pub mod Based
pub mod Resolved
pub mod Derived
