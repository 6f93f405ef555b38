-- ===== src/Reference.antt =====
-- The reference-only execution of api/executor_locator.go: the verification of the producers' results
-- that a request names by locator, and the run of what they hold.
pub mod Json
pub mod Defense
pub mod Verified
pub mod Check
pub mod Checked
pub mod Resolve
pub mod Grounded
pub mod Ordered
pub mod Config
pub mod Secure
pub mod Rows
