-- ===== src/Shared.antt =====
-- The execution of one case of a shared attack contract: api/shared_contract_v2.go.
pub mod Input
pub mod Pointer
pub mod Waf
pub mod Case
pub mod Matched
pub mod Missed
pub mod Fair
