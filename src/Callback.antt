-- ===== src/Callback.antt =====
-- The completion callbacks, api/callback.go: the metadata of a submission in `Metadata`, the delay
-- before a retry in `Retry`, one delivery in `Deliver`, and what it does to the run in `Effect`.
pub mod Metadata
pub mod Retry
pub mod Deliver
pub mod Effect
