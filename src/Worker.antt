-- ===== src/Worker.antt =====
-- The run worker, api/worker.go: how one leased run is executed, staged, published and completed.
-- The state and the calls are in `World`, the code of `executeOne` in `Execute`.
pub mod World
pub mod Delay
pub mod Execute
pub mod Logic
pub mod Calls
pub mod Keeps
pub mod Published
pub mod Owned
pub mod Stale
