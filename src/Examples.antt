-- ===== src/Examples.antt =====
-- Concrete inputs: the runs, outcomes and services that the tests of the child modules share.
mod Codecs
mod Ledgers
mod Turns
mod Services
mod Submissions
mod Scenarios
mod Upstreams
mod References
mod Cases
