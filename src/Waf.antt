-- ===== src/Waf.antt =====
-- The in-memory WAF of api/executor.go: how a SecRule is read, which parts of a request its targets
-- select, and the runs that put the rule in front of a substrate.
pub mod Pattern
pub mod Target
pub mod Rule
pub mod Quoting
pub mod Accepted
pub mod Selected
pub mod Ordered
pub mod Verdict
pub mod Scenario
pub mod Judgement
pub mod Earned
pub mod Released
