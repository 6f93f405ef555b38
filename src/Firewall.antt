-- ===== src/Firewall.antt =====
-- The in-memory firewall evaluation, api/substrate_firewall.go: addresses and networks in
-- `Address`, a rule and whether it matches in `Rule`, the two syntaxes in `Compact` and
-- `Iptables`, and the verdict in `Verdict`.
pub mod Address
pub mod Rule
pub mod Compact
pub mod Iptables
pub mod Verdict
pub mod Ports
pub mod Denied
pub mod Judgement
