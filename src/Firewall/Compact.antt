-- ===== src/Firewall/Compact.antt =====
-- The compact syntax, `compileFirewallRule` and `parsePortRange` of api/substrate_firewall.go.
use test_miti_check.Prelude.{ℕ, Option, none, some, [], ◌∷◌, ◌||◌, if◌then◌else◌}
use test_miti_check.Prelude.Text.{
  Text, text, text_eq, equal_fold, is_empty, trim_space, fields, cut, cut_last, cut_text, to_lower,
  first_non_empty,
}
use test_miti_check.Prelude.Text.Numbers.{ℤ, pos, atoi}
pub use test_miti_check.Prelude.Results.{Result, ok, err, ◌>>=◌, or_error}
use test_miti_check.Request.{CandidateSpec}
use test_miti_check.Firewall.Address.{Ipv6, parse_host_or_cidr}
use test_miti_check.Firewall.Rule.{FwRule}

pub data RuleError : Type 0 where
  no_arrow short_left bad_source bad_destination bad_port : RuleError

-- `lo-hi` or one port, as both `parsePortRange` and `parseDport` read them.
unfoldable pub range_at : ℕ → Text → Option (ℤ × ℤ)
unfolding cut trim_space atoi
range_at sep s = elim (cut sep s) [
  | some (lo, hi) ↦ elim (atoi (trim_space lo)) [
    | none ↦ none
    | some l ↦ elim (atoi (trim_space hi)) [ none ↦ none | some h ↦ some (l, h) ]
  ]
  | none ↦ elim (atoi s) [ none ↦ none | some p ↦ some (p, p) ]
]

unfoldable pub parse_port_range : Text → Option (ℤ × ℤ)
unfolding range_at text
parse_port_range given =
    let s = trim_space given in
    if is_empty s || text_eq s (text "*") || equal_fold s (text "any")
    then some (pos 0, pos 0)
    else range_at b'-' s

abbrev left_side : Text → Result RuleError (Text × Text × Text)
left_side s = elim (fields s) [
  | action ∷ proto ∷ src ∷ more ↦ ok (action, proto, src)
  | _ ↦ err short_left
]

-- The destination up to the last colon, and the port after it.
abbrev right_side : Text → Text × Text
right_side s = elim (cut_last b':' s) [ none ↦ (s, []) | some parts ↦ parts ]

unfoldable pub compile_compact : Ipv6 → CandidateSpec → Result RuleError FwRule
unfolding fields cut_text cut_last parse_port_range parse_host_or_cidr to_lower
compile_compact net c = do
  (left, right) ← or_error (cut_text (text "->") c.rule) no_arrow
  (action, proto, src) ← left_side left
  src_net ← or_error (parse_host_or_cidr net src) bad_source
  let (host, port) = right_side (trim_space right)
  dst_net ← or_error (parse_host_or_cidr net host) bad_destination
  (lo, hi) ← or_error (parse_port_range port) bad_port
  ok (record {
    rule_id = first_non_empty c.rule_id (text "fw-rule");
    action = to_lower (first_non_empty c.action action);
    proto = to_lower proto;
    src_net = src_net;
    dst_net = dst_net;
    port_lo = lo;
    port_hi = hi;
    port_set = [];
    chain = [];
  })
