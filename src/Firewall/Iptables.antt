-- ===== src/Firewall/Iptables.antt =====
-- The iptables syntax, `isIptables` and `compileIptablesRule` of api/substrate_firewall.go.
use test_miti_check.Prelude.{
  ℕ, zero, suc, Bool, true, false, Option, none, some, List, [], ◌∷◌, ◌++◌, ◌||◌, if◌then◌else◌,
}
use test_miti_check.Prelude.Text.{
  Text, text, text_eq, equal_fold, trim_space, fields, cut, split, has_prefix, drop_prefix,
  contains, cut_text, to_lower, to_upper, first_non_empty,
}
use test_miti_check.Prelude.Text.Numbers.{ℤ, pos, atoi, leb_int, next_int}
use test_miti_check.Request.{CandidateSpec}
use test_miti_check.Firewall.Address.{Ipv6, parse_host_or_cidr}
use test_miti_check.Firewall.Rule.{FwRule}
use test_miti_check.Firewall.Compact.{
  RuleError, Result, ok, err, ◌>>=◌, or_error, bad_source, bad_destination, bad_port, range_at,
  compile_compact,
}

unfoldable pub is_iptables : CandidateSpec → Bool
unfolding equal_fold trim_space drop_prefix cut_text text
is_iptables c =
    let rule = trim_space c.rule in
    equal_fold c.engine (text "iptables")
    || has_prefix rule (text "iptables")
    || has_prefix rule (text "-A ")
    || has_prefix rule (text "-I ")
    || contains rule (text " -j ")

-- The loop of `parseDports` over one range, which adds at most 65536 ports.
unfoldable pub port_range : ℕ → ℤ → ℤ → List ℤ
port_range zero p h = []
port_range (suc room) p h =
    let rest = port_range room (next_int p) h in if leb_int p h then p ∷ rest else []

abbrev pub max_range : ℕ
max_range = 65536

unfoldable pub port_part : Text → Option (List ℤ)
unfolding cut trim_space atoi port_range
port_part s = elim (cut b':' s) [
  | some (lo, hi) ↦ elim (atoi (trim_space lo)) [
    | none ↦ none
    | some l ↦ elim (atoi (trim_space hi)) [
      | none ↦ none
      | some h ↦ some (port_range max_range l h)
    ]
  ]
  | none ↦ elim (atoi s) [ none ↦ none | some p ↦ some (p ∷ []) ]
]

unfoldable pub port_parts : List Text → Option (List ℤ)
unfolding port_part trim_space
port_parts [] = some []
port_parts (s ∷ parts) =
    let rest = port_parts parts in
    elim (port_part (trim_space s)) [
      | none ↦ none
      | some ports ↦ elim rest [ none ↦ none | some more ↦ some (ports ++ more) ]
    ]

unfoldable pub parse_dports : Text → Option (List ℤ)
unfolding port_parts split
parse_dports s = port_parts (split b',' s)

-- What a token, with its case folded, asks for.
pub data Flag : Type 0 where
  binary chain protocol source destination dport dports jump match_module other : Flag

unfoldable pub flag_of : Text → Flag
unfolding text_eq text
flag_of s =
    if text_eq s (text "iptables")
      || text_eq s (text "ip6tables")
      || text_eq s (text "iptables-legacy")
    then binary
    else if text_eq s (text "-a")
        || text_eq s (text "--append")
        || text_eq s (text "-i")
        || text_eq s (text "--insert")
    then chain
    else if text_eq s (text "-p") || text_eq s (text "--protocol")
    then protocol
    else if text_eq s (text "-s") || text_eq s (text "--source") || text_eq s (text "--src")
    then source
    else if text_eq s (text "-d") || text_eq s (text "--destination") || text_eq s (text "--dst")
    then destination
    else if text_eq s (text "--dport") || text_eq s (text "--destination-port")
    then dport
    else if text_eq s (text "--dports")
    then dports
    else if text_eq s (text "-j") || text_eq s (text "--jump")
    then jump
    else if text_eq s (text "-m") || text_eq s (text "--match")
    then match_module
    else other

-- The rule so far and the jump target.
pub record Draft : Type 0 where
  pub rule : FwRule
  pub target : Text

abbrev pub takes_value : Flag → Bool
takes_value binary = false
takes_value other = false
takes_value _ = true

module _ (net : Ipv6) where
  -- One round of the loop, at a token and the one after it.
  unfoldable pub round : Flag → Text → Draft → Result RuleError Draft
  unfolding parse_host_or_cidr range_at parse_dports to_lower to_upper
  round binary value d = ok d
  round chain value d = ok (record d { rule = record (d.rule) { chain = value } })
  round protocol value d = ok (record d { rule = record (d.rule) { proto = to_lower value } })
  round source value d = do
    n ← or_error (parse_host_or_cidr net value) bad_source
    ok (record d { rule = record (d.rule) { src_net = n } })
  round destination value d = do
    n ← or_error (parse_host_or_cidr net value) bad_destination
    ok (record d { rule = record (d.rule) { dst_net = n } })
  round dport value d = do
    (lo, hi) ← or_error (range_at b':' value) bad_port
    ok (record d { rule = record (d.rule) { port_lo = lo; port_hi = hi } })
  round dports value d = do
    ports ← or_error (parse_dports value) bad_port
    ok (record d { rule = record (d.rule) { port_set = ports } })
  round jump value d = ok (record d { target = to_upper value })
  round match_module value d = ok d
  round other value d = ok d

  -- The loop: a flag with a value skips the token after it.
  unfoldable pub rounds : List Text → Draft → Result RuleError Draft
  unfolding round flag_of to_lower
  rounds [] d = ok d
  rounds (token ∷ []) d = round (flag_of (to_lower token)) [] d
  rounds (token ∷ value ∷ tokens) d =
      let flag = flag_of (to_lower token) in
      elim (round flag value d) [
        | err e ↦ err e
        | ok d' ↦
            let skip = rounds tokens d' in
            let next = rounds (value ∷ tokens) d' in if takes_value flag then skip else next
      ]

abbrev pub start : CandidateSpec → Draft
start c = record {
  rule = record {
    rule_id = first_non_empty c.rule_id (text "fw-rule");
    action = [];
    proto = text "any";
    src_net = none;
    dst_net = none;
    port_lo = pos 0;
    port_hi = pos 0;
    port_set = [];
    chain = [];
  };
  target = [];
}

abbrev pub action_of : Text → Text → Text
action_of target given =
    if text_eq target (text "DROP") || text_eq target (text "REJECT")
    then text "deny"
    else if text_eq target (text "ACCEPT")
    then text "allow"
    else to_lower (first_non_empty given (text "deny"))

abbrev pub settle : CandidateSpec → Draft → FwRule
settle c d = record (d.rule) {
  action = action_of d.target c.action;
  proto = if text_eq d.rule.proto (text "all") then text "any" else d.rule.proto;
}

unfoldable pub compile_iptables : Ipv6 → CandidateSpec → Result RuleError FwRule
unfolding rounds fields
compile_iptables net c = do d ← rounds net (fields c.rule) (start c); ok (settle c d)

-- `compileFirewallRule`.
unfoldable pub compile : Ipv6 → CandidateSpec → Result RuleError FwRule
unfolding is_iptables compile_iptables compile_compact
compile net c = if is_iptables c then compile_iptables net c else compile_compact net c
