-- ===== src/Firewall/Rule.antt =====
-- `fwRule` and `matches` of api/substrate_firewall.go.
use test_miti_check.Prelude.{Bool, true, false, Option, none, some, List, [], ◌∷◌, ◌&&◌, ◌||◌, any}
use test_miti_check.Prelude.Text.{Text, text, text_eq, equal_fold, is_empty}
use test_miti_check.Prelude.Text.Numbers.{ℤ, pos, leb_int, eqb_int}
use test_miti_check.Firewall.Address.{Network, Ipv6, contains_address, parse_ip}

pub record Connection : Type 0 where
  pub protocol : Text
  pub src_ip : Text
  pub dst_ip : Text
  pub dst_port : ℤ

-- The range 0, 0 is any port; a port set that is not empty takes precedence.
pub record FwRule : Type 0 where
  pub rule_id : Text
  pub action : Text
  pub proto : Text
  pub src_net : Option Network
  pub dst_net : Option Network
  pub port_lo : ℤ
  pub port_hi : ℤ
  pub port_set : List ℤ
  pub chain : Text

abbrev pub protocol_admits : Text → Text → Bool
protocol_admits proto protocol =
    is_empty proto || text_eq proto (text "any") || equal_fold proto protocol

abbrev pub port_admits : List ℤ → ℤ → ℤ → ℤ → Bool
port_admits [] lo hi port =
    (eqb_int lo (pos 0) && eqb_int hi (pos 0)) || (leb_int lo port && leb_int port hi)
port_admits (p ∷ ps) lo hi port = any (λ q. eqb_int q port) (p ∷ ps)

module _ (net : Ipv6) where
  unfoldable pub net_admits : Option Network → Text → Bool
  unfolding contains_address parse_ip
  net_admits none ip = true
  net_admits (some n) ip = elim (parse_ip net ip) [ none ↦ false | some a ↦ contains_address n a ]

  unfoldable pub matches : FwRule → Connection → Bool
  unfolding net_admits
  matches r c =
      protocol_admits r.proto c.protocol
      && net_admits r.src_net c.src_ip
      && net_admits r.dst_net c.dst_ip
      && port_admits r.port_set r.port_lo r.port_hi c.dst_port
