-- ===== src/Firewall/Denied.antt =====
-- When a rule of api/substrate_firewall.go denies a connection, condition by condition.
use mathlib.Core.List.{Memᴰ}
use test_miti_check.Prelude.{
  arith, ◌≡◌, refl, sym, ap, subst, ◌∙◌, true, false, Option, none, some, List, [], ◌∷◌, ◌&&◌, ◌⊎◌,
  inl, inr, any, Bool-cases,
}
use test_miti_check.Prelude.Text.{
  Text, text, text_eq, text_eq→≡, text_eq_self, is_empty, equal_fold,
}
use test_miti_check.Prelude.Text.Numbers.{ℤ, pos, negsuc, leb_int, eqb_int}
use test_miti_check.Firewall.Address.{Network, Address, Ipv6, contains_address, parse_ip}
use test_miti_check.Firewall.Rule.{
  Connection, FwRule, protocol_admits, port_admits, net_admits, matches,
}
use test_miti_check.Firewall.Verdict.{denies}

-- No network, or one that has the address.
pub data IsWithin (net : Ipv6) : Option Network → Text → Type 0 where
  anywhere : {ip : Text} → IsWithin net none ip
  inside :
      {n : Network} {ip : Text} (a : Address)
      → parse_ip net ip ≡ some a
      → contains_address n a ≡ true
      → IsWithin net (some n) ip

-- A port of the set, or without a set any port for the range 0, 0, or one of the range.
pub data IsPort : List ℤ → ℤ → ℤ → ℤ → Type 0 where
  any_port : {p : ℤ} → IsPort [] (pos 0) (pos 0) p
  in_range : {lo hi p : ℤ} → leb_int lo p ≡ true → leb_int p hi ≡ true → IsPort [] lo hi p
  in_set : {ports : List ℤ} {lo hi p : ℤ} → Memᴰ p ports → IsPort ports lo hi p

-- The rule's action is `deny`, and its protocol, its networks and its ports have the connection.
pub record Denies (net : Ipv6) (r : FwRule) (c : Connection) : Type 0 where
  pub deny : r.action ≡ text "deny"
  pub protocol :
      (is_empty r.proto ≡ true) ⊎ ((r.proto ≡ text "any") ⊎ (equal_fold r.proto c.protocol ≡ true))
  pub source : IsWithin net r.src_net c.src_ip
  pub target : IsWithin net r.dst_net c.dst_ip
  pub port : IsPort r.port_set r.port_lo r.port_hi c.dst_port

eqb_int→≡ : (a b : ℤ) → eqb_int a b ≡ true → a ≡ b
eqb_int→≡ (pos a) (pos b) h = ground arith
eqb_int→≡ (pos a) (negsuc b) h = ground arith
eqb_int→≡ (negsuc a) (pos b) h = ground arith
eqb_int→≡ (negsuc a) (negsuc b) h = ground arith

eqb_int_self : (a : ℤ) → eqb_int a a ≡ true
eqb_int_self (pos a) = ground arith
eqb_int_self (negsuc a) = ground arith

any-Memᴰ : (p : ℤ) (ports : List ℤ) → any (λ q. eqb_int q p) ports ≡ true → Memᴰ p ports
any-Memᴰ p [] h = ground arith
any-Memᴰ p (q ∷ ports) h = elim (Bool-cases (eqb_int q p)) [
  | inl e ↦ Memᴰ.head (sym (eqb_int→≡ q p e))
  | inr n ↦ Memᴰ.tail (any-Memᴰ p ports (ground arith))
]

Memᴰ-any : (p : ℤ) (ports : List ℤ) → Memᴰ p ports → any (λ q. eqb_int q p) ports ≡ true
Memᴰ-any p [] m = elim m [ ]
Memᴰ-any p (q ∷ ports) (Memᴰ.head e) =
    let same : eqb_int q p ≡ true = subst (λ x. eqb_int x p ≡ true) e (eqb_int_self p) in
    ground arith
Memᴰ-any p (q ∷ ports) (Memᴰ.tail m) = let rest = Memᴰ-any p ports m in ground arith

port_admits-IsPort :
    (ports : List ℤ) (lo hi p : ℤ) → port_admits ports lo hi p ≡ true → IsPort ports lo hi p
port_admits-IsPort [] lo hi p h = elim (Bool-cases (eqb_int lo (pos 0) && eqb_int hi (pos 0))) [
  | inl e ↦
      subst (λ x. IsPort [] x hi p) (sym (eqb_int→≡ lo (pos 0) (ground arith)))
        (subst (λ x. IsPort [] (pos 0) x p) (sym (eqb_int→≡ hi (pos 0) (ground arith))) any_port)
  | inr n ↦ in_range (ground arith) (ground arith)
]
port_admits-IsPort (q ∷ ports) lo hi p h = in_set (any-Memᴰ p (q ∷ ports) h)

in_set-admits : (ports : List ℤ) (lo hi p : ℤ) → Memᴰ p ports → port_admits ports lo hi p ≡ true
in_set-admits [] lo hi p m = elim m [ ]
in_set-admits (q ∷ ports) lo hi p m = Memᴰ-any p (q ∷ ports) m

IsPort-port_admits :
    {ports : List ℤ} {lo hi p : ℤ} → IsPort ports lo hi p → port_admits ports lo hi p ≡ true
IsPort-port_admits any_port = refl
IsPort-port_admits (in_range a b) = ground arith
IsPort-port_admits (in_set {ports} {lo} {hi} {p} m) = in_set-admits ports lo hi p m

module _ (net : Ipv6) where
  found-IsWithin :
      (n : Network) (ip : Text) (a : Option Address)
      → parse_ip net ip ≡ a
      → elim a [ none ↦ false | some x ↦ contains_address n x ] ≡ true
      → IsWithin net (some n) ip
  found-IsWithin n ip none e h = ground arith
  found-IsWithin n ip (some a) e h = inside a e h

  net_admits-IsWithin :
      (n : Option Network) (ip : Text) → net_admits net n ip ≡ true → IsWithin net n ip
  unfolding net_admits
  net_admits-IsWithin none ip h = anywhere
  net_admits-IsWithin (some n) ip h = found-IsWithin n ip (parse_ip net ip) refl h

  IsWithin-net_admits :
      {n : Option Network} {ip : Text} → IsWithin net n ip → net_admits net n ip ≡ true
  unfolding net_admits
  IsWithin-net_admits anywhere = refl
  IsWithin-net_admits (inside a e h) = rw (e, net_admits) h

  protocol_admits-cases :
      (proto protocol : Text)
      → protocol_admits proto protocol ≡ true
      → (is_empty proto ≡ true) ⊎ ((proto ≡ text "any") ⊎ (equal_fold proto protocol ≡ true))
  protocol_admits-cases proto protocol h = elim (Bool-cases (is_empty proto)) [
    | inl e ↦ inl e
    | inr n ↦ elim (Bool-cases (text_eq proto (text "any"))) [
      | inl e ↦ inr (inl (text_eq→≡ proto (text "any") e))
      | inr m ↦ inr (inr (ground arith))
    ]
  ]

  pub denies-Denies : (r : FwRule) (c : Connection) → denies net r c ≡ true → Denies net r c
  unfolding denies matches
  denies-Denies r c h = record {
    deny = text_eq→≡ r.action (text "deny") (ground arith);
    protocol = protocol_admits-cases r.proto c.protocol (ground arith);
    source = net_admits-IsWithin r.src_net c.src_ip (ground arith);
    target = net_admits-IsWithin r.dst_net c.dst_ip (ground arith);
    port = port_admits-IsPort r.port_set r.port_lo r.port_hi c.dst_port (ground arith);
  }

  Denies-protocol :
      (proto protocol : Text)
      → (is_empty proto ≡ true) ⊎ ((proto ≡ text "any") ⊎ (equal_fold proto protocol ≡ true))
      → protocol_admits proto protocol ≡ true
  Denies-protocol proto protocol (inl e) = ground arith
  Denies-protocol proto protocol (inr (inl e)) =
      let same = ap (λ x. text_eq x (text "any")) e ∙ text_eq_self (text "any") in ground arith
  Denies-protocol proto protocol (inr (inr e)) = ground arith

  pub Denies-denies : (r : FwRule) (c : Connection) → Denies net r c → denies net r c ≡ true
  unfolding denies matches
  Denies-denies r c h =
      let action = ap (λ x. text_eq x (text "deny")) h.deny ∙ text_eq_self (text "deny") in
      let protocol = Denies-protocol r.proto c.protocol h.protocol in
      let source = IsWithin-net_admits h.source in
      let target = IsWithin-net_admits h.target in
      let port = IsPort-port_admits h.port in ground arith
