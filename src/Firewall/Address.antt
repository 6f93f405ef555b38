-- ===== src/Firewall/Address.antt =====
-- What api/substrate_firewall.go uses of Go's package net: addresses, networks and `Contains`. An
-- IPv4 address, also one mapped into IPv6, is narrow. The text of an IPv6 address is read by a
-- parameter.
use test_miti_check.Prelude.{
  ℕ, ◌+◌, ◌-◌, ◌*◌, ◌/◌, ◌^◌, Bool, true, false, Option, none, some, List, [], ◌∷◌, ◌&&◌, ◌||◌, not,
  leb, ltb, eqb, if◌then◌else◌, length,
}
use test_miti_check.Prelude.Text.{Text, split, cut, text, trim_space, equal_fold, text_eq, is_empty}
use test_miti_check.Prelude.Text.Numbers.{unsigned_value}

pub record Address : Type 0 where
  pub narrow : Bool
  pub number : ℕ

-- `net.IPNet`: the address and the number of leading one bits of the mask.
pub record Network : Type 0 where
  pub address : Address
  pub ones : ℕ

abbrev pub bits : Bool → ℕ
bits true = 32
bits false = 128

abbrev pub same_width : Bool → Bool → Bool
same_width true b = b
same_width false b = not b

-- `IPNet.Contains`: the same width, and the same leading bits.
unfoldable pub contains_address : Network → Address → Bool
contains_address n a =
    let low = 2 ^ (bits n.address.narrow - n.ones) in
    same_width n.address.narrow a.narrow && eqb (n.address.number / low) (a.number / low)

-- One part of a dotted address: one to three digits, no leading zero, at most 255.
unfoldable pub octet : Text → Option ℕ
unfolding unsigned_value
octet [] = none
octet (c ∷ s) =
    if ltb 3 (length (c ∷ s)) || (eqb c 48 && not (is_empty s))
    then none
    else elim (unsigned_value (c ∷ s)) [ none ↦ none | some n ↦ if leb n 255 then some n else none ]

unfoldable pub quad : List Text → Option ℕ
unfolding octet
quad (a ∷ b ∷ c ∷ d ∷ []) = elim (octet a) [
  | none ↦ none
  | some a' ↦ elim (octet b) [
    | none ↦ none
    | some b' ↦ elim (octet c) [
      | none ↦ none
      | some c' ↦ elim (octet d) [
        | none ↦ none
        | some d' ↦ some (((a' * 256 + b') * 256 + c') * 256 + d')
      ]
    ]
  ]
]
quad _ = none

-- Readers of the texts with a colon: `ParseIP` and `ParseCIDR` on them.
pub record Ipv6 : Type 0 where
  pub parse_ip6 : Text → Option Address
  pub parse_cidr6 : Text → Option Network

-- Which of '.' and ':' stands first.
unfoldable pub is_dotted : Text → Bool
is_dotted [] = false
is_dotted (c ∷ s) =
    let rest = is_dotted s in if eqb c 46 then true else if eqb c 58 then false else rest

-- `dtoi`, which gives up above 0xFFFFFF, and the bound on the prefix length.
unfoldable pub prefix_length : ℕ → Text → Option ℕ
unfolding unsigned_value
prefix_length width s = elim (unsigned_value s) [
  | none ↦ none
  | some n ↦ if leb n width then some n else none
]

module _ (net : Ipv6) where
  unfoldable pub parse_ip : Text → Option Address
  unfolding quad is_dotted split
  parse_ip s =
      if is_dotted s
      then (elim (quad (split 46 s)) [
        | none ↦ none
        | some n ↦ some (record { narrow = true; number = n })
      ])
      else net.parse_ip6 s

  unfoldable pub parse_cidr : Text → Option Network
  unfolding quad is_dotted split cut prefix_length
  parse_cidr s = elim (cut 47 s) [
    | none ↦ none
    | some (host, mask) ↦
        if is_dotted host
        then (elim (quad (split 46 host)) [
          | none ↦ none
          | some n ↦ elim (prefix_length 32 mask) [
            | none ↦ none
            | some ones ↦
                some (record { address = record { narrow = true; number = n }; ones = ones })
          ]
        ])
        else net.parse_cidr6 s
  ]

  -- `parseHostOrCIDR`: an error, no restriction, or a network.
  unfoldable pub parse_host_or_cidr : Text → Option (Option Network)
  unfolding parse_ip parse_cidr trim_space equal_fold text_eq text
  parse_host_or_cidr given =
      let s = trim_space given in
      if is_empty s || equal_fold s (text "any") || text_eq s (text "*")
      then some none
      else elim (cut 47 s) [
        | some _ ↦ elim (parse_cidr s) [ none ↦ none | some n ↦ some (some n) ]
        | none ↦ elim (parse_ip s) [
          | none ↦ none
          | some a ↦ some (some (record { address = a; ones = bits a.narrow }))
        ]
      ]
