-- ===== src/Firewall/Ports.antt =====
-- The ports that `--dport` and `--dports` of api/substrate_firewall.go admit.
use test_miti_check.Prelude.{
  arith, ℕ, zero, suc, ◌+◌, ◌<◌, ◌≤◌, ◌≡◌, refl, true, List, [], ◌∷◌, ◌&&◌, not, leb, any,
}
use test_miti_check.Prelude.Text.Numbers.{ℤ, pos, eqb_int, max_int}
use test_miti_check.Firewall.Rule.{port_admits}
use test_miti_check.Firewall.Iptables.{port_range, max_range}

-- A loop of at most `room` rounds from port `lo` visits the ports from `lo` to `hi` inside its
-- room.
port_range-has :
    (room lo hi q : ℕ)
    → hi < max_int
    → any (λ p. eqb_int p (pos q)) (port_range room (pos lo) (pos hi))
      ≡ (leb lo q && leb q hi && not (leb (lo + room) q))
unfolding port_range
port_range-has zero lo hi q h = ground arith
port_range-has (suc room) lo hi q h = ground (arith, port_range-has room (lo + 1) hi q h)

-- A port set that holds some port decides by membership.
port_admits-set :
    (ports : List ℤ) (p q : ℤ)
    → any (λ r. eqb_int r p) ports ≡ true
    → port_admits ports (pos 0) (pos 0) q ≡ any (λ r. eqb_int r q) ports
port_admits-set [] p q h = ground arith
port_admits-set (r ∷ ports) p q h = refl

-- On port numbers, the multiport form of a range that is not empty admits the ports that the
-- single form admits, when the range is not just port 0.
port_range-port_admits :
    (lo hi q : ℕ)
    → lo ≤ hi
    → hi ≤ 65535
    → 1 ≤ hi
    → port_admits (port_range max_range (pos lo) (pos hi)) (pos 0) (pos 0) (pos q)
      ≡ port_admits [] (pos lo) (pos hi) (pos q)
port_range-port_admits lo hi q h k m =
    let small : hi < max_int = omega arith in
    let first = port_range-has max_range lo hi lo small in
    rw
      (
        port_admits-set (port_range max_range (pos lo) (pos hi)) (pos lo) (pos q) (ground arith),
        port_range-has max_range lo hi q small,
      )
      (ground arith)
