-- ===== src/Http/Peer.antt =====
-- The address of a peer, `std::net::IpAddr`, as the number that its octets spell.
use memoryd.Prelude.{ℕ, ◌/◌, ◌^◌, Bool, true, false, ◌≡◌, ◌↔◌, arith, ◌==◌}

pub data IpAddr : Type 0 where
  v4 v6 : ℕ → IpAddr

unfoldable pub ip_eq : IpAddr → IpAddr → Bool
ip_eq (v4 a) (v4 b) = a == b
ip_eq (v4 a) (v6 b) = false
ip_eq (v6 a) (v4 b) = false
ip_eq (v6 a) (v6 b) = a == b

-- 127.0.0.0/8, and ::1.
unfoldable pub is_loopback : IpAddr → Bool
is_loopback (v4 a) = a / 2 ^ 24 == 127
is_loopback (v6 a) = a == 1

pub ip_eq_iff : (a b : IpAddr) → (ip_eq a b ≡ true) ↔ (a ≡ b)
unfolding ip_eq
ip_eq_iff (v4 a) (v4 b) = ground arith
ip_eq_iff (v4 a) (v6 b) = ground arith
ip_eq_iff (v6 a) (v4 b) = ground arith
ip_eq_iff (v6 a) (v6 b) = ground arith
