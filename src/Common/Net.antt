-- ===== src/Common/Net.antt =====
-- `std::net::IpAddr` and `SocketAddr`: an IPv4 address is its 32-bit number, an IPv6 address its
-- 128-bit number.
use Prim.Native.Nat.{ℕ, ◌/◌, ◌^◌}
use mathlib.Core.Path.{◌≡◌}
use mathlib.Core.Logic.{◌↔◌}
use mathlib.Core.Bool.{Bool, false, true, ◌&&◌}
use native.Mathlib.Omega.{arith}
use gate_rust.Common.Tests.{nat_eq}
use gate_rust.Common.Equality.{EqTest}

pub data IpAddr : Type 0 where
  ipv4 ipv6 : ℕ → IpAddr

abbrev pub ip_beq : IpAddr → IpAddr → Bool
ip_beq (ipv4 a) (ipv4 b) = nat_eq a b
ip_beq (ipv4 a) (ipv6 b) = false
ip_beq (ipv6 a) (ipv4 b) = false
ip_beq (ipv6 a) (ipv6 b) = nat_eq a b

pub ip_beq_iff : (a b : IpAddr) → (ip_beq a b ≡ true) ↔ (a ≡ b)
ip_beq_iff (ipv4 a) (ipv4 b) = ground arith
ip_beq_iff (ipv4 a) (ipv6 b) = ground arith
ip_beq_iff (ipv6 a) (ipv4 b) = ground arith
ip_beq_iff (ipv6 a) (ipv6 b) = ground arith

instance abbrev pub ip_eq : EqTest IpAddr
ip_eq = record { same = ip_beq; decides = ip_beq_iff }

-- `IpAddr::is_loopback`: 127.0.0.0/8, or ::1.
unfoldable pub is_loopback : IpAddr → Bool
is_loopback (ipv4 a) = nat_eq (a / 2 ^ 24) 127
is_loopback (ipv6 a) = nat_eq a 1

pub record SocketAddr : Type 0 where
  pub ip : IpAddr
  pub port : ℕ
  -- zero for an IPv4 address
  pub flowinfo : ℕ
  pub scope_id : ℕ

abbrev pub addr_beq : SocketAddr → SocketAddr → Bool
addr_beq a b =
    ip_beq a.ip b.ip
    && nat_eq a.port b.port
    && nat_eq a.flowinfo b.flowinfo
    && nat_eq a.scope_id b.scope_id

pub addr_beq_iff : (a b : SocketAddr) → (addr_beq a b ≡ true) ↔ (a ≡ b)
addr_beq_iff a b = ground (arith, ip_beq_iff a.ip b.ip)

instance abbrev pub addr_eq : EqTest SocketAddr
addr_eq = record { same = addr_beq; decides = addr_beq_iff }

abbrev pub ipv4_socket : ℕ → ℕ → SocketAddr
ipv4_socket a port = record { ip = ipv4 a; port = port; flowinfo = 0; scope_id = 0 }
