-- ===== src/Base/Net.antt =====
-- Addresses, as the four bytes that stand in memory, and the 16-bit words that uIP reads them by on
-- this little-endian machine.
use Prim.Native.Nat.{ℕ, ◌+◌, ◌*◌}
use mathlib.Core.Path.{◌≡◌}
use mathlib.Core.Bool.{Bool, true, ◌&&◌}
use mathlib.Core.Logic.{◌↔◌}
use native.Mathlib.Omega.{arith}
use sc_xtcp.Base.Tests.{◌==◌}

pub record IpAddr : Type 0 where
  pub b0 : ℕ
  pub b1 : ℕ
  pub b2 : ℕ
  pub b3 : ℕ

-- XTCP_IPADDR_CMP and uip_ipaddr_cmp
abbrev pub ip_eq : IpAddr → IpAddr → Bool
ip_eq a b = a.b0 == b.b0 && a.b1 == b.b1 && a.b2 == b.b2 && a.b3 == b.b3

ip_eq_iff : (a b : IpAddr) → (ip_eq a b ≡ true) ↔ (a ≡ b)
ip_eq_iff a b = ground arith

-- The words `addr[0]` and `addr[1]` of a `uip_ipaddr_t`.
abbrev pub word0 : IpAddr → ℕ
word0 a = a.b0 + 256 * a.b1

abbrev pub word1 : IpAddr → ℕ
word1 a = a.b2 + 256 * a.b3

abbrev pub zero_addr : IpAddr
zero_addr = record { b0 = 0; b1 = 0; b2 = 0; b3 = 0 }
