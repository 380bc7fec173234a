-- ===== src/Ipam/Addr.antt =====
-- What the source uses of net/netip: addresses and prefixes, without their text forms.
use blackgrid.Prelude.{
  ℕ, ◌+◌, ◌-◌, ◌*◌, ◌/◌, ◌^◌, ◌≤◌, ◌<◌, String, Bool, true, false, ◌&&◌, ltb, ◌==◌, if◌then◌else◌,
}
use text.Mathlib.Text.{◌==◌ as str_eq}

pub data Family : Type 0 where
  ip4 ip6 : Family

-- `invalid` is the zero value netip.Addr{}; `zoned` an IPv6 address with a zone.
pub data Addr : Type 0 where
  invalid : Addr
  ip : Family → ℕ → Addr
  zoned : ℕ → String → Addr

abbrev pub width : Family → ℕ
width ip4 = 32
width ip6 = 128

abbrev pub same_family : Family → Family → Bool
same_family ip4 ip4 = true
same_family ip6 ip6 = true
same_family _ _ = false

-- `==` on netip.Addr, and `Compare … == 0`.
abbrev pub addr_eq : Addr → Addr → Bool
addr_eq invalid invalid = true
addr_eq (ip f m) (ip g n) = same_family f g && m == n
addr_eq (zoned m z) (zoned n w) = m == n && str_eq z w
addr_eq _ _ = false

-- A prefix that netip.ParsePrefix accepts: an address without a zone, and a length.
pub record Prefix : Type 0 where
  pub family : Family
  pub value : ℕ
  pub bits : ℕ

pub record IsPrefix (p : Prefix) : Type 0 where
  pub value_fits : p.value < 2 ^ width p.family
  pub bits_fit : p.bits ≤ width p.family

abbrev pub host_bits : Prefix → ℕ
host_bits p = width p.family - p.bits

abbrev pub block_size : Prefix → ℕ
block_size p = 2 ^ host_bits p

-- Prefix.Masked: the host bits cleared.
abbrev pub masked : Prefix → Prefix
masked p = record p { value = p.value / block_size p * block_size p }

abbrev pub is_4 : Prefix → Bool
is_4 p = same_family p.family ip4

abbrev pub prefix_addr : Prefix → Addr
prefix_addr p = ip p.family p.value

-- Prefix.Contains: the family agrees, there is no zone, and the leading bits agree.
abbrev pub contains : Prefix → Addr → Bool
contains p invalid = false
contains p (ip f n) = same_family p.family f && n / block_size p == p.value / block_size p
contains p (zoned n z) = false

-- Addr.Next: the zero value after the last address of the family.
abbrev pub next : Addr → Addr
next invalid = invalid
next (ip f n) = if ltb (n + 1) (2 ^ width f) then ip f (n + 1) else invalid
next (zoned n z) = if ltb (n + 1) (2 ^ width ip6) then zoned (n + 1) z else invalid
