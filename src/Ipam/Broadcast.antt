-- ===== src/Ipam/Broadcast.antt =====
-- The broadcast address, as pkg/ipam and the discovery service compute it: the host bits of the
-- four bytes are set one at a time.
pub mod Value
use blackgrid.Prelude.{
  ℕ, zero, suc, ◌+◌, ◌-◌, ◌*◌, ◌/◌, ◌%◌, ◌^◌, Bool, true, false, if◌then◌else◌, ◌==◌,
}

-- [4]byte, most significant first.
pub record Bytes : Type 0 where
  pub b0 : ℕ
  pub b1 : ℕ
  pub b2 : ℕ
  pub b3 : ℕ

-- Addr.As4 and netip.AddrFrom4.
unfoldable pub as_4 : ℕ → Bytes
as_4 n = record { b0 = n / 2 ^ 24; b1 = n / 2 ^ 16 % 256; b2 = n / 2 ^ 8 % 256; b3 = n % 256 }

unfoldable pub from_4 : Bytes → ℕ
from_4 b = b.b0 * 2 ^ 24 + b.b1 * 2 ^ 16 + b.b2 * 2 ^ 8 + b.b3

-- x | 1 << k, for a byte x.
abbrev or_bit : ℕ → ℕ → ℕ
or_bit x k = x + 2 ^ k * (1 - x / 2 ^ k % 2)

-- b[byte_idx] |= 1 << bit_idx
abbrev or_byte : Bytes → ℕ → ℕ → Bytes
or_byte b byte_idx bit_idx =
    if byte_idx == 0
    then record b { b0 = or_bit b.b0 bit_idx }
    else if byte_idx == 1
    then record b { b1 = or_bit b.b1 bit_idx }
    else if byte_idx == 2
    then record b { b2 = or_bit b.b2 bit_idx }
    else record b { b3 = or_bit b.b3 bit_idx }

-- One round of the loop.
set_host_bit : ℕ → Bytes → Bytes
set_host_bit i b = or_byte b (3 - i / 8) (i % 8)

-- for i := 0; i < hostBits; i++
set_host_bits : ℕ → Bytes → Bytes
unfolding set_host_bit
set_host_bits zero b = b
set_host_bits (suc i) b = set_host_bit i (set_host_bits i b)

unfoldable pub broadcast_value : ℕ → ℕ → ℕ
unfolding as_4 from_4 set_host_bits
broadcast_value n host_bits = from_4 (set_host_bits host_bits (as_4 n))
