-- ===== src/Ipam/Utilization.antt =====
-- PrefixService.Utilization of internal/service/prefix.go. Go's int is a 64-bit pattern; the float
-- percentage is the quotient of two integers, kept as the pair.
pub mod Counts
use blackgrid.Prelude.{
  ℕ, ◌+◌, ◌-◌, ◌*◌, ◌%◌, ◌^◌, String, Bool, true, false, not, ◌&&◌, ◌||◌, ltb, leb, ◌==◌,
  if◌then◌else◌, Option, none, some, List, [], ◌∷◌,
}

-- A Go int: the bit pattern, and its sign.
abbrev pub int_mod : ℕ
int_mod = 2 ^ 64

abbrev pub is_negative : ℕ → Bool
is_negative x = leb (2 ^ 63) x

abbrev pub is_positive : ℕ → Bool
is_positive x = ltb 0 x && ltb x (2 ^ 63)

abbrev pub sub_int : ℕ → ℕ → ℕ
sub_int a b = (a + int_mod - b) % int_mod

-- 1 << n
abbrev pub shl_one : ℕ → ℕ
shl_one n = 2 ^ n % int_mod

-- The status column of ip_addresses; `other` is any text but `available`.
pub data AddressStatus : Type 0 where
  available : AddressStatus
  other : String → AddressStatus

abbrev pub is_available : AddressStatus → Bool
is_available available = true
is_available (other _) = false

-- !ip.Status.Valid || ip.Status.String != "available"; `none` is a null column.
abbrev pub is_allocated : Option AddressStatus → Bool
is_allocated none = true
is_allocated (some s) = not (is_available s)

-- The loop over the rows of the prefix.
unfoldable pub count_allocated : ℕ → List (Option AddressStatus) → ℕ
count_allocated n [] = n
count_allocated n (s ∷ ss) = count_allocated (if is_allocated s then n + 1 else n) ss

-- ones, bits := ipnet.Mask.Size(); `none` where net.ParseCIDR fails.
unfoldable pub total_hosts : Option (ℕ × ℕ) → ℕ
total_hosts none = 0
total_hosts (some (ones, bits)) =
    let host_bits = bits - ones in
    if leb host_bits 0
    then 1
    else if bits == 32 && leb 2 host_bits
    then sub_int (shl_one host_bits) 2
    else shl_one host_bits

pub record PrefixUtilization : Type 0 where
  pub total : ℕ
  pub allocated : ℕ
  pub free : ℕ
  -- percent_used = percent_num / percent_den
  pub percent_num : ℕ
  pub percent_den : ℕ

unfoldable pub utilization : Option (ℕ × ℕ) → List (Option AddressStatus) → PrefixUtilization
utilization mask rows =
    let allocated = count_allocated 0 rows in
    let total = total_hosts mask in
    let free = sub_int total allocated in
    record {
      total = total;
      allocated = allocated;
      free = if is_negative free then 0 else free;
      percent_num = if is_positive total then allocated * 100 else 0;
      percent_den = if is_positive total then total else 1;
    }
