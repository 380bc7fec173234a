-- ===== src/Ipam/Utilization/Counts.antt =====
-- The counts of PrefixService.Utilization agree with the enumeration of the hosts.
use blackgrid.Prelude.{
  ℕ, ◌+◌, ◌-◌, ◌^◌, ◌≤◌, ◌<◌, ◌≡◌, ◌∙◌, ap, sym, pow-add, true, ltb, Option, some, List, [], ◌∷◌,
  length, count_if, count_if-le-length, Upto, Upto-elim, arith, pow_pos, if◌then◌else◌,
}
use mathlib.Core.Path.{ap₂}
use native.Mathlib.Nat.{pow-le-pow_right, mul-mod_left}
use blackgrid.Ipam.Hosts.NextFree.{masked-block_start}
use blackgrid.Ipam.Addr.{Prefix, IsPrefix, is_4, masked}
use blackgrid.Ipam.Hosts.Window.{block_start}
use blackgrid.Ipam.Hosts.Enumerate.{hosts, length-hosts}
use blackgrid.Ipam.Utilization.{
  AddressStatus, is_allocated, count_allocated, total_hosts, utilization, sub_int, is_negative,
  shl_one,
}

count_allocated-count_if :
    (n : ℕ) (rows : List (Option AddressStatus))
    → count_allocated n rows ≡ n + count_if is_allocated rows
unfolding count_allocated
count_allocated-count_if n [] = omega arith
count_allocated-count_if n (s ∷ ss) =
    ground (arith, count_allocated-count_if n ss, count_allocated-count_if (n + 1) ss)

-- The size of a block, as a Go int, for the 33 lengths of an IPv4 prefix.
abbrev TotalAt : ℕ → Type 0
TotalAt h = total_hosts (some (32 - h, 32)) ≡ (if ltb 1 h then 2 ^ h - 2 else 2 ^ h)

every_length : Upto TotalAt 33
unfolding total_hosts
every_length = omega arith

total_at : (h : ℕ) → h ≤ 32 → TotalAt h
total_at h k = Upto-elim TotalAt 33 every_length h (omega arith)

-- The number of hosts of an IPv4 block that is written by its first address.
host_count :
    (p : Prefix)
    → is_4 p ≡ true
    → p.value ≡ block_start p
    → length (hosts p) ≡ (if ltb 1 (32 - p.bits) then 2 ^ (32 - p.bits) - 2 else 2 ^ (32 - p.bits))
host_count p h e = ground (arith, length-hosts p, pow_pos (32 - p.bits))

pub total_hosts-hosts :
    (p : Prefix)
    → IsPrefix p
    → is_4 p ≡ true
    → total_hosts (some (p.bits, 32)) ≡ length (hosts (masked p))
total_hosts-hosts p v h =
    let bits_fit : p.bits ≤ 32 = ground (arith, v.bits_fit) in
    let same : 32 - (32 - p.bits) ≡ p.bits = omega arith in
    ap (λ b. total_hosts (some (b, 32))) (sym same)
    ∙ total_at (32 - p.bits) (omega arith)
    ∙ sym (host_count (masked p) h (sym (masked-block_start p)))

total-le : (h : ℕ) → h ≤ 32 → total_hosts (some (32 - h, 32)) ≤ 2 ^ 32
total-le h k =
    ground (arith, total_at h k, pow-le-pow_right {n = 2} (omega arith) {i = h} {j = 32} k)

total_bound : (p : Prefix) → IsPrefix p → is_4 p ≡ true → total_hosts (some (p.bits, 32)) ≤ 2 ^ 62
total_bound p v h =
    let bits_fit : p.bits ≤ 32 = ground (arith, v.bits_fit) in
    let same : 32 - (32 - p.bits) ≡ p.bits = omega arith in
    omega (arith, total-le (32 - p.bits) (omega arith), ap (λ b. total_hosts (some (b, 32))) same)

-- The difference of two counts as a Go int, cut off at 0.
cut_off :
    (a b : ℕ)
    → a ≤ 2 ^ 62
    → b ≤ 2 ^ 63
    → (if is_negative (sub_int a b) then 0 else sub_int a b) ≡ a - b
cut_off a b h k = ground arith

-- For an IPv4 prefix and fewer than 2^63 rows, Utilization counts as total the hosts that
-- EnumerateIPv4Hosts lists of the masked prefix, as allocated the rows whose status is null or not
-- `available`, and as free the difference, or 0 where more are allocated than there are hosts.
pub utilization-hosts :
    (p : Prefix) (rows : List (Option AddressStatus))
    → IsPrefix p
    → is_4 p ≡ true
    → length rows < 2 ^ 63
    → let u = utilization (some (p.bits, 32)) rows in
      (u.total ≡ length (hosts (masked p)))
      × (u.allocated ≡ count_if is_allocated rows)
      × (u.free ≡ length (hosts (masked p)) - count_if is_allocated rows)
unfolding utilization
utilization-hosts p rows v h few =
    let bits_fit : p.bits ≤ 32 = ground (arith, v.bits_fit) in
    let total = total_hosts-hosts p v h in
    let allocated = count_allocated-count_if 0 rows in
    (
      total,
      omega (arith, allocated),
      cut_off (total_hosts (some (p.bits, 32))) (count_allocated 0 rows) (total_bound p v h)
            (omega (arith, allocated, count_if-le-length is_allocated rows))
          ∙ ap₂ (λ a b. a - b) total (omega (arith, allocated)),
    )

shl_one_overflow : (k : ℕ) → shl_one (k + 64) ≡ 0
shl_one_overflow k = rw (pow-add k 64) (mul-mod_left (2 ^ k) (2 ^ 64))

total_overflow : (bits : ℕ) → bits ≤ 64 → total_hosts (some (bits, 128)) ≡ 0
unfolding total_hosts
total_overflow bits h =
    let split : 64 - bits + 64 ≡ 128 - bits = omega arith in
    let gone : shl_one (128 - bits) ≡ 0 = ap shl_one (sym split) ∙ shl_one_overflow (64 - bits) in
    ground (arith, gone)

-- For an IPv6 prefix of length 64 or less and at most 2^63 rows, the shift overflows: the total and
-- the free count are 0, though the block has 2^(128 - bits) addresses.
utilization_overflow :
    (bits : ℕ) (rows : List (Option AddressStatus))
    → bits ≤ 64
    → length rows ≤ 2 ^ 63
    → let u = utilization (some (bits, 128)) rows in (u.total ≡ 0) × (u.free ≡ 0)
unfolding utilization
utilization_overflow bits rows h few =
    let zero_total = total_overflow bits h in
    (
      zero_total,
      cut_off (total_hosts (some (bits, 128))) (count_allocated 0 rows) (omega (arith, zero_total))
            (omega (arith, count_allocated-count_if 0 rows, count_if-le-length is_allocated rows))
          ∙ omega (arith, zero_total),
    )
