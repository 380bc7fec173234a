-- ===== src/Ipam/Hosts/Window.antt =====
-- Which addresses the loops visit: the host addresses of the prefix, in order.
use blackgrid.Prelude.{
  ℕ, zero, suc, ◌+◌, ◌-◌, ◌*◌, ◌/◌, ◌^◌, ◌≤◌, ◌<◌, ◌≡◌, refl, Bool, true, false, if◌then◌else◌,
  arith, pow_pos, pow-add, div_in_block, div_past_block, block_of, block_fits,
}
use blackgrid.Ipam.Addr.{
  Addr, invalid, ip, Family, width, Prefix, IsPrefix, next, host_bits, block_size,
}
use blackgrid.Ipam.Broadcast.Value.{broadcast_value_lem}
use blackgrid.Ipam.Hosts.{has_edges, broadcast, first_addr}
use blackgrid.Ipam.Hosts.Trace.{Visits, stops_search}

-- The lowest address of the block, and the address after the last host.
abbrev pub block_start : Prefix → ℕ
block_start p = p.value / block_size p * block_size p

abbrev pub host_start : Prefix → ℕ
host_start p = if has_edges p then p.value + 1 else p.value

abbrev pub host_end : Prefix → ℕ
host_end p = if has_edges p then block_start p + block_size p - 1 else block_start p + block_size p

-- A block ends within the family.
block_end-le : (p : Prefix) → IsPrefix p → block_start p + block_size p ≤ 2 ^ width p.family
block_end-le p v = grind (
  arith,
  block_fits p.value (block_size p) (2 ^ p.bits) (pow_pos (host_bits p)),
  pow-add p.bits (host_bits p),
  v.value_fits,
  v.bits_fit,
)

broadcast_lem :
    (p : Prefix)
    → IsPrefix p
    → broadcast p
      ≡ (if has_edges p then ip p.family (block_start p + block_size p - 1) else invalid)
broadcast_lem p v = ground (
  arith,
  broadcast_value_lem p.value (32 - p.bits),
  v.value_fits,
  pow_pos (32 - p.bits),
  block_of p.value (2 ^ (32 - p.bits)),
)

inside :
    (p : Prefix) (m : ℕ)
    → IsPrefix p
    → block_start p ≤ m
    → m < host_end p
    → stops_search p (broadcast p) (ip p.family m) ≡ false
inside p m v lo hi = ground (
  arith,
  broadcast_lem p v,
  pow_pos (host_bits p),
  div_in_block (p.value / block_size p) (block_size p) m,
)

next-ip : (f : Family) (m : ℕ) → m + 1 < 2 ^ width f → next (ip f m) ≡ ip f (m + 1)
next-ip f m h = ground arith

Visits-build :
    (stops : Addr → Bool) (f : Family) (e : ℕ)
    → e ≤ 2 ^ width f
    → (k m : ℕ) → m + suc k ≡ e
    → ((j : ℕ) → m ≤ j → j < e → stops (ip f j) ≡ false)
    → ((j : ℕ) → suc j ≡ e → stops (next (ip f j)) ≡ true)
    → Visits stops f m (suc k) (ip f m)
Visits-build stops f e fits zero m s go ends =
    (refl, go m (omega arith) (omega arith), ends m (omega arith))
Visits-build stops f e fits (suc k) m s go ends = (
  refl,
  go m (omega arith) (omega arith),
  rw (next-ip f m (omega arith))
      (Visits-build stops f e fits k (m + 1) (omega arith) (λ j lo hi. go j (omega arith) hi) ends),
)

-- The address after the last host is the broadcast address, outside the block, or no address.
past_hosts :
    (p : Prefix) (j : ℕ)
    → IsPrefix p
    → host_end p ≤ j + 1
    → j < block_start p + block_size p
    → stops_search p (broadcast p) (next (ip p.family j)) ≡ true
past_hosts p j v end in_block = ground (
  arith,
  broadcast_lem p v,
  pow_pos (host_bits p),
  block_end-le p v,
  div_past_block (p.value / block_size p) (block_size p),
)

host_end-le : (p : Prefix) → IsPrefix p → host_end p ≤ 2 ^ width p.family
host_end-le p v = ground (arith, block_end-le p v)

from_start : (p : Prefix) (j : ℕ) → IsPrefix p → host_start p ≤ j → block_start p ≤ j
from_start p j v h = ground (arith, block_of p.value (block_size p) (pow_pos (host_bits p)))

-- Where the block has a host at or above the address of the prefix, the loop starts there.
first_addr-ip :
    (p : Prefix)
    → IsPrefix p
    → host_start p < host_end p
    → first_addr p ≡ ip p.family (host_start p)
first_addr-ip p v h = ground (arith, block_end-le p v, pow_pos (host_bits p))

no_hosts :
    (p : Prefix)
    → IsPrefix p
    → host_end p ≤ host_start p
    → stops_search p (broadcast p) (first_addr p) ≡ true
no_hosts p v h =
    ground (arith, past_hosts p p.value v, block_of p.value (block_size p) (pow_pos (host_bits p)))

some_hosts :
    (p : Prefix) (k : ℕ)
    → IsPrefix p
    → host_start p + suc k ≡ host_end p
    → Visits (stops_search p (broadcast p)) p.family (host_start p) (suc k) (first_addr p)
some_hosts p k v e = rw (first_addr-ip p v (omega arith)) (
    Visits-build (stops_search p (broadcast p)) p.family (host_end p) (host_end-le p v) k
      (host_start p) e (λ j lo hi. inside p j v (from_start p j v lo) hi)
      (λ j last. past_hosts p j v (omega arith) (ground (arith, pow_pos (host_bits p)))))

-- From the first address on, the loops visit the hosts at and above the address of the prefix.
pub hosts-Visits :
    (p : Prefix)
    → IsPrefix p
    → Visits
        (stops_search p (broadcast p))
        p.family
        (host_start p)
        (host_end p - host_start p)
        (first_addr p)
hosts-Visits p v = go (host_end p - host_start p) refl
  where
    go :
        (k : ℕ)
        → host_end p - host_start p ≡ k
        → Visits (stops_search p (broadcast p)) p.family (host_start p) k (first_addr p)
    go zero e = no_hosts p v (omega arith)
    go (suc k) e = some_hosts p k v (omega arith)
