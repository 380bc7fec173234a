-- ===== src/Ipam/Hosts/Trace.antt =====
-- The addresses that a loop visits before it stops, and what each loop makes of them.
use blackgrid.Prelude.{
  ℕ, zero, suc, ◌+◌, ◌≤◌, ◌<◌, ◌≡◌, ◌∙◌, ◌⊎◌, inl, inr, Bool, true, false, not, ◌||◌, ◌&&◌, ltb,
  List, map, range, Result, ok, err, Bool-cases, arith,
}
use blackgrid.Ipam.Addr.{Addr, Family, ip, Prefix, contains, next, addr_eq}
use blackgrid.Ipam.Hosts.{IpamError, no_available_ip, member, search_free, collect}

-- From `cur`, the loop visits the `k` addresses from `m` on, and stops.
abbrev pub Visits : (Addr → Bool) → Family → ℕ → ℕ → Addr → Type 0
Visits stops f m zero cur = stops cur ≡ true
Visits stops f m (suc k) cur =
    (cur ≡ ip f m) × (stops cur ≡ false) × Visits stops f (m + 1) k (next cur)

-- The lowest address of [lo, hi) that is not taken, or none.
pub data LowestFree (f : Family) (existing : List Addr) (lo hi : ℕ) (r : Result IpamError Addr)
    : Type 0 where
  free :
      (m : ℕ)
      → lo ≤ m
      → m < hi
      → member (ip f m) existing ≡ false
      → ((j : ℕ) → lo ≤ j → j < m → member (ip f j) existing ≡ true)
      → r ≡ ok (ip f m)
      → LowestFree f existing lo hi r
  full :
      ((j : ℕ) → lo ≤ j → j < hi → member (ip f j) existing ≡ true)
      → r ≡ err no_available_ip
      → LowestFree f existing lo hi r

abbrev pub stops_search : Prefix → Addr → Addr → Bool
stops_search p bc cur = not (contains p cur) || addr_eq cur bc

abbrev pub stops_collect : Prefix → Addr → Addr → Bool
stops_collect p bc cur = not (contains p cur) || (ltb p.bits 31 && addr_eq cur bc)

from_here : (m j : ℕ) → m ≤ j → (j ≡ m) ⊎ (m + 1 ≤ j)
from_here m j h = grind arith

taken_below :
    (f : Family) (existing : List Addr) (m k : ℕ)
    → member (ip f m) existing ≡ true
    → ((j : ℕ) → m + 1 ≤ j → j < k → member (ip f j) existing ≡ true)
    → (j : ℕ) → m ≤ j
    → j < k
    → member (ip f j) existing ≡ true
taken_below f existing m k here above j h l = elim (from_here m j h) [
  | inl same ↦ rw same here
  | inr later ↦ above j later l
]

-- The step of the search at a taken address.
LowestFree-cons :
    (f : Family) (existing : List Addr) (m k : ℕ) {r s : Result IpamError Addr}
    → member (ip f m) existing ≡ true
    → s ≡ r
    → LowestFree f existing (m + 1) (m + 1 + k) r
    → LowestFree f existing m (m + suc k) s
LowestFree-cons f existing m k here same (free j lo below open_at taken e) =
    free j (omega arith) (omega arith) open_at (taken_below f existing m j here taken) (same ∙ e)
LowestFree-cons f existing m k here same (full taken e) =
    full (λ j lo hi. taken_below f existing m (m + 1 + k) here taken j lo (omega arith)) (same ∙ e)

module _ (f : Family) (p : Prefix) (bc : Addr) where
  search_free-taken :
      (existing : List Addr) (fuel : ℕ) (cur : Addr)
      → stops_search p bc cur ≡ false
      → member cur existing ≡ true
      → search_free (suc fuel) p bc existing cur ≡ search_free fuel p bc existing (next cur)
  unfolding search_free
  search_free-taken existing fuel cur go taken = ground arith

  pub search_free-LowestFree :
      (existing : List Addr) (k fuel m : ℕ) (cur : Addr)
      → k < fuel
      → Visits (stops_search p bc) f m k cur
      → LowestFree f existing m (m + k) (search_free fuel p bc existing cur)
  unfolding search_free
  search_free-LowestFree existing k zero m cur h v = elim h [ ]
  search_free-LowestFree existing zero (suc fuel) m cur h v =
      full (λ j lo hi. absurd (omega arith)) (ground arith)
  search_free-LowestFree existing (suc k) (suc fuel) m cur h v =
      elim (Bool-cases (member (ip f m) existing)) [
        | inl taken ↦
            LowestFree-cons f existing m k taken
              (search_free-taken existing fuel cur (v.1) (rw v.0 taken))
              (search_free-LowestFree existing k fuel (m + 1) (next cur) (omega arith) v.2)
        | inr open_at ↦
            free m (omega arith) (omega arith) open_at (λ j lo hi. absurd (omega arith))
              (ground arith)
      ]

  pub collect-range :
      (k fuel m : ℕ) (cur : Addr)
      → k < fuel
      → Visits (stops_collect p bc) f m k cur
      → collect fuel p bc cur ≡ ok (map (ip f) (range m k))
  unfolding collect
  collect-range k zero m cur h v = elim h [ ]
  collect-range zero (suc fuel) m cur h v = ground arith
  collect-range (suc k) (suc fuel) m cur h v =
      ground (arith, collect-range k fuel (m + 1) (next cur) (omega arith) v.2)
