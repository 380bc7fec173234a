-- ===== src/Ipam/Hosts.antt =====
-- The two loops over the host addresses of a prefix: GetNextAvailableIP of pkg/ipam, and
-- EnumerateIPv4Hosts of the discovery service. Reading and printing addresses is net/netip's.
pub mod Trace
pub mod Window
pub mod NextFree
pub mod Enumerate
use blackgrid.Prelude.{
  ℕ, zero, suc, ◌+◌, ◌-◌, ◌^◌, String, Bool, true, false, not, ◌&&◌, ltb, if◌then◌else◌, Option,
  none, some, List, [], ◌∷◌, any_of, Result, ok, err,
}
use blackgrid.Ipam.Addr.{
  Addr, invalid, ip, Prefix, masked, is_4, prefix_addr, contains, next, addr_eq, host_bits,
  block_size,
}
use blackgrid.Ipam.Broadcast.{broadcast_value}

-- What net/netip does with text.
pub record Text : Type 0 where
  pub parse_prefix : String → Option Prefix
  pub parse_addr : String → Option Addr
  pub print : Addr → String

-- `out_of_fuel` is of the model only.
pub data IpamError : Type 0 where
  invalid_cidr no_available_ip ipv6_unsupported out_of_fuel : IpamError

-- An IPv4 prefix with a network and a broadcast address.
abbrev pub has_edges : Prefix → Bool
has_edges p = is_4 p && ltb p.bits 31

abbrev pub broadcast : Prefix → Addr
broadcast p = if has_edges p then ip p.family (broadcast_value p.value (32 - p.bits)) else invalid

-- The first address that the loops look at.
abbrev pub first_addr : Prefix → Addr
first_addr p = if has_edges p then next (prefix_addr p) else prefix_addr p

abbrev pub existing_set : Text → List String → List Addr
existing_set t [] = []
existing_set t (s ∷ ss) = elim (t.parse_addr s) [
  | none ↦ existing_set t ss
  | some a ↦ a ∷ existing_set t ss
]

abbrev pub member : Addr → List Addr → Bool
member a = any_of (addr_eq a)

-- for prefix.Contains(currentIP) { … }
unfoldable pub search_free : ℕ → Prefix → Addr → List Addr → Addr → Result IpamError Addr
search_free zero p bc existing cur = err out_of_fuel
search_free (suc fuel) p bc existing cur =
    let rest = search_free fuel p bc existing (next cur) in
    if not (contains p cur)
    then err no_available_ip
    else if addr_eq cur bc
    then err no_available_ip
    else if not (member cur existing)
    then ok cur
    else rest

-- The block and one round more: enough fuel for any prefix.
unfoldable pub next_available : Prefix → List Addr → Result IpamError Addr
unfolding search_free
next_available p existing = search_free (suc (block_size p)) p (broadcast p) existing (first_addr p)

abbrev print_result : Text → Result IpamError Addr → Result IpamError String
print_result t (ok a) = ok (t.print a)
print_result t (err e) = err e

unfoldable pub get_next_available_ip : Text → String → List String → Result IpamError String
unfolding next_available
get_next_available_ip t cidr existing = elim (t.parse_prefix cidr) [
  | none ↦ err invalid_cidr
  | some p ↦ print_result t (next_available (masked p) (existing_set t existing))
]

abbrev cons_result : Addr → Result IpamError (List Addr) → Result IpamError (List Addr)
cons_result a (ok rest) = ok (a ∷ rest)
cons_result a (err e) = err e

-- for cur := first; prefix.Contains(cur); cur = cur.Next() { … }
unfoldable pub collect : ℕ → Prefix → Addr → Addr → Result IpamError (List Addr)
collect zero p bc cur = err out_of_fuel
collect (suc fuel) p bc cur =
    let rest = cons_result cur (collect fuel p bc (next cur)) in
    if not (contains p cur) then ok [] else if ltb p.bits 31 && addr_eq cur bc then ok [] else rest

-- The prefix is not masked first: the loop starts from the address as it was written.
unfoldable pub collect_hosts : Prefix → Result IpamError (List Addr)
unfolding collect
collect_hosts p = collect (suc (block_size p)) p (broadcast p) (first_addr p)

unfoldable pub enumerate_ipv4_hosts : Text → String → Result IpamError (List Addr)
enumerate_ipv4_hosts t cidr = elim (t.parse_prefix cidr) [
  | none ↦ err invalid_cidr
  | some p ↦ if is_4 p then collect_hosts p else err ipv6_unsupported
]

-- ValidatePrefixForScan of the discovery service.
pub data ScanError : Type 0 where
  bad_cidr no_ipv6 prefix_too_large : ScanError

unfoldable pub validate_prefix_for_scan : Text → String → ℕ → Option ScanError
validate_prefix_for_scan t cidr max_ipv4_prefix_size = elim (t.parse_prefix cidr) [
  | none ↦ some bad_cidr
  | some p ↦
      if not (is_4 p)
      then some no_ipv6
      else if ltb p.bits max_ipv4_prefix_size
      then some prefix_too_large
      else none
]
