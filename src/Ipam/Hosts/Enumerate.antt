-- ===== src/Ipam/Hosts/Enumerate.antt =====
-- EnumerateIPv4Hosts and ValidatePrefixForScan of internal/service/discovery.go.
use blackgrid.Prelude.{
  ℕ, zero, suc, ◌+◌, ◌-◌, ◌^◌, ◌≤◌, ◌<◌, ◌≡◌, ◌∙◌, refl, String, Bool, true, none, some, List, map,
  range, if-true, length, length-map, length-range, ok, arith,
}
use native.Mathlib.Nat.{pow-le-pow_right}
use blackgrid.Ipam.Addr.{
  Addr, invalid, ip, zoned, Prefix, IsPrefix, Family, masked, is_4, host_bits, block_size,
}
use blackgrid.Ipam.Hosts.{
  Text, broadcast, first_addr, collect_hosts, enumerate_ipv4_hosts, validate_prefix_for_scan,
}
use blackgrid.Ipam.Hosts.Trace.{Visits, stops_search, stops_collect, collect-range}
use blackgrid.Ipam.Hosts.Window.{block_start, host_start, host_end, hosts-Visits}
use blackgrid.Ipam.Hosts.NextFree.{host_count-lt-fuel, masked-block_start}

-- For an IPv4 prefix both loops stop at the same addresses.
stops_collect-search :
    (p : Prefix) (a : Addr)
    → is_4 p ≡ true
    → stops_collect p (broadcast p) a ≡ stops_search p (broadcast p) a
stops_collect-search p invalid h = refl
stops_collect-search p (ip f n) h = ground arith
stops_collect-search p (zoned n z) h = refl

Visits-cong :
    (s t : Addr → Bool)
    → ((a : Addr) → s a ≡ t a)
    → (f : Family) (m k : ℕ) (a : Addr) → Visits t f m k a
    → Visits s f m k a
Visits-cong s t same f m zero a v = same a ∙ v
Visits-cong s t same f m (suc k) a v = (v.0, same a ∙ v.1, Visits-cong s t same f (m + 1) k _ v.2)

abbrev pub hosts : Prefix → List Addr
hosts p = map (ip p.family) (range (host_start p) (host_end p - host_start p))

collect_hosts_lem : (p : Prefix) → IsPrefix p → is_4 p ≡ true → collect_hosts p ≡ ok (hosts p)
unfolding collect_hosts
collect_hosts_lem p v h =
    collect-range p.family p (broadcast p) (host_end p - host_start p) (suc (block_size p))
      (host_start p) (first_addr p) (host_count-lt-fuel p v)
      (Visits-cong _ _ (λ a. stops_collect-search p a h) p.family (host_start p) _ (first_addr p)
        (hosts-Visits p v))

-- For an IPv4 CIDR that parses, EnumerateIPv4Hosts ends, and lists in ascending order every
-- address from the one written (for a prefix shorter than /31, the one after it) to the last of the
-- block (for a prefix shorter than /31, the one before it).
pub enumerate_ipv4_hosts-hosts :
    (t : Text) (cidr : String) (p : Prefix)
    → t.parse_prefix cidr ≡ some p
    → IsPrefix p
    → is_4 p ≡ true
    → enumerate_ipv4_hosts t cidr ≡ ok (hosts p)
unfolding enumerate_ipv4_hosts
enumerate_ipv4_hosts-hosts t cidr p e v h =
    rw (e, enumerate_ipv4_hosts) (if-true _ _ h ∙ collect_hosts_lem p v h)

pub length-hosts : (p : Prefix) → length (hosts p) ≡ host_end p - host_start p
length-hosts p =
    length-map (ip p.family) (range (host_start p) (host_end p - host_start p))
    ∙ length-range (host_start p) (host_end p - host_start p)

host_count-le : (p : Prefix) → IsPrefix p → host_end p - host_start p ≤ block_size p
host_count-le p v = omega (arith, host_count-lt-fuel p v)

-- A prefix that ValidatePrefixForScan accepts, with a maximum size of at most 32, is enumerated,
-- and has at most 2 ^ (32 - max) host addresses.
pub validate_prefix_for_scan_bounds :
    (t : Text) (cidr : String) (max : ℕ) (p : Prefix)
    → t.parse_prefix cidr ≡ some p
    → IsPrefix p
    → max ≤ 32
    → validate_prefix_for_scan t cidr max ≡ none
    → (enumerate_ipv4_hosts t cidr ≡ ok (hosts p)) × (length (hosts p) ≤ 2 ^ (32 - max))
unfolding validate_prefix_for_scan
validate_prefix_for_scan_bounds t cidr max p e v fits valid =
    let accepted : (is_4 p ≡ true) × (max ≤ p.bits) = ground arith in
    let small : 2 ^ host_bits p ≤ 2 ^ (32 - max) =
      pow-le-pow_right (omega arith) (ground (arith, accepted)) in
    (
      enumerate_ipv4_hosts-hosts t cidr p e v accepted.0,
      omega (arith, length-hosts p, host_count-le p v),
    )

-- The hosts below the address as written are left out: a block that is not written by its first
-- address yields fewer hosts than the masked one.
length-hosts_unmasked :
    (p : Prefix)
    → IsPrefix p
    → block_start p < p.value
    → p.value + 2 ≤ host_end p
    → length (hosts p) + (p.value - block_start p) ≡ length (hosts (masked p))
length-hosts_unmasked p v h k =
    ground (arith, length-hosts p, length-hosts (masked p), masked-block_start p)
