-- ===== src/Ipam/Hosts/NextFree.antt =====
-- GetNextAvailableIP of pkg/ipam/ipam.go hands out the lowest free host address.
use blackgrid.Prelude.{
  ℕ, suc, ◌+◌, ◌-◌, ◌/◌, ◌≤◌, ◌<◌, ◌≡◌, String, true, false, some, List, Result, ok, err, arith,
  pow_pos, block_of, div_in_block,
}
use blackgrid.Ipam.Addr.{Addr, ip, Prefix, IsPrefix, masked, host_bits, block_size}
use blackgrid.Ipam.Hosts.{
  Text, IpamError, no_available_ip, member, broadcast, first_addr, existing_set, next_available,
  print_result, get_next_available_ip,
}
use blackgrid.Ipam.Hosts.Trace.{LowestFree, free, full, search_free-LowestFree}
use blackgrid.Ipam.Hosts.Window.{block_start, host_start, host_end, hosts-Visits}

-- Masking keeps the block.
pub masked-block_start : (p : Prefix) → block_start (masked p) ≡ block_start p
masked-block_start p =
    grind (arith, div_in_block (p.value / block_size p) (block_size p), pow_pos (host_bits p))

pub masked-IsPrefix : (p : Prefix) → IsPrefix p → IsPrefix (masked p)
masked-IsPrefix p v = record {
  value_fits = omega (arith, v.value_fits, block_of p.value (block_size p) (pow_pos (host_bits p)));
  bits_fit = v.bits_fit;
}

pub host_count-lt-fuel : (p : Prefix) → IsPrefix p → host_end p - host_start p < suc (block_size p)
host_count-lt-fuel p v = ground (arith, block_of p.value (block_size p) (pow_pos (host_bits p)))

next_available-LowestFree :
    (p : Prefix) (existing : List Addr)
    → IsPrefix p
    → LowestFree p.family existing
        (host_start p)
        (host_start p + (host_end p - host_start p))
        (next_available p existing)
unfolding next_available
next_available-LowestFree p existing v =
    search_free-LowestFree p.family p (broadcast p) existing (host_end p - host_start p)
      (suc (block_size p)) (host_start p) (first_addr p) (host_count-lt-fuel p v) (hosts-Visits p v)

-- What GetNextAvailableIP promises of its result.
pub data NextFree (t : Text) (p : Prefix) (existing : List Addr) (r : Result IpamError String)
    : Type 0 where
  handed_out :
      (m : ℕ)
      → host_start p ≤ m
      → m < host_end p
      → member (ip p.family m) existing ≡ false
      → ((j : ℕ) → host_start p ≤ j → j < m → member (ip p.family j) existing ≡ true)
      → r ≡ ok (t.print (ip p.family m))
      → NextFree t p existing r
  all_taken :
      ((j : ℕ) → host_start p ≤ j → j < host_end p → member (ip p.family j) existing ≡ true)
      → r ≡ err no_available_ip
      → NextFree t p existing r

LowestFree-NextFree :
    (t : Text) (p : Prefix) (existing : List Addr) {r : Result IpamError Addr}
    → LowestFree p.family existing (host_start p) (host_start p + (host_end p - host_start p)) r
    → NextFree t p existing (print_result t r)
LowestFree-NextFree t p existing (free m lo hi open_at taken e) =
    handed_out m lo (omega arith) open_at taken (rw e)
LowestFree-NextFree t p existing (full taken e) =
    all_taken (λ j lo hi. taken j lo (omega arith)) (rw e)

-- For a CIDR that parses, GetNextAvailableIP returns the text of the lowest host address of the
-- masked prefix that is not among the existing addresses that parse, or, if all host addresses are
-- taken, the error that none is available. For an IPv4 prefix shorter than /31 the host addresses
-- leave out the first and the last of the block.
pub get_next_available_ip-NextFree :
    (t : Text) (cidr : String) (existing : List String) (p : Prefix)
    → t.parse_prefix cidr ≡ some p
    → IsPrefix p
    → NextFree t (masked p) (existing_set t existing) (get_next_available_ip t cidr existing)
unfolding get_next_available_ip
get_next_available_ip-NextFree t cidr existing p e v =
    rw (e, get_next_available_ip)
      (LowestFree-NextFree t (masked p) (existing_set t existing)
        (next_available-LowestFree (masked p) (existing_set t existing) (masked-IsPrefix p v)))
