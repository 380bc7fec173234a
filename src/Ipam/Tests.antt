-- ===== src/Ipam/Tests.antt =====
-- Runs of the address code on small prefixes, and the theorems at inputs that meet their hypotheses.
use blackgrid.Prelude.{
  ◌-◌, ◌≤◌, ◌≡◌, refl, if◌then◌else◌, Option, none, some, List, [], ◌∷◌, length, count_if, ok,
  arith,
}
use text.Mathlib.Text.{◌==◌ as str_eq}
use blackgrid.Ipam.Addr.{ip, ip4, Prefix, IsPrefix, masked, addr_eq}
use blackgrid.Ipam.Broadcast.{broadcast_value}
use blackgrid.Ipam.Hosts.{
  Text, collect_hosts, existing_set, get_next_available_ip, enumerate_ipv4_hosts,
  validate_prefix_for_scan,
}
use blackgrid.Ipam.Hosts.NextFree.{NextFree, get_next_available_ip-NextFree}
use blackgrid.Ipam.Hosts.Enumerate.{
  hosts, enumerate_ipv4_hosts-hosts, validate_prefix_for_scan_bounds,
}
use blackgrid.Ipam.Utilization.{AddressStatus, available, other, is_allocated, utilization}
use blackgrid.Ipam.Utilization.Counts.{utilization-hosts}

-- 10.0.0.0/30 and 10.0.0.2/29.
abbrev small : Prefix
small = record { family = ip4; value = 167772160; bits = 30 }

abbrev unmasked : Prefix
unmasked = record { family = ip4; value = 167772162; bits = 29 }

abbrev table : Text
table = record {
  parse_prefix = λ s.
      if str_eq s "10.0.0.0/30"
      then some small
      else if str_eq s "10.0.0.2/29"
      then some unmasked
      else none;
  parse_addr = λ s. if str_eq s "10.0.0.1" then some (ip ip4 167772161) else none;
  print = λ a. if addr_eq a (ip ip4 167772162) then "10.0.0.2" else "another";
}

small-IsPrefix : IsPrefix small
small-IsPrefix = omega arith

unmasked-IsPrefix : IsPrefix unmasked
unmasked-IsPrefix = omega arith

next_run : get_next_available_ip table "10.0.0.0/30" ("10.0.0.1" ∷ "junk" ∷ []) ≡ ok "10.0.0.2"
unfolding get_next_available_ip broadcast_value
next_run = refl

enumerate_run :
    enumerate_ipv4_hosts table "10.0.0.2/29"
    ≡ ok (ip ip4 167772163 ∷ ip ip4 167772164 ∷ ip ip4 167772165 ∷ ip ip4 167772166 ∷ [])
unfolding enumerate_ipv4_hosts collect_hosts broadcast_value
enumerate_run = refl

get_next_available_ip-NextFree_example :
    NextFree table
      (masked small)
      (existing_set table ("10.0.0.1" ∷ []))
      (get_next_available_ip table "10.0.0.0/30" ("10.0.0.1" ∷ []))
get_next_available_ip-NextFree_example =
    get_next_available_ip-NextFree table "10.0.0.0/30" ("10.0.0.1" ∷ []) small refl small-IsPrefix

enumerate_ipv4_hosts-hosts_example : enumerate_ipv4_hosts table "10.0.0.2/29" ≡ ok (hosts unmasked)
enumerate_ipv4_hosts-hosts_example =
    enumerate_ipv4_hosts-hosts table "10.0.0.2/29" unmasked refl unmasked-IsPrefix refl

small_valid : validate_prefix_for_scan table "10.0.0.0/30" 22 ≡ none
unfolding validate_prefix_for_scan
small_valid = refl

validate_prefix_for_scan_bounds_example :
    (enumerate_ipv4_hosts table "10.0.0.0/30" ≡ ok (hosts small)) × (length (hosts small) ≤ 1024)
validate_prefix_for_scan_bounds_example =
    validate_prefix_for_scan_bounds table "10.0.0.0/30" 22 small refl small-IsPrefix (omega arith)
      small_valid

abbrev rows : List (Option AddressStatus)
rows = none ∷ some available ∷ some (other "assigned") ∷ []

utilization-hosts_example :
    let u = utilization (some (30, 32)) rows in
    (u.total ≡ length (hosts (masked small)))
    × (u.allocated ≡ count_if is_allocated rows)
    × (u.free ≡ length (hosts (masked small)) - count_if is_allocated rows)
utilization-hosts_example = utilization-hosts small rows small-IsPrefix refl (omega arith)
