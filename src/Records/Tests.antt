-- ===== src/Records/Tests.antt =====
-- Prefixes and addresses at concrete inputs: 10.0.0.0/30, of which 10.0.0.1 is recorded.
use blackgrid.Prelude.{
  List, ℕ, ◌≤◌, ◌<◌, ◌≡◌, ◌≢◌, refl, false, true, none, some, [], ◌∷◌, ok, if◌then◌else◌, arith,
  Bool, Bool-cases, inl, inr, subst, ◌==◌,
}
use text.Mathlib.Text.{◌==◌ as str_eq}
use blackgrid.Ipam.Addr.{ip, ip4, Prefix, IsPrefix, masked, addr_eq}
use blackgrid.Ipam.Broadcast.{broadcast_value}
use blackgrid.Ipam.Hosts.{Text, get_next_available_ip}
use blackgrid.Ipam.Hosts.Window.{host_start, host_end}
use blackgrid.Records.{RecordStore, RecordService, RecordQuery}
use blackgrid.Records.Addresses.{AddressParams, address_row, create_ip_address}
use blackgrid.Records.Prefixes.{prefix_row, next_available_ip}
use blackgrid.Records.Sound.{RecordsSound}
use blackgrid.Records.Calls.{
  RecordCall, creates_address, configures_scan, sets_status, deletes_prefix, record_calls,
  record_calls-RecordsSound,
}
use blackgrid.Records.Handed.{next_available_ip-create_ip_address}

abbrev small : Prefix
small = record { family = ip4; value = 167772160; bits = 30 }

small-IsPrefix : IsPrefix small
small-IsPrefix = omega arith

abbrev texts : Text
texts = record {
  parse_prefix = λ s. some small;
  parse_addr =
      λ s. if str_eq s "10.0.0.1" then some (ip ip4 167772161) else some (ip ip4 167772162);
  print = λ a. if addr_eq a (ip ip4 167772161) then "10.0.0.1" else "10.0.0.2";
}

abbrev service : RecordService
service = record { text = texts; has_bus = true }

abbrev works : RecordQuery → Bool
works q = false

abbrev under_small : AddressParams
under_small = record {
  prefix_id = 1;
  ip_address = "10.0.0.2";
  interface_id = none;
  status = some "assigned";
  description = none;
}

abbrev tables : RecordStore
tables = record {
  prefixes =
      prefix_row 1
        (record { site_id = none; vlan_id = none; prefix = "10.0.0.0/30"; description = none })
      ∷ [];
  addresses = address_row 2 (record under_small { ip_address = "10.0.0.1" }) ∷ [];
  next_id = 3;
  published = [];
}

read_back :
    (m : ℕ)
    → host_start (masked small) ≤ m
    → m < host_end (masked small)
    → texts.parse_addr (texts.print (ip ip4 m)) ≡ some (ip ip4 m)
read_back m lo hi = elim (Bool-cases (m == 167772161)) [
  | inl first ↦ at 167772161 (ground (arith, first)) refl
  | inr other ↦ at 167772162 (ground (arith, other, lo, hi)) refl
]
  where
    at :
        (n : ℕ)
        → n ≡ m
        → texts.parse_addr (texts.print (ip ip4 n)) ≡ some (ip ip4 n)
        → texts.parse_addr (texts.print (ip ip4 m)) ≡ some (ip ip4 m)
    at n same h = subst (λ k. texts.parse_addr (texts.print (ip ip4 k)) ≡ some (ip ip4 k)) same h

offered_run : next_available_ip service works 1 tables ≡ ok "10.0.0.2"
unfolding next_available_ip get_next_available_ip broadcast_value
offered_run = refl

next_available_ip-create_ip_address_example :
    ((create_ip_address service works under_small tables).0 ≡ ok (address_row 3 under_small))
    × (next_available_ip service works 1 (create_ip_address service works under_small tables).1
        ≢ ok "10.0.0.2")
next_available_ip-create_ip_address_example =
    next_available_ip-create_ip_address service works works works under_small tables
      (prefix_row 1
        (record { site_id = none; vlan_id = none; prefix = "10.0.0.0/30"; description = none }))
      small refl refl small-IsPrefix read_back offered_run refl refl

abbrev calls : List (RecordCall × (RecordQuery → Bool))
calls =
    (creates_address under_small, works)
    ∷ (configures_scan 1 true 90, works)
    ∷ (sets_status 3 "available", works)
    ∷ (deletes_prefix 1, works)
    ∷ []

record_calls-RecordsSound_example :
    RecordsSound service
      (record_calls service calls tables).prefixes
      (record_calls service calls tables).addresses
record_calls-RecordsSound_example =
    record_calls-RecordsSound service calls tables (((refl, omega arith), tt), ((refl, refl), tt))
