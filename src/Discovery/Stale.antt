-- ===== src/Discovery/Stale.antt =====
-- persistStale, and the probing of the hosts of a scan.
use blackgrid.Prelude.{
  ℕ, String, Bool, false, not, ◌&&◌, ◌||◌, if◌then◌else◌, Option, none, some, is_some, List, [],
  ◌∷◌, any_of,
}
use text.Mathlib.Text.{◌==◌ as str_eq}
use blackgrid.Model.{string, uuid, discovery_stale_detected}
use blackgrid.Ipam.Addr.{Addr}
use blackgrid.Discovery.{
  stale, DiscoveryResult, IpAddress, ProbeResult, DiscoveryStore, DiscoveryService, ScanQuery,
  create_stale, addresses_of, send, normalize_ip,
}
use blackgrid.Discovery.Probe.{existing_at, scan_event, insert_result, probe_all}

abbrev pub stale_result : ℕ → ℕ → ℕ → ℕ → Addr → DiscoveryResult
stale_result id scan prefix now address = record {
  id = id;
  scan_id = scan;
  prefix_id = prefix;
  address = address;
  hostname = none;
  reverse_dns = none;
  open_ports = [];
  latency_ms = none;
  classification = stale;
  seen_at = now;
  is_ignored = false;
  accepted_at = none;
  created_ip_address_id = none;
}

-- persistStale
abbrev pub persist_stale :
    DiscoveryService → (ScanQuery → Bool) → ℕ → ℕ → ℕ → Addr → DiscoveryStore → DiscoveryStore
persist_stale d fails now scan prefix address s =
    let key = d.text.print address in
    if fails (create_stale key)
    then s
    else (send d
        (scan_event discovery_stale_detected "discovery_result" 0
          (("address", string key) ∷ ("prefix_id", uuid prefix) ∷ ("scan_id", uuid scan) ∷ []))
        (insert_result (stale_result s.next_id scan prefix now address) s))

abbrev pub is_in_use : Option String → Bool
is_in_use none = false
is_in_use (some status) =
    str_eq status "assigned"
    || str_eq status "discovered"
    || str_eq status "dhcp"
    || str_eq status "active"

-- One entry of the map of existing addresses: a row that a later one replaces is not in the map.
unfoldable pub mark_one :
    DiscoveryService
    → (ScanQuery → Bool)
    → ℕ
    → ℕ
    → ℕ
    → (String → Bool)
    → IpAddress
    → List IpAddress
    → DiscoveryStore
    → DiscoveryStore
mark_one d fails now scan prefix was_seen a rest s =
    let key = normalize_ip d.text a.ip_address in
    if is_some (existing_at d.text key rest) || was_seen key || not (is_in_use a.status)
    then s
    else (elim (d.text.parse_addr key) [
      | none ↦ s
      | some address ↦ persist_stale d fails now scan prefix address s
    ])

unfoldable pub mark_stale :
    DiscoveryService
    → (ScanQuery → Bool)
    → ℕ
    → ℕ
    → ℕ
    → (String → Bool)
    → List IpAddress
    → DiscoveryStore
    → DiscoveryStore
unfolding mark_one
mark_stale d fails now scan prefix was_seen [] s = s
mark_stale d fails now scan prefix was_seen (a ∷ rest) s =
    mark_stale d fails now scan prefix was_seen rest
      (mark_one d fails now scan prefix was_seen a rest s)

-- The part of RunScan after the addresses of the prefix are listed.
unfoldable pub scan_hosts :
    DiscoveryService
    → (ScanQuery → Bool)
    → ℕ
    → (Addr → ProbeResult)
    → ℕ
    → ℕ
    → List Addr
    → DiscoveryStore
    → DiscoveryStore
unfolding probe_all mark_stale
scan_hosts d fails now probe scan prefix finish s =
    let rows = addresses_of prefix s in
    mark_stale d fails now scan prefix
      (λ key. any_of (λ (a : Addr). (probe a).seen && str_eq (d.text.print a) key) finish) rows
      (probe_all d fails now probe scan prefix rows finish s)
