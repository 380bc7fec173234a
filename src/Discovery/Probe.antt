-- ===== src/Discovery/Probe.antt =====
-- What a scan does with each address: ClassifySeen, persistSeen, persistStale and the two loops of
-- RunScan. The workers share one channel; the order in which they finish is an argument.
use blackgrid.Prelude.{
  ℕ, suc, String, Bool, true, false, not, ◌&&◌, if◌then◌else◌, leb, ltb, ◌==◌, Option, none, some,
  is_some, List, [], ◌∷◌, find_if,
}
use text.Mathlib.Text.{◌==◌ as str_eq}
use blackgrid.Model.{
  Event, EventType, Value, string, uuid, discovery_result_created, discovery_new_host,
  discovery_conflict_detected,
}
use blackgrid.Ipam.Addr.{Addr, addr_eq}
use blackgrid.Ipam.Hosts.{Text}
use blackgrid.Discovery.{
  Classification, new, changed, known, stale, ignored, DiscoveryResult, IpAddress, ProbeResult,
  DiscoveryStore, DiscoveryService, ScanQuery, recent_results, touch_seen, create_seen, send,
  normalize_ip, touch,
}

abbrev pub insert_port : ℕ → List ℕ → List ℕ
insert_port n [] = n ∷ []
insert_port n (m ∷ ms) = let rest = insert_port n ms in if leb n m then n ∷ (m ∷ ms) else m ∷ rest

-- sort.Ints
abbrev pub sort_ints : List ℕ → List ℕ
sort_ints [] = []
sort_ints (n ∷ ns) = insert_port n (sort_ints ns)

abbrev pub int_slice_eq : List ℕ → List ℕ → Bool
int_slice_eq [] [] = true
int_slice_eq (m ∷ ms) (n ∷ ns) = m == n && int_slice_eq ms ns
int_slice_eq _ _ = false

unfoldable pub classify_seen : List ℕ → Bool → List ℕ → Classification
classify_seen ports exists prior = if not exists then new else (elim prior [
  | [] ↦ known
  | n ∷ ns ↦ if not (int_slice_eq (sort_ints (n ∷ ns)) (sort_ints ports)) then changed else known
])

-- The map from normalized addresses to rows: of two rows with one key the later stays.
abbrev pub existing_at : Text → String → List IpAddress → Option IpAddress
existing_at t key [] = none
existing_at t key (a ∷ rest) =
    let later = existing_at t key rest in
    elim later [
      | some b ↦ some b
      | none ↦ if str_eq (normalize_ip t a.ip_address) key then some a else none
    ]

-- An event without an object has the id 0.
abbrev pub scan_event : EventType → String → ℕ → List (String × Value) → Event
scan_event type object id payload = record {
  event_type = type;
  object_type = object;
  object_id = id;
  payload = payload;
}

-- The row that CreateDiscoveryResult inserts.
abbrev pub insert_result : DiscoveryResult → DiscoveryStore → DiscoveryStore
insert_result r s = record s { results = r ∷ s.results; next_id = suc s.next_id }

abbrev pub seen_result : ℕ → ℕ → ℕ → ℕ → Addr → ProbeResult → Classification → DiscoveryResult
seen_result id scan prefix now address p c = record {
  id = id;
  scan_id = scan;
  prefix_id = prefix;
  address = address;
  hostname = none;
  reverse_dns = if str_eq p.reverse_dns "" then none else some p.reverse_dns;
  open_ports = p.open_ports;
  latency_ms = if ltb 0 p.latency_ms then some p.latency_ms else none;
  classification = c;
  seen_at = now;
  is_ignored = false;
  accepted_at = none;
  created_ip_address_id = none;
}

abbrev pub class_word : Classification → String
class_word new = "new"
class_word changed = "changed"
class_word known = "known"
class_word stale = "stale"
class_word ignored = "ignored"

abbrev pub seen_events :
    DiscoveryService
    → ℕ
    → ℕ
    → String
    → ProbeResult
    → Classification
    → DiscoveryStore
    → DiscoveryStore
seen_events d scan prefix addr p c s =
    let s' =
      send d
        (scan_event discovery_result_created "discovery_result" scan (
          ("scan_id", uuid scan)
          ∷ ("prefix_id", uuid prefix)
          ∷ ("address", string addr)
          ∷ ("classification", string (class_word c))
          ∷ ("reverse_dns", string p.reverse_dns)
          ∷ []))
        s in
    elim c [
      | new ↦
          send d
            (scan_event discovery_new_host "discovery_result" 0
              (("address", string addr) ∷ ("prefix_id", uuid prefix) ∷ []))
            s'
      | changed ↦
          send d
            (scan_event discovery_conflict_detected "discovery_result" 0 (
              ("address", string addr)
              ∷ ("prefix_id", uuid prefix)
              ∷ ("details", string "Open ports changed")
              ∷ []))
            s'
      | known ↦ s'
      | stale ↦ s'
      | ignored ↦ s'
    ]

-- The ports of the latest result of the address; an error leaves none.
abbrev pub prior_ports : (ScanQuery → Bool) → String → ℕ → Addr → DiscoveryStore → List ℕ
prior_ports fails key prefix address s =
    if fails (recent_results key)
    then []
    else (elim (find_if
        (λ (r : DiscoveryResult). r.prefix_id == prefix && addr_eq r.address address) s.results) [
          | none ↦ []
          | some r ↦ r.open_ports
        ])

-- persistSeen; its error is logged only.
unfoldable pub persist_seen :
    DiscoveryService
    → (ScanQuery → Bool)
    → ℕ
    → ℕ
    → ℕ
    → List IpAddress
    → Addr
    → ProbeResult
    → DiscoveryStore
    → DiscoveryStore
unfolding classify_seen
persist_seen d fails now scan prefix known_rows address p s =
    let key = d.text.print address in
    let row = existing_at d.text key known_rows in
    let c =
      classify_seen p.open_ports (is_some row)
        (elim row [ none ↦ [] | some a ↦ prior_ports fails key prefix address s ]) in
    let s' : DiscoveryStore = elim row [
      | none ↦ s
      | some a ↦ if fails (touch_seen key) then s else touch now a.id s
    ] in
    if fails (create_seen key)
    then s'
    else (seen_events d scan prefix key p c
        (insert_result (seen_result s'.next_id scan prefix now address p c) s'))

-- The loop of the workers, over the addresses in the order in which they finish.
unfoldable pub probe_all :
    DiscoveryService
    → (ScanQuery → Bool)
    → ℕ
    → (Addr → ProbeResult)
    → ℕ
    → ℕ
    → List IpAddress
    → List Addr
    → DiscoveryStore
    → DiscoveryStore
unfolding persist_seen
probe_all d fails now probe scan prefix known_rows [] s = s
probe_all d fails now probe scan prefix known_rows (a ∷ rest) s =
    probe_all d fails now probe scan prefix known_rows rest
      (if (probe a).seen then persist_seen d fails now scan prefix known_rows a (probe a) s else s)
