-- ===== src/Discovery.antt =====
-- Discovery scans: internal/service/discovery.go over the tables discovery_scans, discovery_results and
-- ip_addresses (internal/db/discovery.sql.go, query.sql.go). What a probe of an address finds is an
-- argument; whether a query fails is an argument.
pub mod Probe
pub mod Stale
pub mod Scan
pub mod Accept
pub mod Kept
pub mod Active
pub mod Runs
pub mod Blocked
pub mod Accepted
pub mod Schedule
pub mod Due
pub mod Address
pub mod Ports
mod Tests
use blackgrid.Prelude.{
  ℕ, suc, String, Bool, true, false, if◌then◌else◌, ◌&&◌, ◌||◌, ◌==◌, Option, none, some, List, [],
  ◌∷◌, ◌++◌, find_if, keep_if, update_by,
}
use text.Mathlib.Text.{◌==◌ as str_eq}
use blackgrid.Model.{Event, EventType, Value}
use blackgrid.Ipam.Addr.{Addr, prefix_addr}
use blackgrid.Ipam.Hosts.{Text, IpamError, ScanError}

-- The words that the service writes to the column `status` of `discovery_scans`.
pub data ScanStatus : Type 0 where
  queued running completed failed : ScanStatus

pub record DiscoveryScan : Type 0 where
  pub id : ℕ
  pub prefix_id : ℕ
  pub status : ScanStatus
  pub started_at : Option ℕ
  pub completed_at : Option ℕ
  pub error : Option String

-- The words that the service writes to the column `classification`.
pub data Classification : Type 0 where
  new changed known stale ignored : Classification

-- A row of `discovery_results`; the ports stand as the list that their JSON holds.
pub record DiscoveryResult : Type 0 where
  pub id : ℕ
  pub scan_id : ℕ
  pub prefix_id : ℕ
  pub address : Addr
  pub hostname : Option String
  pub reverse_dns : Option String
  pub open_ports : List ℕ
  pub latency_ms : Option ℕ
  pub classification : Classification
  pub seen_at : ℕ
  pub is_ignored : Bool
  pub accepted_at : Option ℕ
  pub created_ip_address_id : Option ℕ

-- A row of `ip_addresses`.
pub record IpAddress : Type 0 where
  pub id : ℕ
  pub prefix_id : ℕ
  pub ip_address : String
  pub status : Option String
  pub description : Option String
  pub last_seen_at : Option ℕ

-- A row of `prefixes`.
pub record PrefixRow : Type 0 where
  pub id : ℕ
  pub prefix : String
  pub scan_enabled : Bool
  pub scan_interval_seconds : ℕ

-- What a probe finds; a latency of 0 and no name stand for none.
pub record ProbeResult : Type 0 where
  pub seen : Bool
  pub open_ports : List ℕ
  pub latency_ms : ℕ
  pub reverse_dns : String

-- Scans and results stand newest first; the addresses in the order of the query that lists them, which
-- is a matter of the collation of the database.
pub record DiscoveryStore : Type 0 where
  pub scans : List DiscoveryScan
  pub results : List DiscoveryResult
  pub addresses : List IpAddress
  pub prefixes : List PrefixRow
  pub next_id : ℕ
  pub sent : List Event

-- The calls of the database; those in a loop carry the address.
pub data ScanQuery : Type 0 where
  get_prefix list_active create_scan get_scan start_scan list_addresses finish_scan fail_update :
      ScanQuery
  get_result get_address link_result touch_address create_address ignore_result : ScanQuery
  list_due list_prefixes : ScanQuery
  recent_results touch_seen create_seen create_stale : String → ScanQuery

-- `link_failed` and `created_not_linked` carry the address that AcceptResult returns with its error.
pub data DiscoveryError : Type 0 where
  unknown_prefix scan_already_running no_rows : DiscoveryError
  not_scannable : ScanError → DiscoveryError
  not_enumerable : IpamError → DiscoveryError
  discovery_database : ScanQuery → DiscoveryError
  link_failed created_not_linked : IpAddress → DiscoveryError

-- `error_text` is the text of an error, which may come from the database's driver.
pub record DiscoveryService : Type 0 where
  pub text : Text
  pub error_text : DiscoveryError → String
  pub has_bus : Bool
  pub max_ipv4_prefix_size : ℕ

abbrev pub scan_status_eq : ScanStatus → ScanStatus → Bool
scan_status_eq queued queued = true
scan_status_eq running running = true
scan_status_eq completed completed = true
scan_status_eq failed failed = true
scan_status_eq _ _ = false

-- status IN ('queued', 'running')
abbrev pub is_running_or_queued : ScanStatus → Bool
is_running_or_queued s = scan_status_eq s queued || scan_status_eq s running

abbrev pub active_scan_of : ℕ → DiscoveryScan → Bool
active_scan_of prefix c = c.prefix_id == prefix && is_running_or_queued c.status

abbrev pub find_prefix : ℕ → DiscoveryStore → Option PrefixRow
find_prefix id s = find_if (λ (p : PrefixRow). p.id == id) s.prefixes

abbrev pub find_scan : ℕ → DiscoveryStore → Option DiscoveryScan
find_scan id s = find_if (λ (c : DiscoveryScan). c.id == id) s.scans

abbrev pub find_result : ℕ → DiscoveryStore → Option DiscoveryResult
find_result id s = find_if (λ (r : DiscoveryResult). r.id == id) s.results

abbrev pub find_address : ℕ → DiscoveryStore → Option IpAddress
find_address id s = find_if (λ (a : IpAddress). a.id == id) s.addresses

abbrev pub addresses_of : ℕ → DiscoveryStore → List IpAddress
addresses_of prefix s = keep_if (λ (a : IpAddress). a.prefix_id == prefix) s.addresses

abbrev pub send : DiscoveryService → Event → DiscoveryStore → DiscoveryStore
send d e s = if d.has_bus then record s { sent = s.sent ++ (e ∷ []) } else s

-- normalizeIP
abbrev pub normalize_ip : Text → String → String
normalize_ip t s = elim (t.parse_addr s) [
  | some a ↦ t.print a
  | none ↦ elim (t.parse_prefix s) [ some p ↦ t.print (prefix_addr p) | none ↦ s ]
]

-- UpdateIPAddressLastSeen
abbrev pub touch : ℕ → ℕ → DiscoveryStore → DiscoveryStore
touch now id s = record s {
  addresses =
      update_by (λ (a : IpAddress). a.id) id
        (λ (a : IpAddress). record a { last_seen_at = some now }) s.addresses;
}
