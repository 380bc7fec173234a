-- ===== src/Discovery/Scan.antt =====
-- StartManualScan, RunScan and failScan. The deadline of a scan is left out.
use blackgrid.Prelude.{
  ℕ, suc, String, Bool, if◌then◌else◌, Option, none, some, List, [], ◌∷◌, any_of, update_by, Result,
  ok, err,
}
use blackgrid.Model.{
  Event, string, uuid, discovery_scan_started, discovery_scan_completed, discovery_scan_failed,
}
use blackgrid.Ipam.Addr.{Addr}
use blackgrid.Ipam.Hosts.{enumerate_ipv4_hosts, validate_prefix_for_scan}
use blackgrid.Discovery.{
  ScanStatus, queued, running, completed, failed, DiscoveryScan, PrefixRow, ProbeResult,
  DiscoveryStore, DiscoveryService, ScanQuery, get_prefix, list_active, create_scan, get_scan,
  start_scan, list_addresses, finish_scan, fail_update, DiscoveryError, unknown_prefix,
  scan_already_running, no_rows, not_scannable, not_enumerable, discovery_database, active_scan_of,
  find_prefix, find_scan, send,
}
use blackgrid.Discovery.Probe.{scan_event}
use blackgrid.Discovery.Stale.{scan_hosts}

abbrev pub or_old {ℓ} : {A : Type ℓ} → Option A → Option A → Option A
or_old old none = old
or_old old (some a) = some a

-- The assignments of UpdateDiscoveryScanStatus: a column stays where its parameter is null.
abbrev pub with_scan_status :
    ScanStatus → Option ℕ → Option ℕ → Option String → DiscoveryScan → DiscoveryScan
with_scan_status status started_at completed_at error c = record c {
  status = status;
  started_at = or_old c.started_at started_at;
  completed_at = or_old c.completed_at completed_at;
  error = or_old c.error error;
}

abbrev pub set_scan :
    ℕ → ScanStatus → Option ℕ → Option ℕ → Option String → DiscoveryStore → DiscoveryStore
set_scan id status started_at completed_at error s = record s {
  scans =
      update_by (λ (c : DiscoveryScan). c.id) id
        (with_scan_status status started_at completed_at error) s.scans;
}

-- failScan
abbrev pub fail_scan :
    DiscoveryService
    → (ScanQuery → Bool)
    → ℕ
    → ℕ
    → DiscoveryError
    → DiscoveryStore
    → Option DiscoveryError × DiscoveryStore
fail_scan d fails now id e s = (
  some e,
  send d
      (scan_event discovery_scan_failed "discovery_scan" id
        (("error", string (d.error_text e)) ∷ []))
      (if fails fail_update
        then s
        else set_scan id failed none (some now) (some (d.error_text e)) s),
)

abbrev pub completed_event : DiscoveryScan → Event
completed_event c =
    scan_event discovery_scan_completed "discovery_scan" c.id (("prefix_id", uuid c.prefix_id) ∷ [])

abbrev pub finish : DiscoveryService → ℕ → DiscoveryScan → DiscoveryStore → DiscoveryStore
finish d now c s = send d (completed_event c) (set_scan c.id completed none (some now) none s)

abbrev pub started_event : DiscoveryScan → Event
started_event c =
    scan_event discovery_scan_started "discovery_scan" c.id (("prefix_id", uuid c.prefix_id) ∷ [])

abbrev pub begin : DiscoveryService → ℕ → DiscoveryScan → DiscoveryStore → DiscoveryStore
begin d now c s = send d (started_event c) (set_scan c.id running (some now) none none s)

unfoldable pub run_started :
    DiscoveryService
    → (ScanQuery → Bool)
    → ℕ
    → (Addr → ProbeResult)
    → (List Addr → List Addr)
    → DiscoveryScan
    → PrefixRow
    → DiscoveryStore
    → Option DiscoveryError × DiscoveryStore
unfolding scan_hosts
run_started d fails now probe order c p s = elim (enumerate_ipv4_hosts d.text p.prefix) [
  | err e ↦ fail_scan d fails now c.id (not_enumerable e) s
  | ok hosts ↦
      if fails list_addresses
      then fail_scan d fails now c.id (discovery_database list_addresses) s
      else let s' = scan_hosts d fails now probe c.id p.id (order hosts) s in
        if fails finish_scan
        then (some (discovery_database finish_scan), s')
        else (none, finish d now c s')
]

unfoldable pub run_scan :
    DiscoveryService
    → (ScanQuery → Bool)
    → ℕ
    → (Addr → ProbeResult)
    → (List Addr → List Addr)
    → ℕ
    → DiscoveryStore
    → Option DiscoveryError × DiscoveryStore
unfolding run_started
run_scan d fails now probe order id s =
    if fails get_scan then (some (discovery_database get_scan), s) else (elim (find_scan id s) [
      | none ↦ (some no_rows, s)
      | some c ↦
          if fails get_prefix
          then fail_scan d fails now id (discovery_database get_prefix) s
          else (elim (find_prefix c.prefix_id s) [
            | none ↦ fail_scan d fails now id no_rows s
            | some p ↦
                if fails start_scan
                then (some (discovery_database start_scan), s)
                else run_started d fails now probe order c p (begin d now c s)
          ])
    ])

-- The row that CreateDiscoveryScan inserts.
abbrev pub queued_scan : ℕ → ℕ → DiscoveryScan
queued_scan id prefix = record {
  id = id;
  prefix_id = prefix;
  status = queued;
  started_at = none;
  completed_at = none;
  error = none;
}

abbrev pub queue_scan : ℕ → DiscoveryStore → DiscoveryStore
queue_scan prefix s = record s {
  scans = queued_scan s.next_id prefix ∷ s.scans;
  next_id = suc s.next_id;
}

-- StartManualScan; the goroutine that it starts calls RunScan.
unfoldable pub start_manual_scan :
    DiscoveryService
    → (ScanQuery → Bool)
    → ℕ
    → DiscoveryStore
    → Result DiscoveryError DiscoveryScan × DiscoveryStore
start_manual_scan d fails prefix s =
    if fails get_prefix then (err unknown_prefix, s) else (elim (find_prefix prefix s) [
      | none ↦ (err unknown_prefix, s)
      | some p ↦ elim (validate_prefix_for_scan d.text p.prefix d.max_ipv4_prefix_size) [
        | some e ↦ (err (not_scannable e), s)
        | none ↦
            if fails list_active
            then (err (discovery_database list_active), s)
            else if any_of (active_scan_of prefix) s.scans
            then (err scan_already_running, s)
            else if fails create_scan
            then (err (discovery_database create_scan), s)
            else (ok (queued_scan s.next_id prefix), queue_scan prefix s)
      ]
    ])
