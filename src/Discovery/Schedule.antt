-- ===== src/Discovery/Schedule.antt =====
-- The scheduled scans: GetPrefixesForScheduledScans and tickScheduled. Times are in seconds. The
-- statistics of the service are left out.
use blackgrid.Prelude.{
  ℕ, Bool, false, not, if◌then◌else◌, ◌&&◌, ◌||◌, ◌==◌, ◌+◌, ltb, Option, none, some, List, [], ◌∷◌,
  any_of, keep_if,
}
use blackgrid.Discovery.{
  completed, scan_status_eq, DiscoveryScan, PrefixRow, DiscoveryStore, DiscoveryService, ScanQuery,
  list_due, active_scan_of,
}
use blackgrid.Discovery.Scan.{start_manual_scan}

abbrev pub completed_scan_of : ℕ → DiscoveryScan → Bool
completed_scan_of prefix c = c.prefix_id == prefix && scan_status_eq c.status completed

-- completed_at < CURRENT_TIMESTAMP - scan_interval_seconds, which is not true of a null.
abbrev pub completed_before : ℕ → ℕ → Option ℕ → Bool
completed_before now interval none = false
completed_before now interval (some at) = ltb (at + interval) now

abbrev pub old_scan_of : ℕ → PrefixRow → DiscoveryScan → Bool
old_scan_of now p c =
    completed_scan_of p.id c && completed_before now p.scan_interval_seconds c.completed_at

-- The WHERE of the query.
unfoldable pub is_due : ℕ → List DiscoveryScan → PrefixRow → Bool
is_due now scans p =
    p.scan_enabled
    && not (any_of (active_scan_of p.id) scans)
    && (not (any_of (completed_scan_of p.id) scans) || any_of (old_scan_of now p) scans)

-- The loop of tickScheduled; an error is logged.
unfoldable pub start_all :
    DiscoveryService → (ScanQuery → Bool) → List PrefixRow → DiscoveryStore → DiscoveryStore
unfolding start_manual_scan
start_all d fails [] s = s
start_all d fails (p ∷ ps) s = start_all d fails ps (start_manual_scan d fails p.id s).1

unfoldable pub tick_scheduled :
    DiscoveryService → (ScanQuery → Bool) → ℕ → DiscoveryStore → DiscoveryStore
unfolding is_due start_all
tick_scheduled d fails now s =
    if fails list_due then s else start_all d fails (keep_if (is_due now s.scans) s.prefixes) s
