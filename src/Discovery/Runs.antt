-- ===== src/Discovery/Runs.antt =====
-- Sequences of calls that start and run scans.
use blackgrid.Prelude.{ℕ, Bool, ◌≡◌, some, List}
use blackgrid.Ipam.Addr.{Addr}
use blackgrid.Discovery.{
  queued, DiscoveryScan, ProbeResult, DiscoveryStore, DiscoveryService, ScanQuery, find_scan,
}
use blackgrid.Discovery.Scan.{run_scan, start_manual_scan}
use blackgrid.Discovery.Active.{OneActive, run_scan-OneActive, start_manual_scan-OneActive}

-- A call of StartManualScan, or a whole run of a scan that is queued.
pub data ScanStep : DiscoveryStore → DiscoveryStore → Type 0 where
  starts :
      (d : DiscoveryService) (fails : ScanQuery → Bool) (prefix : ℕ) (s : DiscoveryStore)
      → ScanStep s (start_manual_scan d fails prefix s).1
  runs :
      (d : DiscoveryService) (fails : ScanQuery → Bool) (now id : ℕ) (probe : Addr → ProbeResult)
      (order : List Addr → List Addr) (c : DiscoveryScan) (s : DiscoveryStore)
      → find_scan id s ≡ some c
      → c.status ≡ queued
      → ScanStep s (run_scan d fails now probe order id s).1

pub data ScanSteps : DiscoveryStore → DiscoveryStore → Type 0 where
  here : (s : DiscoveryStore) → ScanSteps s s
  then_step : (s t u : DiscoveryStore) → ScanSteps s t → ScanStep t u → ScanSteps s u

ScanStep-OneActive : (s t : DiscoveryStore) → ScanStep s t → OneActive s → OneActive t
ScanStep-OneActive _ _ (starts d fails prefix s) v = start_manual_scan-OneActive d fails prefix s v
ScanStep-OneActive _ _ (runs d fails now id probe order c s found waits) v =
    run_scan-OneActive d fails now id probe order c s found waits v

-- From a store whose scans have ids that fall below the next one and at most one of which, for each
-- prefix, is queued or running, any sequence of calls of StartManualScan and of runs of queued scans,
-- one at a time and with any queries failing and any probes answering in each, ends at such a store.
pub ScanSteps-OneActive : (s t : DiscoveryStore) → ScanSteps s t → OneActive s → OneActive t
ScanSteps-OneActive _ _ (here s) v = v
ScanSteps-OneActive _ _ (then_step s t u steps step) v =
    ScanStep-OneActive t u step (ScanSteps-OneActive s t steps v)
