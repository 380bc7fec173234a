-- ===== src/Discovery/Blocked.antt =====
-- A scan whose end is not recorded.
use blackgrid.Prelude.{
  ℕ, Bool, true, false, ◌==◌, ◌≡◌, refl, sym, ap, ◌∙◌, subst, arith, none, some, List, [], ◌∷◌,
  any_of, find_if, find_by-key, find_by-update_by, ok, err,
}
use blackgrid.Ipam.Addr.{Addr}
use blackgrid.Ipam.Hosts.{enumerate_ipv4_hosts, validate_prefix_for_scan}
use blackgrid.Discovery.{
  running, DiscoveryScan, PrefixRow, ProbeResult, DiscoveryStore, DiscoveryService, ScanQuery,
  get_scan, get_prefix, start_scan, list_addresses, finish_scan, scan_already_running,
  discovery_database, active_scan_of, find_prefix, find_scan,
}
use blackgrid.Discovery.Stale.{scan_hosts}
use blackgrid.Discovery.Scan.{
  begin, started_event, with_scan_status, set_scan, run_started, run_scan, start_manual_scan,
}
use blackgrid.Discovery.Kept.{send-Same, scan_hosts-Same}
use blackgrid.Discovery.Accepted.{no_query_fails}

find_scan-any_of :
    (id : ℕ) (cs : List DiscoveryScan) (c : DiscoveryScan) (prefix : ℕ)
    → find_if (λ (x : DiscoveryScan). x.id == id) cs ≡ some c
    → active_scan_of prefix c ≡ true
    → any_of (active_scan_of prefix) cs ≡ true
find_scan-any_of id [] c prefix found h = cc
find_scan-any_of id (x ∷ xs) c prefix found h = ground (arith, find_scan-any_of id xs c prefix)

-- A scan that has been run, with all its queries in order but the one that sets it to completed, blocks
-- its prefix: the run leaves the error of that query, and a later call of StartManualScan for the
-- prefix, with no failing query, is refused and changes nothing.
pub run_scan-blocks :
    (d : DiscoveryService) (fails : ScanQuery → Bool) (now id : ℕ) (probe : Addr → ProbeResult)
    (order : List Addr → List Addr) (c : DiscoveryScan) (p : PrefixRow) (hosts : List Addr)
    (s : DiscoveryStore)
    → find_scan id s ≡ some c
    → find_prefix c.prefix_id s ≡ some p
    → validate_prefix_for_scan d.text p.prefix d.max_ipv4_prefix_size ≡ none
    → enumerate_ipv4_hosts d.text p.prefix ≡ ok hosts
    → fails get_scan ≡ false
    → fails get_prefix ≡ false
    → fails start_scan ≡ false
    → fails list_addresses ≡ false
    → fails finish_scan ≡ true
    → (let (error, after) = run_scan d fails now probe order id s in
        (error ≡ some (discovery_database finish_scan))
        × (start_manual_scan d no_query_fails c.prefix_id after
            ≡ (err scan_already_running, after)))
unfolding run_scan run_started start_manual_scan
run_scan-blocks d fails now id probe order c p hosts s found there good read a b e f g =
    let set = set_scan c.id running (some now) none none s in
    let begun = begin d now c s in
    let after = scan_hosts d fails now probe c.id p.id (order hosts) begun in
    let same : run_scan d fails now probe order id s
        ≡ (some (discovery_database finish_scan), after) =
      ground (arith, found, there, read, a, b, e, f, g) in
    let first = send-Same d (started_event c) set in
    let second = scan_hosts-Same d fails now c.id p.id probe (order hosts) begun in
    let at : c.id ≡ id = find_by-key (λ (x : DiscoveryScan). x.id) id s.scans c found in
    let c' = with_scan_status running (some now) none none c in
    let kept : find_scan c.id after ≡ some c' =
      ap (find_if (λ (x : DiscoveryScan). x.id == c.id)) (second.0 ∙ first.0)
      ∙ find_by-update_by (λ (x : DiscoveryScan). x.id) c.id
          (with_scan_status running (some now) none none) s.scans c (λ x. refl)
          (subst (λ k. find_scan k s ≡ some c) (sym at) found) in
    let taken : any_of (active_scan_of c.prefix_id) after.scans ≡ true =
      find_scan-any_of c.id after.scans c' c.prefix_id kept (ground arith) in
    let prefix_there : find_prefix c.prefix_id after ≡ some p =
      ap (find_if (λ (x : PrefixRow). x.id == c.prefix_id)) (second.2 ∙ first.2) ∙ there in
    let refused : start_manual_scan d no_query_fails c.prefix_id after
        ≡ (err scan_already_running, after) =
      ground (arith, prefix_there, good, taken) in
    (
      ap (λ r. r.0) same,
      subst (λ x. start_manual_scan d no_query_fails c.prefix_id x ≡ (err scan_already_running, x))
          (sym (ap (λ r. r.1) same)) refused,
    )
