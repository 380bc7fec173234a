-- ===== src/Discovery/Active.antt =====
-- At most one scan of a prefix is queued or running.
use blackgrid.Prelude.{
  ℕ, String, Bool, true, false, ◌||◌, if◌then◌else◌, ◌≤◌, ◌≡◌, refl, sym, ap, subst, arith, Option,
  none, some, List, [], ◌∷◌, Option-cases, Bool-cases, inl, inr, count_if, ◌⊎◌, any_of, KeysBelow,
  KeysBelow-raise, find_by-key, update_by-KeysBelow, count_if-update_by_fewer,
  count_if-update_by_passed, Result, ok, err,
}
use blackgrid.Ipam.Addr.{Addr}
use blackgrid.Ipam.Hosts.{IpamError, enumerate_ipv4_hosts, validate_prefix_for_scan}
use blackgrid.Discovery.{
  ScanStatus, queued, running, completed, failed, DiscoveryScan, PrefixRow, ProbeResult,
  DiscoveryStore, DiscoveryService, ScanQuery, DiscoveryError, active_scan_of, is_running_or_queued,
  find_scan, find_prefix, list_addresses, finish_scan, fail_update, get_scan, get_prefix,
  start_scan, list_active, create_scan, no_rows, not_enumerable, discovery_database,
}
use blackgrid.Discovery.Stale.{scan_hosts}
use blackgrid.Discovery.Scan.{
  set_scan, fail_scan, run_started, run_scan, start_manual_scan, started_event, finish,
  completed_event, begin, queue_scan, with_scan_status,
}
use blackgrid.Discovery.Kept.{Same, send-Same, scan_hosts-Same}

-- Ids fall along the table of scans, and each prefix has at most one active scan.
pub record OneActive (s : DiscoveryStore) : Type 0 where
  pub below : KeysBelow (λ (c : DiscoveryScan). c.id) s.next_id s.scans
  pub single : (prefix : ℕ) → count_if (active_scan_of prefix) s.scans ≤ 1

Same-OneActive : (s t : DiscoveryStore) → Same s t → OneActive s → OneActive t
Same-OneActive s t same v = record {
  below =
      KeysBelow-raise (λ (c : DiscoveryScan). c.id) s.next_id t.next_id t.scans same.1
        (subst (KeysBelow (λ (c : DiscoveryScan). c.id) s.next_id) (sym same.0) v.below);
  single = λ prefix. omega (arith, ap (count_if (active_scan_of prefix)) same.0, v.single prefix);
}

-- A scan that is set to a status that is not active.
ended-OneActive :
    (id : ℕ) (status : ScanStatus) (start end : Option ℕ) (error : Option String)
    (s : DiscoveryStore)
    → is_running_or_queued status ≡ false
    → OneActive s
    → OneActive (set_scan id status start end error s)
ended-OneActive id status start end error s over v = record {
  below =
      update_by-KeysBelow (λ (c : DiscoveryScan). c.id) id (with_scan_status status start end error)
        s.next_id s.scans (λ x. refl) v.below;
  single = λ prefix. omega (
    arith,
    v.single prefix,
    count_if-update_by_fewer (λ (c : DiscoveryScan). c.id) id
        (with_scan_status status start end error) (active_scan_of prefix) s.scans
        (λ x h. ground (arith, h, over)),
  );
}

-- A queued scan that is set to running.
begun-OneActive :
    (c : DiscoveryScan) (start end : Option ℕ) (error : Option String) (s : DiscoveryStore)
    → find_scan c.id s ≡ some c
    → c.status ≡ queued
    → OneActive s
    → OneActive (set_scan c.id running start end error s)
begun-OneActive c start end error s found waits v = record {
  below =
      update_by-KeysBelow (λ (x : DiscoveryScan). x.id) c.id
        (with_scan_status running start end error) s.next_id s.scans (λ x. refl) v.below;
  single = λ prefix. omega (
    arith,
    v.single prefix,
    count_if-update_by_passed (λ (x : DiscoveryScan). x.id) c.id
        (with_scan_status running start end error) (active_scan_of prefix) s.next_id s.scans c
        v.below found (λ h. ground (arith, h, waits)),
  );
}

to-OneActive :
    (x y : Option DiscoveryError × DiscoveryStore) → x ≡ y → OneActive y.1 → OneActive x.1
to-OneActive x y same v = subst (λ r. OneActive r.1) (sym same) v

count_if-any_of :
    (p : DiscoveryScan → Bool) (cs : List DiscoveryScan) → any_of p cs ≡ false → count_if p cs ≡ 0
count_if-any_of p [] h = refl
count_if-any_of p (c ∷ cs) h = ground (arith, h, count_if-any_of p cs)

module _ (d : DiscoveryService) (fails : ScanQuery → Bool) where
  fail_scan-OneActive :
      (now id : ℕ) (e : DiscoveryError) (s : DiscoveryStore)
      → OneActive s
      → OneActive (fail_scan d fails now id e s).1
  fail_scan-OneActive now id e s v =
      let s' =
        if fails fail_update
        then s
        else set_scan id failed none (some now) (some (d.error_text e)) s in
      Same-OneActive s' (fail_scan d fails now id e s).1 (send-Same d _ s')
        (flag (fails fail_update))
    where
      flag :
          (b : Bool)
          → OneActive
              (if b then s else set_scan id failed none (some now) (some (d.error_text e)) s)
      flag true = v
      flag false = ended-OneActive id failed none (some now) (some (d.error_text e)) s refl v

  run_started-OneActive :
      (now : ℕ) (probe : Addr → ProbeResult) (order : List Addr → List Addr) (c : DiscoveryScan)
      (p : PrefixRow) (s : DiscoveryStore)
      → OneActive s
      → OneActive (run_started d fails now probe order c p s).1
  unfolding run_started
  run_started-OneActive now probe order c p s v = go (enumerate_ipv4_hosts d.text p.prefix) refl
    where
      go :
          (r : Result IpamError (List Addr))
          → enumerate_ipv4_hosts d.text p.prefix ≡ r
          → OneActive (run_started d fails now probe order c p s).1
      go (err e) read =
          to-OneActive (run_started d fails now probe order c p s)
            (fail_scan d fails now c.id (not_enumerable e) s) (ground (arith, read))
            (fail_scan-OneActive now c.id (not_enumerable e) s v)
      go (ok hosts) read = elim (Bool-cases (fails list_addresses)) [
        | inl broken ↦
            to-OneActive (run_started d fails now probe order c p s)
              (fail_scan d fails now c.id (discovery_database list_addresses) s)
              (ground (arith, read, broken))
              (fail_scan-OneActive now c.id (discovery_database list_addresses) s v)
        | inr works ↦
            let s' = scan_hosts d fails now probe c.id p.id (order hosts) s in
            let w =
              Same-OneActive s s' (scan_hosts-Same d fails now c.id p.id probe (order hosts) s) v in
            elim (Bool-cases (fails finish_scan)) [
              | inl broken ↦
                  to-OneActive (run_started d fails now probe order c p s)
                    (some (discovery_database finish_scan), s')
                    (ground (arith, read, works, broken)) w
              | inr finishes ↦
                  let done = finish d now c s' in
                  to-OneActive (run_started d fails now probe order c p s) (none, done)
                    (ground (arith, read, works, finishes))
                    (Same-OneActive (set_scan c.id completed none (some now) none s') done
                      (send-Same d (completed_event c)
                        (set_scan c.id completed none (some now) none s'))
                      (ended-OneActive c.id completed none (some now) none s' refl w))
            ]
      ]

  queued-OneActive :
      (prefix : ℕ) (s : DiscoveryStore)
      → any_of (active_scan_of prefix) s.scans ≡ false
      → OneActive s
      → OneActive (queue_scan prefix s)
  queued-OneActive prefix s free v = record {
    below = (omega arith, v.below);
    single = λ q. ground (arith, v.single q, count_if-any_of (active_scan_of prefix) s.scans free);
  }

  pub run_scan-OneActive :
      (now id : ℕ) (probe : Addr → ProbeResult) (order : List Addr → List Addr) (c : DiscoveryScan)
      (s : DiscoveryStore)
      → find_scan id s ≡ some c
      → c.status ≡ queued
      → OneActive s
      → OneActive (run_scan d fails now probe order id s).1
  unfolding run_scan
  run_scan-OneActive now id probe order c s found waits v =
      let run = run_scan d fails now probe order id s in
      elim (Bool-cases (fails get_scan)) [
        | inl broken ↦
            to-OneActive run (some (discovery_database get_scan), s) (ground (arith, broken)) v
        | inr reads ↦ elim (Bool-cases (fails get_prefix)) [
          | inl broken ↦
              to-OneActive run (fail_scan d fails now id (discovery_database get_prefix) s)
                (ground (arith, found, reads, broken))
                (fail_scan-OneActive now id (discovery_database get_prefix) s v)
          | inr works ↦ elim (Option-cases (find_prefix c.prefix_id s)) [
            | inl gone ↦
                to-OneActive run (fail_scan d fails now id no_rows s)
                  (ground (arith, found, reads, works, gone))
                  (fail_scan-OneActive now id no_rows s v)
            | inr (p, there) ↦ elim (Bool-cases (fails start_scan)) [
              | inl broken ↦
                  to-OneActive run (some (discovery_database start_scan), s)
                    (ground (arith, found, reads, works, there, broken)) v
              | inr starts ↦
                  let begun = begin d now c s in
                  let at : c.id ≡ id =
                    find_by-key (λ (x : DiscoveryScan). x.id) id s.scans c found in
                  let w =
                    begun-OneActive c (some now) none none s
                      (subst (λ k. find_scan k s ≡ some c) (sym at) found) waits v in
                  to-OneActive run (run_started d fails now probe order c p begun)
                    (ground (arith, found, reads, works, there, starts))
                    (run_started-OneActive now probe order c p begun (
                      Same-OneActive (set_scan c.id running (some now) none none s) begun
                        (send-Same d (started_event c)
                          (set_scan c.id running (some now) none none s))
                        w))
            ]
          ]
        ]
      ]

  start_manual_scan_cases :
      (prefix : ℕ) (s : DiscoveryStore)
      → ((start_manual_scan d fails prefix s).1 ≡ s)
        ⊎ ((any_of (active_scan_of prefix) s.scans ≡ false)
            × ((start_manual_scan d fails prefix s).1 ≡ queue_scan prefix s))
  unfolding start_manual_scan
  start_manual_scan_cases prefix s = elim (Option-cases (find_prefix prefix s)) [
    | inl gone ↦ inl (ground (arith, gone))
    | inr (p, there) ↦
        elim (Option-cases (validate_prefix_for_scan d.text p.prefix d.max_ipv4_prefix_size)) [
          | inr (e, bad) ↦ inl (ground (arith, there, bad))
          | inl good ↦ elim (Bool-cases (any_of (active_scan_of prefix) s.scans)) [
            | inl taken ↦ inl (ground (arith, there, good, taken))
            | inr free ↦
                elim (Bool-cases (fails get_prefix || fails list_active || fails create_scan)) [
                  | inl broken ↦ inl (ground (arith, there, good, free, broken))
                  | inr works ↦ inr (free, ground (arith, there, good, free, works))
                ]
          ]
        ]
  ]

  pub start_manual_scan-OneActive :
      (prefix : ℕ) (s : DiscoveryStore)
      → OneActive s
      → OneActive (start_manual_scan d fails prefix s).1
  unfolding start_manual_scan
  start_manual_scan-OneActive prefix s v = elim (start_manual_scan_cases prefix s) [
    | inl same ↦ subst OneActive (sym same) v
    | inr (free, same) ↦ subst OneActive (sym same) (queued-OneActive prefix s free v)
  ]
