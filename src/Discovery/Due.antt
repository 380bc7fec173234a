-- ===== src/Discovery/Due.antt =====
-- When a prefix is due for a scheduled scan.
use blackgrid.Prelude.{
  ℕ, Bool, true, false, if◌then◌else◌, ◌==◌, ◌≡◌, ◌≤◌, ap, sym, ◌∙◌, subst, none, some, List, [],
  ◌∷◌, ◌++◌, any_of, keep_if, find_if, Option-cases, if-true, if-false, Bool-cases, inl, inr, arith,
}
use blackgrid.Ipam.Hosts.{validate_prefix_for_scan}
use blackgrid.Discovery.{
  DiscoveryScan, PrefixRow, DiscoveryStore, DiscoveryService, ScanQuery, list_due, get_prefix,
  list_active, create_scan, active_scan_of, find_prefix,
}
use blackgrid.Discovery.Scan.{start_manual_scan}
use blackgrid.Discovery.Schedule.{completed_scan_of, old_scan_of, is_due, start_all, tick_scheduled}

any_of-append :
    (q : DiscoveryScan → Bool) (xs ys : List DiscoveryScan)
    → any_of q ys ≡ true
    → any_of q (xs ++ ys) ≡ true
any_of-append q [] ys h = h
any_of-append q (x ∷ xs) ys h = ground (arith, any_of-append q xs ys h)

-- A scan that was old enough stays so, and is a completed one.
old_scan_later :
    (now later : ℕ) (p : PrefixRow) (c : DiscoveryScan)
    → now ≤ later
    → old_scan_of now p c ≡ true
    → (old_scan_of later p c ≡ true) × (completed_scan_of p.id c ≡ true)
old_scan_later now later p c h old = elim (Option-cases c.completed_at) [
  | inl unset ↦ ground (arith, old, unset)
  | inr (at, set) ↦ (ground (arith, old, set, h), ground (arith, old))
]

old_scans_later :
    (now later : ℕ) (p : PrefixRow) (cs : List DiscoveryScan)
    → now ≤ later
    → any_of (old_scan_of now p) cs ≡ true
    → (any_of (old_scan_of later p) cs ≡ true) × (any_of (completed_scan_of p.id) cs ≡ true)
old_scans_later now later p [] h old = cc
old_scans_later now later p (c ∷ cs) h old = elim (Bool-cases (old_scan_of now p c)) [
  | inl here ↦
      let (a, b) = old_scan_later now later p c h here in
      (
        if-true true (any_of (old_scan_of later p) cs) a,
        if-true true (any_of (completed_scan_of p.id) cs) b,
      )
  | inr there ↦
      let (a, b) =
        old_scans_later now later p cs h
          (sym (if-false true (any_of (old_scan_of now p) cs) there) ∙ old) in
      (or_true (old_scan_of later p c) a, or_true (completed_scan_of p.id c) b)
]
  where
    or_true : {b : Bool} (a : Bool) → b ≡ true → (if a then true else b) ≡ true
    or_true a h = ground (arith, h)

any_of-keep_if :
    (k : ℕ) (q : PrefixRow → Bool) (ps : List PrefixRow) (p : PrefixRow)
    → find_if (λ (r : PrefixRow). r.id == k) ps ≡ some p
    → q p ≡ true
    → any_of (λ (r : PrefixRow). r.id == k) (keep_if q ps) ≡ true
any_of-keep_if k q [] p found h = cc
any_of-keep_if k q (r ∷ rs) p found h = ground (arith, found, h, any_of-keep_if k q rs p)

module _ (d : DiscoveryService) (fails : ScanQuery → Bool) (p : PrefixRow) where
  abbrev IsActive : DiscoveryStore → Type 0
  IsActive s = any_of (active_scan_of p.id) s.scans ≡ true

  start-IsActive :
      (k : ℕ) (s : DiscoveryStore) → IsActive s → IsActive (start_manual_scan d fails k s).1
  unfolding start_manual_scan
  start-IsActive k s h = ground (arith, h)

  start-prefixes :
      (k : ℕ) (s : DiscoveryStore) → (start_manual_scan d fails k s).1.prefixes ≡ s.prefixes
  unfolding start_manual_scan
  start-prefixes k s = ground arith

  start_self :
      (s : DiscoveryStore)
      → find_prefix p.id s ≡ some p
      → validate_prefix_for_scan d.text p.prefix d.max_ipv4_prefix_size ≡ none
      → fails get_prefix ≡ false
      → fails list_active ≡ false
      → fails create_scan ≡ false
      → IsActive (start_manual_scan d fails p.id s).1
  unfolding start_manual_scan
  start_self s found valid g l c = ground (arith, found, valid, g, l, c)

  start_all-IsActive :
      (ps : List PrefixRow) (s : DiscoveryStore) → IsActive s → IsActive (start_all d fails ps s)
  unfolding start_all
  start_all-IsActive [] s h = h
  start_all-IsActive (r ∷ rs) s h =
      start_all-IsActive rs (start_manual_scan d fails r.id s).1 (start-IsActive r.id s h)

  start_all_self :
      (ps : List PrefixRow) (s : DiscoveryStore)
      → any_of (λ (r : PrefixRow). r.id == p.id) ps ≡ true
      → find_prefix p.id s ≡ some p
      → validate_prefix_for_scan d.text p.prefix d.max_ipv4_prefix_size ≡ none
      → fails get_prefix ≡ false
      → fails list_active ≡ false
      → fails create_scan ≡ false
      → IsActive (start_all d fails ps s)
  unfolding start_all
  start_all_self [] s listed found valid g l c = cc
  start_all_self (r ∷ rs) s listed found valid g l c = elim (Bool-cases (r.id == p.id)) [
    | inl here ↦
        let same : r.id ≡ p.id = ground (arith, here) in
        start_all-IsActive rs (start_manual_scan d fails r.id s).1 (
          subst (λ k. IsActive (start_manual_scan d fails k s).1) (sym same)
            (start_self s found valid g l c))
    | inr there ↦
        start_all_self rs (start_manual_scan d fails r.id s).1 (ground (arith, listed, there))
          (ap (find_if (λ (x : PrefixRow). x.id == p.id)) (start-prefixes r.id s) ∙ found) valid g l
          c
  ]

  -- Once a prefix whose scheduled scans are enabled has a completed scan that is older than its interval,
  -- it is due at every later tick at which it has no active scan, however recently other scans of it have
  -- completed, and the tick then starts one: the prefix can be scanned, and the queries work.
  pub tick_scheduled-due :
      (now later : ℕ) (s : DiscoveryStore) (since old : List DiscoveryScan)
      → s.scans ≡ since ++ old
      → any_of (old_scan_of now p) old ≡ true
      → now ≤ later
      → p.scan_enabled ≡ true
      → any_of (active_scan_of p.id) s.scans ≡ false
      → find_prefix p.id s ≡ some p
      → validate_prefix_for_scan d.text p.prefix d.max_ipv4_prefix_size ≡ none
      → fails list_due ≡ false
      → fails get_prefix ≡ false
      → fails list_active ≡ false
      → fails create_scan ≡ false
      → (is_due later s.scans p ≡ true)
        × (any_of (active_scan_of p.id) (tick_scheduled d fails later s).scans ≡ true)
  unfolding is_due tick_scheduled
  tick_scheduled-due now later s since old split past h on idle found valid e g l c =
      let (aged, done) = old_scans_later now later p old h past in
      let aged' =
        ap (any_of (old_scan_of later p)) split
        ∙ any_of-append (old_scan_of later p) since old aged in
      let due : is_due later s.scans p ≡ true = ground (arith, on, idle, aged') in
      let ran : tick_scheduled d fails later s
          ≡ start_all d fails (keep_if (is_due later s.scans) s.prefixes) s =
        ground (arith, e) in
      (
        due,
        subst IsActive (sym ran) (
            start_all_self (keep_if (is_due later s.scans) s.prefixes) s
              (any_of-keep_if p.id (is_due later s.scans) s.prefixes p found due) found valid g l
              c),
      )
