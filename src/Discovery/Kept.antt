-- ===== src/Discovery/Kept.antt =====
-- The loops over addresses leave the scans alone.
use blackgrid.Prelude.{
  ℕ, String, Bool, true, false, ◌&&◌, if◌then◌else◌, ◌≤◌, ◌≡◌, refl, ◌∙◌, arith, List, [], ◌∷◌,
  Option-cases, inl, inr, any_of,
}
use text.Mathlib.Text.{◌==◌ as str_eq}
use blackgrid.Model.{Event}
use blackgrid.Ipam.Addr.{Addr}
use blackgrid.Discovery.{
  ProbeResult, IpAddress, DiscoveryStore, DiscoveryService, ScanQuery, addresses_of, send,
  normalize_ip,
}
use blackgrid.Discovery.Probe.{existing_at, persist_seen, probe_all}
use blackgrid.Discovery.Stale.{mark_stale, scan_hosts, mark_one, persist_stale}

-- What a step leaves of the scans.
abbrev pub Same : DiscoveryStore → DiscoveryStore → Type 0
Same s t = (t.scans ≡ s.scans) × (s.next_id ≤ t.next_id) × (t.prefixes ≡ s.prefixes)

pub send-Same : (d : DiscoveryService) (e : Event) (s : DiscoveryStore) → Same s (send d e s)
send-Same d e s = (ground arith, ground arith, ground arith)

persist_seen-Same :
    (d : DiscoveryService) (fails : ScanQuery → Bool) (now scan prefix : ℕ) (rows : List IpAddress)
    (a : Addr) (p : ProbeResult) (s : DiscoveryStore)
    → Same s (persist_seen d fails now scan prefix rows a p s)
unfolding persist_seen
persist_seen-Same d fails now scan prefix rows a p s =
    elim (Option-cases (existing_at d.text (d.text.print a) rows)) [
      | inl e ↦ (ground (arith, e), ground (arith, e), ground (arith, e))
      | inr (row, e) ↦ (ground (arith, e), ground (arith, e), ground (arith, e))
    ]

Same-trans : (s t u : DiscoveryStore) → Same s t → Same t u → Same s u
Same-trans s t u a b = (b.0 ∙ a.0, omega (arith, a.1, b.1), b.2 ∙ a.2)

module _ (d : DiscoveryService) (fails : ScanQuery → Bool) (now scan prefix : ℕ) where
  probe_all-Same :
      (probe : Addr → ProbeResult) (rows : List IpAddress) (hosts : List Addr) (s : DiscoveryStore)
      → Same s (probe_all d fails now probe scan prefix rows hosts s)
  unfolding probe_all
  probe_all-Same probe rows [] s = (refl, omega arith, refl)
  probe_all-Same probe rows (a ∷ rest) s =
      let s' =
        if (probe a).seen then persist_seen d fails now scan prefix rows a (probe a) s else s in
      let one : Same s s' = flag (probe a).seen in
      Same-trans s s' (probe_all d fails now probe scan prefix rows rest s') one
        (probe_all-Same probe rows rest s')
    where
      flag :
          (b : Bool)
          → Same s (if b then persist_seen d fails now scan prefix rows a (probe a) s else s)
      flag true = persist_seen-Same d fails now scan prefix rows a (probe a) s
      flag false = (refl, omega arith, refl)

  persist_stale-Same :
      (address : Addr) (s : DiscoveryStore)
      → Same s (persist_stale d fails now scan prefix address s)
  persist_stale-Same address s = (ground arith, ground arith, ground arith)

  mark_one-Same :
      (was_seen : String → Bool) (a : IpAddress) (rest : List IpAddress) (s : DiscoveryStore)
      → Same s (mark_one d fails now scan prefix was_seen a rest s)
  unfolding mark_one
  mark_one-Same was_seen a rest s =
      elim (Option-cases (d.text.parse_addr (normalize_ip d.text a.ip_address))) [
        | inl e ↦ (ground (arith, e), ground (arith, e), ground (arith, e))
        | inr (address, e) ↦ (ground (arith, e), ground (arith, e), ground (arith, e))
      ]

  mark_stale-Same :
      (was_seen : String → Bool) (rows : List IpAddress) (s : DiscoveryStore)
      → Same s (mark_stale d fails now scan prefix was_seen rows s)
  unfolding mark_stale
  mark_stale-Same was_seen [] s = (refl, omega arith, refl)
  mark_stale-Same was_seen (a ∷ rest) s =
      let s' = mark_one d fails now scan prefix was_seen a rest s in
      Same-trans s s' (mark_stale d fails now scan prefix was_seen rest s')
        (mark_one-Same was_seen a rest s) (mark_stale-Same was_seen rest s')

  pub scan_hosts-Same :
      (probe : Addr → ProbeResult) (hosts : List Addr) (s : DiscoveryStore)
      → Same s (scan_hosts d fails now probe scan prefix hosts s)
  unfolding scan_hosts
  scan_hosts-Same probe hosts s =
      let rows = addresses_of prefix s in
      let s' = probe_all d fails now probe scan prefix rows hosts s in
      Same-trans s s' (scan_hosts d fails now probe scan prefix hosts s)
        (probe_all-Same probe rows hosts s)
        (mark_stale-Same
          (λ key. any_of (λ (a : Addr). (probe a).seen && str_eq (d.text.print a) key) hosts) rows
          s')
