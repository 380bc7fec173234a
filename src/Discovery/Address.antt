-- ===== src/Discovery/Address.antt =====
-- ProbeAddress, and the probe of TCPProber. What a connection to a port and a reverse lookup answer are
-- arguments, and so is the order in which the connections end, which the ports stand in.
use blackgrid.Prelude.{
  ℕ, String, Bool, true, false, if◌then◌else◌, ◌||◌, ◌==◌, ltb, ◌≡◌, inl, inr, Option, none, some,
  List, [], ◌∷◌, Result, ok, err, any_of, find_if, Bool-cases, Option-cases, arith, All, subst, sym,
}
use blackgrid.Ipam.Addr.{Addr, Prefix, contains}
use blackgrid.Ipam.Hosts.{Text, bad_cidr}
use blackgrid.Discovery.{
  PrefixRow, ProbeResult, DiscoveryStore, DiscoveryService, ScanQuery, list_prefixes,
  DiscoveryError, unknown_prefix, not_scannable, discovery_database,
}
use blackgrid.Discovery.Probe.{insert_port}

-- A connection answers its latency in milliseconds.
pub record Prober : Type 0 where
  pub dial : Addr → ℕ → Option ℕ
  pub lookup : Addr → String

abbrev pub not_seen : ProbeResult
not_seen = record { seen = false; open_ports = []; latency_ms = 0; reverse_dns = "" }

-- The part under the lock; the ports are sorted at the end, here as they come in.
abbrev pub add_port : ℕ → Option ℕ → ProbeResult → ProbeResult
add_port port none r = r
add_port port (some latency) r = record r {
  seen = true;
  open_ports = insert_port port r.open_ports;
  latency_ms = if r.latency_ms == 0 || ltb latency r.latency_ms then latency else r.latency_ms;
}

abbrev pub dial_all : Prober → Addr → List ℕ → ProbeResult → ProbeResult
dial_all net addr [] r = r
dial_all net addr (port ∷ ports) r = dial_all net addr ports (add_port port (net.dial addr port) r)

unfoldable pub tcp_probe : Prober → Addr → List ℕ → ProbeResult
tcp_probe net addr ports =
    let r = dial_all net addr ports not_seen in
    if r.seen then record r { reverse_dns = net.lookup addr } else r

-- A prefix that does not parse is passed over.
abbrev pub row_contains : Text → Addr → PrefixRow → Bool
row_contains t addr p = elim (t.parse_prefix p.prefix) [
  | none ↦ false
  | some net ↦ contains net addr
]

abbrev pub ports_or_default : List ℕ → List ℕ → List ℕ
ports_or_default default [] = default
ports_or_default default (n ∷ ns) = n ∷ ns

unfoldable pub probe_address :
    DiscoveryService
    → (ScanQuery → Bool)
    → Prober
    → List ℕ
    → String
    → List ℕ
    → DiscoveryStore
    → Result DiscoveryError ProbeResult
unfolding tcp_probe
probe_address d fails net default_ports address ports s = elim (d.text.parse_addr address) [
  | none ↦ err (not_scannable bad_cidr)
  | some addr ↦
      if fails list_prefixes
      then err (discovery_database list_prefixes)
      else if any_of (row_contains d.text addr) s.prefixes
      then ok (tcp_probe net addr (ports_or_default default_ports ports))
      else err unknown_prefix
]

-- A port among those that were dialled, with an answer.
abbrev pub Answered : Prober → Addr → List ℕ → ℕ → Type 0
Answered net addr ports n =
    (any_of (λ m. m == n) ports ≡ true) × ((latency : ℕ) × (net.dial addr n ≡ some latency))

insert_port-All : (P : ℕ → Type 0) (n : ℕ) (ms : List ℕ) → P n → All P ms → All P (insert_port n ms)
insert_port-All P n [] h hs = (h, tt)
insert_port-All P n (m ∷ ms) h hs = ground (arith, h, hs, insert_port-All P n ms h hs.1)

dial_all-Answered :
    (net : Prober) (addr : Addr) (all ports : List ℕ) (r : ProbeResult)
    → All (λ m. any_of (λ k. k == m) all ≡ true) ports
    → All (Answered net addr all) r.open_ports
    → All (Answered net addr all) (dial_all net addr ports r).open_ports
dial_all-Answered net addr all [] r listed h = h
dial_all-Answered net addr all (port ∷ ports) r listed h =
    elim (Option-cases (net.dial addr port)) [
      | inl refused ↦
          dial_all-Answered net addr all ports (add_port port (net.dial addr port) r) listed.1 (
            subst (λ o. All (Answered net addr all) (add_port port o r).open_ports) (sym refused) h)
      | inr (latency, answered) ↦
          dial_all-Answered net addr all ports (add_port port (net.dial addr port) r) listed.1 (
            subst (λ o. All (Answered net addr all) (add_port port o r).open_ports) (sym answered)
              (insert_port-All (Answered net addr all) port r.open_ports
                (listed.0, (latency, answered)) h))
    ]

All-longer :
    (x : ℕ) (ys zs : List ℕ)
    → All (λ m. any_of (λ k. k == m) ys ≡ true) zs
    → All (λ m. any_of (λ k. k == m) (x ∷ ys) ≡ true) zs
All-longer x ys [] h = tt
All-longer x ys (z ∷ zs) h = (ground (arith, h.0), All-longer x ys zs h.1)

All-self : (xs : List ℕ) → All (λ m. any_of (λ k. k == m) xs ≡ true) xs
All-self [] = tt
All-self (x ∷ xs) = (ground arith, All-longer x xs xs (All-self xs))

tcp_probe-Answered :
    (net : Prober) (addr : Addr) (ports : List ℕ)
    → All (Answered net addr ports) (tcp_probe net addr ports).open_ports
unfolding tcp_probe
tcp_probe-Answered net addr ports =
    let same : (tcp_probe net addr ports).open_ports
        ≡ (dial_all net addr ports not_seen).open_ports =
      ground arith in
    subst (All (Answered net addr ports)) (sym same)
      (dial_all-Answered net addr ports ports not_seen (All-self ports) tt)

any_of-find_if :
    (q : PrefixRow → Bool) (ps : List PrefixRow)
    → any_of q ps ≡ true
    → (p : PrefixRow) × (find_if q ps ≡ some p) × (q p ≡ true)
any_of-find_if q [] h = cc
any_of-find_if q (p ∷ ps) h = elim (Bool-cases (q p)) [
  | inl here ↦ (p, ground (arith, here), here)
  | inr there ↦
      let (r, found, good) = any_of-find_if q ps (ground (arith, h, there)) in
      (r, ground (arith, there, found), good)
]

-- What ProbeAddress reports is of an address that one of the stored prefixes contains, and each open port
-- is one of the ports asked for, or of the default ones where none is, and was answered.
pub probe_address-Answered :
    (d : DiscoveryService) (fails : ScanQuery → Bool) (net : Prober) (default_ports : List ℕ)
    (address : String) (ports : List ℕ) (s : DiscoveryStore) (r : ProbeResult)
    → probe_address d fails net default_ports address ports s ≡ ok r
    → (addr : Addr) × (p : PrefixRow) × (within : Prefix) × (d.text.parse_addr address ≡ some addr)
      × (find_if (row_contains d.text addr) s.prefixes ≡ some p)
      × (d.text.parse_prefix p.prefix ≡ some within)
      × (contains within addr ≡ true)
      × All (Answered net addr (ports_or_default default_ports ports)) r.open_ports
unfolding probe_address
probe_address-Answered d fails net default_ports address ports s r h =
    elim (Option-cases (d.text.parse_addr address)) [
      | inl bad ↦ ground (arith, h, bad)
      | inr (addr, parsed) ↦ elim (Bool-cases (fails list_prefixes)) [
        | inl down ↦ ground (arith, h, parsed, down)
        | inr works ↦ elim (Bool-cases (any_of (row_contains d.text addr) s.prefixes)) [
          | inr outside ↦ ground (arith, h, parsed, works, outside)
          | inl inside ↦
              let (p, found, good) = any_of-find_if (row_contains d.text addr) s.prefixes inside in
              let result : tcp_probe net addr (ports_or_default default_ports ports) ≡ r =
                ground (arith, h, parsed, works, inside) in
              let answered =
                subst
                  (λ (x : ProbeResult).
                    All (Answered net addr (ports_or_default default_ports ports)) x.open_ports)
                  result (tcp_probe-Answered net addr (ports_or_default default_ports ports)) in
              elim (Option-cases (d.text.parse_prefix p.prefix)) [
                | inl bad ↦ ground (arith, good, bad)
                | inr (within, read) ↦
                    (addr, p, within, parsed, found, read, ground (arith, good, read), answered)
              ]
        ]
      ]
    ]
