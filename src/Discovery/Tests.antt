-- ===== src/Discovery/Tests.antt =====
-- Discovery scans at concrete inputs.
use blackgrid.Prelude.{
  ℕ, ◌==◌, if◌then◌else◌, any_of, find_if, All, Bool, true, false, err, refl, none, some, [], ◌∷◌,
  ◌≡◌, arith, ok,
}
use blackgrid.Ipam.Addr.{Addr, ip, ip4}
use blackgrid.Ipam.Broadcast.{broadcast_value}
use blackgrid.Ipam.Hosts.{Text, enumerate_ipv4_hosts, validate_prefix_for_scan, collect_hosts}
use blackgrid.Discovery.Blocked.{run_scan-blocks}
use blackgrid.Discovery.{ScanQuery, finish_scan, discovery_database, scan_already_running}
use blackgrid.Discovery.{
  queued, DiscoveryScan, new, DiscoveryResult, IpAddress, ProbeResult, DiscoveryStore,
  DiscoveryService,
}
use blackgrid.Discovery.Accept.{
  AcceptResultInput, new_address, accept_result, accept_existing, accept_new,
}
use blackgrid.Discovery.Accepted.{no_query_fails, accept_result-twice}
use text.Mathlib.Text.{◌==◌ as str_eq}
use blackgrid.Ipam.Addr.{Prefix, contains}
use blackgrid.Discovery.{completed, PrefixRow, active_scan_of}
use blackgrid.Discovery.Schedule.{is_due, tick_scheduled}
use blackgrid.Discovery.Due.{tick_scheduled-due}
use blackgrid.Discovery.Address.{
  Prober, row_contains, tcp_probe, probe_address, Answered, probe_address-Answered,
}
use blackgrid.Discovery.Ports.{
  PortText, parse_ports_list, has_port, names, Increasing, parse_ports_list-Increasing,
}
use blackgrid.Discovery.Scan.{start_manual_scan, run_scan}
use blackgrid.Discovery.Active.{OneActive}
use blackgrid.Discovery.Runs.{here, then_step, starts, runs, ScanSteps-OneActive}

-- One prefix of four addresses, whose texts are given.
abbrev texts : Text
texts = record {
  parse_prefix = λ s. some (record { family = ip4; value = 8; bits = 30 });
  parse_addr = λ s. some (ip ip4 9);
  print = λ a. "0.0.0.9";
}

abbrev discovery : DiscoveryService
discovery = record {
  text = texts;
  error_text = λ e. "error";
  has_bus = true;
  max_ipv4_prefix_size = 22;
}

abbrev host : DiscoveryResult
host = record {
  id = 4;
  scan_id = 3;
  prefix_id = 1;
  address = ip ip4 9;
  hostname = none;
  reverse_dns = some "nine";
  open_ports = 22 ∷ [];
  latency_ms = some 2;
  classification = new;
  seen_at = 5;
  is_ignored = false;
  accepted_at = none;
  created_ip_address_id = none;
}

abbrev waiting : DiscoveryScan
waiting = record {
  id = 3;
  prefix_id = 1;
  status = queued;
  started_at = none;
  completed_at = none;
  error = none;
}

abbrev store : DiscoveryStore
store = record {
  scans = waiting ∷ [];
  results = host ∷ [];
  addresses = [];
  prefixes =
      record { id = 1; prefix = "0.0.0.8/30"; scan_enabled = true; scan_interval_seconds = 60 }
      ∷ [];
  next_id = 5;
  sent = [];
}

abbrev blank : AcceptResultInput
blank = record { hostname = ""; fqdn = ""; status = "" }

abbrev after_accept : DiscoveryStore
after_accept = (accept_result discovery no_query_fails 7 4 blank store).1

accept_result-twice_example :
    (again : IpAddress) × (accept_result discovery no_query_fails 9 4 blank after_accept
      ≡ (ok again, after_accept))
    × (again.id ≡ 5)
unfolding accept_result accept_existing accept_new
accept_result-twice_example =
    accept_result-twice discovery no_query_fails 7 9 4 blank blank store after_accept
      (new_address 5 "0.0.0.9" blank host) refl

abbrev answer : Addr → ProbeResult
answer a = record { seen = true; open_ports = 22 ∷ []; latency_ms = 1; reverse_dns = "" }

ScanSteps-OneActive_example :
    OneActive
      (start_manual_scan discovery no_query_fails 1
        (run_scan discovery no_query_fails 8 answer (λ hosts. hosts) 3 store).1).1
ScanSteps-OneActive_example =
    ScanSteps-OneActive store
      (start_manual_scan discovery no_query_fails 1
        (run_scan discovery no_query_fails 8 answer (λ hosts. hosts) 3 store).1).1
      (then_step store (run_scan discovery no_query_fails 8 answer (λ hosts. hosts) 3 store).1
        (start_manual_scan discovery no_query_fails 1
          (run_scan discovery no_query_fails 8 answer (λ hosts. hosts) 3 store).1).1
        (then_step store store
          (run_scan discovery no_query_fails 8 answer (λ hosts. hosts) 3 store).1 (here store)
          (runs discovery no_query_fails 8 3 answer (λ hosts. hosts) waiting store refl refl))
        (starts discovery no_query_fails 1
          (run_scan discovery no_query_fails 8 answer (λ hosts. hosts) 3 store).1))
      (record { below = (omega arith, tt); single = λ p. ground arith })

-- Only the query that completes a scan fails.
abbrev no_end : ScanQuery → Bool
no_end finish_scan = true
no_end q = false

run_scan-blocks_example :
    (let (error, after) = run_scan discovery no_end 8 answer (λ hosts. hosts) 3 store in
      (error ≡ some (discovery_database finish_scan))
      × (start_manual_scan discovery no_query_fails 1 after ≡ (err scan_already_running, after)))
unfolding enumerate_ipv4_hosts validate_prefix_for_scan collect_hosts broadcast_value
run_scan-blocks_example =
    run_scan-blocks discovery no_end 8 3 answer (λ hosts. hosts) waiting
      (record { id = 1; prefix = "0.0.0.8/30"; scan_enabled = true; scan_interval_seconds = 60 })
      (ip ip4 9 ∷ ip ip4 10 ∷ []) store refl refl refl refl refl refl refl refl refl

-- A scan that completed at 5, and one that completed at 300.
abbrev completed_at : ℕ → ℕ → DiscoveryScan
completed_at id at = record {
  id = id;
  prefix_id = 1;
  status = completed;
  started_at = some 0;
  completed_at = some at;
  error = none;
}

abbrev scanned : DiscoveryStore
scanned = record store { scans = completed_at 4 300 ∷ completed_at 2 5 ∷ [] }

abbrev prefix_row : PrefixRow
prefix_row = record {
  id = 1;
  prefix = "0.0.0.8/30";
  scan_enabled = true;
  scan_interval_seconds = 60;
}

tick_scheduled-due_example :
    (is_due 301 scanned.scans prefix_row ≡ true)
    × (any_of (active_scan_of 1) (tick_scheduled discovery no_query_fails 301 scanned).scans ≡ true)
unfolding validate_prefix_for_scan
tick_scheduled-due_example =
    tick_scheduled-due discovery no_query_fails prefix_row 100 301 scanned (completed_at 4 300 ∷ [])
      (completed_at 2 5 ∷ []) refl refl (omega arith) refl refl refl refl refl refl refl refl

-- Port 22 answers after 2 milliseconds.
abbrev one_port : Prober
one_port = record { dial = λ a n. if n == 22 then some 2 else none; lookup = λ a. "nine" }

abbrev found_nine : ProbeResult
found_nine = record { seen = true; open_ports = 22 ∷ []; latency_ms = 2; reverse_dns = "nine" }

probe_address-Answered_example :
    (addr : Addr) × (p : PrefixRow) × (within : Prefix) × (some (ip ip4 9) ≡ some addr)
    × (find_if (row_contains texts addr) store.prefixes ≡ some p)
    × (texts.parse_prefix p.prefix ≡ some within)
    × (contains within addr ≡ true)
    × All (Answered one_port addr (80 ∷ 22 ∷ [])) (22 ∷ [])
unfolding probe_address tcp_probe
probe_address-Answered_example =
    probe_address-Answered discovery no_query_fails one_port (80 ∷ 22 ∷ []) "0.0.0.9" [] store
      found_nine refl

abbrev port_text : PortText
port_text = record {
  trim_space = λ s. s;
  split = λ s. "443" ∷ "22" ∷ "x" ∷ "443" ∷ "70000" ∷ [];
  atoi = λ s.
      if str_eq s "443"
      then some 443
      else if str_eq s "22"
      then some 22
      else if str_eq s "x"
      then none
      else some 70000;
}

parse_ports_list-Increasing_example :
    Increasing 0 (22 ∷ 443 ∷ [])
    × ((k : ℕ)
        → has_port k (22 ∷ 443 ∷ [])
          ≡ any_of (names port_text k) ("443" ∷ "22" ∷ "x" ∷ "443" ∷ "70000" ∷ []))
unfolding parse_ports_list
parse_ports_list-Increasing_example =
    parse_ports_list-Increasing port_text "443,22,x,443,70000" (22 ∷ 443 ∷ []) refl
