-- ===== src/Incident/Tests.antt =====
-- The incident service at concrete inputs.
use blackgrid.Prelude.{◌≡◌, refl, Bool, true, false, none, List, [], ◌∷◌, ok, arith}
use blackgrid.Model.{Monitor, http, up, down, degraded, warning, Incident}
use blackgrid.Incident.Store.{Store, new_incident}
use blackgrid.Incident.Output.{Service, Query}
use blackgrid.Incident.Service.{open_for_monitor, create_for_monitor, resolve_for_monitor}
use blackgrid.Incident.Invariant.{Inv, open_for_monitor-Inv}
use blackgrid.Incident.Calls.{
  changes, acknowledges, Invocation, run, empty, empty-Inv, run-empty-Inv,
}
use blackgrid.Incident.Lifecycle.{run-Follows, Kept}

abbrev web : Monitor
web = record {
  id = 7;
  name = "web";
  slug = "web";
  monitor_type = http;
  target = "http://10.0.0.1";
  config = "";
  ip_address_id = none;
  device_id = none;
  interval_seconds = 60;
  timeout_seconds = 10;
  retry_count = 3;
  enabled = true;
  status = up;
  last_checked_at = none;
  last_status_change_at = none;
  push_token_hash = none;
  last_heartbeat_at = none;
}

abbrev svc : Service
svc = record { has_notifier = true; has_bus = true }

abbrev never : Query → Bool
never _ = false

abbrev calls : List Invocation
calls =
    record { call = changes web up degraded; fails = never; now = 5 }
    ∷ record { call = acknowledges 0 "seen"; fails = never; now = 6 }
    ∷ record { call = changes web down up; fails = never; now = 9 }
    ∷ []

run-empty-Inv_example : Inv (run svc calls (empty (web ∷ [])))
run-empty-Inv_example = run-empty-Inv svc calls (web ∷ [])

-- One open incident.
abbrev held : Incident
held = new_incident 0 5 7 warning "web is degraded" none

abbrev one_open : Store
one_open = (open_for_monitor svc never 5 web warning "web is degraded" "" (empty (web ∷ []))).1

opened_run :
    open_for_monitor svc never 5 web warning "web is degraded" "" (empty (web ∷ []))
    ≡ (ok (held, true), one_open)
unfolding open_for_monitor create_for_monitor
opened_run = refl

found_run : Kept 0 held one_open.incidents
unfolding open_for_monitor create_for_monitor
found_run = (held, refl, ground arith)

one_open-Inv : Inv one_open
one_open-Inv =
    open_for_monitor-Inv svc never 5 (empty (web ∷ [])) (empty-Inv (web ∷ [])) web warning
      "web is degraded" ""

run-Follows_example : Kept 0 held (run svc calls one_open).incidents
unfolding open_for_monitor create_for_monitor
run-Follows_example = run-Follows svc calls one_open 0 held one_open-Inv refl

abbrev closed : Store
closed = (resolve_for_monitor svc never 9 web "recovered" one_open).1

resolved_run :
    resolve_for_monitor svc never 9 web "recovered" one_open
    ≡ ((resolve_for_monitor svc never 9 web "recovered" one_open).0, closed)
resolved_run = refl
