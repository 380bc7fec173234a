-- ===== src/Monitors/Tests.antt =====
-- The monitor handlers at concrete inputs.
use blackgrid.Prelude.{
  ℕ, refl, true, false, none, some, [], ◌∷◌, ◌≡◌, List, Bool, arith, count_if, Option, pos,
}
use text.Mathlib.TextEquality.{eq_iff}
use blackgrid.Model.{Monitor, push, up, down, MonitorStatus, http}
use blackgrid.Secrets.{Codec, end}
use blackgrid.Incident.Store.{active_for}
use blackgrid.Incident.Calls.{empty}
use blackgrid.Monitors.{
  Formats, MonitorHandler, Site, MonitorQuery, MonitorRequest, failed, not_found, rotated,
  monitors_of,
}
use blackgrid.Monitors.Push.{receive_push_heartbeat, rotate_push_token, find_by_hash}
use blackgrid.Monitors.Hooked.{is_failing, one_if, no_failure}
use blackgrid.Monitors.Heartbeats.{Heartbeat, run_heartbeats, run_heartbeats-incidents}
use blackgrid.Monitors.Requests.{Request, creates, beats, pauses, updates, perform_all}
use blackgrid.Monitors.Rows.{RowsSound, perform_all-RowsSound}
use blackgrid.Monitors.Tokens.{rotate_push_token-switches}

abbrev codec : Codec
codec = record { decode = λ s. some end; encode = λ m. "{}"; lower = λ s. s }

-- The id of every request is 7; a token is its own hash.
abbrev formats : Formats
formats = record {
  codec = codec;
  grace_of = λ s. 0;
  grace_config = λ n. "{}";
  dsn_of = λ s. "";
  parse_uuid = λ s. some 7;
  slug_of = λ s. s;
  hash_token = λ s. s;
}

abbrev handler : MonitorHandler
handler = record {
  has_bus = true;
  has_audit = true;
  has_hook = true;
  service = record { has_notifier = true; has_bus = true };
}

abbrev job : Monitor
job = record {
  id = 7;
  name = "backup";
  slug = "backup";
  monitor_type = push;
  target = "";
  config = "{}";
  ip_address_id = none;
  device_id = none;
  interval_seconds = 60;
  timeout_seconds = 10;
  retry_count = 3;
  enabled = true;
  status = up;
  last_checked_at = none;
  last_status_change_at = none;
  push_token_hash = some "first";
  last_heartbeat_at = none;
}

abbrev site : Site
site = record {
  backend = record { store = empty (job ∷ []); results = [] };
  next_monitor = 8;
  audit_log = [];
}

abbrev three_beats : List Heartbeat
three_beats =
    record { now = 1; query = some down; body = none }
    ∷ record { now = 2; query = none; body = none }
    ∷ record { now = 3; query = none; body = some down }
    ∷ []

run_heartbeats-incidents_example :
    (let t = run_heartbeats formats handler "first" three_beats site in
      (r : Monitor) × (find_by_hash "first" t ≡ some r)
      × (r.id ≡ 7)
      × (r.status ≡ down)
      × (count_if (active_for r.id) t.backend.store.incidents ≡ one_if (is_failing r.status)))
run_heartbeats-incidents_example =
    run_heartbeats-incidents formats handler "first" three_beats site job refl
      (λ e. ground (arith, e, eq_iff "first" ""))
      (record { by_hash = refl; by_id = refl; is_on = refl; fresh = tt; paired = refl })

rotate_push_token-switches_example :
    (let (reply, t) = rotate_push_token formats handler no_failure (some "second") "7" site in
      (reply ≡ rotated "second")
      × ((fails : MonitorQuery → Bool) (now : ℕ) (query body : Option MonitorStatus)
          → receive_push_heartbeat formats handler fails now "first" query body t
            ≡ (failed not_found "not found", t))
      × (find_by_hash "second" t ≡ some (record job { push_token_hash = some "second" })))
rotate_push_token-switches_example =
    rotate_push_token-switches formats handler "second" "first" "7" 7 job site refl refl refl refl
      (ground arith) refl (ground arith) refl (λ e. ground (arith, e, eq_iff "second" "first"))

abbrev request : MonitorRequest
request = record {
  name = "web";
  slug = "";
  monitor_type = http;
  target = "10.0.0.1";
  config = none;
  ip_address_id = none;
  device_id = none;
  interval_seconds = pos 1;
  timeout_seconds = pos 5;
  retry_count = pos 0;
  enabled = some false;
}

abbrev requests : List Request
requests =
    record { command = creates none request; fails = no_failure }
    ∷ record { command = pauses 3 "7"; fails = no_failure }
    ∷ record { command = beats 4 "first" (some down) none; fails = no_failure }
    ∷ record { command = updates "7" (some request); fails = no_failure }
    ∷ []

perform_all-RowsSound_example :
    (let t = perform_all formats handler requests site in RowsSound (monitors_of t) t.next_monitor)
perform_all-RowsSound_example = perform_all-RowsSound formats handler requests site (
  (ground arith, tt),
  (
    record {
      valid = refl;
      interval = omega arith;
      timeout = omega arith;
      retries = omega arith;
      off = refl;
    },
    tt,
  ),
)
