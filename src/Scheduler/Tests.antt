-- ===== src/Scheduler/Tests.antt =====
-- The scheduler at concrete inputs.
use blackgrid.Prelude.{
  ℕ, ◌+◌, ◌*◌, length, ◌+◌, ◌≤◌, ◌*◌, ◌≤◌, ◌≡◌, ◌≢◌, refl, true, false, none, some, [], ◌∷◌, length,
  arith,
}
use blackgrid.Model.{Monitor, http, up, down, paused}
use blackgrid.Incident.Store.{get_monitor}
use blackgrid.Incident.Calls.{empty}
use blackgrid.Scheduler.{Scheduler, CheckResult, Backend, execute_check, result_row}
use blackgrid.Scheduler.Jobs.{
  Jobs, no_jobs, capacity, marked, sent, started, times, mark, send, start as begin, Reached, begun,
  next, Reached_exclusive,
}
use blackgrid.Scheduler.Drain.{Steps, work_left, AtRest, Reached-AtRest}
use blackgrid.Scheduler.Outage.{works, outage, outage-status}
use blackgrid.Scheduler.Warning.{HasWarning, outage-HasWarning}
use blackgrid.Scheduler.Race.{execute_check_unpauses}

abbrev web : Monitor
web = record {
  id = 7;
  name = "web";
  slug = "web";
  monitor_type = http;
  target = "http://10.0.0.1";
  config = "";
  ip_address_id = none;
  device_id = none;
  interval_seconds = 60;
  timeout_seconds = 10;
  retry_count = 3;
  enabled = true;
  status = up;
  last_checked_at = none;
  last_status_change_at = none;
  push_token_hash = none;
  last_heartbeat_at = none;
}

abbrev sch : Scheduler
sch = record {
  has_bus = true;
  has_hook = true;
  service = record { has_notifier = true; has_bus = true };
}

abbrev refused : CheckResult
refused = record { status = down; latency_ms = 3; error_message = "request failed" }

abbrev start : Backend
start = record { store = empty (web ∷ []); results = [] }

abbrev twice_down : Backend
twice_down = record start { results = result_row 2 web refused ∷ result_row 1 web refused ∷ [] }

outage-status_example :
    (m' : Monitor) × (get_monitor 7 (outage sch (λ k. k * 60) 7 refused 3 start).store ≡ some m')
    × (m'.status ≡ down)
outage-status_example =
    outage-status sch (λ k. k * 60) 7 web refused 3 start refl refl refl refl (omega arith) refl

outage-HasWarning_example :
    HasWarning 7 (outage sch (λ k. k * 60) 7 refused 3 start).store.incidents
outage-HasWarning_example =
    outage-HasWarning sch (λ k. k * 60) 7 web refused 2 start refl refl refl refl (omega arith) refl
      refl refl

abbrev paused_web : Monitor
paused_web = record web { status = paused; enabled = false }

abbrev paused_start : Backend
paused_start = record start { store = empty (paused_web ∷ []) }

execute_check_unpauses_example :
    (after : Monitor) × (get_monitor 7 (execute_check sch works 9 web refused paused_start).store
      ≡ some after)
    × (after.enabled ≡ true)
    × (after.status ≢ paused)
execute_check_unpauses_example =
    execute_check_unpauses sch 9 web paused_web refused paused_start refl refl refl refl refl
      (λ e. cc)

-- A check that is running, and the same after it.
abbrev checking : Jobs
checking = started 7 [] (sent 7 (marked 7 no_jobs))

checking_reached : Reached 2 checking
checking_reached =
    next (sent 7 (marked 7 no_jobs)) checking
      (next (marked 7 no_jobs) (sent 7 (marked 7 no_jobs))
        (next no_jobs (marked 7 no_jobs) begun (mark 7 no_jobs refl refl))
        (send 7 (marked 7 no_jobs) refl (omega arith)))
      (begin 7 [] (sent 7 (marked 7 no_jobs)) refl (omega arith))

Reached_exclusive_example :
    (times 7 checking.running + times 7 checking.channel ≤ 1)
    × (length checking.running ≤ 2)
    × (length checking.channel ≤ capacity 2)
Reached_exclusive_example = Reached_exclusive 2 checking 7 checking_reached

Reached-AtRest_example :
    (n : ℕ) × (t : Jobs) × Steps 2 0 n checking t
    × (n ≤ work_left checking)
    × AtRest t
    × ((m : ℕ) → t.in_progress m ≡ false)
Reached-AtRest_example = Reached-AtRest 2 checking (omega arith) checking_reached
