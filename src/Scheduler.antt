-- ===== src/Scheduler.antt =====
-- internal/monitor: the runner, the passive check of push monitors, and what the scheduler does
-- with the result of a check. The jobs of the scheduler's loop and workers are in Jobs.
pub mod Jobs
pub mod Drain
pub mod Retry
pub mod Outage
pub mod Warning
pub mod Race
mod Tests
use blackgrid.Prelude.{
  ℕ, zero, suc, ◌+◌, ◌-◌, ◌*◌, ◌==◌, ltb, leb, String, Bool, true, false, not, ◌&&◌, ◌||◌,
  if◌then◌else◌, Option, none, some, List, [], ◌∷◌, ◌++◌, take, keep_if, length, Result, ok, err,
}
use text.Mathlib.Text.{◌==◌ as str_eq}
use blackgrid.Model.{
  Monitor, MonitorStatus, up, down, degraded, unknown, paused, status_eq, MonitorType, unsupported,
  push, MonitorResult, Event, EventType, monitor_result_created, monitor_status_changed, Value,
  string, number, monitor_status,
}
use blackgrid.Model
use blackgrid.Incident.Store.{Store, get_monitor}
use blackgrid.Incident.Output.{Service}
use blackgrid.Incident.Hook.{on_scheduled_status_change}
use blackgrid.Incident.Output

pub record CheckResult : Type 0 where
  pub status : MonitorStatus
  pub latency_ms : ℕ
  pub error_message : String

-- The database with the rows of `monitor_results`, newest first.
pub record Backend : Type 0 where
  pub store : Store
  pub results : List MonitorResult

-- The queries of a check, and those of the incident service that it may call.
pub data Query : Type 0 where
  create_result get_results update : Query
  incident : Output.Query → Query

pub record Scheduler : Type 0 where
  pub has_bus : Bool
  pub has_hook : Bool
  pub service : Service

-- PushChecker.Check: `grace` is the configured number of seconds, 0 or less where it is missing,
-- and times are nanoseconds.
abbrev pub nanoseconds : ℕ
nanoseconds = 1_000_000_000

unfoldable pub push_check : ℕ → ℕ → Monitor → CheckResult
push_check now grace_seconds m =
    let grace = if leb grace_seconds 0 then 120 else grace_seconds in
    elim m.last_heartbeat_at [
      | none ↦ record {
        status = down;
        latency_ms = 0;
        error_message = "heartbeat overdue: no heartbeat received";
      }
      | some at ↦
          if ltb (grace * nanoseconds) (now - at)
          then record { status = down; latency_ms = 0; error_message = "heartbeat overdue" }
          else record { status = up; latency_ms = 0; error_message = "" }
    ]

abbrev pub is_supported : MonitorType → Bool
is_supported (unsupported _) = false
is_supported _ = true

abbrev pub result_row : ℕ → Monitor → CheckResult → MonitorResult
result_row now m r = record {
  monitor_id = m.id;
  status = r.status;
  latency_ms = if ltb 0 r.latency_ms then some r.latency_ms else none;
  error_message = if not (str_eq r.error_message "") then some r.error_message else none;
  checked_at = now;
}

abbrev pub add_result : MonitorResult → Backend → Backend
add_result r w = record w { results = r ∷ w.results }

-- Runner.Run: `none` is an error, of a type that is not supported or of the insert.
unfoldable pub runner_run :
    (Query → Bool) → ℕ → Monitor → CheckResult → Backend → Option CheckResult × Backend
runner_run fails now m result w =
    if not (is_supported m.monitor_type)
    then (none, w)
    else if fails create_result
    then (none, w)
    else (some result, add_result (result_row now m result) w)

-- getMonitorResults: ORDER BY checked_at DESC LIMIT $2, the offset being 0.
abbrev pub get_monitor_results : ℕ → ℕ → Backend → List MonitorResult
get_monitor_results id limit w = take limit (keep_if (λ r. r.monitor_id == id) w.results)

-- The loop that counts consecutive failures, up to the first result that is none.
abbrev pub count_failures : List MonitorResult → ℕ
count_failures [] = 0
count_failures (r ∷ rs) = if status_eq r.status down then suc (count_failures rs) else 0

abbrev pub may_retry : MonitorStatus → Bool
may_retry s = status_eq s up || status_eq s degraded || status_eq s unknown

-- The status after the retry rule. An error of the query leaves no results.
unfoldable pub retried_status : (Query → Bool) → Monitor → MonitorStatus → Backend → MonitorStatus
retried_status fails m new_status w =
    let results = if fails get_results then [] else get_monitor_results m.id m.retry_count w in
    if status_eq new_status down && may_retry m.status
    then if ltb (count_failures results) m.retry_count then degraded else new_status
    else new_status

-- updateMonitor sets every column but last_heartbeat_at.
abbrev pub written : Monitor → Monitor → Monitor
written arg row = record arg { last_heartbeat_at = row.last_heartbeat_at }

abbrev pub write_monitor : Monitor → List Monitor → List Monitor
write_monitor arg [] = []
write_monitor arg (row ∷ rows) =
    (if row.id == arg.id then written arg row else row) ∷ write_monitor arg rows

-- The arguments of UpdateMonitor: the monitor as the scheduler read it, with the new status.
abbrev pub update_params : ℕ → Monitor → MonitorStatus → Monitor
update_params now m new_status = record m {
  status = new_status;
  last_checked_at = some now;
  last_status_change_at =
      if not (status_eq new_status m.status) then some now else m.last_status_change_at;
}

unfoldable pub result_event : Monitor → CheckResult → Event
result_event m r = record {
  event_type = monitor_result_created;
  object_type = "monitor";
  object_id = m.id;
  payload =
      ("status", monitor_status r.status)
      ∷ ("latency_ms", number r.latency_ms)
      ∷ ("name", string m.name)
      ∷ [];
}

unfoldable pub status_event : Monitor → MonitorStatus → Event
status_event m new_status = record {
  event_type = monitor_status_changed;
  object_type = "monitor";
  object_id = m.id;
  payload =
      ("old_status", monitor_status m.status)
      ∷ ("new_status", monitor_status new_status)
      ∷ ("name", string m.name)
      ∷ [];
}

abbrev pub check_events : Monitor → CheckResult → MonitorStatus → List Event
check_events m r new_status =
    if not (status_eq new_status m.status)
    then result_event m r ∷ status_event m new_status ∷ []
    else result_event m r ∷ []

abbrev pub publish_all : Scheduler → List Event → Store → Store
publish_all sch es s = if sch.has_bus then record s { published = s.published ++ es } else s

abbrev pub call_hook :
    Scheduler → (Query → Bool) → ℕ → Monitor → Monitor → MonitorStatus → Store → Store
call_hook sch fails now m updated new_status s =
    if sch.has_hook && not (status_eq new_status m.status)
    then on_scheduled_status_change sch.service (λ q. fails (incident q)) now updated m.status
        new_status s
    else s

-- executeCheck after the result of the runner.
unfoldable pub settle : Scheduler → (Query → Bool) → ℕ → Monitor → CheckResult → Backend → Backend
settle sch fails now m result w =
    let new_status = retried_status fails m result.status w in
    let arg = update_params now m new_status in
    if fails update then w else (elim (get_monitor m.id w.store) [
      | none ↦ w
      | some row ↦
          let s = record w.store { monitors = write_monitor arg w.store.monitors } in
          record w {
            store =
                call_hook sch fails now m (written arg row) new_status
                  (publish_all sch (check_events m result new_status) s);
          }
    ])

-- executeCheck, for the monitor `m` as the loop read it and the result of its checker.
unfoldable pub execute_check :
    Scheduler → (Query → Bool) → ℕ → Monitor → CheckResult → Backend → Backend
execute_check sch fails now m result w =
    let (ran, w') = runner_run fails now m result w in
    elim ran [ none ↦ w' | some r ↦ settle sch fails now m r w' ]
