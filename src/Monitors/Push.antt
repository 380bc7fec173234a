-- ===== src/Monitors/Push.antt =====
-- TestMonitor, ReceivePushHeartbeat and RotatePushToken.
use blackgrid.Prelude.{
  update_by, ℕ, String, Bool, false, not, if◌then◌else◌, ◌++◌, ◌&&◌, Option, none, some, List, [],
  ◌∷◌, find_if,
}
use text.Mathlib.Text.{◌==◌ as str_eq}
use blackgrid.Model.{
  Monitor, MonitorResult, MonitorStatus, up, down, degraded, status_eq, Event, monitor_tested,
  monitor_result_created, string, number, monitor_status,
}
use blackgrid.Incident.Hook.{on_scheduled_status_change}
use blackgrid.Scheduler.{Backend, CheckResult, add_result, status_event, runner_run}
use blackgrid.Scheduler
use blackgrid.Monitors.{
  Formats, validation, not_found, internal, MonitorHandler, Site, MonitorQuery, get_row,
  get_by_push_hash, create_result_row, record_heartbeat, incident_query, Reply, failed, tested,
  message, rotated, is_push, monitors_of, with_store, with_monitors, find_monitor,
  update_monitor_row, publish_to, note,
}
use blackgrid.Monitors.Create.{monitor_event}

abbrev pub hash_is : String → Option String → Bool
hash_is hash none = false
hash_is hash (some h) = str_eq h hash

-- WHERE push_token_hash = $1
abbrev pub find_by_hash : String → Site → Option Monitor
find_by_hash hash s = find_if (λ (m : Monitor). hash_is hash m.push_token_hash) (monitors_of s)

-- The assignments of RecordPushHeartbeat.
abbrev pub beaten : ℕ → MonitorStatus → Option ℕ → Monitor → Monitor
beaten now status changed_at row = record row {
  last_heartbeat_at = some now;
  last_checked_at = some now;
  status = status;
  last_status_change_at = changed_at;
}

abbrev pub beat_rows : ℕ → ℕ → MonitorStatus → Option ℕ → List Monitor → List Monitor
beat_rows id now status changed_at =
    update_by (λ (m : Monitor). m.id) id (beaten now status changed_at)

abbrev pub known_status : MonitorStatus → MonitorStatus
known_status up = up
known_status down = down
known_status degraded = degraded
known_status _ = up

-- The status of a heartbeat: the parameter, else the body, else `up`; any other text counts as `up`.
abbrev pub pushed_status : Option MonitorStatus → Option MonitorStatus → MonitorStatus
pushed_status (some status) body = known_status status
pushed_status none (some status) = known_status status
pushed_status none none = up

abbrev pub heartbeat_result : ℕ → Monitor → MonitorStatus → MonitorResult
heartbeat_result now m status = record {
  monitor_id = m.id;
  status = status;
  latency_ms = none;
  error_message = none;
  checked_at = now;
}

abbrev pub heartbeat_event : Monitor → MonitorStatus → Event
heartbeat_event m status =
    monitor_event monitor_result_created m.id
      (("status", monitor_status status) ∷ ("name", string m.name) ∷ [])

abbrev pub heartbeat_events : MonitorHandler → Monitor → MonitorStatus → Site → Site
heartbeat_events h m status s =
    let s' = publish_to h (heartbeat_event m status) s in
    if not (status_eq status m.status) then publish_to h (status_event m status) s' else s'

abbrev pub heartbeat_hook :
    MonitorHandler → (MonitorQuery → Bool) → ℕ → Monitor → Monitor → MonitorStatus → Site → Site
heartbeat_hook h fails now m updated status s =
    if h.has_hook && not (status_eq status m.status)
    then with_store
        (on_scheduled_status_change h.service (λ q. fails (incident_query q)) now updated m.status
          status s.backend.store)
        s
    else s

-- The part of the handler after the result: h.queries.RecordPushHeartbeat and what follows it.
unfoldable pub record_beat :
    MonitorHandler → (MonitorQuery → Bool) → ℕ → Monitor → MonitorStatus → Site → Reply × Site
record_beat h fails now m status s =
    let changed_at =
      if not (status_eq status m.status) then some now else m.last_status_change_at in
    if fails record_heartbeat
    then (failed internal "failed to record heartbeat", s)
    else (elim (find_monitor m.id s) [
      | none ↦ (failed internal "failed to record heartbeat", s)
      | some row ↦ (
        message "ok",
        heartbeat_hook h fails now m (beaten now status changed_at row) status (
            heartbeat_events h m status
              (with_monitors (beat_rows m.id now status changed_at (monitors_of s)) s)),
      )
    ])

-- An error of CreateMonitorResult is ignored.
abbrev pub store_result : (MonitorQuery → Bool) → MonitorResult → Site → Site
store_result fails r s =
    if fails create_result_row then s else record s { backend = add_result r s.backend }

unfoldable pub receive_push_heartbeat :
    Formats
    → MonitorHandler
    → (MonitorQuery → Bool)
    → ℕ
    → String
    → Option MonitorStatus
    → Option MonitorStatus
    → Site
    → Reply × Site
unfolding record_beat
receive_push_heartbeat f h fails now token query body s =
    if str_eq token ""
    then (failed not_found "not found", s)
    else if fails get_by_push_hash
    then (failed not_found "not found", s)
    else (elim (find_by_hash (f.hash_token token) s) [
      | none ↦ (failed not_found "not found", s)
      | some m ↦
          if not m.enabled
          then (message "monitor paused", s)
          else record_beat h fails now m (pushed_status query body)
              (store_result fails (heartbeat_result now m (pushed_status query body)) s)
    ])

abbrev pub with_token_hash : String → Monitor → Monitor
with_token_hash hash m = record m { push_token_hash = some hash }

unfoldable pub rotate_found :
    Formats → MonitorHandler → (MonitorQuery → Bool) → String → Monitor → Site → Reply × Site
unfolding update_monitor_row
rotate_found f h fails token m s =
    let (row, s') = update_monitor_row fails (with_token_hash (f.hash_token token) m) s in
    elim row [
      | none ↦ (failed internal "internal error", s')
      | some updated ↦ (
        rotated token,
        note h
            (record {
              action = "monitor.push_token.rotate";
              entity_id = m.id;
              before = [];
              after = ("monitor_name", string m.name) ∷ [];
            })
            s',
      )
    ]

unfoldable pub rotate_push_token :
    Formats → MonitorHandler → (MonitorQuery → Bool) → Option String → String → Site → Reply × Site
unfolding rotate_found
rotate_push_token f h fails random id s = elim (f.parse_uuid id) [
  | none ↦ (failed validation "invalid UUID", s)
  | some n ↦
      if fails get_row
      then (failed not_found "monitor not found", s)
      else (elim (find_monitor n s) [
        | none ↦ (failed not_found "monitor not found", s)
        | some m ↦
            if not (is_push m.monitor_type)
            then (failed validation "only push monitors support token rotation", s)
            else (elim random [
              | none ↦ (failed internal "internal error", s)
              | some token ↦ rotate_found f h fails token m s
            ])
      ])
]

-- The queries of the runner.
abbrev pub runner_fails : (MonitorQuery → Bool) → Scheduler.Query → Bool
runner_fails fails Scheduler.Query.create_result = fails create_result_row
runner_fails fails _ = false

abbrev pub tested_events : MonitorHandler → Monitor → CheckResult → Site → Site
tested_events h m r s =
    let payload =
      ("status", monitor_status r.status)
      ∷ ("latency_ms", number r.latency_ms)
      ∷ ("name", string m.name)
      ∷ [] in
    publish_to h
      (monitor_event monitor_result_created m.id
        (payload ++ (("source", string "manual_test") ∷ [])))
      (publish_to h (monitor_event monitor_tested m.id payload) s)

-- The part of TestMonitor after the run: an error of UpdateMonitor is ignored, and the incident hook is
-- not called.
abbrev pub after_test :
    MonitorHandler → (MonitorQuery → Bool) → ℕ → Monitor → CheckResult → Site → Site
after_test h fails now m r s =
    note h
      (record {
        action = "monitor.test";
        entity_id = m.id;
        before = [];
        after = ("name", string m.name) ∷ ("result_status", monitor_status r.status) ∷ [];
      })
      (tested_events h m r (update_monitor_row fails (record m { last_checked_at = some now }) s).1)

unfoldable pub test_monitor :
    Formats
    → MonitorHandler
    → (MonitorQuery → Bool)
    → ℕ
    → String
    → CheckResult
    → Site
    → Reply × Site
test_monitor f h fails now id result s = elim (f.parse_uuid id) [
  | none ↦ (failed validation "invalid UUID", s)
  | some n ↦
      if fails get_row
      then (failed not_found "monitor not found", s)
      else (elim (find_monitor n s) [
        | none ↦ (failed not_found "monitor not found", s)
        | some m ↦
            if is_push m.monitor_type
            then (
              failed validation "push monitors cannot be actively tested; use the push endpoint",
              s,
            )
            else let (ran, b) = runner_run (λ q. runner_fails fails q) now m result s.backend in
              elim ran [
                | none ↦ (failed internal "internal error", record s { backend = b })
                | some r ↦ (tested r, after_test h fails now m r (record s { backend = b }))
              ]
      ])
]
