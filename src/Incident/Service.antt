-- ===== src/Incident/Service.antt =====
-- IncidentService of internal/service/incident.go. Whether a query fails is an argument; a query that
-- fails changes nothing.
use blackgrid.Prelude.{
  ℕ, String, Bool, true, false, not, if◌then◌else◌, Option, none, some, Result, ok, err, inc, dec,
}
use text.Mathlib.Text.{◌==◌ as str_eq}
use blackgrid.Model.{
  Monitor, Incident, IncidentStatus, opened, acknowledged, resolved, Severity, send_incident_opened,
  send_incident_resolved,
}
use blackgrid.Incident.Store.{
  Store, get_open_incident_for_monitor, get_incident, get_monitor, new_incident, insert_incident,
  acknowledge_row, resolve_row, update_incident,
}
use blackgrid.Incident.Output.{
  Query, get_open, create, resolve_update, get_by_id, acknowledge_update, get_monitor_to_notify,
  get_monitor_to_publish, Service, IncidentError, invalid_severity, database, incident_not_found,
  incident_already_resolved, is_valid_severity, notify, publish, opened_event, recovered_event,
  acknowledged_event, resolved_event,
}

-- The column `details`: null for an empty text.
abbrev pub details_col : String → Option String
details_col details = if str_eq details "" then none else some details

-- The part of OpenForMonitor after the insert.
abbrev pub after_create : Service → Monitor → Incident → Store → Store
after_create svc m i s =
    publish svc (opened_event i m)
      (notify svc (send_incident_opened i m) (record s { incidents_open = inc s.incidents_open }))

unfoldable pub create_for_monitor :
    Service
    → (Query → Bool)
    → ℕ
    → Monitor
    → Severity
    → String
    → String
    → Store
    → Result IncidentError (Incident × Bool) × Store
create_for_monitor svc fails now m sev summary details s =
    let i = new_incident s.next_id now m.id sev summary (details_col details) in
    if fails create
    then (err (database create), s)
    else (ok (i, true), after_create svc m i (insert_incident i s))

-- The result is the incident and whether it was created.
unfoldable pub open_for_monitor :
    Service
    → (Query → Bool)
    → ℕ
    → Monitor
    → Severity
    → String
    → String
    → Store
    → Result IncidentError (Incident × Bool) × Store
unfolding create_for_monitor
open_for_monitor svc fails now m sev summary details s =
    if not (is_valid_severity sev)
    then (err (invalid_severity sev), s)
    else if fails get_open
    then (err (database get_open), s)
    else (elim (get_open_incident_for_monitor m.id s) [
      | some existing ↦ (ok (existing, false), s)
      | none ↦ create_for_monitor svc fails now m sev summary details s
    ])

-- The part of ResolveForMonitor after the update.
abbrev pub after_recovery : Service → Monitor → String → Incident → Store → Store
after_recovery svc m reason i s =
    publish svc (recovered_event i m reason)
      (notify svc (send_incident_resolved i m) (record s { incidents_open = dec s.incidents_open }))

-- The result is the incident and whether it was resolved now; `none` if there was none.
unfoldable pub resolve_for_monitor :
    Service
    → (Query → Bool)
    → ℕ
    → Monitor
    → String
    → Store
    → Result IncidentError (Option Incident) × Store
resolve_for_monitor svc fails now m reason s =
    if fails get_open
    then (err (database get_open), s)
    else (elim (get_open_incident_for_monitor m.id s) [
      | none ↦ (ok none, s)
      | some existing ↦
          let i = resolve_row now reason existing in
          if fails resolve_update then (err (database resolve_update), s) else (
            ok (some i),
            after_recovery svc m reason i (update_incident existing.id (resolve_row now reason) s),
          )
    ])

unfoldable pub acknowledge_active :
    Service
    → (Query → Bool)
    → ℕ
    → ℕ
    → String
    → Incident
    → Store
    → Result IncidentError Incident × Store
acknowledge_active svc fails now id note current s =
    if fails acknowledge_update then (err (database acknowledge_update), s) else (
      ok (acknowledge_row now note current),
      publish svc (acknowledged_event id note) (update_incident id (acknowledge_row now note) s),
    )

-- switch current.Status
unfoldable pub acknowledge_found :
    IncidentStatus
    → Service
    → (Query → Bool)
    → ℕ
    → ℕ
    → String
    → Incident
    → Store
    → Result IncidentError Incident × Store
unfolding acknowledge_active
acknowledge_found resolved svc fails now id note current s =
    (err (incident_already_resolved current), s)
acknowledge_found acknowledged svc fails now id note current s = (ok current, s)
acknowledge_found opened svc fails now id note current s =
    acknowledge_active svc fails now id note current s

unfoldable pub acknowledge :
    Service → (Query → Bool) → ℕ → ℕ → String → Store → Result IncidentError Incident × Store
unfolding acknowledge_found
acknowledge svc fails now id note s =
    if fails get_by_id then (err (database get_by_id), s) else (elim (get_incident id s) [
      | none ↦ (err incident_not_found, s)
      | some current ↦ acknowledge_found current.status svc fails now id note current s
    ])

-- q.GetMonitor for the notice: an error drops the notice.
abbrev pub notify_resolved : Service → (Query → Bool) → Incident → Store → Store
notify_resolved svc fails i s =
    if fails get_monitor_to_notify then s else (elim (get_monitor i.monitor_id s) [
      | none ↦ s
      | some m ↦ notify svc (send_incident_resolved i m) s
    ])

-- q.GetMonitor for the event: an error leaves the name empty.
abbrev pub name_to_publish : (Query → Bool) → Incident → Store → String
name_to_publish fails i s =
    if fails get_monitor_to_publish
    then ""
    else (elim (get_monitor i.monitor_id s) [ none ↦ "" | some m ↦ m.name ])

abbrev pub after_resolve : Service → (Query → Bool) → ℕ → String → Incident → Store → Store
after_resolve svc fails id note i s =
    let t = notify_resolved svc fails i (record s { incidents_open = dec s.incidents_open }) in
    publish svc (resolved_event id i (name_to_publish fails i t) note) t

unfoldable pub resolve_active :
    Service
    → (Query → Bool)
    → ℕ
    → ℕ
    → String
    → Incident
    → Store
    → Result IncidentError Incident × Store
resolve_active svc fails now id note current s =
    let i = resolve_row now note current in
    if fails resolve_update
    then (err (database resolve_update), s)
    else (ok i, after_resolve svc fails id note i (update_incident id (resolve_row now note) s))

unfoldable pub resolve_found :
    IncidentStatus
    → Service
    → (Query → Bool)
    → ℕ
    → ℕ
    → String
    → Incident
    → Store
    → Result IncidentError Incident × Store
unfolding resolve_active
resolve_found resolved svc fails now id note current s = (ok current, s)
resolve_found _ svc fails now id note current s = resolve_active svc fails now id note current s

unfoldable pub resolve :
    Service → (Query → Bool) → ℕ → ℕ → String → Store → Result IncidentError Incident × Store
unfolding resolve_found
resolve svc fails now id note s =
    if fails get_by_id then (err (database get_by_id), s) else (elim (get_incident id s) [
      | none ↦ (err incident_not_found, s)
      | some current ↦ resolve_found current.status svc fails now id note current s
    ])
