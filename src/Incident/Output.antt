-- ===== src/Incident/Output.antt =====
-- What IncidentService of internal/service/incident.go reads and sends: its optional collaborators,
-- its errors, and the events and notices, which are appended to the output.
use blackgrid.Prelude.{ℕ, String, Bool, true, false, if◌then◌else◌, [], ◌∷◌, ◌++◌}
use blackgrid.Model.{
  Monitor, Incident, Severity, critical, warning, info, Event, incident_opened,
  incident_acknowledged, incident_resolved, Value, string, uuid, incident_status, Notice,
}
use blackgrid.Incident.Store.{Store}

-- The queries, by the place of the call.
pub data Query : Type 0 where
  get_open create resolve_update get_by_id acknowledge_update : Query
  get_monitor_to_notify get_monitor_to_publish : Query

pub record Service : Type 0 where
  pub has_notifier : Bool
  pub has_bus : Bool

pub data IncidentError : Type 0 where
  invalid_severity : Severity → IncidentError
  database : Query → IncidentError
  incident_not_found : IncidentError
  incident_already_resolved : Incident → IncidentError

abbrev pub is_valid_severity : Severity → Bool
is_valid_severity critical = true
is_valid_severity warning = true
is_valid_severity info = true
is_valid_severity (Severity.other _) = false

abbrev pub notify : Service → Notice → Store → Store
notify svc n s = if svc.has_notifier then record s { notified = s.notified ++ n ∷ [] } else s

abbrev pub publish : Service → Event → Store → Store
publish svc e s = if svc.has_bus then record s { published = s.published ++ e ∷ [] } else s

unfoldable pub opened_event : Incident → Monitor → Event
opened_event i m = record {
  event_type = incident_opened;
  object_type = "incident";
  object_id = i.id;
  payload =
      ("monitor_id", uuid m.id)
      ∷ ("monitor_name", string m.name)
      ∷ ("severity", Value.severity i.severity)
      ∷ ("summary", string i.summary)
      ∷ ("status", incident_status i.status)
      ∷ [];
}

unfoldable pub recovered_event : Incident → Monitor → String → Event
recovered_event i m reason = record {
  event_type = incident_resolved;
  object_type = "incident";
  object_id = i.id;
  payload =
      ("monitor_id", uuid m.id)
      ∷ ("monitor_name", string m.name)
      ∷ ("status", incident_status i.status)
      ∷ ("reason", string reason)
      ∷ [];
}

unfoldable pub acknowledged_event : ℕ → String → Event
acknowledged_event id note = record {
  event_type = incident_acknowledged;
  object_type = "incident";
  object_id = id;
  payload = ("status", string "acknowledged") ∷ ("note", string note) ∷ [];
}

unfoldable pub resolved_event : ℕ → Incident → String → String → Event
resolved_event id i monitor_name note = record {
  event_type = incident_resolved;
  object_type = "incident";
  object_id = id;
  payload =
      ("monitor_id", uuid i.monitor_id)
      ∷ ("monitor_name", string monitor_name)
      ∷ ("status", string "resolved")
      ∷ ("note", string note)
      ∷ [];
}
