-- ===== src/Notifications/Payload.antt =====
-- The payload of a notification: buildIncidentPayload, and that of a test.
use blackgrid.Prelude.{ℕ, String, Option, none, some, sprintf, [], ◌∷◌}
use blackgrid.Model.{
  Incident, IncidentStatus, opened, acknowledged, resolved, Severity, critical, warning, info,
  Monitor, MonitorStatus, status_word, type_word,
}
use blackgrid.Secrets.{Json, str, obj, null, Fields, field, end}
use blackgrid.Notifications.{Library}

pub data NotificationEvent : Type 0 where
  incident_opened incident_resolved test : NotificationEvent

abbrev pub event_word : NotificationEvent → String
event_word incident_opened = "incident.opened"
event_word incident_resolved = "incident.resolved"
event_word test = "test"

-- The texts of the columns.
abbrev pub severity_word : Severity → String
severity_word critical = "critical"
severity_word warning = "warning"
severity_word info = "info"
severity_word (Severity.other s) = s

abbrev pub incident_status_word : IncidentStatus → String
incident_status_word opened = "open"
incident_status_word acknowledged = "acknowledged"
incident_status_word resolved = "resolved"

-- timeOrNil
abbrev pub time_or_nil : Library → Option ℕ → Json
time_or_nil l none = null
time_or_nil l (some t) = str (l.rfc3339 t)

-- The verb of the message.
abbrev pub verb : NotificationEvent → MonitorStatus → String
verb incident_resolved status = "recovered"
verb _ status = sprintf ("is " ∷ status_word status ∷ [])

unfoldable pub build_incident_payload : Library → NotificationEvent → Incident → Monitor → Fields
build_incident_payload l event i m = field "event" (str (event_word event)) (
    field "severity" (str (severity_word i.severity)) (
      field "incident"
        (obj (
          field "id" (str (l.uuid_hex i.id)) (
            field "status" (str (incident_status_word i.status)) (
              field "started_at" (str (l.rfc3339 i.started_at)) (
                field "acknowledged_at" (time_or_nil l i.acknowledged_at)
                  (field "resolved_at" (time_or_nil l i.resolved_at) end))))))
        (field "monitor"
          (obj (
            field "id" (str (l.uuid_hex m.id)) (
              field "name" (str m.name) (
                field "type" (str (type_word m.monitor_type)) (
                  field "target" (str m.target)
                    (field "status" (str (status_word m.status)) end))))))
          (field "message" (str (sprintf ("Monitor " ∷ m.name ∷ " " ∷ verb event m.status ∷ [])))
            end))))

-- The payload of TestChannel.
abbrev pub test_payload : Library → ℕ → Fields
test_payload l now = field "event" (str (event_word test)) (
    field "message" (str "Blackgrid test notification") (field "sent_at" (str (l.rfc3339 now)) end))
