-- ===== src/Incident/Hook.antt =====
-- IncidentHook of internal/service/incident_hook.go, which the scheduler calls when the status of a
-- monitor has changed.
use blackgrid.Prelude.{ℕ, String, Bool, [], ◌∷◌, sprintf}
use blackgrid.Model.{
  Monitor, MonitorStatus, up, down, degraded, critical, warning, status_word, type_word,
}
use blackgrid.Incident.Store.{Store}
use blackgrid.Incident.Output.{Query, Service}
use blackgrid.Incident.Service.{open_for_monitor, resolve_for_monitor}

-- fmt.Sprintf("%s is …", monitor.Name)
unfoldable pub summary_of : Monitor → String → String
summary_of m word = sprintf (m.name ∷ " is " ∷ word ∷ [])

-- fmt.Sprintf("Monitor %s (%s) transitioned from %s to …", …)
unfoldable pub details_of : Monitor → MonitorStatus → String → String
details_of m old word = sprintf (
    "Monitor "
    ∷ m.name
    ∷ " ("
    ∷ type_word m.monitor_type
    ∷ ") transitioned from "
    ∷ status_word old
    ∷ " to "
    ∷ word
    ∷ [])

-- fmt.Sprintf("Monitor %s recovered (was %s)", …)
unfoldable pub reason_of : Monitor → MonitorStatus → String
reason_of m old = sprintf ("Monitor " ∷ m.name ∷ " recovered (was " ∷ status_word old ∷ ")" ∷ [])

-- OnScheduledStatusChange: an error of the service is logged only.
unfoldable pub on_scheduled_status_change :
    Service → (Query → Bool) → ℕ → Monitor → MonitorStatus → MonitorStatus → Store → Store
on_scheduled_status_change svc fails now m old down s =
    (open_for_monitor svc fails now m critical (summary_of m "down") (details_of m old "down") s).1
on_scheduled_status_change svc fails now m old degraded s =
    (open_for_monitor svc fails now m warning (summary_of m "degraded")
      (details_of m old "degraded") s).1
on_scheduled_status_change svc fails now m old up s =
    (resolve_for_monitor svc fails now m (reason_of m old) s).1
on_scheduled_status_change svc fails now m old _ s = s
