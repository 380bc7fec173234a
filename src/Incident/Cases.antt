-- ===== src/Incident/Cases.antt =====
-- What a call of the incident service can do to the store.
use blackgrid.Prelude.{ℕ, ◌≡◌, refl, inl, inr, Bool, true, none, some, arith, Option-cases, String}
use blackgrid.Model.{Monitor, MonitorStatus, up, down, degraded, Severity, Incident, opened}
use blackgrid.Incident.Store.{
  Store, is_active, get_open_incident_for_monitor, get_incident, new_incident, insert_incident,
  acknowledge_row, resolve_row, update_incident,
}
use blackgrid.Incident.Output.{Service, Query, acknowledged_event, publish}
use blackgrid.Incident.Service.{
  details_col, after_create, after_recovery, create_for_monitor, open_for_monitor,
  resolve_for_monitor, acknowledge, resolve, after_resolve,
}
use blackgrid.Incident.Hook.{on_scheduled_status_change}

module _ (svc : Service) (fails : Query → Bool) (now : ℕ) (P : Store → Type 0) (s : Store) where
  -- A call leaves the store alone, or makes the one change that its name says.
  pub open_for_monitor_cases :
      (m : Monitor) (sev : Severity) (summary details : String)
      → P s
      → (let i = new_incident s.next_id now m.id sev summary (details_col details) in
          get_open_incident_for_monitor m.id s ≡ none
          → P (after_create svc m i (insert_incident i s)))
      → P (open_for_monitor svc fails now m sev summary details s).1
  unfolding open_for_monitor create_for_monitor
  open_for_monitor_cases m sev summary details same created = ground arith

  pub resolve_for_monitor_cases :
      (m : Monitor) (reason : String)
      → P s
      → ((c : Incident)
          → get_open_incident_for_monitor m.id s ≡ some c
          → P (
              after_recovery svc m reason
                (resolve_row now reason c)
                (update_incident c.id (resolve_row now reason) s)))
      → P (resolve_for_monitor svc fails now m reason s).1
  unfolding resolve_for_monitor
  resolve_for_monitor_cases m reason same resolves =
      elim (Option-cases (get_open_incident_for_monitor m.id s)) [
        | inl nothing ↦ ground (arith, nothing)
        | inr (c, found) ↦ ground (arith, found, resolves c found)
      ]

  pub acknowledge_cases :
      (id : ℕ) (note : String)
      → P s
      → ((c : Incident)
          → get_incident id s ≡ some c
          → c.status ≡ opened
          → P (
              publish svc
                (acknowledged_event id note)
                (update_incident id (acknowledge_row now note) s)))
      → P (acknowledge svc fails now id note s).1
  unfolding acknowledge
  acknowledge_cases id note same changes = elim (Option-cases (get_incident id s)) [
    | inl nothing ↦ ground (arith, nothing)
    | inr (c, found) ↦ ground (arith, found, changes c found)
  ]

  pub resolve_cases :
      (id : ℕ) (note : String)
      → P s
      → ((c : Incident)
          → get_incident id s ≡ some c
          → is_active c.status ≡ true
          → P (
              after_resolve svc fails id note
                (resolve_row now note c)
                (update_incident id (resolve_row now note) s)))
      → P (resolve svc fails now id note s).1
  unfolding resolve
  resolve_cases id note same changes = elim (Option-cases (get_incident id s)) [
    | inl nothing ↦ ground (arith, nothing)
    | inr (c, found) ↦ ground (arith, found, changes c found)
  ]

-- The hook leaves the monitors as they are.
pub on_scheduled_status_change-monitors :
    (svc : Service) (fails : Query → Bool) (now : ℕ) (m : Monitor) (old new : MonitorStatus)
    (s : Store)
    → (on_scheduled_status_change svc fails now m old new s).monitors ≡ s.monitors
unfolding on_scheduled_status_change
on_scheduled_status_change-monitors svc fails now m old down s =
    open_for_monitor_cases svc fails now (λ t. t.monitors ≡ s.monitors) s m _ _ _ refl
      λ _. ground arith
on_scheduled_status_change-monitors svc fails now m old degraded s =
    open_for_monitor_cases svc fails now (λ t. t.monitors ≡ s.monitors) s m _ _ _ refl
      λ _. ground arith
on_scheduled_status_change-monitors svc fails now m old up s =
    resolve_for_monitor_cases svc fails now (λ t. t.monitors ≡ s.monitors) s m _ refl
      λ c _. ground arith
on_scheduled_status_change-monitors svc fails now m old _ s = refl
