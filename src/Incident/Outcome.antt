-- ===== src/Incident/Outcome.antt =====
-- What single calls of the incident service, and the hook, come to.
use blackgrid.Prelude.{
  if◌then◌else◌, ◌++◌, ℕ, ◌≤◌, ◌≡◌, ◌≢◌, refl, sym, subst, inl, inr, Bool, true, false, Option,
  some, List, [], ◌∷◌, count_if, ok, arith, String, Option-cases,
}
use blackgrid.Model.{up, down, degraded, MonitorStatus, Notice, Event, Monitor, Severity, Incident}
use blackgrid.Incident.Store.{
  Store, active_for, latest, get_open_incident_for_monitor, resolve_row, update_where,
}
use blackgrid.Incident.Output.{notify, publish, Service, Query, get_open, is_valid_severity}
use blackgrid.Incident.Service.{create_for_monitor, open_for_monitor, resolve_for_monitor}
use blackgrid.Incident.Hook.{on_scheduled_status_change}
use blackgrid.Incident.Cases.{open_for_monitor_cases, resolve_for_monitor_cases}
use blackgrid.Incident.Rows.{
  Below, update_where-Below, latest-none, latest-some, count_if-update_where,
}

-- Ids are handed out in their order, and none is used twice.
abbrev pub FreshIds : Store → Type 0
FreshIds s = Below s.next_id s.incidents

-- Once OpenForMonitor has returned an incident, a further call for the monitor, with a valid
-- severity and a query that does not fail, returns the same incident as not created, and changes
-- nothing: no row, no notice, no event, no gauge.
open_for_monitor_again :
    (svc : Service) (fails fails' : Query → Bool) (now now' : ℕ) (m : Monitor) (sev sev' : Severity)
    (summary details summary' details' : String) (s t : Store) (i : Incident) (created : Bool)
    → open_for_monitor svc fails now m sev summary details s ≡ (ok (i, created), t)
    → is_valid_severity sev' ≡ true
    → fails' get_open ≡ false
    → open_for_monitor svc fails' now' m sev' summary' details' t ≡ (ok (i, false), t)
unfolding open_for_monitor create_for_monitor
open_for_monitor_again svc fails fails' now now' m sev sev' summary details summary' details' s t i
      created e valid works =
    elim (Option-cases (get_open_incident_for_monitor m.id s)) [
      | inl nothing ↦ ground (arith, nothing)
      | inr (c, found) ↦ ground (arith, found)
    ]

-- ResolveForMonitor, when it returns no error, leaves no active incident of the monitor, and the
-- active incidents of other monitors as many as they were.
pub resolve_for_monitor_clears :
    (svc : Service) (fails : Query → Bool) (now : ℕ) (m : Monitor) (reason : String) (s t : Store)
    (r : Option Incident)
    → FreshIds s
    → count_if (active_for m.id) s.incidents ≤ 1
    → resolve_for_monitor svc fails now m reason s ≡ (ok r, t)
    → (count_if (active_for m.id) t.incidents ≡ 0)
      × ((k : ℕ)
          → k ≢ m.id
          → count_if (active_for k) t.incidents ≡ count_if (active_for k) s.incidents)
unfolding resolve_for_monitor
resolve_for_monitor_clears svc fails now m reason s t r fresh single e =
    elim (Option-cases (get_open_incident_for_monitor m.id s)) [
      | inl nothing ↦
          let same : t ≡ s = ground (arith, nothing) in
          subst
            (λ x.
              (count_if (active_for m.id) x.incidents ≡ 0)
              × ((k : ℕ)
                  → k ≢ m.id
                  → count_if (active_for k) x.incidents ≡ count_if (active_for k) s.incidents))
            (sym same) (latest-none (active_for m.id) s.incidents nothing, λ k other. refl)
      | inr (c, found) ↦
          let after : t.incidents ≡ update_where c.id (resolve_row now reason) s.incidents =
            ground (arith, found) in
          let (inside, is_open) = latest-some (active_for m.id) s.incidents c found in
          let counts = λ (k : ℕ).
            count_if-update_where c.id (resolve_row now reason) (active_for k) s.next_id s.incidents
              c fresh inside refl in
          rw after (ground (arith, single, counts m.id), λ k other. ground (arith, counts k))
    ]

one_at_least :
    (p : Incident → Bool) (is : List Incident) (c : Incident)
    → latest p is ≡ some c
    → 1 ≤ count_if p is
one_at_least p [] c e = cc
one_at_least p (i ∷ is) c e = ground (arith, one_at_least p is c)

-- OpenForMonitor, when it returns no error, leaves exactly one active incident of the monitor.
pub open_for_monitor_one :
    (svc : Service) (fails : Query → Bool) (now : ℕ) (m : Monitor) (sev : Severity)
    (summary details : String) (s t : Store) (i : Incident) (created : Bool)
    → FreshIds s
    → count_if (active_for m.id) s.incidents ≤ 1
    → open_for_monitor svc fails now m sev summary details s ≡ (ok (i, created), t)
    → (get_open_incident_for_monitor m.id t ≡ some i) × (count_if (active_for m.id) t.incidents ≡ 1)
unfolding open_for_monitor create_for_monitor
open_for_monitor_one svc fails now m sev summary details s t i created fresh single e =
    elim (Option-cases (get_open_incident_for_monitor m.id s)) [
      | inl nothing ↦ (
        ground (arith, nothing),
        ground (arith, nothing, latest-none (active_for m.id) s.incidents nothing),
      )
      | inr (c, found) ↦ (
        ground (arith, found),
        ground (arith, found, single, one_at_least (active_for m.id) s.incidents c found),
      )
    ]

notify-FreshIds : (svc : Service) (n : Notice) (s : Store) → FreshIds s → FreshIds (notify svc n s)
notify-FreshIds svc n s v = flag svc.has_notifier
  where
    flag : (b : Bool) → FreshIds (if b then record s { notified = s.notified ++ n ∷ [] } else s)
    flag true = v
    flag false = v

publish-FreshIds : (svc : Service) (e : Event) (s : Store) → FreshIds s → FreshIds (publish svc e s)
publish-FreshIds svc e s v = flag svc.has_bus
  where
    flag : (b : Bool) → FreshIds (if b then record s { published = s.published ++ e ∷ [] } else s)
    flag true = v
    flag false = v

module _ (svc : Service) (fails : Query → Bool) (now : ℕ) (m : Monitor) (s : Store)
    (fresh : FreshIds s) where
  open_for_monitor-FreshIds :
      (sev : Severity) (summary details : String)
      → FreshIds (open_for_monitor svc fails now m sev summary details s).1
  open_for_monitor-FreshIds sev summary details =
      open_for_monitor_cases svc fails now FreshIds s m sev summary details fresh
        λ nothing. publish-FreshIds svc _ _ (notify-FreshIds svc _ _ (omega arith, fresh))

  resolve_for_monitor-FreshIds :
      (reason : String) → FreshIds (resolve_for_monitor svc fails now m reason s).1
  resolve_for_monitor-FreshIds reason =
      resolve_for_monitor_cases svc fails now FreshIds s m reason fresh λ c found.
        publish-FreshIds svc _ _ (
          notify-FreshIds svc _ _ (
            update_where-Below c.id (resolve_row now reason) (λ i. refl) s.next_id s.incidents
              fresh))

  -- The hook keeps the ids in their order.
  pub on_scheduled_status_change-FreshIds :
      (old new : MonitorStatus) → FreshIds (on_scheduled_status_change svc fails now m old new s)
  unfolding on_scheduled_status_change
  on_scheduled_status_change-FreshIds old down = open_for_monitor-FreshIds _ _ _
  on_scheduled_status_change-FreshIds old degraded = open_for_monitor-FreshIds _ _ _
  on_scheduled_status_change-FreshIds old up = resolve_for_monitor-FreshIds _
  on_scheduled_status_change-FreshIds old _ = fresh
