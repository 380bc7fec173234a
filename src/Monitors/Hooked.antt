-- ===== src/Monitors/Hooked.antt =====
-- What the events and the incident hook of a heartbeat do to the incidents of its monitor.
use blackgrid.Prelude.{
  ◌≤◌, ℕ, String, Bool, true, false, not, if◌then◌else◌, ◌≡◌, refl, sym, subst, ap, ◌∙◌, ◌++◌,
  Option, none, some, List, [], ◌∷◌, count_if, Option-cases, Bool-cases, inl, inr, arith,
}
use blackgrid.Model.{
  Monitor, MonitorStatus, unknown, paused, other, Event, up, down, degraded, Severity, status_eq,
}
use blackgrid.Incident.Store.{
  Store, active_for, get_open_incident_for_monitor, new_incident, resolve_row,
}
use blackgrid.Incident.Output
use blackgrid.Incident.Output.{Service, is_valid_severity}
use blackgrid.Incident.Service.{
  open_for_monitor, create_for_monitor, resolve_for_monitor, details_col,
}
use blackgrid.Incident.Hook.{on_scheduled_status_change}
use blackgrid.Incident.Cases.{on_scheduled_status_change-monitors}
use blackgrid.Incident.Outcome.{
  FreshIds, on_scheduled_status_change-FreshIds, open_for_monitor_one, resolve_for_monitor_clears,
}
use blackgrid.Scheduler.{status_event}
use blackgrid.Monitors.{MonitorHandler, Site, MonitorQuery, with_store, publish_to}
use blackgrid.Monitors.Push.{
  pushed_status, known_status, heartbeat_event, heartbeat_events, heartbeat_hook,
}

abbrev pub never : Output.Query → Bool
never q = false

abbrev pub no_failure : MonitorQuery → Bool
no_failure q = false

abbrev pub is_failing : MonitorStatus → Bool
is_failing down = true
is_failing degraded = true
is_failing _ = false

abbrev pub is_pushed : MonitorStatus → Bool
is_pushed up = true
is_pushed down = true
is_pushed degraded = true
is_pushed _ = false

abbrev pub one_if : Bool → ℕ
one_if b = if b then 1 else 0

opened_one :
    (svc : Service) (now : ℕ) (m : Monitor) (sev : Severity) (summary details : String) (s : Store)
    → FreshIds s
    → count_if (active_for m.id) s.incidents ≤ 1
    → is_valid_severity sev ≡ true
    → count_if
        (active_for m.id)
        (open_for_monitor svc never now m sev summary details s).1.incidents
      ≡ 1
unfolding open_for_monitor create_for_monitor
opened_one svc now m sev summary details s fresh single valid =
    let after = open_for_monitor svc never now m sev summary details s in
    elim (Option-cases (get_open_incident_for_monitor m.id s)) [
      | inl nothing ↦
          (open_for_monitor_one svc never now m sev summary details s after.1
            (new_incident s.next_id now m.id sev summary (details_col details)) true fresh single
            (ground (arith, nothing, valid))).1
      | inr (c, found) ↦
          (open_for_monitor_one svc never now m sev summary details s after.1 c false fresh single
            (ground (arith, found, valid))).1
    ]

resolved_none :
    (svc : Service) (now : ℕ) (m : Monitor) (reason : String) (s : Store)
    → FreshIds s
    → count_if (active_for m.id) s.incidents ≤ 1
    → count_if (active_for m.id) (resolve_for_monitor svc never now m reason s).1.incidents ≡ 0
unfolding resolve_for_monitor
resolved_none svc now m reason s fresh single =
    let after = resolve_for_monitor svc never now m reason s in
    elim (Option-cases (get_open_incident_for_monitor m.id s)) [
      | inl nothing ↦
          (resolve_for_monitor_clears svc never now m reason s after.1 none fresh single
            (ground (arith, nothing))).0
      | inr (c, found) ↦
          (resolve_for_monitor_clears svc never now m reason s after.1
            (some (resolve_row now reason c)) fresh single (ground (arith, found))).0
    ]

hooked_down :
    (svc : Service) (now : ℕ) (m : Monitor) (old : MonitorStatus) (s : Store)
    → FreshIds s
    → count_if (active_for m.id) s.incidents ≤ 1
    → count_if (active_for m.id) (on_scheduled_status_change svc never now m old down s).incidents
      ≡ 1
unfolding on_scheduled_status_change
hooked_down svc now m old s fresh single = opened_one svc now m _ _ _ s fresh single refl

hooked_degraded :
    (svc : Service) (now : ℕ) (m : Monitor) (old : MonitorStatus) (s : Store)
    → FreshIds s
    → count_if (active_for m.id) s.incidents ≤ 1
    → count_if
        (active_for m.id)
        (on_scheduled_status_change svc never now m old degraded s).incidents
      ≡ 1
unfolding on_scheduled_status_change
hooked_degraded svc now m old s fresh single = opened_one svc now m _ _ _ s fresh single refl

hooked_up :
    (svc : Service) (now : ℕ) (m : Monitor) (old : MonitorStatus) (s : Store)
    → FreshIds s
    → count_if (active_for m.id) s.incidents ≤ 1
    → count_if (active_for m.id) (on_scheduled_status_change svc never now m old up s).incidents ≡ 0
unfolding on_scheduled_status_change
hooked_up svc now m old s fresh single = resolved_none svc now m _ s fresh single

hooked :
    (svc : Service) (now : ℕ) (m : Monitor) (old new : MonitorStatus) (s : Store)
    → FreshIds s
    → count_if (active_for m.id) s.incidents ≤ 1
    → is_pushed new ≡ true
    → count_if (active_for m.id) (on_scheduled_status_change svc never now m old new s).incidents
      ≡ one_if (is_failing new)
hooked svc now m old up s fresh single h = hooked_up svc now m old s fresh single
hooked svc now m old down s fresh single h = hooked_down svc now m old s fresh single
hooked svc now m old degraded s fresh single h = hooked_degraded svc now m old s fresh single
hooked svc now m old unknown s fresh single h = cc
hooked svc now m old paused s fresh single h = cc
hooked svc now m old (other w) s fresh single h = cc

known_status-is_pushed : (s : MonitorStatus) → is_pushed (known_status s) ≡ true
known_status-is_pushed up = refl
known_status-is_pushed down = refl
known_status-is_pushed degraded = refl
known_status-is_pushed unknown = refl
known_status-is_pushed paused = refl
known_status-is_pushed (other s) = refl

pub pushed_status-is_pushed :
    (query body : Option MonitorStatus) → is_pushed (pushed_status query body) ≡ true
pushed_status-is_pushed (some s) body = known_status-is_pushed s
pushed_status-is_pushed none (some s) = known_status-is_pushed s
pushed_status-is_pushed none none = refl

-- The order of the ids, the number of active incidents of the monitor `id`, and the rows.
pub record Holds (id n : ℕ) (ms : List Monitor) (s : Store) : Type 0 where
  pub fresh : FreshIds s
  pub count : count_if (active_for id) s.incidents ≡ n
  pub rows : s.monitors ≡ ms

publish_to-Holds :
    (id n : ℕ) (ms : List Monitor) (h : MonitorHandler) (e : Event) (s : Site)
    → Holds id n ms s.backend.store
    → Holds id n ms (publish_to h e s).backend.store
publish_to-Holds id n ms h e s v = flag h.has_bus
  where
    flag :
        (b : Bool)
        → Holds id n ms
            (if b
              then with_store
                  (record s.backend.store { published = s.backend.store.published ++ (e ∷ []) })
                  s
              else s).backend.store
    flag true = record { fresh = v.fresh; count = v.count; rows = v.rows }
    flag false = v

pub heartbeat_events-Holds :
    (id n : ℕ) (ms : List Monitor) (h : MonitorHandler) (m : Monitor) (status : MonitorStatus)
    (s : Site)
    → Holds id n ms s.backend.store
    → Holds id n ms (heartbeat_events h m status s).backend.store
heartbeat_events-Holds id n ms h m status s v = flag (not (status_eq status m.status))
  where
    first : Holds id n ms (publish_to h (heartbeat_event m status) s).backend.store
    first = publish_to-Holds id n ms h (heartbeat_event m status) s v

    flag :
        (b : Bool)
        → Holds id n ms
            (if b
              then publish_to h (status_event m status) (publish_to h (heartbeat_event m status) s)
              else publish_to h (heartbeat_event m status) s).backend.store
    flag true =
        publish_to-Holds id n ms h (status_event m status)
          (publish_to h (heartbeat_event m status) s) first
    flag false = first

status_eq-is_failing : (a b : MonitorStatus) → status_eq a b ≡ true → is_failing a ≡ is_failing b
status_eq-is_failing up up h = refl
status_eq-is_failing down down h = refl
status_eq-is_failing degraded degraded h = refl
status_eq-is_failing unknown unknown h = refl
status_eq-is_failing paused paused h = refl
status_eq-is_failing (other a) (other b) h = refl
status_eq-is_failing _ _ h = cc

one_if_bound : (b : Bool) (n : ℕ) → n ≡ one_if b → n ≤ 1
one_if_bound b n e = ground (arith, e)

pub heartbeat_hook-Holds :
    (ms : List Monitor) (h : MonitorHandler) (now : ℕ) (m updated : Monitor)
    (status : MonitorStatus) (s : Site)
    → h.has_hook ≡ true
    → updated.id ≡ m.id
    → is_pushed status ≡ true
    → Holds m.id (one_if (is_failing m.status)) ms s.backend.store
    → Holds m.id
        (one_if (is_failing status))
        ms
        (heartbeat_hook h no_failure now m updated status s).backend.store
heartbeat_hook-Holds ms h now m updated status s hook same pushed v =
    elim (Bool-cases (status_eq status m.status)) [
      | inl kept ↦
          rw (hook, kept)
            (record {
              fresh = v.fresh;
              count = v.count ∙ ap one_if (sym (status_eq-is_failing status m.status kept));
              rows = v.rows;
            })
      | inr changed ↦
          rw (hook, changed)
            (record {
              fresh =
                  on_scheduled_status_change-FreshIds h.service never now updated s.backend.store
                    v.fresh m.status status;
              count =
                  subst
                    (λ k.
                      count_if (active_for k)
                        (on_scheduled_status_change h.service never now updated m.status status
                          s.backend.store).incidents
                      ≡ one_if (is_failing status))
                    same
                    (hooked h.service now updated m.status status s.backend.store v.fresh
                      (subst (λ k. count_if (active_for k) s.backend.store.incidents ≤ 1) (sym same)
                        (one_if_bound (is_failing m.status) _ v.count))
                      pushed);
              rows =
                  on_scheduled_status_change-monitors h.service never now updated m.status status
                    s.backend.store
                  ∙ v.rows;
            })
    ]
