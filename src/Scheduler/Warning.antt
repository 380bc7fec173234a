-- ===== src/Scheduler/Warning.antt =====
-- The incident of an outage: it is opened with the severity of the first status that the monitor
-- leaves `up` for, and later statuses do not change it.
use blackgrid.Prelude.{
  ℕ, zero, suc, ◌≤◌, ◌≡◌, ◌≢◌, refl, sym, subst, ap, ◌∙◌, true, false, none, some, List, arith,
}
use blackgrid.Model.{Event, Monitor, MonitorStatus, up, down, degraded, Incident, warning}
use blackgrid.Incident.Store.{
  Store, latest, active_for, get_monitor, get_open_incident_for_monitor, new_incident,
}
use blackgrid.Incident.Output.{Service}
use blackgrid.Incident.Service.{open_for_monitor, create_for_monitor, details_col}
use blackgrid.Incident.Hook.{on_scheduled_status_change, summary_of, details_of}
use blackgrid.Scheduler.{
  Scheduler, add_result, result_row, is_supported, count_failures, CheckResult, Backend,
  retried_status, settle, written, write_monitor, update_params, call_hook, publish_all,
  check_events,
}
use blackgrid.Scheduler.Outage.{
  works, failed, Stage, status_at, check_again, check_again-settle, outage, outage-Stage, history,
}

-- An active incident of the monitor, with severity warning.
abbrev pub HasWarning : ℕ → List Incident → Type 0
HasWarning id is = (i : Incident) × (latest (active_for id) is ≡ some i) × (i.severity ≡ warning)

hook_first :
    (svc : Service) (now : ℕ) (m : Monitor) (old : MonitorStatus) (s : Store)
    → get_open_incident_for_monitor m.id s ≡ none
    → HasWarning m.id (on_scheduled_status_change svc (λ _. false) now m old degraded s).incidents
unfolding on_scheduled_status_change open_for_monitor create_for_monitor
hook_first svc now m old s nothing = (
  new_incident s.next_id now m.id warning (summary_of m "degraded")
      (details_col (details_of m old "degraded")),
  ground (arith, nothing),
  refl,
)

hook_again :
    (svc : Service) (now : ℕ) (m : Monitor) (old st : MonitorStatus) (s : Store) (i : Incident)
    → st ≢ up
    → get_open_incident_for_monitor m.id s ≡ some i
    → on_scheduled_status_change svc (λ _. false) now m old st s ≡ s
unfolding on_scheduled_status_change open_for_monitor
hook_again svc now m old st s i not_up found = ground (arith, found)

not_up : (retry k : ℕ) → status_at retry (suc k) ≢ up
not_up retry k = ground arith

-- The store after a check, in one equation.
settled_store :
    (sch : Scheduler) (now : ℕ) (m row : Monitor) (r : CheckResult) (w : Backend)
    → get_monitor m.id w.store ≡ some row
    → let st = retried_status works m r.status w in
      let arg = update_params now m st in
      (settle sch works now m r w).store
      ≡ call_hook sch works now m (written arg row) st (
          publish_all sch
            (check_events m r st)
            (record w.store { monitors = write_monitor arg w.store.monitors }))
unfolding settle
settled_store sch now m row r w found = ground (arith, found)

published_incidents :
    (sch : Scheduler) (es : List Event) (s : Store)
    → ((publish_all sch es s).incidents ≡ s.incidents)
published_incidents sch es s = ground arith

call_hook_first :
    (sch : Scheduler) (now : ℕ) (m row : Monitor) (s : Store)
    → sch.has_hook ≡ true
    → row.id ≡ m.id
    → m.status ≡ up
    → get_open_incident_for_monitor m.id s ≡ none
    → HasWarning m.id (call_hook sch works now m row degraded s).incidents
call_hook_first sch now m row s hooked same is_up nothing =
    subst (λ i. HasWarning i (call_hook sch works now m row degraded s).incidents) same
      (subst (λ t. HasWarning row.id t.incidents) (sym called)
        (hook_first sch.service now row m.status s
          (subst (λ i. get_open_incident_for_monitor i s ≡ none) (sym same) nothing)))
  where
    called :
        call_hook sch works now m row degraded s
        ≡ on_scheduled_status_change sch.service (λ _. false) now row m.status degraded s
    called = ground arith

call_hook_again :
    (sch : Scheduler) (now : ℕ) (m row : Monitor) (st : MonitorStatus) (s : Store)
    → row.id ≡ m.id
    → st ≢ up
    → HasWarning m.id s.incidents
    → HasWarning m.id (call_hook sch works now m row st s).incidents
call_hook_again sch now m row st s same not_up (i, found, sev) =
    subst (λ t. HasWarning m.id t.incidents) (sym kept) (i, found, sev)
  where
    kept : call_hook sch works now m row st s ≡ s
    kept = ground (
      arith,
      hook_again sch.service now row m.status st s i not_up
          (subst (λ k. get_open_incident_for_monitor k s ≡ some i) (sym same) found),
    )

-- The incidents after a check of an outage are those that the hook makes of the incidents before.
checked_incidents :
    (sch : Scheduler) (now id retry k : ℕ) (r : CheckResult) (w : Backend)
    → 1 ≤ retry
    → (v : Stage id retry k w)
    → (s : Store) × (row : Monitor) × (s.incidents ≡ w.store.incidents)
      × (row.id ≡ v.m.id)
      × ((check_again sch now id (failed r) w).store
          ≡ call_hook sch works now v.m row (status_at retry (suc k)) s)
checked_incidents sch now id retry k r w pos_retry v =
    let w' = add_result (result_row now v.m (failed r)) w in
    let st = retried_status works v.m down w' in
    let arg = update_params now v.m st in
    let s = record w.store { monitors = write_monitor arg w.store.monitors } in
    let es = check_events v.m (failed r) st in
    let (ran, at_id, run, next) = check_again-settle sch now id retry k r w pos_retry v in
    (
      publish_all sch es s,
      written arg v.m,
      published_incidents sch es s,
      refl,
      ap (λ (b : Backend). b.store) ran
          ∙ settled_store sch now v.m v.m (failed r) w' at_id
          ∙ ap (λ x. call_hook sch works now v.m (written arg v.m) x (publish_all sch es s)) next,
    )

module _ (sch : Scheduler) (id retry : ℕ) (r : CheckResult) (many : 2 ≤ retry) where
  warning_first :
      (now : ℕ) (w : Backend)
      → sch.has_hook ≡ true
      → Stage id retry 0 w
      → get_open_incident_for_monitor id w.store ≡ none
      → HasWarning id (check_again sch now id (failed r) w).store.incidents
  warning_first now w hooked v nothing =
      let (s, row, same, row_id, after) =
        checked_incidents sch now id retry 0 r w (omega arith) v in
      let to_degraded : status_at retry 1 ≡ degraded = ground arith in
      let alone : get_open_incident_for_monitor v.m.id s ≡ none =
        ap (latest (active_for v.m.id)) same
        ∙ subst (λ i. latest (active_for i) w.store.incidents ≡ none) (sym v.same_id) nothing in
      subst (λ i. HasWarning i (check_again sch now id (failed r) w).store.incidents) v.same_id
        (subst (λ t. HasWarning v.m.id t.incidents)
          (sym (after ∙ ap (λ x. call_hook sch works now v.m row x s) to_degraded))
          (call_hook_first sch now v.m row s hooked row_id v.status_now alone))

  warning_again :
      (now k : ℕ) (w : Backend)
      → Stage id retry (suc k) w
      → HasWarning id w.store.incidents
      → HasWarning id (check_again sch now id (failed r) w).store.incidents
  warning_again now k w v held =
      let (s, row, same, row_id, after) =
        checked_incidents sch now id retry (suc k) r w (omega arith) v in
      let before : HasWarning v.m.id s.incidents =
        subst (HasWarning v.m.id) (sym same)
          (subst (λ i. HasWarning i w.store.incidents) (sym v.same_id) held) in
      subst (λ i. HasWarning i (check_again sch now id (failed r) w).store.incidents) v.same_id
        (subst (λ t. HasWarning v.m.id t.incidents) (sym after)
          (call_hook_again sch now v.m row (status_at retry (suc (suc k))) s row_id
            (not_up retry (suc k)) before))

  warning_held :
      (now : ℕ → ℕ) (k : ℕ) (w : Backend)
      → sch.has_hook ≡ true
      → Stage id retry 0 w
      → get_open_incident_for_monitor id w.store ≡ none
      → HasWarning id (outage sch now id r (suc k) w).store.incidents
  unfolding outage
  warning_held now zero w hooked v nothing = warning_first (now 0) w hooked v nothing
  warning_held now (suc k) w hooked v nothing =
      warning_again (now (suc k)) k (outage sch now id r (suc k) w)
        (outage-Stage sch now id retry r (suc k) w (omega arith) v)
        (warning_held now k w hooked v nothing)

-- With a retry count of at least 2, an outage opens an incident of severity warning, and its active
-- incident is of that severity for as long as the outage goes on, also when the monitor is down:
-- for a monitor that is up, of a supported type, with no active incident and whose newest result,
-- if any, is not down, after any number of checks, at least one, that find it down, the hook being
-- set and no query failing.
pub outage-HasWarning :
    (sch : Scheduler) (now : ℕ → ℕ) (id : ℕ) (m : Monitor) (r : CheckResult) (k : ℕ) (w : Backend)
    → get_monitor id w.store ≡ some m
    → m.id ≡ id
    → is_supported m.monitor_type ≡ true
    → m.status ≡ up
    → 2 ≤ m.retry_count
    → count_failures (history id w) ≡ 0
    → get_open_incident_for_monitor id w.store ≡ none
    → sch.has_hook ≡ true
    → HasWarning id (outage sch now id r (suc k) w).store.incidents
outage-HasWarning sch now id m r k w found same_id supported is_up many healthy nothing hooked =
    warning_held sch id m.retry_count r many now k w hooked
      (record {
        m = m;
        row_found = found;
        same_id = same_id;
        same_retry = refl;
        supported = supported;
        status_now = is_up;
        failures = healthy;
      })
      nothing
