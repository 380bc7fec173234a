-- ===== src/Incident/Invariant.antt =====
-- What holds of the incidents between two calls.
use blackgrid.Prelude.{
  ℕ, ◌≤◌, ◌==◌, ==_iff, ◌≡◌, refl, sym, subst, if◌then◌else◌, ◌++◌, inl, inr, Bool, true, false,
  not, none, some, is_some, [], ◌∷◌, count_if, All, ℤ, pos, inc, dec, arith, Option-cases, String,
}
use blackgrid.Model.{
  Notice, send_incident_resolved, Event, Monitor, MonitorStatus, up, down, degraded, Incident,
  acknowledged, opened, Severity,
}
use blackgrid.Incident.Store.{
  Store, is_active, active_for, get_incident, get_monitor, insert_incident, acknowledge_row,
  resolve_row, update_incident,
}
use blackgrid.Incident.Output.{Service, Query, notify, publish}
use blackgrid.Incident.Service.{
  notify_resolved, open_for_monitor, resolve_for_monitor, acknowledge, resolve,
}
use blackgrid.Incident.Hook.{on_scheduled_status_change}
use blackgrid.Incident.Cases.{
  open_for_monitor_cases, resolve_for_monitor_cases, acknowledge_cases, resolve_cases,
}
use blackgrid.Incident.Rows.{
  In, Below, bit, All-In, latest-none, latest-some, find_if-some, update_where-Below,
  update_where-All, count_if-update_where,
}

abbrev pub active : Incident → Bool
active i = is_active i.status

-- A resolution time is there just when the incident is resolved, and an acknowledged incident has
-- the time of that.
abbrev pub IsStamped : Incident → Type 0
IsStamped i =
    (is_some i.resolved_at ≡ not (active i))
    × (i.status ≡ acknowledged → is_some i.acknowledged_at ≡ true)

pub record Inv (s : Store) : Type 0 where
  pub fresh : Below s.next_id s.incidents
  pub single : (m : ℕ) → count_if (active_for m) s.incidents ≤ 1
  pub gauge : s.incidents_open ≡ pos (count_if active s.incidents)
  pub stamped : All IsStamped s.incidents

inserted-Inv :
    (s : Store) (m : ℕ) (i : Incident)
    → Inv s
    → i.id ≡ s.next_id
    → i.monitor_id ≡ m
    → i.status ≡ opened
    → i.resolved_at ≡ none
    → count_if (active_for m) s.incidents ≡ 0
    → Inv (record (insert_incident i s) { incidents_open = inc s.incidents_open })
inserted-Inv s m i v same_id same_monitor is_open not_resolved alone = record {
  fresh = (omega arith, subst (λ n. Below n s.incidents) (sym same_id) v.fresh);
  single = λ n. ground (arith, v.single n);
  gauge = ground (arith, v.gauge);
  stamped = ((ground arith, ground arith), v.stamped);
}

notify-Inv : (svc : Service) (n : Notice) (s : Store) → Inv s → Inv (notify svc n s)
notify-Inv svc n s v = flag svc.has_notifier
  where
    flag : (b : Bool) → Inv (if b then record s { notified = s.notified ++ n ∷ [] } else s)
    flag true = record { fresh = v.fresh; single = v.single; gauge = v.gauge; stamped = v.stamped }
    flag false = v

publish-Inv : (svc : Service) (e : Event) (s : Store) → Inv s → Inv (publish svc e s)
publish-Inv svc e s v = flag svc.has_bus
  where
    flag : (b : Bool) → Inv (if b then record s { published = s.published ++ e ∷ [] } else s)
    flag true = record { fresh = v.fresh; single = v.single; gauge = v.gauge; stamped = v.stamped }
    flag false = v

notify_resolved-Inv :
    (svc : Service) (fails : Query → Bool) (i : Incident) (s : Store)
    → Inv s
    → Inv (notify_resolved svc fails i s)
notify_resolved-Inv svc fails i s v = elim (Option-cases (get_monitor i.monitor_id s)) [
  | inl nothing ↦ ground (arith, nothing)
  | inr (m, found) ↦ ground (arith, found, notify-Inv svc (send_incident_resolved i m) s v)
]

-- An update of the row that a query found, which makes it no more active than it was.
updated-Inv :
    (s : Store) (f : Incident → Incident) (c : Incident) (g : ℤ)
    → Inv s
    → In c s.incidents
    → ((i : Incident) → (f i).id ≡ i.id)
    → ((i : Incident) → (f i).monitor_id ≡ i.monitor_id)
    → IsStamped (f c)
    → bit (active (f c)) ≤ bit (active c)
    → pos (count_if active (update_incident c.id f s).incidents) ≡ g
    → Inv (record (update_incident c.id f s) { incidents_open = g })
updated-Inv s f c g v found keeps_id keeps_monitor stamps fewer gauge = record {
  fresh = update_where-Below c.id f keeps_id s.next_id s.incidents v.fresh;
  single = λ n. ground (
    arith,
    v.single n,
    keeps_monitor c,
    count_if-update_where c.id f (active_for n) s.next_id s.incidents c v.fresh found refl,
  );
  gauge = sym gauge;
  stamped =
      update_where-All c.id f IsStamped s.next_id s.incidents c v.fresh found refl stamps v.stamped;
}

-- Resolving an active row takes one off the gauge.
resolved-Inv :
    (s : Store) (c : Incident) (now : ℕ) (note : String)
    → Inv s
    → In c s.incidents
    → active c ≡ true
    → Inv (record (update_incident c.id (resolve_row now note) s) {
      incidents_open = dec s.incidents_open;
    })
resolved-Inv s c now note v found was_active =
    updated-Inv s (resolve_row now note) c (dec s.incidents_open) v found (λ i. refl) (λ i. refl)
      (refl, λ e. cc) (omega arith)
      (ground (
        arith,
        v.gauge,
        count_if-update_where c.id (resolve_row now note) active s.next_id s.incidents c v.fresh
            found refl,
      ))

acknowledged-Inv :
    (s : Store) (c : Incident) (now : ℕ) (note : String)
    → Inv s
    → In c s.incidents
    → c.status ≡ opened
    → Inv (update_incident c.id (acknowledge_row now note) s)
acknowledged-Inv s c now note v found was_open =
    updated-Inv s (acknowledge_row now note) c s.incidents_open v found (λ i. refl) (λ i. refl)
      (ground (arith, All-In IsStamped s.incidents c v.stamped found), λ e. refl) (ground arith)
      (ground (
        arith,
        v.gauge,
        count_if-update_where c.id (acknowledge_row now note) active s.next_id s.incidents c v.fresh
            found refl,
      ))

found_id :
    (s : Store) (id : ℕ) (c : Incident)
    → get_incident id s ≡ some c
    → In c s.incidents × (c.id ≡ id)
found_id s id c e =
    let (inside, same) = find_if-some (λ i. i.id == id) s.incidents c e in
    (inside, (==_iff c.id id).0 same)

module _ (svc : Service) (fails : Query → Bool) (now : ℕ) (s : Store) (v : Inv s) where
  pub open_for_monitor-Inv :
      (m : Monitor) (sev : Severity) (summary details : String)
      → Inv (open_for_monitor svc fails now m sev summary details s).1
  open_for_monitor-Inv m sev summary details =
      open_for_monitor_cases svc fails now Inv s m sev summary details v λ nothing.
        publish-Inv svc _ _ (
          notify-Inv svc _ _ (
            inserted-Inv s m.id _ v refl refl refl refl
              (latest-none (active_for m.id) s.incidents nothing)))

  pub resolve_for_monitor-Inv :
      (m : Monitor) (reason : String) → Inv (resolve_for_monitor svc fails now m reason s).1
  resolve_for_monitor-Inv m reason =
      resolve_for_monitor_cases svc fails now Inv s m reason v λ c found.
        let (inside, is_open) = latest-some (active_for m.id) s.incidents c found in
        publish-Inv svc _ _
          (notify-Inv svc _ _ (resolved-Inv s c now reason v inside (ground arith)))

  pub acknowledge-Inv : (id : ℕ) (note : String) → Inv (acknowledge svc fails now id note s).1
  acknowledge-Inv id note = acknowledge_cases svc fails now Inv s id note v λ c found was_open.
      let (inside, same) = found_id s id c found in
      publish-Inv svc _ _ (
        subst (λ k. Inv (update_incident k (acknowledge_row now note) s)) same
          (acknowledged-Inv s c now note v inside was_open))

  pub resolve-Inv : (id : ℕ) (note : String) → Inv (resolve svc fails now id note s).1
  resolve-Inv id note = resolve_cases svc fails now Inv s id note v λ c found was_active.
      let (inside, same) = found_id s id c found in
      publish-Inv svc _ _ (
        notify_resolved-Inv svc fails _ _ (
          subst
            (λ k. Inv (record (update_incident k (resolve_row now note) s) {
              incidents_open = dec s.incidents_open;
            }))
            same (resolved-Inv s c now note v inside was_active)))

  pub on_scheduled_status_change-Inv :
      (m : Monitor) (old new : MonitorStatus)
      → Inv (on_scheduled_status_change svc fails now m old new s)
  unfolding on_scheduled_status_change
  on_scheduled_status_change-Inv m old down = open_for_monitor-Inv m _ _ _
  on_scheduled_status_change-Inv m old degraded = open_for_monitor-Inv m _ _ _
  on_scheduled_status_change-Inv m old up = resolve_for_monitor-Inv m _
  on_scheduled_status_change-Inv m old _ = v
