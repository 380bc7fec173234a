-- ===== src/Incident/Lifecycle.antt =====
-- The life of an incident over any sequence of calls.
use blackgrid.Prelude.{
  ℕ, ◌≤◌, ◌==◌, ◌≡◌, refl, sym, subst, ap, ◌∙◌, ==_iff, Bool, true, false, some, List, [], ◌∷◌,
  find_if, arith, String, if◌then◌else◌,
}
use blackgrid.Model.{
  Event, up, down, degraded, Monitor, Severity, Incident, IncidentStatus, opened, acknowledged,
  resolved,
}
use blackgrid.Incident.Store.{
  Store, is_active, get_incident, acknowledge_row, resolve_row, update_where, active_for,
}
use blackgrid.Incident.Output.{Service, Query, publish}
use blackgrid.Incident.Service.{
  after_create, after_recovery, after_resolve, open_for_monitor, resolve_for_monitor, acknowledge,
  resolve,
}
use blackgrid.Incident.Hook.{on_scheduled_status_change}
use blackgrid.Incident.Cases.{
  open_for_monitor_cases, resolve_for_monitor_cases, acknowledge_cases, resolve_cases,
}
use blackgrid.Incident.Rows.{Below-In, find_if-some, find_if-In, latest-some}
use blackgrid.Incident.Invariant.{Inv}
use blackgrid.Incident.Calls.{
  Call, opens, recovers, acknowledges, resolves, changes, Invocation, dispatch, step, step-Inv, run,
}

abbrev rank : IncidentStatus → ℕ
rank opened = 0
rank acknowledged = 1
rank resolved = 2

-- `j` is `i` later: it is about the same failure, is no less far on, and the same once resolved.
pub record Follows (i j : Incident) : Type 0 where
  pub same_id : j.id ≡ i.id
  pub same_monitor : j.monitor_id ≡ i.monitor_id
  pub same_severity : j.severity ≡ i.severity
  pub same_start : j.started_at ≡ i.started_at
  pub same_summary : j.summary ≡ i.summary
  pub no_way_back : rank i.status ≤ rank j.status
  pub final : i.status ≡ resolved → j ≡ i

abbrev pub Kept : ℕ → Incident → List Incident → Type 0
Kept id i is = (j : Incident) × (find_if (λ i. i.id == id) is ≡ some j) × Follows i j

Follows-refl : (i : Incident) → Follows i i
Follows-refl i = ground arith

Follows-trans : (i j k : Incident) → Follows i j → Follows j k → Follows i k
Follows-trans i j k h l = record {
  same_id = l.same_id ∙ h.same_id;
  same_monitor = l.same_monitor ∙ h.same_monitor;
  same_severity = l.same_severity ∙ h.same_severity;
  same_start = l.same_start ∙ h.same_start;
  same_summary = l.same_summary ∙ h.same_summary;
  no_way_back = omega (arith, h.no_way_back, l.no_way_back);
  final = λ e. l.final (ap (λ (x : Incident). x.status) (h.final e) ∙ e) ∙ h.final e;
}

find_if-update_where :
    (id : ℕ) (f : Incident → Incident) (k : ℕ) (is : List Incident) (i : Incident)
    → ((i : Incident) → (f i).id ≡ i.id)
    → find_if (λ i. i.id == id) is ≡ some i
    → find_if (λ i. i.id == id) (update_where k f is) ≡ some (if id == k then f i else i)
find_if-update_where id f k [] i keep e = cc
find_if-update_where id f k (j ∷ is) i keep e =
    ground (arith, keep j, find_if-update_where id f k is i keep)

module _ (s : Store) (v : Inv s) (id : ℕ) (i : Incident) (e : get_incident id s ≡ some i) where
  inserted-Kept : (n : Incident) → n.id ≡ s.next_id → Kept id i (n ∷ s.incidents)
  inserted-Kept n same =
      let (inside, is_id) = find_if-some (λ j. j.id == id) s.incidents i e in
      (i, ground (arith, Below-In s.next_id s.incidents i v.fresh inside, is_id), Follows-refl i)

  updated-Kept :
      (k : ℕ) (f : Incident → Incident) (c : Incident)
      → ((i : Incident) → (f i).id ≡ i.id)
      → get_incident k s ≡ some c
      → Follows c (f c)
      → Kept id i (update_where k f s.incidents)
  updated-Kept k f c keep found next = (
    if id == k then f i else i,
    find_if-update_where id f k s.incidents i keep e,
    follows (id == k) (λ same. one_row (ap (λ n. get_incident n s) ((==_iff id k).0 same))),
  )
    where
      one_row : get_incident id s ≡ get_incident k s → i ≡ c
      one_row same = cc

      follows : (b : Bool) → (b ≡ true → i ≡ c) → Follows i (if b then f i else i)
      follows true same = subst (λ x. Follows x (f x)) (sym (same refl)) next
      follows false same = Follows-refl i

resolve_row-Follows :
    (now : ℕ) (note : String) (c : Incident)
    → is_active c.status ≡ true
    → Follows c (resolve_row now note c)
resolve_row-Follows now note c h = ground arith

acknowledge_row-Follows :
    (now : ℕ) (note : String) (c : Incident)
    → c.status ≡ opened
    → Follows c (acknowledge_row now note c)
acknowledge_row-Follows now note c h = ground arith

-- Notices and events leave the table as it is.
after_create-incidents :
    (svc : Service) (m : Monitor) (i : Incident) (s : Store)
    → (after_create svc m i s).incidents ≡ s.incidents
after_create-incidents svc m i s = ground arith

after_recovery-incidents :
    (svc : Service) (m : Monitor) (reason : String) (i : Incident) (s : Store)
    → (after_recovery svc m reason i s).incidents ≡ s.incidents
after_recovery-incidents svc m reason i s = ground arith

publish-incidents :
    (svc : Service) (e : Event) (s : Store) → (publish svc e s).incidents ≡ s.incidents
publish-incidents svc e s = ground arith

after_resolve-incidents :
    (svc : Service) (fails : Query → Bool) (id : ℕ) (note : String) (i : Incident) (s : Store)
    → (after_resolve svc fails id note i s).incidents ≡ s.incidents
after_resolve-incidents svc fails id note i s = ground arith

module _ (svc : Service) (fails : Query → Bool) (now : ℕ) (s : Store) (v : Inv s) (id : ℕ)
    (i : Incident) (e : get_incident id s ≡ some i) where
  open_for_monitor-Kept :
      (m : Monitor) (sev : Severity) (summary details : String)
      → Kept id i (open_for_monitor svc fails now m sev summary details s).1.incidents
  open_for_monitor-Kept m sev summary details =
      open_for_monitor_cases svc fails now (λ t. Kept id i t.incidents) s m sev summary details
        (i, e, Follows-refl i)
        λ nothing.
          subst (Kept id i) (sym (after_create-incidents svc m _ _))
            (inserted-Kept s v id i e _ refl)

  resolve_for_monitor-Kept :
      (m : Monitor) (reason : String)
      → Kept id i (resolve_for_monitor svc fails now m reason s).1.incidents
  resolve_for_monitor-Kept m reason =
      resolve_for_monitor_cases svc fails now (λ t. Kept id i t.incidents) s m reason
        (i, e, Follows-refl i)
        λ c found.
          let (inside, is_open) = latest-some (active_for m.id) s.incidents c found in
          subst (Kept id i) (sym (after_recovery-incidents svc m reason _ _)) (
            updated-Kept s v id i e c.id (resolve_row now reason) c (λ _. refl)
              (find_if-In s.next_id s.incidents c v.fresh inside)
              (resolve_row-Follows now reason c (ground arith)))

  acknowledge-Kept :
      (k : ℕ) (note : String) → Kept id i (acknowledge svc fails now k note s).1.incidents
  acknowledge-Kept k note =
      acknowledge_cases svc fails now (λ t. Kept id i t.incidents) s k note (i, e, Follows-refl i)
        λ c found was_open. subst (Kept id i) (sym (publish-incidents svc _ _)) (
          updated-Kept s v id i e k (acknowledge_row now note) c (λ _. refl) found
            (acknowledge_row-Follows now note c was_open))

  resolve-Kept : (k : ℕ) (note : String) → Kept id i (resolve svc fails now k note s).1.incidents
  resolve-Kept k note =
      resolve_cases svc fails now (λ t. Kept id i t.incidents) s k note (i, e, Follows-refl i)
        λ c found was_active.
          subst (Kept id i) (sym (after_resolve-incidents svc fails k note _ _)) (
            updated-Kept s v id i e k (resolve_row now note) c (λ _. refl) found
              (resolve_row-Follows now note c was_active))

  dispatch-Kept : (c : Call) → Kept id i (dispatch c svc fails now s).incidents
  unfolding dispatch on_scheduled_status_change
  dispatch-Kept (opens m sev summary details) = open_for_monitor-Kept m sev summary details
  dispatch-Kept (recovers m reason) = resolve_for_monitor-Kept m reason
  dispatch-Kept (acknowledges k note) = acknowledge-Kept k note
  dispatch-Kept (resolves k note) = resolve-Kept k note
  dispatch-Kept (changes m old down) = open_for_monitor-Kept m _ _ _
  dispatch-Kept (changes m old degraded) = open_for_monitor-Kept m _ _ _
  dispatch-Kept (changes m old up) = resolve_for_monitor-Kept m _
  dispatch-Kept (changes m old _) = (i, e, Follows-refl i)

-- After any further sequence of calls an incident is still there, about the same monitor, with the
-- severity, start and summary that it was opened with; its status has not gone back in the order
-- open, acknowledged, resolved; and once resolved it does not change.
pub run-Follows :
    (svc : Service) (cs : List Invocation) (s : Store) (id : ℕ) (i : Incident)
    → Inv s
    → get_incident id s ≡ some i
    → Kept id i (run svc cs s).incidents
unfolding run step
run-Follows svc [] s id i v e = (i, e, Follows-refl i)
run-Follows svc (c ∷ cs) s id i v e =
    let (j, found, first) = dispatch-Kept svc c.fails c.now s v id i e c.call in
    let (k, last, rest) = run-Follows svc cs (step svc c s) id j (step-Inv svc c s v) found in
    (k, last, Follows-trans i j k first rest)
