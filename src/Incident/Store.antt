-- ===== src/Incident/Store.antt =====
-- The table `incidents` and its queries (internal/db/incidents.sql.go), with the gauge and the
-- output of the incident service.
use blackgrid.Prelude.{
  ℕ, ◌+◌, ◌==◌, ltb, String, Bool, true, false, ◌&&◌, if◌then◌else◌, Option, none, some, List, [],
  ◌∷◌, find_if, ℤ,
}
use text.Mathlib.Text.{◌==◌ as str_eq}
use blackgrid.Model.{
  Monitor, Incident, IncidentStatus, opened, acknowledged, resolved, Severity, Event, Notice,
}

-- `incidents` is newest first, `published` and `notified` oldest first.
pub record Store : Type 0 where
  pub monitors : List Monitor
  pub incidents : List Incident
  pub next_id : ℕ
  pub incidents_open : ℤ
  pub published : List Event
  pub notified : List Notice

-- status IN ('open', 'acknowledged')
abbrev pub is_active : IncidentStatus → Bool
is_active opened = true
is_active acknowledged = true
is_active resolved = false

abbrev pub active_for : ℕ → Incident → Bool
active_for monitor_id i = i.monitor_id == monitor_id && is_active i.status

-- ORDER BY started_at DESC LIMIT 1, over the rows that pass the test.
abbrev pub later : Incident → Option Incident → Incident
later i none = i
later i (some j) = if ltb i.started_at j.started_at then j else i

abbrev pub latest : (Incident → Bool) → List Incident → Option Incident
latest p [] = none
latest p (i ∷ is) = if p i then some (later i (latest p is)) else latest p is

abbrev pub get_open_incident_for_monitor : ℕ → Store → Option Incident
get_open_incident_for_monitor monitor_id s = latest (active_for monitor_id) s.incidents

abbrev pub get_incident : ℕ → Store → Option Incident
get_incident id s = find_if (λ i. i.id == id) s.incidents

abbrev pub get_monitor : ℕ → Store → Option Monitor
get_monitor id s = find_if (λ m. m.id == id) s.monitors

-- The row that createIncident inserts. The database chooses an id that is not in use.
abbrev pub new_incident : ℕ → ℕ → ℕ → Severity → String → Option String → Incident
new_incident id now monitor_id severity summary details = record {
  id = id;
  monitor_id = monitor_id;
  status = opened;
  severity = severity;
  started_at = now;
  acknowledged_at = none;
  resolved_at = none;
  summary = summary;
  details = details;
}

abbrev pub insert_incident : Incident → Store → Store
insert_incident i s = record s { incidents = i ∷ s.incidents; next_id = s.next_id + 1 }

-- COALESCE(NULLIF($2, ''), details)
abbrev pub note_or : String → Option String → Option String
note_or note details = if str_eq note "" then details else some note

-- The assignments of acknowledgeIncident and resolveIncident.
abbrev pub acknowledge_row : ℕ → String → Incident → Incident
acknowledge_row now note i = record i {
  status = acknowledged;
  acknowledged_at = some now;
  details = note_or note i.details;
}

abbrev pub resolve_row : ℕ → String → Incident → Incident
resolve_row now note i = record i {
  status = resolved;
  resolved_at = some now;
  details = note_or note i.details;
}

-- UPDATE … WHERE id = $1
abbrev pub update_where : ℕ → (Incident → Incident) → List Incident → List Incident
update_where id f [] = []
update_where id f (i ∷ is) = (if i.id == id then f i else i) ∷ update_where id f is

abbrev pub update_incident : ℕ → (Incident → Incident) → Store → Store
update_incident id f s = record s { incidents = update_where id f s.incidents }
