-- ===== src/StatusPages/Public.antt =====
-- ComputeAggregateStatus, ComputeMonitorUptime and GetPublicStatusPage. Times are seconds; the float of
-- an uptime is kept as the pair of its counts.
use blackgrid.Prelude.{
  ℕ, String, Bool, true, false, not, ◌&&◌, ◌||◌, if◌then◌else◌, leb, ◌+◌, ◌*◌, ◌==◌, Option, none,
  some, List, [], ◌∷◌, any_of, keep_if, count_if, take, map, Result, ok, err,
}
use text.Mathlib.Text.{◌==◌ as str_eq}
use blackgrid.Model.{
  Monitor, MonitorResult, MonitorStatus, up, down, degraded, unknown, status_eq, MonitorType,
  Incident, IncidentStatus, Severity,
}
use blackgrid.Incident.Store.{get_monitor, is_active}
use blackgrid.StatusPages.{
  Texts, StatusPage, StatusPageMonitor, PageStore, PageQuery, get_page_by_slug, list_links,
  list_incidents, read_monitor, uptime_day, uptime_month, PageError, status_page_not_found,
  page_database, find_page_by_slug, or_else,
}
use blackgrid.StatusPages.Links.{leb_ℤ}

-- The loop over the statuses.
abbrev pub aggregate_loop : Bool → Bool → Bool → List MonitorStatus → String
aggregate_loop has_down has_degraded all_up [] =
    if has_down
    then "down"
    else if has_degraded
    then "degraded"
    else if all_up
    then "up"
    else "degraded"
aggregate_loop has_down has_degraded all_up (down ∷ ss) = aggregate_loop true has_degraded false ss
aggregate_loop has_down has_degraded all_up (degraded ∷ ss) = aggregate_loop has_down true false ss
aggregate_loop has_down has_degraded all_up (unknown ∷ ss) = aggregate_loop has_down true false ss
aggregate_loop has_down has_degraded all_up (up ∷ ss) =
    aggregate_loop has_down has_degraded all_up ss
aggregate_loop has_down has_degraded all_up (_ ∷ ss) = aggregate_loop has_down has_degraded false ss

unfoldable pub compute_aggregate_status : List MonitorStatus → String
compute_aggregate_status [] = "empty"
compute_aggregate_status (s ∷ ss) = aggregate_loop false false true (s ∷ ss)

abbrev pub insert_by_order : StatusPageMonitor → List StatusPageMonitor → List StatusPageMonitor
insert_by_order l [] = l ∷ []
insert_by_order l (k ∷ ks) =
    let rest = insert_by_order l ks in
    if leb_ℤ l.display_order k.display_order then l ∷ (k ∷ ks) else k ∷ rest

abbrev pub sort_links : List StatusPageMonitor → List StatusPageMonitor
sort_links [] = []
sort_links (l ∷ ls) = insert_by_order l (sort_links ls)

-- ORDER BY display_order ASC, created_at ASC
unfoldable pub list_status_page_monitors : ℕ → PageStore → List StatusPageMonitor
list_status_page_monitors page s =
    sort_links (keep_if (λ (l : StatusPageMonitor). l.status_page_id == page) s.links)

-- The counts of the results that are up, and of all, in the window.
abbrev pub uptime_window : ℕ → ℕ → ℕ → List MonitorResult → ℕ × ℕ
uptime_window now monitor seconds rs =
    let recent =
      keep_if (λ (r : MonitorResult). r.monitor_id == monitor && leb now (r.checked_at + seconds))
        rs in
    (
      count_if (λ (r : MonitorResult). status_eq r.status up) recent,
      count_if (λ (r : MonitorResult). true) recent,
    )

-- `none` where there is no result.
abbrev pub compute_monitor_uptime : ℕ → ℕ → ℕ → PageStore → Option (ℕ × ℕ)
compute_monitor_uptime now monitor seconds s =
    let counts = uptime_window now monitor seconds s.backend.results in
    if counts.1 == 0 then none else some counts

pub record PublicStatusMonitor : Type 0 where
  pub display_name : String
  pub monitor_type : MonitorType
  pub status : MonitorStatus
  pub last_checked_at : Option ℕ
  pub uptime_24h : Option (ℕ × ℕ)
  pub uptime_30d : Option (ℕ × ℕ)

pub record PublicIncident : Type 0 where
  pub monitor_display_name : String
  pub severity : Severity
  pub status : IncidentStatus
  pub started_at : ℕ
  pub resolved_at : Option ℕ
  pub summary : String

pub record PublicStatusPage : Type 0 where
  pub name : String
  pub slug : String
  pub description : String
  pub aggregate_status : String
  pub monitors : List PublicStatusMonitor
  pub incidents : List PublicIncident

abbrev pub display_of : Texts → Monitor → StatusPageMonitor → String
display_of t m l = elim l.display_name [
  | none ↦ m.name
  | some d ↦ if str_eq (t.trim d) "" then m.name else d
]

abbrev pub seconds_per_day : ℕ
seconds_per_day = 86400

abbrev pub public_monitor :
    Texts → ℕ → Bool → PageStore → StatusPageMonitor → Monitor → PublicStatusMonitor
public_monitor t now show_uptime s l m = record {
  display_name = display_of t m l;
  monitor_type = m.monitor_type;
  status = m.status;
  last_checked_at = m.last_checked_at;
  uptime_24h = if show_uptime then compute_monitor_uptime now m.id seconds_per_day s else none;
  uptime_30d =
      if show_uptime then compute_monitor_uptime now m.id (30 * seconds_per_day) s else none;
}

-- The loop over the links: a monitor that is gone is left out, another error ends it.
unfoldable pub shown_monitors :
    Texts
    → (PageQuery → Bool)
    → ℕ
    → Bool
    → PageStore
    → List StatusPageMonitor
    → Result PageError (List (StatusPageMonitor × Monitor))
shown_monitors t fails now show_uptime s [] = ok []
shown_monitors t fails now show_uptime s (l ∷ ls) =
    let rest = shown_monitors t fails now show_uptime s ls in
    if fails (read_monitor l.monitor_id)
    then err (page_database (read_monitor l.monitor_id))
    else (elim (get_monitor l.monitor_id s.backend.store) [
      | none ↦ rest
      | some m ↦
          if show_uptime && fails (uptime_day m.id)
          then err (page_database (uptime_day m.id))
          else if show_uptime && fails (uptime_month m.id)
          then err (page_database (uptime_month m.id))
          else (elim rest [ ok ms ↦ ok ((l, m) ∷ ms) | err e ↦ err e ])
    ])

abbrev pub insert_by_start : Incident → List Incident → List Incident
insert_by_start i [] = i ∷ []
insert_by_start i (j ∷ js) =
    let rest = insert_by_start i js in
    if leb j.started_at i.started_at then i ∷ (j ∷ js) else j ∷ rest

abbrev pub sort_by_start : List Incident → List Incident
sort_by_start [] = []
sort_by_start (i ∷ is) = insert_by_start i (sort_by_start is)

-- The incidents of the monitors that began in the window or are active, the latest first.
abbrev pub list_incidents_for_monitors_since : List ℕ → ℕ → ℕ → ℕ → List Incident → List Incident
list_incidents_for_monitors_since ids now window limit is = take limit (
    sort_by_start (
      keep_if
        (λ (i : Incident).
          any_of (λ (id : ℕ). id == i.monitor_id) ids
          && (leb now (i.started_at + window) || is_active i.status))
        is))

-- The name of the last link of the monitor, as the map that the loop fills has it.
abbrev pub shown_name : Texts → ℕ → List (StatusPageMonitor × Monitor) → String → String
shown_name t id [] name = name
shown_name t id ((l, m) ∷ rest) name =
    shown_name t id rest (if m.id == id then display_of t m l else name)

abbrev pub public_incident : Texts → List (StatusPageMonitor × Monitor) → Incident → PublicIncident
public_incident t shown i =
    let name = shown_name t i.monitor_id shown "" in
    record {
      monitor_display_name = if str_eq name "" then "service" else name;
      severity = i.severity;
      status = i.status;
      started_at = i.started_at;
      resolved_at = i.resolved_at;
      summary = i.summary;
    }

abbrev pub public_page :
    Texts
    → ℕ
    → PageStore
    → StatusPage
    → List (StatusPageMonitor × Monitor)
    → List PublicIncident
    → PublicStatusPage
public_page t now s page shown incidents = record {
  name = page.name;
  slug = page.slug;
  description = or_else "" page.description;
  aggregate_status =
      compute_aggregate_status (map (λ ((l, m) : StatusPageMonitor × Monitor). m.status) shown);
  monitors =
      map (λ ((l, m) : StatusPageMonitor × Monitor). public_monitor t now page.show_uptime s l m)
        shown;
  incidents = incidents;
}

unfoldable pub show_page :
    Texts → (PageQuery → Bool) → ℕ → PageStore → StatusPage → Result PageError PublicStatusPage
unfolding list_status_page_monitors shown_monitors
show_page t fails now s page =
    if fails list_links
    then err (page_database list_links)
    else (elim (shown_monitors t fails now page.show_uptime s
        (list_status_page_monitors page.id s)) [
          | err e ↦ err e
          | ok [] ↦ ok (public_page t now s page [] [])
          | ok (x ∷ xs) ↦
              if not page.show_incidents
              then ok (public_page t now s page (x ∷ xs) [])
              else if fails list_incidents
              then err (page_database list_incidents)
              else ok (
                  public_page t now s page (x ∷ xs) (
                    map (public_incident t (x ∷ xs)) (
                      list_incidents_for_monitors_since
                        (map (λ ((l, m) : StatusPageMonitor × Monitor). m.id) (x ∷ xs)) now
                        (30 * seconds_per_day) 50 s.backend.store.incidents)))
        ])

unfoldable pub get_public_status_page :
    Texts → (PageQuery → Bool) → ℕ → String → PageStore → Result PageError PublicStatusPage
unfolding show_page
get_public_status_page t fails now slug s =
    if fails get_page_by_slug
    then err (page_database get_page_by_slug)
    else (elim (find_page_by_slug slug s) [
      | none ↦ err status_page_not_found
      | some page ↦
          if not page.public then err status_page_not_found else show_page t fails now s page
    ])
