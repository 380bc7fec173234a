-- ===== src/StatusPages.antt =====
-- Status pages: internal/service/status_page.go over the tables status_pages and status_page_monitors
-- (internal/db/status_pages.sql.go). Whether a query fails is an argument.
pub mod Slug
pub mod Pages
pub mod Links
pub mod Public
pub mod Aggregate
pub mod Order
pub mod Hidden
mod Tests
use blackgrid.Prelude.{
  ℕ, String, Bool, true, false, if◌then◌else◌, ◌&&◌, ◌==◌, Option, none, some, List, [], ◌∷◌, ◌++◌,
  find_if, ℤ,
}
use text.Mathlib.Text.{◌==◌ as str_eq}
use blackgrid.Model.{Event, EventType, Value}
use blackgrid.Scheduler.{Backend}

-- strings.TrimSpace, strings.ToLower, and regexp as far as validateSlug uses it are of the library; the
-- first two are this parameter.
pub record Texts : Type 0 where
  pub trim : String → String
  pub lower : String → String

-- A row of `status_pages`.
pub record StatusPage : Type 0 where
  pub id : ℕ
  pub name : String
  pub slug : String
  pub description : Option String
  pub public : Bool
  pub show_uptime : Bool
  pub show_incidents : Bool

-- A row of `status_page_monitors`.
pub record StatusPageMonitor : Type 0 where
  pub status_page_id : ℕ
  pub monitor_id : ℕ
  pub display_name : Option String
  pub display_order : ℤ

-- The pages stand newest first, the attached monitors oldest first.
pub record PageStore : Type 0 where
  pub backend : Backend
  pub pages : List StatusPage
  pub links : List StatusPageMonitor
  pub next_page : ℕ

-- The calls of the database; those in a loop carry the id of the monitor.
pub data PageQuery : Type 0 where
  get_page get_page_by_slug create_page_row update_page_row delete_page_row : PageQuery
  get_link attach_link max_order update_link remove_link list_links list_incidents : PageQuery
  check_link current_link reorder_link read_monitor uptime_day uptime_month : ℕ → PageQuery

pub data PageError : Type 0 where
  status_page_not_found status_page_duplicate_slug status_page_invalid_slug : PageError
  status_page_name_required monitor_already_attached monitor_not_attached : PageError
  reorder_monitor_mismatched : PageError
  page_database : PageQuery → PageError

abbrev pub find_page : ℕ → PageStore → Option StatusPage
find_page id s = find_if (λ (p : StatusPage). p.id == id) s.pages

abbrev pub find_page_by_slug : String → PageStore → Option StatusPage
find_page_by_slug slug s = find_if (λ (p : StatusPage). str_eq p.slug slug) s.pages

abbrev pub is_link : ℕ → ℕ → StatusPageMonitor → Bool
is_link page monitor l = l.status_page_id == page && l.monitor_id == monitor

abbrev pub find_link : ℕ → ℕ → PageStore → Option StatusPageMonitor
find_link page monitor s = find_if (is_link page monitor) s.links

abbrev pub page_event : EventType → ℕ → List (String × Value) → Event
page_event t id payload = record {
  event_type = t;
  object_type = "status_page";
  object_id = id;
  payload = payload;
}

-- s.bus.Publish, where there is a bus.
abbrev pub tell : Bool → Event → PageStore → PageStore
tell has_bus e s =
    if has_bus
    then record s {
      backend = record s.backend {
        store = record s.backend.store { published = s.backend.store.published ++ (e ∷ []) };
      };
    }
    else s

abbrev pub or_else {ℓ} : {A : Type ℓ} → A → Option A → A
or_else d none = d
or_else d (some a) = a
