-- ===== src/StatusPages/Pages.antt =====
-- CreateStatusPage, UpdateStatusPage and DeleteStatusPage.
use blackgrid.Prelude.{
  ℕ, suc, String, Bool, true, false, not, ◌&&◌, if◌then◌else◌, ◌==◌, Option, none, some, List, [],
  ◌∷◌, any_of, remove_by, update_by, Result, ok, err,
}
use text.Mathlib.Text.{◌==◌ as str_eq}
use blackgrid.Model.{status_page_changed, Value, string}
use blackgrid.StatusPages.{
  Texts, StatusPage, StatusPageMonitor, PageStore, PageQuery, get_page, create_page_row,
  update_page_row, delete_page_row, PageError, status_page_not_found, status_page_duplicate_slug,
  status_page_invalid_slug, status_page_name_required, page_database, find_page, page_event, tell,
  or_else,
}
use blackgrid.StatusPages.Slug.{generate_slug, is_valid_slug}

pub record StatusPageInput : Type 0 where
  pub name : String
  pub slug : String
  pub description : Option String
  pub public : Option Bool
  pub show_uptime : Option Bool
  pub show_incidents : Option Bool

-- A description of blanks is none.
abbrev pub text_col : Texts → Option String → Option String
text_col t none = none
text_col t (some d) = if str_eq (t.trim d) "" then none else some d

abbrev pub page_slug_in_use : String → ℕ → List StatusPage → Bool
page_slug_in_use slug id ps = any_of (λ (p : StatusPage). str_eq p.slug slug && not (p.id == id)) ps

abbrev pub requested_slug : Texts → StatusPageInput → String
requested_slug t r =
    if str_eq (t.trim r.slug) ""
    then generate_slug (t.lower (t.trim (t.trim r.name)))
    else t.trim r.slug

abbrev pub new_page : Texts → ℕ → StatusPageInput → StatusPage
new_page t id r = record {
  id = id;
  name = t.trim r.name;
  slug = requested_slug t r;
  description = text_col t r.description;
  public = or_else false r.public;
  show_uptime = or_else true r.show_uptime;
  show_incidents = or_else true r.show_incidents;
}

abbrev pub changed_event : String → StatusPage → List (String × Value)
changed_event action p =
    ("action", string action) ∷ ("name", string p.name) ∷ ("slug", string p.slug) ∷ []

abbrev pub insert_page : StatusPage → PageStore → PageStore
insert_page p s = record s { pages = p ∷ s.pages; next_page = suc s.next_page }

unfoldable pub create_status_page :
    Texts
    → Bool
    → (PageQuery → Bool)
    → StatusPageInput
    → PageStore
    → Result PageError StatusPage × PageStore
unfolding is_valid_slug generate_slug
create_status_page t has_bus fails r s =
    let p = new_page t s.next_page r in
    if str_eq p.name ""
    then (err status_page_name_required, s)
    else if not (is_valid_slug p.slug)
    then (err status_page_invalid_slug, s)
    else if fails create_page_row
    then (err (page_database create_page_row), s)
    else if page_slug_in_use p.slug p.id s.pages
    then (err status_page_duplicate_slug, s)
    else (
      ok p,
      tell has_bus (page_event status_page_changed p.id (changed_event "created" p))
          (insert_page p s),
    )

abbrev pub trimmed_or : Texts → String → String → String
trimmed_or t old new = if str_eq (t.trim new) "" then old else t.trim new

-- The row after the fields of the request.
abbrev pub edited_page : Texts → StatusPageInput → StatusPage → StatusPage
edited_page t r p = record p {
  name = trimmed_or t p.name r.name;
  slug = trimmed_or t p.slug r.slug;
  description = elim r.description [ none ↦ p.description | some d ↦ text_col t (some d) ];
  public = or_else p.public r.public;
  show_uptime = or_else p.show_uptime r.show_uptime;
  show_incidents = or_else p.show_incidents r.show_incidents;
}

unfoldable pub update_status_page :
    Texts
    → Bool
    → (PageQuery → Bool)
    → ℕ
    → StatusPageInput
    → PageStore
    → Result PageError StatusPage × PageStore
unfolding is_valid_slug
update_status_page t has_bus fails id r s =
    if fails get_page then (err (page_database get_page), s) else (elim (find_page id s) [
      | none ↦ (err status_page_not_found, s)
      | some current ↦
          let p = edited_page t r current in
          if not (str_eq (t.trim r.slug) "") && not (is_valid_slug (t.trim r.slug))
          then (err status_page_invalid_slug, s)
          else if fails update_page_row
          then (err (page_database update_page_row), s)
          else if page_slug_in_use p.slug id s.pages
          then (err status_page_duplicate_slug, s)
          else (
            ok p,
            tell has_bus (page_event status_page_changed id (changed_event "updated" p)) (record s {
              pages = update_by (λ (q : StatusPage). q.id) id (edited_page t r) s.pages;
            }),
          )
    ])

-- DELETE FROM status_pages, with ON DELETE CASCADE on the attached monitors.
abbrev pub without_page : ℕ → PageStore → PageStore
without_page id s = record s {
  pages = remove_by (λ (p : StatusPage). p.id) id s.pages;
  links = remove_by (λ (l : StatusPageMonitor). l.status_page_id) id s.links;
}

unfoldable pub delete_status_page :
    Bool → (PageQuery → Bool) → ℕ → PageStore → Result PageError (Unit {0}) × PageStore
delete_status_page has_bus fails id s =
    if fails get_page then (err (page_database get_page), s) else (elim (find_page id s) [
      | none ↦ (err status_page_not_found, s)
      | some current ↦ if fails delete_page_row then (err (page_database delete_page_row), s) else (
        ok tt,
        tell has_bus (page_event status_page_changed id (("action", string "deleted") ∷ []))
            (without_page id s),
      )
    ])
