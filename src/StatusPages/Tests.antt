-- ===== src/StatusPages/Tests.antt =====
-- Status pages at concrete inputs.
use blackgrid.Prelude.{
  ℕ, String, Bool, true, false, not, refl, none, some, [], ◌∷◌, ◌≡◌, ◌⊎◌, arith, All, any_of, pos,
}
use blackgrid.Incident.Calls.{empty}
use blackgrid.StatusPages.{
  Texts, StatusPage, StatusPageMonitor, PageStore, reorder_monitor_mismatched,
}
use blackgrid.StatusPages.Slug.{
  generate_slug, is_valid_slug, slug_loop, has_alphanumeric, generate_slug-is_valid_slug,
}
use blackgrid.StatusPages.Links.{reorder_monitors}
use blackgrid.StatusPages.Public.{get_public_status_page}
use blackgrid.StatusPages.Order.{never_fails, is_attached, Ordered, reorder_monitors-Ordered}
use blackgrid.StatusPages.Hidden.{get_public_status_page-hides}
use blackgrid.StatusPages.Aggregate.{compute_aggregate_status-worst_status, worst_status}
use blackgrid.StatusPages.Public.{compute_aggregate_status}
use blackgrid.Model.{down, paused, up}

slug_example : generate_slug "my _ web--site!-" ≡ "my-web-site"
unfolding generate_slug slug_loop
slug_example = refl

generate_slug-is_valid_slug_example :
    is_valid_slug (generate_slug " - web") ≡ has_alphanumeric " - web"
generate_slug-is_valid_slug_example = generate_slug-is_valid_slug " - web"

compute_aggregate_status-worst_status_example :
    compute_aggregate_status (up ∷ paused ∷ down ∷ []) ≡ worst_status (up ∷ paused ∷ down ∷ [])
compute_aggregate_status-worst_status_example =
    compute_aggregate_status-worst_status (up ∷ paused ∷ down ∷ [])

abbrev plain : Texts
plain = record { trim = λ s. s; lower = λ s. s }

abbrev page : ℕ → String → Bool → StatusPage
page id slug public = record {
  id = id;
  name = slug;
  slug = slug;
  description = none;
  public = public;
  show_uptime = true;
  show_incidents = true;
}

abbrev link : ℕ → StatusPageMonitor
link monitor = record {
  status_page_id = 1;
  monitor_id = monitor;
  display_name = none;
  display_order = pos 0;
}

abbrev store : PageStore
store = record {
  backend = record { store = empty []; results = [] };
  pages = page 2 "staff" false ∷ page 1 "shop" true ∷ [];
  links = link 7 ∷ link 8 ∷ [];
  next_page = 3;
}

reorder_monitors-Ordered_example :
    (let (error, after) = reorder_monitors true never_fails 1 (8 ∷ 7 ∷ []) store in
      (All (λ k. is_attached 1 store k ≡ true) (8 ∷ 7 ∷ [])
        × (error ≡ none)
        × Ordered 1 0 (8 ∷ 7 ∷ []) after)
      ⊎ ((any_of (λ k. not (is_attached 1 store k)) (8 ∷ 7 ∷ []) ≡ true)
          × (error ≡ some reorder_monitor_mismatched)
          × (after ≡ store)))
reorder_monitors-Ordered_example =
    reorder_monitors-Ordered true 1 (page 1 "shop" true) (8 ∷ 7 ∷ []) store refl
      (((λ e. omega (arith, e)), tt), (tt, tt))

get_public_status_page-hides_example :
    get_public_status_page plain never_fails 9 "staff"
      (record store { pages = page 1 "shop" true ∷ [] })
    ≡ get_public_status_page plain never_fails 9 "staff" store
get_public_status_page-hides_example =
    get_public_status_page-hides plain never_fails 9 "staff" store (page 1 "shop" true ∷ [])
      (refl, (refl, tt)) (refl, tt) refl
