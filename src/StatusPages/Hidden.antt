-- ===== src/StatusPages/Hidden.antt =====
-- A private page is not to be told from one that is missing.
use blackgrid.Prelude.{
  ℕ, String, Bool, if◌then◌else◌, Option, none, some, List, [], ◌∷◌, ◌≡◌, refl, Bool-cases, subst,
  sym, ap, ◌∙◌, arith, find_if, keep_if, Option-cases, inl, inr, Result, err,
}
use text.Mathlib.Text.{◌==◌ as str_eq}
use text.Mathlib.TextEquality.{eq_iff}
use blackgrid.StatusPages.{
  Texts, StatusPage, StatusPageMonitor, PageStore, PageQuery, get_page_by_slug, PageError,
  status_page_not_found, page_database, find_page_by_slug,
}
use blackgrid.StatusPages.Public.{
  PublicStatusPage, shown_monitors, list_status_page_monitors, show_page, get_public_status_page,
}

abbrev pub SlugsDistinct : List StatusPage → Type 0
SlugsDistinct [] = Unit {0}
SlugsDistinct (p ∷ ps) =
    (find_if (λ (q : StatusPage). str_eq q.slug p.slug) ps ≡ none) × SlugsDistinct ps

abbrev pub public_only : List StatusPage → List StatusPage
public_only ps = keep_if (λ (p : StatusPage). p.public) ps

abbrev published : Option StatusPage → Option StatusPage
published none = none
published (some p) = if p.public then some p else none

absent-public_only :
    (slug : String) (ps : List StatusPage)
    → find_if (λ (q : StatusPage). str_eq q.slug slug) ps ≡ none
    → find_if (λ (q : StatusPage). str_eq q.slug slug) (public_only ps) ≡ none
absent-public_only slug [] h = refl
absent-public_only slug (p ∷ ps) h = ground (arith, absent-public_only slug ps)

find-public_only :
    (slug : String) (ps : List StatusPage)
    → SlugsDistinct ps
    → published (find_if (λ (q : StatusPage). str_eq q.slug slug) ps)
      ≡ find_if (λ (q : StatusPage). str_eq q.slug slug) (public_only ps)
find-public_only slug [] d = refl
find-public_only slug (p ∷ ps) d = elim (Bool-cases (str_eq p.slug slug)) [
  | inl here ↦
      let e : p.slug ≡ slug = ground (arith, here, eq_iff p.slug slug) in
      let gone = subst (λ k. find_if (λ (q : StatusPage). str_eq q.slug k) ps ≡ none) e d.0 in
      ground (arith, here, absent-public_only slug ps gone)
  | inr there ↦ ground (arith, there, find-public_only slug ps d.1)
]

shown_monitors-pages :
    (t : Texts) (fails : PageQuery → Bool) (now : ℕ) (up : Bool) (s : PageStore)
    (ps : List StatusPage) (ls : List StatusPageMonitor)
    → shown_monitors t fails now up (record s { pages = ps }) ls
      ≡ shown_monitors t fails now up s ls
unfolding shown_monitors
shown_monitors-pages t fails now up s ps [] = refl
shown_monitors-pages t fails now up s ps (l ∷ ls) =
    ground (arith, shown_monitors-pages t fails now up s ps ls)

abbrev answer :
    Texts
    → (PageQuery → Bool)
    → ℕ
    → PageStore
    → Option StatusPage
    → Result PageError PublicStatusPage
answer t fails now s none = err status_page_not_found
answer t fails now s (some p) = show_page t fails now s p

get_public_lem :
    (t : Texts) (fails : PageQuery → Bool) (now : ℕ) (slug : String) (s : PageStore)
    → SlugsDistinct s.pages
    → get_public_status_page t fails now slug s ≡ (
        if fails get_page_by_slug
        then err (page_database get_page_by_slug)
        else answer t fails now s
            (find_if (λ (q : StatusPage). str_eq q.slug slug) (public_only s.pages)))
unfolding get_public_status_page
get_public_lem t fails now slug s d = elim (Option-cases (find_page_by_slug slug s)) [
  | inl e ↦ ground (arith, e, find-public_only slug s.pages d)
  | inr (p, e) ↦ ground (arith, e, find-public_only slug s.pages d)
]

show_page-pages :
    (t : Texts) (fails : PageQuery → Bool) (now : ℕ) (s : PageStore) (ps : List StatusPage)
    (p : StatusPage)
    → show_page t fails now (record s { pages = ps }) p ≡ show_page t fails now s p
unfolding show_page list_status_page_monitors
show_page-pages t fails now s ps p =
    rw (shown_monitors-pages t fails now p.show_uptime s ps (list_status_page_monitors p.id s)) refl

answer-pages :
    (t : Texts) (fails : PageQuery → Bool) (now : ℕ) (s : PageStore) (ps : List StatusPage)
    (o : Option StatusPage)
    → answer t fails now (record s { pages = ps }) o ≡ answer t fails now s o
answer-pages t fails now s ps none = refl
answer-pages t fails now s ps (some p) = show_page-pages t fails now s ps p

-- If two tables of pages, each with distinct slugs, have the same public pages, then a request for any
-- slug gets the same answer from both, whichever queries fail: private pages do not show, and one is
-- not to be told from a page that does not exist.
pub get_public_status_page-hides :
    (t : Texts) (fails : PageQuery → Bool) (now : ℕ) (slug : String) (s : PageStore)
    (ps : List StatusPage)
    → SlugsDistinct s.pages
    → SlugsDistinct ps
    → public_only ps ≡ public_only s.pages
    → get_public_status_page t fails now slug (record s { pages = ps })
      ≡ get_public_status_page t fails now slug s
get_public_status_page-hides t fails now slug s ps d e same =
    let find = λ (qs : List StatusPage). find_if (λ (q : StatusPage). str_eq q.slug slug) qs in
    let other = record s { pages = ps } in
    get_public_lem t fails now slug other e
    ∙ ap
        (λ (r : Result PageError PublicStatusPage).
          if fails get_page_by_slug then err (page_database get_page_by_slug) else r)
        (answer-pages t fails now s ps (find (public_only ps))
          ∙ ap (λ qs. answer t fails now s (find qs)) same)
    ∙ sym (get_public_lem t fails now slug s d)
