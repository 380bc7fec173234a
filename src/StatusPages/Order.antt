-- ===== src/StatusPages/Order.antt =====
-- What ReorderMonitors does to the order of the monitors of a page.
use blackgrid.Prelude.{
  ℕ, suc, ◌*◌, Bool, true, false, not, Option, none, some, is_some, List, [], ◌∷◌, ◌≡◌, ◌≢◌, ◌⊎◌,
  inl, inr, refl, sym, ap, ◌∙◌, subst, arith, find_if, any_of, All, Option-cases, Bool-cases, ℤ,
  String,
}
use blackgrid.Model.{Event, status_page_monitor_changed, string}
use blackgrid.StatusPages.{
  page_event, StatusPageMonitor, PageStore, StatusPage, PageQuery, reorder_monitor_mismatched,
  find_page, find_link, is_link, tell,
}
use blackgrid.StatusPages.Links.{to_int32, write_link, mismatch, reorder_from, reorder_monitors}

abbrev pub never_fails : PageQuery → Bool
never_fails q = false

abbrev pub DistinctIds : List ℕ → Type 0
DistinctIds [] = Unit {0}
DistinctIds (id ∷ ids) = All (λ k. k ≢ id) ids × DistinctIds ids

-- The ids are attached, and their order is 10, 20, … from the index `i` on.
abbrev pub Ordered : ℕ → ℕ → List ℕ → PageStore → Type 0
Ordered page i [] s = Unit {0}
Ordered page i (id ∷ ids) s =
    ((l : StatusPageMonitor) × (find_link page id s ≡ some l)
      × (l.display_order ≡ to_int32 (suc i * 10)))
    × Ordered page (suc i) ids s

abbrev pub is_attached : ℕ → PageStore → ℕ → Bool
is_attached page s id = is_some (find_link page id s)

module _ (page id : ℕ) (name : Option String) (order : ℤ) where
  find-write_link :
      (ls : List StatusPageMonitor) (l : StatusPageMonitor)
      → find_if (is_link page id) ls ≡ some l
      → find_if (is_link page id) (write_link page id name order ls)
        ≡ some (record l { display_name = name; display_order = order })
  find-write_link [] l h = cc
  find-write_link (k ∷ ks) l h = ground (arith, find-write_link ks l)

  find-write_link_other :
      (j : ℕ) (ls : List StatusPageMonitor)
      → j ≢ id
      → find_if (is_link page j) (write_link page id name order ls) ≡ find_if (is_link page j) ls
  find-write_link_other j [] apart = refl
  find-write_link_other j (k ∷ ks) apart = ground (arith, find-write_link_other j ks apart)

abbrev name_of : ℕ → ℕ → PageStore → Option String
name_of page id s = elim (find_link page id s) [ none ↦ none | some l ↦ l.display_name ]

abbrev written_at : ℕ → ℕ → ℕ → PageStore → PageStore
written_at page i id s = record s {
  links = write_link page id (name_of page id s) (to_int32 (suc i * 10)) s.links;
}

reorder_from-other :
    (page i : ℕ) (ids : List ℕ) (s : PageStore) (j : ℕ)
    → All (λ k. k ≢ j) ids
    → find_link page j (reorder_from never_fails page i ids s).1 ≡ find_link page j s
unfolding reorder_from
reorder_from-other page i [] s j h = refl
reorder_from-other page i (id ∷ ids) s j h = ground (
  arith,
  h.0,
  reorder_from-other page (suc i) ids (written_at page i id s) j h.1,
  find-write_link_other page id (name_of page id s) (to_int32 (suc i * 10)) j s.links
      (λ e. h.0 (sym e)),
)

still_attached :
    (page i id : ℕ) (ids : List ℕ) (s : PageStore)
    → All (λ k. k ≢ id) ids
    → All (λ k. is_attached page s k ≡ true) ids
    → All (λ k. is_attached page (written_at page i id s) k ≡ true) ids
still_attached page i id [] s apart h = tt
still_attached page i id (k ∷ ks) s apart h = (
  ap is_some (
        find-write_link_other page id (name_of page id s) (to_int32 (suc i * 10)) k s.links apart.0)
      ∙ h.0,
  still_attached page i id ks s apart.1 h.1,
)

reorder_from-Ordered :
    (page i : ℕ) (ids : List ℕ) (s : PageStore)
    → DistinctIds ids
    → All (λ k. is_attached page s k ≡ true) ids
    → ((reorder_from never_fails page i ids s).0 ≡ none)
      × Ordered page i ids (reorder_from never_fails page i ids s).1
unfolding reorder_from
reorder_from-Ordered page i [] s d h = (refl, tt)
reorder_from-Ordered page i (id ∷ ids) s d h = elim (Option-cases (find_link page id s)) [
  | inl gone ↦ ground (arith, gone, h.0)
  | inr (l, found) ↦
      let t = written_at page i id s in
      let run = reorder_from never_fails page (suc i) ids t in
      let (none_left, ordered) =
        reorder_from-Ordered page (suc i) ids t d.1 (still_attached page i id ids s d.0 h.1) in
      let same : reorder_from never_fails page i (id ∷ ids) s ≡ run = ground (arith, found) in
      let l' : StatusPageMonitor = record l {
        display_name = name_of page id s;
        display_order = to_int32 (suc i * 10);
      } in
      let here : find_link page id run.1 ≡ some l' =
        reorder_from-other page (suc i) ids t id d.0
        ∙ find-write_link page id (name_of page id s) (to_int32 (suc i * 10)) s.links l found in
      subst (λ p. (p.0 ≡ none) × Ordered page i (id ∷ ids) p.1) (sym same)
        (none_left, ((l', here, refl), ordered))
]

mismatch_cases :
    (page : ℕ) (ids : List ℕ) (s : PageStore)
    → ((mismatch never_fails page ids s ≡ none) × All (λ k. is_attached page s k ≡ true) ids)
      ⊎ ((mismatch never_fails page ids s ≡ some reorder_monitor_mismatched)
          × (any_of (λ k. not (is_attached page s k)) ids ≡ true))
mismatch_cases page [] s = inl (refl, tt)
mismatch_cases page (id ∷ ids) s = elim (Bool-cases (is_attached page s id)) [
  | inr gone ↦ inr (ground (arith, gone), ground (arith, gone))
  | inl here ↦ elim (mismatch_cases page ids s) [
    | inl (e, all) ↦ inl (ground (arith, here, e), (here, all))
    | inr (e, some_gone) ↦ inr (ground (arith, here, e), ground (arith, here, some_gone))
  ]
]

tell-Ordered :
    (has_bus : Bool) (e : Event) (page i : ℕ) (ids : List ℕ) (s : PageStore)
    → Ordered page i ids s
    → Ordered page i ids (tell has_bus e s)
tell-Ordered false e page i ids s h = h
tell-Ordered true e page i [] s h = tt
tell-Ordered true e page i (id ∷ ids) s h = (h.0, tell-Ordered true e page (suc i) ids s h.1)

-- For a page that exists, distinct ids and no failing query, ReorderMonitors does all or nothing:
-- either every id is attached, there is no error, and afterwards the ids, in turn, have the order 10,
-- 20, 30, …, as int32; or one is not attached, the error is the mismatch, and nothing has changed.
pub reorder_monitors-Ordered :
    (has_bus : Bool) (page : ℕ) (p : StatusPage) (ids : List ℕ) (s : PageStore)
    → find_page page s ≡ some p
    → DistinctIds ids
    → (let (error, after) = reorder_monitors has_bus never_fails page ids s in
        (All (λ k. is_attached page s k ≡ true) ids × (error ≡ none) × Ordered page 0 ids after)
        ⊎ ((any_of (λ k. not (is_attached page s k)) ids ≡ true)
            × (error ≡ some reorder_monitor_mismatched)
            × (after ≡ s)))
unfolding reorder_monitors
reorder_monitors-Ordered has_bus page p ids s exists d = elim (mismatch_cases page ids s) [
  | inl (e, all) ↦
      let (finished, ordered) = reorder_from-Ordered page 0 ids s d all in
      let event =
        page_event status_page_monitor_changed page
          (("action", string "monitors_reordered") ∷ []) in
      let run = (reorder_from never_fails page 0 ids s).1 in
      let same : reorder_monitors has_bus never_fails page ids s ≡ (none, tell has_bus event run) =
        ground (arith, exists, e, finished) in
      inl (
        all,
        ap (λ r. r.0) same,
        subst (λ r. Ordered page 0 ids r.1) (sym same)
            (tell-Ordered has_bus event page 0 ids run ordered),
      )
  | inr (e, gone) ↦ inr (gone, ground (arith, exists, e), ground (arith, exists, e))
]
