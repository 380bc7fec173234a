-- ===== src/StatusPages/Links.antt =====
-- AttachMonitor, UpdateAttachedMonitor, RemoveMonitor and ReorderMonitors.
use blackgrid.Prelude.{
  ℕ, suc, String, Bool, true, false, not, ◌||◌, if◌then◌else◌, ltb, leb, ◌+◌, ◌-◌, ◌*◌, ◌%◌, ◌==◌,
  Option, none, some, is_some, List, [], ◌∷◌, ◌++◌, ℤ, pos, negsuc, Result, ok, err,
}
use blackgrid.Model.{status_page_monitor_changed, string, uuid}
use blackgrid.Incident.Store.{get_monitor}
use blackgrid.StatusPages.{
  Texts, StatusPageMonitor, PageStore, PageQuery, get_page, get_link, attach_link, max_order,
  update_link, remove_link, check_link, current_link, reorder_link, PageError,
  status_page_not_found, monitor_already_attached, monitor_not_attached, reorder_monitor_mismatched,
  page_database, find_page, find_link, is_link, page_event, tell, or_else,
}
use blackgrid.StatusPages.Pages.{text_col}

pub record AttachMonitorInput : Type 0 where
  pub monitor_id : ℕ
  pub display_name : Option String
  pub display_order : Option ℤ

pub record UpdateAttachedMonitorInput : Type 0 where
  pub display_name : Option String
  pub display_order : Option ℤ

-- The int32 with the bits of `n`.
abbrev pub to_int32 : ℕ → ℤ
to_int32 n = let r = n % 4294967296 in if ltb r 2147483648 then pos r else negsuc (4294967295 - r)

-- max + 10, an int32
abbrev pub plus_ten : ℤ → ℤ
plus_ten (pos n) = to_int32 (n + 10)
plus_ten (negsuc n) = if ltb n 10 then pos (9 - n) else negsuc (n - 10)

abbrev pub leb_ℤ : ℤ → ℤ → Bool
leb_ℤ (pos m) (pos n) = leb m n
leb_ℤ (pos m) (negsuc n) = false
leb_ℤ (negsuc m) (pos n) = true
leb_ℤ (negsuc m) (negsuc n) = leb n m

-- MAX(display_order) over the links of the page.
abbrev pub greatest_order : ℕ → List StatusPageMonitor → Option ℤ
greatest_order page [] = none
greatest_order page (l ∷ ls) =
    let rest = greatest_order page ls in
    if l.status_page_id == page
    then (elim rest [
      | none ↦ some l.display_order
      | some m ↦ some (if leb_ℤ m l.display_order then l.display_order else m)
    ])
    else rest

abbrev pub max_status_page_monitor_order : ℕ → PageStore → ℤ
max_status_page_monitor_order page s = or_else (pos 0) (greatest_order page s.links)

abbrev pub link_event : Bool → String → ℕ → ℕ → PageStore → PageStore
link_event has_bus action page monitor = tell has_bus (
    page_event status_page_monitor_changed page
      (("action", string action) ∷ ("monitor_id", uuid monitor) ∷ []))

-- The link is inserted if the monitor exists, as its foreign key says.
unfoldable pub insert_link :
    Bool
    → (PageQuery → Bool)
    → StatusPageMonitor
    → PageStore
    → Result PageError StatusPageMonitor × PageStore
insert_link has_bus fails l s =
    if fails attach_link || not (is_some (get_monitor l.monitor_id s.backend.store))
    then (err (page_database attach_link), s)
    else (
      ok l,
      link_event has_bus "monitor_attached" l.status_page_id l.monitor_id
          (record s { links = s.links ++ (l ∷ []) }),
    )

unfoldable pub attach_monitor :
    Texts
    → Bool
    → (PageQuery → Bool)
    → ℕ
    → AttachMonitorInput
    → PageStore
    → Result PageError StatusPageMonitor × PageStore
unfolding insert_link
attach_monitor t has_bus fails page r s =
    let link_with = λ (order : ℤ).
      let l : StatusPageMonitor = record {
        status_page_id = page;
        monitor_id = r.monitor_id;
        display_name = text_col t r.display_name;
        display_order = order;
      } in
      insert_link has_bus fails l s in
    if fails get_page
    then (err (page_database get_page), s)
    else if not (is_some (find_page page s))
    then (err status_page_not_found, s)
    else if fails get_link
    then (err (page_database get_link), s)
    else if is_some (find_link page r.monitor_id s)
    then (err monitor_already_attached, s)
    else (elim r.display_order [
      | some order ↦ link_with order
      | none ↦
          if fails max_order
          then (err (page_database max_order), s)
          else link_with (plus_ten (max_status_page_monitor_order page s))
    ])

-- UPDATE status_page_monitors
abbrev pub write_link : ℕ → ℕ → Option String → ℤ → List StatusPageMonitor → List StatusPageMonitor
write_link page monitor name order [] = []
write_link page monitor name order (l ∷ ls) =
    (if is_link page monitor l then record l { display_name = name; display_order = order } else l)
    ∷ write_link page monitor name order ls

abbrev pub edited_link : Texts → UpdateAttachedMonitorInput → StatusPageMonitor → StatusPageMonitor
edited_link t r l = record l {
  display_name = elim r.display_name [ none ↦ l.display_name | some d ↦ text_col t (some d) ];
  display_order = or_else l.display_order r.display_order;
}

unfoldable pub update_attached_monitor :
    Texts
    → Bool
    → (PageQuery → Bool)
    → ℕ
    → ℕ
    → UpdateAttachedMonitorInput
    → PageStore
    → Result PageError StatusPageMonitor × PageStore
update_attached_monitor t has_bus fails page monitor r s =
    if fails get_link then (err (page_database get_link), s) else (elim (find_link page monitor s) [
      | none ↦ (err monitor_not_attached, s)
      | some current ↦
          let l = edited_link t r current in
          if fails update_link then (err (page_database update_link), s) else (
            ok l,
            link_event has_bus "monitor_updated" page monitor (record s {
              links = write_link page monitor l.display_name l.display_order s.links;
            }),
          )
    ])

abbrev pub without_link : ℕ → ℕ → List StatusPageMonitor → List StatusPageMonitor
without_link page monitor [] = []
without_link page monitor (l ∷ ls) =
    let rest = without_link page monitor ls in if is_link page monitor l then rest else l ∷ rest

unfoldable pub remove_monitor :
    Bool → (PageQuery → Bool) → ℕ → ℕ → PageStore → Result PageError (Unit {0}) × PageStore
remove_monitor has_bus fails page monitor s =
    if fails get_link
    then (err (page_database get_link), s)
    else if not (is_some (find_link page monitor s))
    then (err monitor_not_attached, s)
    else if fails remove_link
    then (err (page_database remove_link), s)
    else (
      ok tt,
      link_event has_bus "monitor_removed" page monitor
          (record s { links = without_link page monitor s.links }),
    )

-- The first loop of ReorderMonitors: the error of the first id that is not attached.
abbrev pub mismatch : (PageQuery → Bool) → ℕ → List ℕ → PageStore → Option PageError
mismatch fails page [] s = none
mismatch fails page (id ∷ ids) s =
    if fails (check_link id)
    then some (page_database (check_link id))
    else if is_some (find_link page id s)
    then mismatch fails page ids s
    else some reorder_monitor_mismatched

-- The second loop, from the index `i`: an error ends it, and what it has written stays.
unfoldable pub reorder_from :
    (PageQuery → Bool) → ℕ → ℕ → List ℕ → PageStore → Option PageError × PageStore
reorder_from fails page i [] s = (none, s)
reorder_from fails page i (id ∷ ids) s =
    let name : Option String = elim (find_link page id s) [
      | none ↦ none
      | some l ↦ l.display_name
    ] in
    let rest =
      reorder_from fails page (suc i) ids
        (record s { links = write_link page id name (to_int32 (suc i * 10)) s.links }) in
    if fails (current_link id) || not (is_some (find_link page id s))
    then (some (page_database (current_link id)), s)
    else if fails (reorder_link id)
    then (some (page_database (reorder_link id)), s)
    else rest

unfoldable pub reorder_monitors :
    Bool → (PageQuery → Bool) → ℕ → List ℕ → PageStore → Option PageError × PageStore
unfolding reorder_from
reorder_monitors has_bus fails page ids s =
    if fails get_page
    then (some (page_database get_page), s)
    else if not (is_some (find_page page s))
    then (some status_page_not_found, s)
    else (elim (mismatch fails page ids s) [
      | some e ↦ (some e, s)
      | none ↦
          let (error, s') = reorder_from fails page 0 ids s in
          elim error [
            | some e ↦ (some e, s')
            | none ↦ (
              none,
              tell has_bus
                  (page_event status_page_monitor_changed page
                    (("action", string "monitors_reordered") ∷ []))
                  s',
            )
          ]
    ])
