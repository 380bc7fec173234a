-- ===== src/Monitors/Handled.antt =====
-- What the handlers do to the rows of monitors, case by case.
use blackgrid.Prelude.{
  ℕ, suc, String, Bool, true, ◌≡◌, ◌||◌, Option, none, some, List, ◌∷◌, arith, inl, inr,
  Option-cases, Bool-cases, remove_by, subst, sym,
}
use blackgrid.Model.{Monitor, MonitorStatus}
use blackgrid.Scheduler.{CheckResult, write_monitor, runner_run}
use blackgrid.Monitors.{
  Formats, MonitorHandler, Site, MonitorQuery, MonitorRequest, is_valid_type, is_blank_type,
  find_monitor, monitors_of, update_monitor_row,
}
use blackgrid.Monitors.Create.{new_monitor, insert_checked, create_monitor}
use blackgrid.Monitors.Edit.{
  edited, write_edited, update_monitor, delete_monitor, with_status, set_status,
}
use blackgrid.Monitors.Push.{
  find_by_hash, beat_rows, pushed_status, heartbeat_result, store_result, receive_push_heartbeat,
  with_token_hash, rotate_found, rotate_push_token, test_monitor,
}
use blackgrid.Monitors.Cases.{store_result-monitors, Holds, Holds-same, heartbeat_cases}

module _ {κ} (f : Formats) (h : MonitorHandler) (fails : MonitorQuery → Bool)
    (P : List Monitor → ℕ → Type κ) (s : Site) (v : P (monitors_of s) s.next_monitor) where
  insert_checked_cases :
      (token : String) (m : Monitor)
      → P (m ∷ monitors_of s) (suc s.next_monitor)
      → Holds P (insert_checked f h fails token m s).1
  unfolding insert_checked
  insert_checked_cases token m done = ground (arith, v, done)

  pub create_monitor_cases :
      (random : Option String) (r : MonitorRequest)
      → (is_valid_type r.monitor_type ≡ true
          → (hash : Option String)
          → P (new_monitor f s.next_monitor r hash ∷ monitors_of s) (suc s.next_monitor))
      → Holds P (create_monitor f h fails random r s).1
  unfolding create_monitor
  create_monitor_cases none r done = ground (
    arith,
    v,
    insert_checked_cases "" (new_monitor f s.next_monitor r none),
    λ (e : is_valid_type r.monitor_type ≡ true). done e none,
  )
  create_monitor_cases (some token) r done = ground (
    arith,
    v,
    insert_checked_cases "" (new_monitor f s.next_monitor r none),
    λ (e : is_valid_type r.monitor_type ≡ true). done e none,
    insert_checked_cases token (new_monitor f s.next_monitor r (some (f.hash_token token))),
    λ (e : is_valid_type r.monitor_type ≡ true). done e (some (f.hash_token token)),
  )

  write_edited_cases :
      (m : Monitor)
      → P (write_monitor m (monitors_of s)) s.next_monitor
      → Holds P (write_edited f h fails m s).1
  unfolding write_edited update_monitor_row
  write_edited_cases m done = elim (Option-cases (find_monitor m.id s)) [
    | inl e ↦ ground (arith, e, v)
    | inr (row, e) ↦ ground (arith, e, v, done)
  ]

  pub update_monitor_cases :
      (id : String) (request : Option MonitorRequest)
      → ((n : ℕ) (m : Monitor) (r : MonitorRequest)
          → find_monitor n s ≡ some m
          → is_blank_type r.monitor_type || is_valid_type r.monitor_type ≡ true
          → P (write_monitor (edited f r m) (monitors_of s)) s.next_monitor)
      → Holds P (update_monitor f h fails id request s).1
  unfolding update_monitor
  update_monitor_cases id none done = ground (arith, v)
  update_monitor_cases id (some r) done = elim (Option-cases (f.parse_uuid id)) [
    | inl e ↦ ground (arith, e, v)
    | inr (n, e) ↦ elim (Option-cases (find_monitor n s)) [
      | inl found ↦ ground (arith, e, found, v)
      | inr (m, found) ↦
          ground (arith, e, found, v, done n m r found, write_edited_cases (edited f r m))
    ]
  ]

  pub delete_monitor_cases :
      (id : String)
      → ((n : ℕ) → P (remove_by (λ (m : Monitor). m.id) n (monitors_of s)) s.next_monitor)
      → Holds P (delete_monitor f h fails id s).1
  unfolding delete_monitor
  delete_monitor_cases id done = elim (Option-cases (f.parse_uuid id)) [
    | inl e ↦ ground (arith, e, v)
    | inr (n, e) ↦ ground (arith, e, v, done n)
  ]

  written_cases :
      (now : ℕ) (n : ℕ) (m : Monitor) (status : MonitorStatus) (enabled : Bool)
      → find_monitor n s ≡ some m
      → P (write_monitor (with_status now status enabled m) (monitors_of s)) s.next_monitor
      → (id : String) → f.parse_uuid id ≡ some n
      → Holds P (set_status f h fails now id status enabled s).1
  unfolding set_status update_monitor_row
  written_cases now n m status enabled found done id e = elim (Option-cases (find_monitor m.id s)) [
    | inl gone ↦ ground (arith, e, found, gone, v)
    | inr (row, same) ↦ ground (arith, e, found, same, v, done)
  ]

  pub set_status_cases :
      (now : ℕ) (id : String) (status : MonitorStatus) (enabled : Bool)
      → ((n : ℕ) (m : Monitor)
          → find_monitor n s ≡ some m
          → P (write_monitor (with_status now status enabled m) (monitors_of s)) s.next_monitor)
      → Holds P (set_status f h fails now id status enabled s).1
  unfolding set_status
  set_status_cases now id status enabled done = elim (Option-cases (f.parse_uuid id)) [
    | inl e ↦ ground (arith, e, v)
    | inr (n, e) ↦ elim (Option-cases (find_monitor n s)) [
      | inl found ↦ ground (arith, e, found, v)
      | inr (m, found) ↦ written_cases now n m status enabled found (done n m found) id e
    ]
  ]

  rotate_found_cases :
      (token : String) (m : Monitor)
      → P (write_monitor (with_token_hash (f.hash_token token) m) (monitors_of s)) s.next_monitor
      → Holds P (rotate_found f h fails token m s).1
  unfolding rotate_found update_monitor_row
  rotate_found_cases token m done = elim (Option-cases (find_monitor m.id s)) [
    | inl e ↦ ground (arith, e, v)
    | inr (row, e) ↦ ground (arith, e, v, done)
  ]

  pub rotate_push_token_cases :
      (random : Option String) (id : String)
      → ((n : ℕ) (m : Monitor) (token : String)
          → find_monitor n s ≡ some m
          → P
              (write_monitor (with_token_hash (f.hash_token token) m) (monitors_of s))
              s.next_monitor)
      → Holds P (rotate_push_token f h fails random id s).1
  unfolding rotate_push_token
  rotate_push_token_cases none id done = elim (Option-cases (f.parse_uuid id)) [
    | inl e ↦ ground (arith, e, v)
    | inr (n, e) ↦ elim (Option-cases (find_monitor n s)) [
      | inl found ↦ ground (arith, e, found, v)
      | inr (m, found) ↦ ground (arith, e, found, v)
    ]
  ]
  rotate_push_token_cases (some token) id done = elim (Option-cases (f.parse_uuid id)) [
    | inl e ↦ ground (arith, e, v)
    | inr (n, e) ↦ elim (Option-cases (find_monitor n s)) [
      | inl found ↦ ground (arith, e, found, v)
      | inr (m, found) ↦
          ground (arith, e, found, v, done n m token found, rotate_found_cases token m)
    ]
  ]

  tested_cases :
      (now n : ℕ) (m : Monitor) (result : CheckResult)
      → find_monitor n s ≡ some m
      → P (write_monitor (record m { last_checked_at = some now }) (monitors_of s)) s.next_monitor
      → (id : String) → f.parse_uuid id ≡ some n
      → Holds P (test_monitor f h fails now id result s).1
  unfolding test_monitor update_monitor_row runner_run
  tested_cases now n m result found done id e = elim (Option-cases (find_monitor m.id s)) [
    | inl gone ↦ ground (arith, e, found, gone, v)
    | inr (row, same) ↦ ground (arith, e, found, same, v, done)
  ]

  pub test_monitor_cases :
      (now : ℕ) (id : String) (result : CheckResult)
      → ((n : ℕ) (m : Monitor)
          → find_monitor n s ≡ some m
          → P
              (write_monitor (record m { last_checked_at = some now }) (monitors_of s))
              s.next_monitor)
      → Holds P (test_monitor f h fails now id result s).1
  unfolding test_monitor
  test_monitor_cases now id result done = elim (Option-cases (f.parse_uuid id)) [
    | inl e ↦ ground (arith, e, v)
    | inr (n, e) ↦ elim (Option-cases (find_monitor n s)) [
      | inl found ↦ ground (arith, e, found, v)
      | inr (m, found) ↦ tested_cases now n m result found (done n m found) id e
    ]
  ]

  pub receive_push_heartbeat_cases :
      (now : ℕ) (token : String) (query body : Option MonitorStatus)
      → ((m : Monitor) (changed_at : Option ℕ)
          → find_by_hash (f.hash_token token) s ≡ some m
          → m.enabled ≡ true
          → P
              (beat_rows m.id now (pushed_status query body) changed_at (monitors_of s))
              s.next_monitor)
      → Holds P (receive_push_heartbeat f h fails now token query body s).1
  unfolding receive_push_heartbeat
  receive_push_heartbeat_cases now token query body done =
      elim (Option-cases (find_by_hash (f.hash_token token) s)) [
        | inl gone ↦ ground (arith, gone, v)
        | inr (m, found) ↦ elim (Bool-cases m.enabled) [
          | inl on ↦
              let status = pushed_status query body in
              let r = heartbeat_result now m status in
              let kept = store_result-monitors fails r s in
              ground (
                arith,
                found,
                on,
                v,
                heartbeat_cases h fails P (store_result fails r s) now m status
                    (Holds-same P s (store_result fails r s) kept v)
                    (λ (c : Option ℕ).
                      subst
                        (λ ms.
                          P (beat_rows m.id now status c ms) (store_result fails r s).next_monitor)
                        (sym kept.0)
                        (subst (λ k. P (beat_rows m.id now status c (monitors_of s)) k) (sym kept.1)
                          (done m c found on))),
              )
          | inr off ↦ ground (arith, found, off, v)
        ]
      ]
