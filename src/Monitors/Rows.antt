-- ===== src/Monitors/Rows.antt =====
-- What every row of the table of monitors satisfies, whatever the handlers are asked to do.
use blackgrid.Prelude.{
  subst, ℕ, String, Bool, true, false, ◌≡◌, ◌≤◌, ◌||◌, not, Option, none, some, List, [], ◌∷◌,
  arith, refl, ◌==◌, All, KeysBelow, Bool-cases, inl, inr, All-find_if, All-remove_by,
  All-update_by, remove_by-KeysBelow, update_by-KeysBelow, find_by-find_if, ℤ, pos, negsuc,
}
use blackgrid.Model.{Monitor, MonitorStatus, paused, unknown, status_eq}
use blackgrid.Scheduler.{write_monitor}
use blackgrid.Monitors.{
  Formats, MonitorHandler, Site, MonitorQuery, MonitorRequest, is_valid_type, is_blank_type,
  at_least, monitors_of, find_monitor,
}
use blackgrid.Monitors.Create.{new_monitor}
use blackgrid.Monitors.Edit.{edited, edit_enabled, with_status, set_status}
use blackgrid.Monitors.Push.{hash_is, beaten, known_status, pushed_status, with_token_hash}
use blackgrid.Monitors.Handled.{
  create_monitor_cases, update_monitor_cases, delete_monitor_cases, set_status_cases,
  rotate_push_token_cases, test_monitor_cases, receive_push_heartbeat_cases,
}
use blackgrid.Monitors.Requests.{
  Command, creates, updates, deletes, pauses, resumes, rotates, tests, beats, Request, perform,
  perform_all,
}

-- The type is one of the seven, the numbers are at least their least values, and a monitor is off
-- exactly when its status is paused.
pub record Sound (m : Monitor) : Type 0 where
  pub valid : is_valid_type m.monitor_type ≡ true
  pub interval : 10 ≤ m.interval_seconds
  pub timeout : 1 ≤ m.timeout_seconds
  pub retries : 1 ≤ m.retry_count
  pub off : status_eq m.status paused ≡ not m.enabled

abbrev pub RowsSound : List Monitor → ℕ → Type 0
RowsSound ms n = KeysBelow (λ (m : Monitor). m.id) n ms × All Sound ms

at_least_lem : (low default : ℕ) (n : ℤ) → low ≤ default → low ≤ at_least low default n
at_least_lem low default (pos n) h = ground (arith, h)
at_least_lem low default (negsuc n) h = h

new_monitor-Sound :
    (f : Formats) (id : ℕ) (r : MonitorRequest) (hash : Option String)
    → is_valid_type r.monitor_type ≡ true
    → Sound (new_monitor f id r hash)
new_monitor-Sound f id r hash e = record {
  valid = e;
  interval = at_least_lem 10 60 r.interval_seconds (omega arith);
  timeout = at_least_lem 1 10 r.timeout_seconds (omega arith);
  retries = at_least_lem 1 3 r.retry_count (omega arith);
  off = ground arith;
}

edit_enabled-Sound : (b : Option Bool) (m : Monitor) → Sound m → Sound (edit_enabled b m)
edit_enabled-Sound none m v = v
edit_enabled-Sound (some b) m v = record {
  valid = v.valid;
  interval = v.interval;
  timeout = v.timeout;
  retries = v.retries;
  off = ground arith;
}

edited-Sound :
    (f : Formats) (r : MonitorRequest) (m : Monitor)
    → is_blank_type r.monitor_type || is_valid_type r.monitor_type ≡ true
    → Sound m
    → Sound (edited f r m)
edited-Sound f r m e v = edit_enabled-Sound r.enabled _ (record {
  valid = ground (arith, e, v.valid);
  interval = at_least_lem 10 m.interval_seconds r.interval_seconds v.interval;
  timeout = at_least_lem 1 m.timeout_seconds r.timeout_seconds v.timeout;
  retries = at_least_lem 1 m.retry_count r.retry_count v.retries;
  off = v.off;
})

known_status-not_paused : (s : MonitorStatus) → status_eq (known_status s) paused ≡ false
known_status-not_paused s = ground arith

pushed_status-not_paused :
    (query body : Option MonitorStatus) → status_eq (pushed_status query body) paused ≡ false
pushed_status-not_paused (some s) body = known_status-not_paused s
pushed_status-not_paused none (some s) = known_status-not_paused s
pushed_status-not_paused none none = refl

beaten-Sound :
    (now : ℕ) (query body : Option MonitorStatus) (changed_at : Option ℕ) (m : Monitor)
    → m.enabled ≡ true
    → Sound m
    → Sound (beaten now (pushed_status query body) changed_at m)
beaten-Sound now query body changed_at m on v = record {
  valid = v.valid;
  interval = v.interval;
  timeout = v.timeout;
  retries = v.retries;
  off = ground (arith, on, pushed_status-not_paused query body);
}

write_monitor-RowsSound :
    (arg : Monitor) (n : ℕ) (ms : List Monitor)
    → Sound arg
    → RowsSound ms n
    → RowsSound (write_monitor arg ms) n
write_monitor-RowsSound arg n [] v h = h
write_monitor-RowsSound arg n (x ∷ xs) v h = elim (Bool-cases (x.id == arg.id)) [
  | inl here ↦
      let same : x.id ≡ arg.id = ground (arith, here) in
      let rest = write_monitor-RowsSound arg x.id xs v (h.0.1, h.1.1) in
      rw here (
        (
          omega (arith, same, h.0.0),
          subst (λ k. KeysBelow (λ (m : Monitor). m.id) k (write_monitor arg xs)) same rest.0,
        ),
        (
          record {
            valid = v.valid;
            interval = v.interval;
            timeout = v.timeout;
            retries = v.retries;
            off = v.off;
          },
          rest.1,
        ),
      )
  | inr there ↦ rw there (
    (h.0.0, (write_monitor-RowsSound arg x.id xs v (h.0.1, h.1.1)).0),
    (h.1.0, (write_monitor-RowsSound arg x.id xs v (h.0.1, h.1.1)).1),
  )
]

module _ (f : Formats) (h : MonitorHandler) where
  module _ (fails : MonitorQuery → Bool) (s : Site)
      (v : RowsSound (monitors_of s) s.next_monitor) where
    found-Sound : (n : ℕ) (m : Monitor) → find_monitor n s ≡ some m → Sound m
    found-Sound n m found =
        All-find_if Sound (λ (x : Monitor). x.id == n) (monitors_of s) m v.1 found

    rewritten :
        (arg : Monitor) → Sound arg → RowsSound (write_monitor arg (monitors_of s)) s.next_monitor
    rewritten arg w = write_monitor-RowsSound arg s.next_monitor (monitors_of s) w v

    status-RowsSound :
        (now : ℕ) (id : String) (status : MonitorStatus) (enabled : Bool)
        → status_eq status paused ≡ not enabled
        → (let t = (set_status f h fails now id status enabled s).1 in
            RowsSound (monitors_of t) t.next_monitor)
    status-RowsSound now id status enabled fits =
        set_status_cases f h fails RowsSound s v now id status enabled λ n m found.
          let w = found-Sound n m found in
          rewritten (with_status now status enabled m) (record {
            valid = w.valid;
            interval = w.interval;
            timeout = w.timeout;
            retries = w.retries;
            off = fits;
          })

    perform-RowsSound :
        (c : Command) → (let t = perform f h c fails s in RowsSound (monitors_of t) t.next_monitor)
    unfolding perform
    perform-RowsSound (creates random r) =
        create_monitor_cases f h fails RowsSound s v random r
          λ valid hash. ((omega arith, v.0), (new_monitor-Sound f s.next_monitor r hash valid, v.1))
    perform-RowsSound (updates id r) =
        update_monitor_cases f h fails RowsSound s v id r λ n m q found typed.
          rewritten (edited f q m) (edited-Sound f q m typed (found-Sound n m found))
    perform-RowsSound (deletes id) = delete_monitor_cases f h fails RowsSound s v id λ n. (
      remove_by-KeysBelow (λ (m : Monitor). m.id) n s.next_monitor (monitors_of s) v.0,
      All-remove_by (λ (m : Monitor). m.id) n Sound (monitors_of s) v.1,
    )
    perform-RowsSound (pauses now id) = status-RowsSound now id paused false refl
    perform-RowsSound (resumes now id) = status-RowsSound now id unknown true refl
    perform-RowsSound (rotates random id) =
        rotate_push_token_cases f h fails RowsSound s v random id λ n m token found.
          let w = found-Sound n m found in
          rewritten (with_token_hash (f.hash_token token) m) (record {
            valid = w.valid;
            interval = w.interval;
            timeout = w.timeout;
            retries = w.retries;
            off = w.off;
          })
    perform-RowsSound (tests now id r) =
        test_monitor_cases f h fails RowsSound s v now id r λ n m found.
          let w = found-Sound n m found in
          rewritten (record m { last_checked_at = some now })
            (record {
              valid = w.valid;
              interval = w.interval;
              timeout = w.timeout;
              retries = w.retries;
              off = w.off;
            })
    perform-RowsSound (beats now token query body) =
        receive_push_heartbeat_cases f h fails RowsSound s v now token query body λ m c found on.
          let g = beaten now (pushed_status query body) c in
          let w =
            All-find_if Sound (λ (x : Monitor). hash_is (f.hash_token token) x.push_token_hash)
              (monitors_of s) m v.1 found in
          let by_id =
            find_by-find_if (λ (x : Monitor). x.id)
              (λ (x : Monitor). hash_is (f.hash_token token) x.push_token_hash) s.next_monitor
              (monitors_of s) m v.0 found in
          (
            update_by-KeysBelow (λ (x : Monitor). x.id) m.id g s.next_monitor (monitors_of s)
                (λ x. refl) v.0,
            All-update_by (λ (x : Monitor). x.id) m.id g Sound s.next_monitor (monitors_of s) m v.0
                v.1 by_id (beaten-Sound now query body c m on w),
          )

  -- From a table whose ids fall below the next one and whose rows are all of a known type, with an
  -- interval of at least 10, a timeout and a retry count of at least 1, and off exactly when their
  -- status is paused, any sequence of calls of the handlers, with any queries failing at each, ends at
  -- such a table.
  pub perform_all-RowsSound :
      (qs : List Request) (s : Site)
      → RowsSound (monitors_of s) s.next_monitor
      → (let t = perform_all f h qs s in RowsSound (monitors_of t) t.next_monitor)
  unfolding perform_all
  perform_all-RowsSound [] s v = v
  perform_all-RowsSound (q ∷ qs) s v =
      perform_all-RowsSound qs (perform f h q.command q.fails s)
        (perform-RowsSound q.fails s v q.command)
