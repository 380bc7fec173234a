-- ===== src/Scheduler/Outage.antt =====
-- An outage: checks of one monitor that fail one after another, each on the row as it then is.
use blackgrid.Prelude.{
  ℕ, zero, suc, ◌≤◌, ◌==◌, ltb, ◌≡◌, refl, sym, subst, ap, ◌∙◌, Bool, true, false, none, some, List,
  [], ◌∷◌, keep_if, find_if, if◌then◌else◌, arith,
}
use blackgrid.Model.{Monitor, MonitorStatus, up, down, degraded, MonitorResult}
use blackgrid.Incident.Store.{get_monitor}
use blackgrid.Incident.Cases.{on_scheduled_status_change-monitors}
use blackgrid.Scheduler.{
  Scheduler, Query, CheckResult, Backend, count_failures, is_supported, retried_status, runner_run,
  settle, execute_check, written, write_monitor, update_params, add_result, result_row, publish_all,
  check_events,
}
use blackgrid.Scheduler.Retry.{count_failures-take}

-- No query fails.
abbrev pub works : Query → Bool
works _ = false

abbrev pub failed : CheckResult → CheckResult
failed r = record r { status = down }

-- The scheduler reads the row and checks it.
unfoldable pub check_again : Scheduler → ℕ → ℕ → CheckResult → Backend → Backend
check_again sch now id r w = elim (get_monitor id w.store) [
  | none ↦ w
  | some m ↦ execute_check sch works now m r w
]

-- `k` checks that find the monitor down.
unfoldable pub outage : Scheduler → (ℕ → ℕ) → ℕ → CheckResult → ℕ → Backend → Backend
outage sch now id r zero w = w
outage sch now id r (suc k) w = check_again sch (now k) id (failed r) (outage sch now id r k w)

abbrev pub history : ℕ → Backend → List MonitorResult
history id w = keep_if (λ r. r.monitor_id == id) w.results

abbrev pub status_at : ℕ → ℕ → MonitorStatus
status_at retry zero = up
status_at retry (suc k) = if ltb (suc k) retry then degraded else down

pub find_if-write_monitor :
    (arg : Monitor) (rows : List Monitor) (row : Monitor)
    → find_if (λ (m : Monitor). m.id == arg.id) rows ≡ some row
    → find_if (λ (m : Monitor). m.id == arg.id) (write_monitor arg rows) ≡ some (written arg row)
find_if-write_monitor arg [] row e = cc
find_if-write_monitor arg (r ∷ rows) row e = ground (arith, find_if-write_monitor arg rows row)

pub record Stage (id retry k : ℕ) (w : Backend) : Type 0 where
  pub m : Monitor
  pub row_found : get_monitor id w.store ≡ some m
  pub same_id : m.id ≡ id
  pub same_retry : m.retry_count ≡ retry
  pub supported : is_supported m.monitor_type ≡ true
  pub status_now : m.status ≡ status_at retry k
  pub failures : count_failures (history id w) ≡ k

pub status-next :
    (retry k : ℕ) (m : Monitor) (w : Backend)
    → 1 ≤ retry
    → m.retry_count ≡ retry
    → m.status ≡ status_at retry k
    → count_failures (history m.id w) ≡ suc k
    → retried_status works m down w ≡ status_at retry (suc k)
unfolding retried_status
status-next retry zero m w pos_retry same st run =
    ground (arith, count_failures-take m.retry_count (history m.id w))
status-next retry (suc k) m w pos_retry same st run =
    ground (arith, count_failures-take m.retry_count (history m.id w))

-- What a check of a supported monitor that is there does, when no query fails.
pub settled :
    (sch : Scheduler) (now : ℕ) (m row : Monitor) (r : CheckResult) (w : Backend)
    → get_monitor m.id w.store ≡ some row
    → let st = retried_status works m r.status w in
      ((settle sch works now m r w).store.monitors
        ≡ write_monitor (update_params now m st) w.store.monitors)
      × ((settle sch works now m r w).results ≡ w.results)
unfolding settle
settled sch now m row r w found =
    let st = retried_status works m r.status w in
    let arg = update_params now m st in
    let s = record w.store { monitors = write_monitor arg w.store.monitors } in
    ground (
      arith,
      found,
      on_scheduled_status_change-monitors sch.service (λ q. works (Query.incident q)) now
          (written arg row) m.status st (publish_all sch (check_events m r st) s),
    )

-- One check of an outage is a `settle` with the status of the next stage.
pub check_again-settle :
    (sch : Scheduler) (now id retry k : ℕ) (r : CheckResult) (w : Backend)
    → 1 ≤ retry
    → (v : Stage id retry k w)
    → let w' = add_result (result_row now v.m (failed r)) w in
      (check_again sch now id (failed r) w ≡ settle sch works now v.m (failed r) w')
      × (get_monitor v.m.id w.store ≡ some v.m)
      × (count_failures (history v.m.id w') ≡ suc k)
      × (retried_status works v.m down w' ≡ status_at retry (suc k))
unfolding check_again execute_check runner_run
check_again-settle sch now id retry k r w pos_retry v =
    let w' = add_result (result_row now v.m (failed r)) w in
    let run : count_failures (history v.m.id w') ≡ suc k = ground (arith, v.failures, v.same_id) in
    (
      ground (arith, v.row_found, v.supported),
      subst (λ i. get_monitor i w.store ≡ some v.m) (sym v.same_id) v.row_found,
      run,
      status-next retry k v.m w' pos_retry v.same_retry v.status_now run,
    )

Stage-next :
    (sch : Scheduler) (now id retry k : ℕ) (r : CheckResult) (w : Backend)
    → 1 ≤ retry
    → Stage id retry k w
    → Stage id retry (suc k) (check_again sch now id (failed r) w)
Stage-next sch now id retry k r w pos_retry v =
    let w' = add_result (result_row now v.m (failed r)) w in
    let arg = update_params now v.m (retried_status works v.m down w') in
    let (ran, at_id, run, next) = check_again-settle sch now id retry k r w pos_retry v in
    let (monitors, results) = settled sch now v.m v.m (failed r) w' at_id in
    let found : get_monitor v.m.id (settle sch works now v.m (failed r) w').store
        ≡ some (written arg v.m) =
      subst (λ ms. find_if (λ (x : Monitor). x.id == v.m.id) ms ≡ some (written arg v.m))
        (sym monitors) (find_if-write_monitor arg w.store.monitors v.m at_id) in
    subst (Stage id retry (suc k)) (sym ran) (record {
      m = written arg v.m;
      row_found =
          subst
            (λ i.
              get_monitor i (settle sch works now v.m (failed r) w').store ≡ some (written arg v.m))
            v.same_id found;
      same_id = v.same_id;
      same_retry = v.same_retry;
      supported = v.supported;
      status_now = next;
      failures =
          ap (λ rs. count_failures (keep_if (λ x. x.monitor_id == id) rs)) results
          ∙ subst (λ i. count_failures (history i w') ≡ suc k) v.same_id run;
    })

pub outage-Stage :
    (sch : Scheduler) (now : ℕ → ℕ) (id retry : ℕ) (r : CheckResult) (k : ℕ) (w : Backend)
    → 1 ≤ retry
    → Stage id retry 0 w
    → Stage id retry k (outage sch now id r k w)
unfolding outage
outage-Stage sch now id retry r zero w pos_retry v = v
outage-Stage sch now id retry r (suc k) w pos_retry v =
    Stage-next sch (now k) id retry k r (outage sch now id r k w) pos_retry
      (outage-Stage sch now id retry r k w pos_retry v)

-- A monitor that is up, of a supported type, with a retry count of at least 1 and whose newest
-- result, if any, is not down: after k checks in a row that find it down, with no query that fails,
-- it is still up for k = 0, degraded while 0 < k < retry_count, and down from k = retry_count on.
pub outage-status :
    (sch : Scheduler) (now : ℕ → ℕ) (id : ℕ) (m : Monitor) (r : CheckResult) (k : ℕ) (w : Backend)
    → get_monitor id w.store ≡ some m
    → m.id ≡ id
    → is_supported m.monitor_type ≡ true
    → m.status ≡ up
    → 1 ≤ m.retry_count
    → count_failures (history id w) ≡ 0
    → (m' : Monitor) × (get_monitor id (outage sch now id r k w).store ≡ some m')
      × (m'.status ≡ status_at m.retry_count k)
outage-status sch now id m r k w found same_id supported is_up pos_retry healthy =
    let v = outage-Stage sch now id m.retry_count r k w pos_retry (record {
      m = m;
      row_found = found;
      same_id = same_id;
      same_retry = refl;
      supported = supported;
      status_now = is_up;
      failures = healthy;
    }) in
    (v.m, v.row_found, v.status_now)
