-- ===== src/Scheduler/Race.antt =====
-- A check works on the row as the loop read it, and writes all of it back.
use blackgrid.Prelude.{ℕ, ◌==◌, ◌≡◌, ◌≢◌, ◌∙◌, ap, true, false, some, find_if, arith}
use blackgrid.Model.{Monitor, MonitorStatus, paused}
use blackgrid.Incident.Store.{get_monitor}
use blackgrid.Scheduler.{
  Scheduler, CheckResult, Backend, is_supported, retried_status, runner_run, settle, execute_check,
  update_params, add_result, result_row,
}
use blackgrid.Scheduler.Outage.{works, settled, find_if-write_monitor}

-- Whatever the row of the monitor holds by then, after a check on the snapshot `m` it holds the
-- settings of the snapshot, and the status that follows from the snapshot and the result: a change
-- that came between, such as a pause, is lost. The monitor is of a supported type and no query
-- fails.
pub execute_check_overwrites :
    (sch : Scheduler) (now : ℕ) (m row : Monitor) (r : CheckResult) (w : Backend)
    → get_monitor m.id w.store ≡ some row
    → is_supported m.monitor_type ≡ true
    → let w' = add_result (result_row now m r) w in
      get_monitor m.id (execute_check sch works now m r w).store
      ≡ some (record (update_params now m (retried_status works m r.status w')) {
        last_heartbeat_at = row.last_heartbeat_at;
      })
unfolding execute_check runner_run
execute_check_overwrites sch now m row r w found supported =
    let w' = add_result (result_row now m r) w in
    let arg = update_params now m (retried_status works m r.status w') in
    let ran : execute_check sch works now m r w ≡ settle sch works now m r w' =
      ground (arith, supported) in
    ap (λ (b : Backend). get_monitor m.id b.store) ran
    ∙ ap (find_if (λ (x : Monitor). x.id == m.id)) (settled sch now m row r w' found).0
    ∙ find_if-write_monitor arg w.store.monitors row found

retried_status-ne-paused :
    (m : Monitor) (st : MonitorStatus) (w : Backend)
    → st ≢ paused
    → retried_status works m st w ≢ paused
unfolding retried_status
retried_status-ne-paused m st w h = ground arith

-- A monitor that is paused while a check of it is under way is enabled again by that check, and its
-- status is not paused: if the snapshot is enabled and of a supported type, the check did not
-- itself yield `paused`, and no query fails.
pub execute_check_unpauses :
    (sch : Scheduler) (now : ℕ) (m row : Monitor) (r : CheckResult) (w : Backend)
    → get_monitor m.id w.store ≡ some row
    → row.status ≡ paused
    → row.enabled ≡ false
    → m.enabled ≡ true
    → is_supported m.monitor_type ≡ true
    → r.status ≢ paused
    → (after : Monitor) × (get_monitor m.id (execute_check sch works now m r w).store ≡ some after)
      × (after.enabled ≡ true)
      × (after.status ≢ paused)
execute_check_unpauses sch now m row r w found _ _ enabled supported active = (
  record (update_params now m
      (retried_status works m r.status (add_result (result_row now m r) w))) {
        last_heartbeat_at = row.last_heartbeat_at;
      },
  execute_check_overwrites sch now m row r w found supported,
  enabled,
  retried_status-ne-paused m r.status (add_result (result_row now m r) w) active,
)
