-- ===== src/Scheduler/Retry.antt =====
-- The retry rule: when a failing check takes a monitor down.
use blackgrid.Prelude.{
  ℕ, zero, suc, ◌≤◌, ◌==◌, ◌≡◌, ◌↔◌, ◌⊎◌, min, Bool, true, false, List, [], ◌∷◌, take, keep_if,
  length, All, arith,
}
use blackgrid.Model.{Monitor, down, degraded, MonitorResult}
use blackgrid.Scheduler.{Query, get_results, Backend, count_failures, may_retry, retried_status}

abbrev pub IsDown : MonitorResult → Type 0
IsDown r = r.status ≡ down

full_run :
    (n : ℕ) (rs : List MonitorResult)
    → (n ≤ count_failures (take n rs)) ↔ (All IsDown (take n rs) × (n ≤ length rs))
full_run zero rs = (λ h. (tt, omega arith), λ h. omega arith)
full_run (suc n) [] = (λ h. absurd (omega arith), λ h. absurd (omega arith))
full_run (suc n) (r ∷ rs) =
    (λ h. ground (arith, (full_run n rs).0), λ h. ground (arith, (full_run n rs).1))

-- A limit on the results limits the count of failures.
pub count_failures-take :
    (n : ℕ) (rs : List MonitorResult) → count_failures (take n rs) ≡ min n (count_failures rs)
count_failures-take zero rs = omega arith
count_failures-take (suc n) [] = omega arith
count_failures-take (suc n) (r ∷ rs) = ground (arith, count_failures-take n rs)

-- A check that finds a monitor down which was up, degraded or unknown, with a query for the results
-- that does not fail, takes it down just when the newest `retry_count` results of the monitor, as
-- many as that, are all down, and makes it degraded otherwise.
retried_status-down :
    (fails : Query → Bool) (m : Monitor) (w : Backend)
    → fails get_results ≡ false
    → may_retry m.status ≡ true
    → let history = keep_if (λ r. r.monitor_id == m.id) w.results in
      ((retried_status fails m down w ≡ down)
        ↔ (All IsDown (take m.retry_count history) × (m.retry_count ≤ length history)))
      × ((retried_status fails m down w ≡ down) ⊎ (retried_status fails m down w ≡ degraded))
unfolding retried_status
retried_status-down fails m w works retries =
    let run = full_run m.retry_count (keep_if (λ r. r.monitor_id == m.id) w.results) in
    ((λ h. run.0 (ground arith), λ h. ground (arith, run.1 h)), ground arith)
