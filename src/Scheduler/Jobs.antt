-- ===== src/Scheduler/Jobs.antt =====
-- The loop and the workers of internal/monitor/scheduler.go, as steps that interleave: the set of
-- checks in progress, the channel of jobs, and the checks that the workers run. A monitor is its id.
-- A step is a part of the code between two points where another goroutine may run.
use blackgrid.Prelude.{
  ℕ, ◌≡◌, ◌≤◌, ◌<◌, ◌+◌, ◌*◌, ◌==◌, refl, Bool, true, false, if◌then◌else◌, Option, none, some,
  List, [], ◌∷◌, ◌++◌, length, count_if, length-append, count_if-append, arith,
}

-- `offered` is the monitor that the loop has marked and not yet sent.
pub record Jobs : Type 0 where
  pub in_progress : ℕ → Bool
  pub offered : Option ℕ
  pub channel : List ℕ
  pub running : List ℕ

-- make(chan db.Monitor, s.workerCount*2)
abbrev pub capacity : ℕ → ℕ
capacity workers = workers * 2

abbrev pub no_jobs : Jobs
no_jobs = record { in_progress = λ k. false; offered = none; channel = []; running = [] }

abbrev pub remove_one : ℕ → List ℕ → List ℕ
remove_one k [] = []
remove_one k (x ∷ xs) = if x == k then xs else x ∷ remove_one k xs

abbrev pub set_mark : ℕ → Bool → (ℕ → Bool) → ℕ → Bool
set_mark m b f k = if k == m then b else f k

-- inProgress[m.ID] = true
abbrev pub marked : ℕ → Jobs → Jobs
marked m s = record s { in_progress = set_mark m true s.in_progress; offered = some m }

-- case jobsChan <- m
abbrev pub sent : ℕ → Jobs → Jobs
sent m s = record s { offered = none; channel = s.channel ++ m ∷ [] }

-- default: delete(inProgress, m.ID)
abbrev pub dropped : ℕ → Jobs → Jobs
dropped m s = record s { in_progress = set_mark m false s.in_progress; offered = none }

-- for m := range jobsChan
abbrev pub started : ℕ → List ℕ → Jobs → Jobs
started m rest s = record s { channel = rest; running = m ∷ s.running }

-- delete(inProgress, m.ID) of a worker
abbrev pub finished : ℕ → Jobs → Jobs
finished m s = record s {
  in_progress = set_mark m false s.in_progress;
  running = remove_one m s.running;
}

-- How often a monitor stands in a list.
abbrev pub times : ℕ → List ℕ → ℕ
times m = count_if (λ k. k == m)

pub data JobStep (workers : ℕ) : Jobs → Jobs → Type 0 where
  mark :
      (m : ℕ) (s : Jobs)
      → s.offered ≡ none
      → s.in_progress m ≡ false
      → JobStep workers s (marked m s)
  send :
      (m : ℕ) (s : Jobs)
      → s.offered ≡ some m
      → length s.channel < capacity workers
      → JobStep workers s (sent m s)
  drop :
      (m : ℕ) (s : Jobs)
      → s.offered ≡ some m
      → capacity workers ≤ length s.channel
      → JobStep workers s (dropped m s)
  start :
      (m : ℕ) (rest : List ℕ) (s : Jobs)
      → s.channel ≡ m ∷ rest
      → length s.running < workers
      → JobStep workers s (started m rest s)
  finish : (m : ℕ) (s : Jobs) → 1 ≤ times m s.running → JobStep workers s (finished m s)

-- The states that the scheduler can be in after Start.
pub data Reached (workers : ℕ) : Jobs → Type 0 where
  begun : Reached workers no_jobs
  next : (s t : Jobs) → Reached workers s → JobStep workers s t → Reached workers t

abbrev offers : ℕ → Option ℕ → ℕ
offers m none = 0
offers m (some k) = if k == m then 1 else 0

abbrev mark_count : Bool → ℕ
mark_count b = if b then 1 else 0

-- A mark stands for one job: offered, in the channel, or running.
record Tracked (workers : ℕ) (s : Jobs) : Type 0 where
  one_job :
      (m : ℕ)
      → times m s.running + times m s.channel + offers m s.offered ≡ mark_count (s.in_progress m)
  few_running : length s.running ≤ workers
  few_waiting : length s.channel ≤ capacity workers

times-remove_one :
    (m k : ℕ) (xs : List ℕ)
    → 1 ≤ times k xs
    → times m (remove_one k xs) + (if k == m then 1 else 0) ≡ times m xs
times-remove_one m k [] h = omega (arith, h)
times-remove_one m k (x ∷ xs) h = ground (arith, h, times-remove_one m k xs)

length-remove_one : (k : ℕ) (xs : List ℕ) → length (remove_one k xs) ≤ length xs
length-remove_one k [] = omega arith
length-remove_one k (x ∷ xs) = ground (arith, length-remove_one k xs)

times_self : (m : ℕ) (xs : List ℕ) → 1 ≤ times m (m ∷ xs)
times_self m xs = ground arith

step-Tracked :
    (workers : ℕ) (s t : Jobs) → JobStep workers s t → Tracked workers s → Tracked workers t
step-Tracked workers _ _ (mark m s free unmarked) v = record {
  one_job = λ k. ground (arith, v.one_job k, free, unmarked);
  few_running = v.few_running;
  few_waiting = v.few_waiting;
}
step-Tracked workers _ _ (send m s held room) v = record {
  one_job =
      λ k. ground (arith, v.one_job k, held, count_if-append (λ j. j == k) s.channel (m ∷ []));
  few_running = v.few_running;
  few_waiting = omega (arith, room, length-append s.channel (m ∷ []));
}
step-Tracked workers _ _ (drop m s held full) v = record {
  one_job = λ k. ground (arith, v.one_job k, held);
  few_running = v.few_running;
  few_waiting = v.few_waiting;
}
step-Tracked workers _ _ (start m rest s waiting idle) v = record {
  one_job = λ k. ground (arith, v.one_job k, waiting);
  few_running = omega (arith, idle);
  few_waiting = ground (arith, waiting, v.few_waiting);
}
step-Tracked workers _ _ (finish m s busy) v = record {
  one_job = λ k. ground (arith, v.one_job k, times-remove_one k m s.running busy);
  few_running = omega (arith, v.few_running, length-remove_one m s.running);
  few_waiting = v.few_waiting;
}

Reached-Tracked : (workers : ℕ) (s : Jobs) → Reached workers s → Tracked workers s
Reached-Tracked workers _ begun = record {
  one_job = λ m. refl;
  few_running = omega arith;
  few_waiting = omega arith;
}
Reached-Tracked workers _ (next s t before step) =
    step-Tracked workers s t step (Reached-Tracked workers s before)

-- In every state that the scheduler reaches, whatever the order of the steps, no monitor has two
-- jobs, waiting or running, at most as many checks run as there are workers, and at most twice as
-- many wait.
pub Reached_exclusive :
    (workers : ℕ) (s : Jobs) (m : ℕ)
    → Reached workers s
    → (times m s.running + times m s.channel ≤ 1)
      × (length s.running ≤ workers)
      × (length s.channel ≤ capacity workers)
Reached_exclusive workers s m r =
    let v = Reached-Tracked workers s r in
    (ground (arith, v.one_job m), v.few_running, v.few_waiting)

-- No mark is left behind: in a state that the scheduler reaches, a monitor that is not offered, not
-- in the channel and not running can be marked at the next tick.
pub Reached_released :
    (workers : ℕ) (s : Jobs) (m : ℕ)
    → Reached workers s
    → s.offered ≡ none
    → times m s.channel ≡ 0
    → times m s.running ≡ 0
    → s.in_progress m ≡ false
Reached_released workers s m r free waiting idle =
    ground (arith, (Reached-Tracked workers s r).one_job m, free, waiting, idle)
