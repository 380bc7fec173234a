-- ===== src/Scheduler/Drain.antt =====
-- How long the loop and the workers of internal/monitor/scheduler.go go on: runs of their steps, with the
-- number of marks among them.
use blackgrid.Prelude.{
  ℕ, zero, ◌≡◌, ◌≤◌, ◌+◌, ◌*◌, refl, false, suc, Option, none, some, List, [], ◌∷◌, ltb, length,
  length-append, ◌⊎◌, inl, inr, Bool-cases, Option-cases, arith, subst,
}
use blackgrid.Scheduler.Jobs.{
  Jobs, capacity, remove_one, sent, dropped, started, finished, times, JobStep, mark, send, drop,
  start, finish, Reached, next, Reached_released,
}

abbrev pub marks_in : (workers : ℕ) (s t : Jobs) → JobStep workers s t → ℕ
marks_in workers _ _ (mark m s free unmarked) = 1
marks_in workers _ _ (send m s held room) = 0
marks_in workers _ _ (drop m s held full) = 0
marks_in workers _ _ (start m rest s waiting idle) = 0
marks_in workers _ _ (finish m s busy) = 0

-- `Steps workers a n s t`: n steps lead from s to t, and a of them mark a monitor.
pub data Steps (workers : ℕ) : ℕ → ℕ → Jobs → Jobs → Type 0 where
  stay : (s : Jobs) → Steps workers 0 0 s s
  go :
      (a n : ℕ) (s t u : Jobs) (e : JobStep workers s t)
      → Steps workers a n t u
      → Steps workers (marks_in workers s t e + a) (suc n) s u

abbrev held : Option ℕ → ℕ
held none = 0
held (some m) = 3

-- The steps that the jobs of a state still need: three for one that is offered, two for one that waits,
-- one for one that runs.
abbrev pub work_left : Jobs → ℕ
work_left s = held s.offered + 2 * length s.channel + length s.running

length-remove_one_present :
    (k : ℕ) (xs : List ℕ) → 1 ≤ times k xs → suc (length (remove_one k xs)) ≡ length xs
length-remove_one_present k [] h = omega (arith, h)
length-remove_one_present k (x ∷ xs) h = ground (arith, h, length-remove_one_present k xs)

step-work_left :
    (workers : ℕ) (s t : Jobs) (e : JobStep workers s t)
    → suc (work_left t) ≤ 4 * marks_in workers s t e + work_left s
step-work_left workers _ _ (mark m s free unmarked) = ground (arith, free)
step-work_left workers _ _ (send m s offered room) =
    ground (arith, offered, length-append s.channel (m ∷ []))
step-work_left workers _ _ (drop m s offered full) = ground (arith, offered)
step-work_left workers _ _ (start m rest s waiting idle) = ground (arith, waiting)
step-work_left workers _ _ (finish m s busy) =
    ground (arith, length-remove_one_present m s.running busy)

-- Each step takes one off the steps that are left, and a mark adds four.
Steps-work_left :
    (workers a n : ℕ) (s t : Jobs) → Steps workers a n s t → n + work_left t ≤ 4 * a + work_left s
Steps-work_left workers _ _ _ _ (stay s) = omega arith
Steps-work_left workers _ _ _ _ (go a n s t u e more) =
    omega (arith, step-work_left workers s t e, Steps-work_left workers a n t u more)

-- Nothing is offered, waits or runs.
abbrev pub AtRest : Jobs → Type 0
AtRest s = (s.offered ≡ none) × (s.channel ≡ []) × (s.running ≡ [])

abbrev CanStep : ℕ → Jobs → Type 0
CanStep workers s = (t : Jobs) × (e : JobStep workers s t) × (marks_in workers s t e ≡ 0)

List-cases : (xs : List ℕ) → (xs ≡ []) ⊎ ((x : ℕ) × (rest : List ℕ) × (xs ≡ x ∷ rest))
List-cases [] = inl refl
List-cases (x ∷ rest) = inr (x, rest, refl)

can_finish :
    (workers : ℕ) (s : Jobs) (x : ℕ) (rest : List ℕ) → s.running ≡ x ∷ rest → CanStep workers s
can_finish workers s x rest busy = (finished x s, finish x s (ground (arith, busy)), refl)

step_cases : (workers : ℕ) (s : Jobs) → 1 ≤ workers → AtRest s ⊎ CanStep workers s
step_cases workers s h = elim (Option-cases s.offered) [
  | inr (m, offered) ↦ elim (Bool-cases (ltb (length s.channel) (capacity workers))) [
    | inl room ↦ inr (sent m s, send m s offered (ground (arith, room)), refl)
    | inr full ↦ inr (dropped m s, drop m s offered (ground (arith, full)), refl)
  ]
  | inl free ↦ elim (List-cases s.running) [
    | inr (x, rest, busy) ↦ inr (can_finish workers s x rest busy)
    | inl idle ↦ elim (List-cases s.channel) [
      | inr (m, rest, waiting) ↦
          inr (started m rest s, start m rest s waiting (ground (arith, idle, h)), refl)
      | inl quiet ↦ inl (free, quiet, idle)
    ]
  ]
]

come_to_rest :
    (fuel workers : ℕ) (s : Jobs)
    → 1 ≤ workers
    → Reached workers s
    → work_left s ≤ fuel
    → (n : ℕ) × (t : Jobs) × Steps workers 0 n s t × Reached workers t × AtRest t
come_to_rest zero workers s h r enough = elim (step_cases workers s h) [
  | inl rest ↦ (0, s, stay s, r, rest)
  | inr (t, e, unmarked) ↦ ground (arith, step-work_left workers s t e, unmarked, enough)
]
come_to_rest (suc fuel) workers s h r enough = elim (step_cases workers s h) [
  | inl rest ↦ (0, s, stay s, r, rest)
  | inr (t, e, unmarked) ↦
      let (n, u, more, r', rest) =
        come_to_rest fuel workers t h (next s t r e)
          (omega (arith, step-work_left workers s t e, unmarked, enough)) in
      (
        suc n,
        u,
        subst (λ a. Steps workers a (suc n) s u) (ground (arith, unmarked)) (go 0 n s t u e more),
        r',
        rest,
      )
]

-- From every state that the scheduler reaches, with at least one worker, it can come to rest without
-- another tick, in at most the steps that its jobs still need, and at rest no monitor is marked.
pub Reached-AtRest :
    (workers : ℕ) (s : Jobs)
    → 1 ≤ workers
    → Reached workers s
    → (n : ℕ) × (t : Jobs) × Steps workers 0 n s t
      × (n ≤ work_left s)
      × AtRest t
      × ((m : ℕ) → t.in_progress m ≡ false)
Reached-AtRest workers s h r =
    let (n, t, steps, r', (free, quiet, idle)) =
      come_to_rest (work_left s) workers s h r (omega arith) in
    (
      n,
      t,
      steps,
      omega (arith, Steps-work_left workers 0 n s t steps),
      (free, quiet, idle),
      λ m. Reached_released workers t m r' free (ground (arith, quiet)) (ground (arith, idle)),
    )
