-- ===== src/Concurrent/TaskScheduler/Due.antt =====
-- What `collect_ready` takes: the entries that are due, all of them, in the order of their times.
use knights.Base.{
  ℕ, zero, suc, ◌+◌, ◌≤◌, ◌<◌, ◌≡◌, ◌∙◌, ap, refl, Bool, true, false, ◌&&◌, List, [], ◌∷◌, ◌++◌,
  leb, ltb, length, take, drop, All, arith, Bool-cases, inl, inr, take-append-drop, length-take,
  length-append, map, ap₂, if◌then◌else◌,
}
use mathlib.Core.List.{map-append}
use knights.Concurrent.TaskScheduler.{
  Task, DelayedTask, TaskScheduler, PriorityQueue, count, take_due, tasks_of, collect_ready, poll,
  run_tasks, run_task, run_body, Request, request, post, schedule, schedule_every, posts, schedules,
  repeats, shuts_down, once, every,
}

module _ {A : Type 0} where
  count-append : (p : A → Bool) (xs ys : List A) → count p (xs ++ ys) ≡ count p xs + count p ys
  count-append p [] ys = omega arith
  count-append p (x ∷ xs) ys = ground (arith, count-append p xs ys)

  abbrev pub is_due : ℕ → DelayedTask A → Bool
  is_due now d = leb d.due now

  -- No entry is due before one that stands in front of it.
  abbrev pub InOrder : List (DelayedTask A) → Type 0
  InOrder [] = Unit
  InOrder (d ∷ ds) = (count (λ e. ltb e.due d.due) ds ≡ 0) × InOrder ds

  none_due :
      (now first : ℕ) (ds : List (DelayedTask A))
      → now < first
      → count (λ e. ltb e.due first) ds ≡ 0
      → count (is_due now) ds ≡ 0
  none_due now first [] late h = refl
  none_due now first (d ∷ ds) late h = ground (arith, none_due now first ds)

  -- Where none is due, or all are, the test adds nothing.
  count_none :
      (p : DelayedTask A → Bool) (now : ℕ) (ds : List (DelayedTask A))
      → count (is_due now) ds ≡ 0
      → count (λ d. p d && is_due now d) ds ≡ 0
  count_none p now [] h = refl
  count_none p now (d ∷ ds) h = ground (arith, count_none p now ds)

  count-All :
      (p : DelayedTask A → Bool) (now : ℕ) (ds : List (DelayedTask A))
      → All (λ e. is_due now e ≡ true) ds
      → count (λ d. p d && is_due now d) ds ≡ count p ds
  count-All p now [] h = refl
  count-All p now (d ∷ ds) h = ground (arith, count-All p now ds h.1, h.0)

  abbrev pub action : Task A → A
  action (once a) = a
  action (every interval a) = a

  -- No task asks for a shutdown.
  abbrev pub stays_open : List (Request A) → Bool
  stays_open [] = true
  stays_open (posts a ∷ rs) = stays_open rs
  stays_open (schedules a delay ∷ rs) = stays_open rs
  stays_open (repeats a interval ∷ rs) = stays_open rs
  stays_open (shuts_down ∷ rs) = false

module _ {A : Type 0} (queue : PriorityQueue A) (now : ℕ) where
  -- The moved entries and those that stay make up all of them.
  take_due-count :
      (fuel : ℕ) (ds : List (DelayedTask A)) (p : DelayedTask A → Bool)
      → (let r = take_due queue fuel now ds in count p r.0 + count p r.1) ≡ count p ds
  unfolding take_due
  take_due-count zero ds p = omega arith
  take_due-count (suc fuel) [] p = omega arith
  take_due-count (suc fuel) (d ∷ ds) p =
      ground (arith, take_due-count fuel (queue.pop_top d ds).1 p, queue.same_entries d ds p)

  moved-All :
      (fuel : ℕ) (ds : List (DelayedTask A))
      → All (λ e. is_due now e ≡ true) (take_due queue fuel now ds).0
  unfolding take_due
  moved-All zero ds = tt
  moved-All (suc fuel) [] = tt
  moved-All (suc fuel) (d ∷ ds) = elim (Bool-cases (leb (queue.pop_top d ds).0.due now)) [
    | inl e ↦ rw e (e, moved-All fuel (queue.pop_top d ds).1)
    | inr e ↦ rw e tt
  ]

  -- With a round for each entry, nothing that is due stays.
  kept_none_due :
      (fuel : ℕ) (ds : List (DelayedTask A))
      → length ds ≤ fuel
      → count (is_due now) (take_due queue fuel now ds).1 ≡ 0
  unfolding take_due
  kept_none_due zero [] h = refl
  kept_none_due zero (d ∷ ds) h = absurd (omega arith)
  kept_none_due (suc fuel) [] h = refl
  kept_none_due (suc fuel) (d ∷ ds) h =
      let (top, others) = queue.pop_top d ds in
      ground (
        arith,
        kept_none_due fuel others (omega (arith, queue.same_length d ds)),
        none_due now top.due others,
        queue.is_first d ds,
      )

  moved-InOrder : (fuel : ℕ) (ds : List (DelayedTask A)) → InOrder (take_due queue fuel now ds).0
  unfolding take_due
  moved-InOrder zero ds = tt
  moved-InOrder (suc fuel) [] = tt
  moved-InOrder (suc fuel) (d ∷ ds) = elim (Bool-cases (leb (queue.pop_top d ds).0.due now)) [
    | inl e ↦
        let (top, others) = queue.pop_top d ds in
        rw e (
          omega (arith, take_due-count fuel others (λ e. ltb e.due top.due), queue.is_first d ds),
          moved-InOrder fuel others,
        )
    | inr e ↦ rw e tt
  ]

  -- The moved entries are those that are due, each as often as it was queued.
  moved_count :
      (ds : List (DelayedTask A)) (p : DelayedTask A → Bool)
      → count p (take_due queue (length ds) now ds).0 ≡ count (λ d. p d && is_due now d) ds
  moved_count ds p =
      let (moved, kept) = take_due queue (length ds) now ds in
      let both = λ (d : DelayedTask A). p d && is_due now d in
      omega (
        arith,
        take_due-count (length ds) ds both,
        count_none p now kept (kept_none_due (length ds) ds (omega arith)),
        count-All p now moved (moved-All (length ds) ds),
      )

  collected_lem :
      (s : TaskScheduler A) (max_tasks : ℕ) (p : DelayedTask A → Bool)
      → let moved = (take_due queue (length s.delayed) now s.delayed).0 in
        let (s', out) = collect_ready queue s now max_tasks in
        (out ++ s'.ready ≡ s.ready ++ tasks_of moved)
        × (length out ≤ max_tasks)
        × InOrder moved
        × (count p moved ≡ count (λ d. p d && is_due now d) s.delayed)
        × (count p moved + count p s'.delayed ≡ count p s.delayed)
  unfolding collect_ready
  collected_lem s max_tasks p =
      let moved = (take_due queue (length s.delayed) now s.delayed).0 in
      (
        take-append-drop max_tasks (s.ready ++ tasks_of moved),
        omega (arith, length-take max_tasks (s.ready ++ tasks_of moved)),
        moved-InOrder (length s.delayed) s.delayed,
        moved_count s.delayed p,
        take_due-count (length s.delayed) s.delayed p,
      )

-- One call of `collect_ready`, for every priority queue that hands out an entry with the least time: the
-- tasks that it takes and the tasks that stay ready are, in order, the ready ones and then those of the
-- moved entries; it takes at most `max_tasks`; the moved entries stand in the order of their times; they
-- are exactly the entries that are due, each as often as it was queued; and the others stay queued.
pub collect_ready_lem :
    {A : Type 0} (queue : PriorityQueue A) (s : TaskScheduler A) (now max_tasks : ℕ)
    (p : DelayedTask A → Bool)
    → let moved = (take_due queue (length s.delayed) now s.delayed).0 in
      let (s', out) = collect_ready queue s now max_tasks in
      (out ++ s'.ready ≡ s.ready ++ tasks_of moved)
      × (length out ≤ max_tasks)
      × InOrder moved
      × (count p moved ≡ count (λ d. p d && is_due now d) s.delayed)
      × (count p moved + count p s'.delayed ≡ count p s.delayed)
collect_ready_lem queue s now max_tasks p = collected_lem queue now s max_tasks p

module _ {A : Type 0} (queue : PriorityQueue A) (body : A → List (Request A)) where
  length-tasks_of : (ds : List (DelayedTask A)) → length (tasks_of ds) ≡ length ds
  length-tasks_of [] = refl
  length-tasks_of (d ∷ ds) = ap suc (length-tasks_of ds)

  length-count : (ds : List (DelayedTask A)) → count (λ _. true) ds ≡ length ds
  length-count [] = refl
  length-count (d ∷ ds) = omega (arith, length-count ds)

  count_both :
      (now : ℕ) (ds : List (DelayedTask A))
      → count (λ d. true && is_due now d) ds ≡ count (is_due now) ds
  count_both now [] = refl
  count_both now (d ∷ ds) = ground (arith, count_both now ds)

  run_body_open :
      (s : TaskScheduler A) (now : ℕ) (rs : List (Request A))
      → s.is_shutdown ≡ false
      → stays_open rs ≡ true
      → (run_body body s now rs).is_shutdown ≡ false
  unfolding run_body request post schedule schedule_every
  run_body_open s now [] h calm = h
  run_body_open s now (posts a ∷ rs) h calm =
      run_body_open (request s now (posts a)) now rs (ground arith) calm
  run_body_open s now (schedules a delay ∷ rs) h calm =
      run_body_open (request s now (schedules a delay)) now rs (ground arith) calm
  run_body_open s now (repeats a interval ∷ rs) h calm =
      run_body_open (request s now (repeats a interval)) now rs (ground arith) calm
  run_body_open s now (shuts_down ∷ rs) h calm = ground arith

  module _ (calm : (a : A) → stays_open (body a) ≡ true) where
    run_task_open :
        (s : TaskScheduler A) (now : ℕ) (t : Task A)
        → s.is_shutdown ≡ false
        → ((run_task body s now t).0.is_shutdown ≡ false)
          × ((run_task body s now t).1 ≡ action t ∷ [])
    unfolding run_task schedule_every schedule post
    run_task_open s now (once a) h = (run_body_open s now (body a) h (calm a), refl)
    run_task_open s now (every interval a) h =
        let still = run_body_open s now (body a) h (calm a) in (ground (arith, still), ground arith)

    executed_all :
        (s : TaskScheduler A) (clock : ℕ → ℕ) (ts : List (Task A))
        → s.is_shutdown ≡ false
        → ((run_tasks body s clock ts).1 ≡ map action ts)
          × ((run_tasks body s clock ts).2 ≡ length ts)
    unfolding run_tasks
    executed_all s clock [] h = (refl, refl)
    executed_all s clock (t ∷ ts) h =
        let (still, ran) = run_task_open s (clock (length ts)) t h in
        let (more, executed) =
          executed_all (run_task body s (clock (length ts)) t).0 clock ts still in
        (ap₂ ◌++◌ ran more, omega (arith, executed))

    all_taken :
        (max_tasks : ℕ) (ts : List (Task A)) → length ts ≤ max_tasks → take max_tasks ts ≡ ts
    all_taken zero [] h = refl
    all_taken zero (t ∷ ts) h = elim h [ ]
    all_taken (suc n) [] h = refl
    all_taken (suc n) (t ∷ ts) h = ap (◌∷◌ t) (all_taken n ts (omega arith))

    -- If no task asks for a shutdown, a poll of a running scheduler whose batch has room for all tasks that are
    -- ready or due runs first the actions of the ready ones, in their order, and then those of the due ones,
    -- each as often as it was queued, in the order of their times; it runs no others, and its counter is the
    -- number of these tasks.
    pub poll_executes :
        (s : TaskScheduler A) (now : ℕ) (clock : ℕ → ℕ) (max_tasks : ℕ)
        → s.is_shutdown ≡ false
        → length s.ready + count (is_due now) s.delayed ≤ max_tasks
        → let out = poll queue body s now clock max_tasks in
          (moved : List (DelayedTask A)) × (out.1
            ≡ map action s.ready ++ map action (tasks_of moved))
          × InOrder moved
          × ((p : DelayedTask A → Bool)
              → count p moved ≡ count (λ d. p d && is_due now d) s.delayed)
          × (out.2 ≡ length s.ready + count (is_due now) s.delayed)
    unfolding poll collect_ready
    poll_executes s now clock max_tasks runs room =
        let (moved, later) = take_due queue (length s.delayed) now s.delayed in
        let ready = s.ready ++ tasks_of moved in
        let size : length ready ≡ length s.ready + count (is_due now) s.delayed = omega (
          arith,
          length-append s.ready (tasks_of moved),
          length-tasks_of moved,
          length-count moved,
          moved_count queue now s.delayed (λ _. true),
          count_both now s.delayed,
        ) in
        let batch = all_taken max_tasks ready (omega (arith, size)) in
        let (ran, executed) =
          executed_all (record s { ready = drop max_tasks ready; delayed = later }) clock
            (take max_tasks ready) runs in
        let polled : poll queue body s now clock max_tasks
            ≡ run_tasks body (record s { ready = drop max_tasks ready; delayed = later }) clock
                (take max_tasks ready) =
          ap
            (λ b.
              if b
              then (s, [], 0)
              else run_tasks body (record s { ready = drop max_tasks ready; delayed = later }) clock
                  (take max_tasks ready))
            runs in
        (
          moved,
          ap (λ o. o.1) polled
              ∙ ran
              ∙ ap (map action) batch
              ∙ map-append action s.ready (tasks_of moved),
          moved-InOrder queue now (length s.delayed) s.delayed,
          moved_count queue now s.delayed,
          ap (λ o. o.2) polled ∙ executed ∙ ap length batch ∙ size,
        )
