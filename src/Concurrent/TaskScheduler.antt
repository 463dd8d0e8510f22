-- ===== src/Concurrent/TaskScheduler.antt =====
-- `TaskScheduler` of core/src/concurrent/task_scheduler.cpp and its header. A call is one step; times and
-- durations are ticks of the steady clock, and the duration 0 stands for every one that is not positive.
-- `std::priority_queue` says nothing of entries that are due at the same time, so its `top` is an interface.
pub mod Heap
pub mod Due
pub mod Shutdown
use knights.Base.{
  ℕ, zero, suc, ◌+◌, ◌≤◌, ◌≡◌, Bool, true, false, not, ◌||◌, Option, none, some, List, [], ◌∷◌,
  ◌++◌, ltb, leb, ◌==◌, if◌then◌else◌, take, drop, length, is_empty, All,
}

-- `every` is the closure that `schedule_every` makes of a task.
pub data Task (A : Type 0) : Type 0 where
  once : A → Task A
  every : ℕ → A → Task A

pub record DelayedTask (A : Type 0) : Type 0 where
  pub due : ℕ
  pub task : Task A

pub record TaskScheduler (A : Type 0) : Type 0 where
  pub ready : List (Task A)
  pub delayed : List (DelayedTask A)
  pub is_shutdown : Bool

-- How many elements pass a test.
abbrev pub count {ℓ} : {A : Type ℓ} → (A → Bool) → List A → ℕ
count p [] = 0
count p (x ∷ xs) = let rest = count p xs in if p x then rest + 1 else rest

-- `top` and `pop` of the priority queue: an entry that is due first, and the others.
pub record PriorityQueue (A : Type 0) : Type 0 where
  pub pop_top : DelayedTask A → List (DelayedTask A) → DelayedTask A × List (DelayedTask A)
  pub same_entries :
      (d : DelayedTask A) (ds : List (DelayedTask A)) (p : DelayedTask A → Bool)
      → count p (d ∷ ds) ≡ count p ((pop_top d ds).0 ∷ (pop_top d ds).1)
  pub same_length :
      (d : DelayedTask A) (ds : List (DelayedTask A)) → length (pop_top d ds).1 ≡ length ds
  pub is_first :
      (d : DelayedTask A) (ds : List (DelayedTask A))
      → count (λ e. ltb e.due (pop_top d ds).0.due) (pop_top d ds).1 ≡ 0

-- What a task may call while it runs.
pub data Request (A : Type 0) : Type 0 where
  posts : A → Request A
  schedules : A → ℕ → Request A
  repeats : A → ℕ → Request A
  shuts_down : Request A

module _ {A : Type 0} where
  abbrev pub new_scheduler : TaskScheduler A
  new_scheduler = record { ready = []; delayed = []; is_shutdown = false }

  unfoldable pub shutdown : TaskScheduler A → TaskScheduler A
  shutdown s = if s.is_shutdown then s else record { ready = []; delayed = []; is_shutdown = true }

  unfoldable pub post : TaskScheduler A → Task A → TaskScheduler A
  post s task = if s.is_shutdown then s else record s { ready = s.ready ++ (task ∷ []) }

  unfoldable pub schedule : TaskScheduler A → Task A → ℕ → ℕ → TaskScheduler A
  unfolding post
  schedule s task delay now =
      if s.is_shutdown
      then s
      else (if delay == 0
          then post s task
          else record s { delayed = record { due = now + delay; task = task } ∷ s.delayed })

  unfoldable pub schedule_every : TaskScheduler A → A → ℕ → ℕ → TaskScheduler A
  unfolding post schedule
  schedule_every s task interval now =
      if interval == 0 then post s (once task) else schedule s (every interval task) interval now

  unfoldable pub request : TaskScheduler A → ℕ → Request A → TaskScheduler A
  unfolding post schedule schedule_every shutdown
  request s now (posts a) = post s (once a)
  request s now (schedules a delay) = schedule s (once a) delay now
  request s now (repeats a interval) = schedule_every s a interval now
  request s now shuts_down = shutdown s

  abbrev pub tasks_of : List (DelayedTask A) → List (Task A)
  tasks_of [] = []
  tasks_of (d ∷ ds) = d.task ∷ tasks_of ds

module _ {A : Type 0} (queue : PriorityQueue A) where
  -- The first loop of `collect_ready`, with fuel: the entries that it moves, and those that stay.
  unfoldable pub take_due :
      ℕ → ℕ → List (DelayedTask A) → List (DelayedTask A) × List (DelayedTask A)
  take_due zero now ds = ([], ds)
  take_due (suc fuel) now [] = ([], [])
  take_due (suc fuel) now (d ∷ ds) =
      let (top, others) = queue.pop_top d ds in
      let rest = take_due fuel now others in
      if leb top.due now then (top ∷ rest.0, rest.1) else ([], top ∷ others)

  -- `collect_ready`; each round of its first loop takes one entry.
  unfoldable pub collect_ready : TaskScheduler A → ℕ → ℕ → TaskScheduler A × List (Task A)
  collect_ready s now max_tasks =
      let (moved, later) = take_due (length s.delayed) now s.delayed in
      let ready = s.ready ++ tasks_of moved in
      (record s { ready = drop max_tasks ready; delayed = later }, take max_tasks ready)

module _ {A : Type 0} (body : A → List (Request A)) where
  run_body : TaskScheduler A → ℕ → List (Request A) → TaskScheduler A
  run_body s now [] = s
  run_body s now (r ∷ rs) = run_body (request s now r) now rs

  -- A call of a task, and the action that it runs.
  unfoldable pub run_task : TaskScheduler A → ℕ → Task A → TaskScheduler A × List A
  unfolding run_body
  run_task s now (once a) = (run_body s now (body a), a ∷ [])
  run_task s now (every interval a) =
      if s.is_shutdown
      then (s, [])
      else (schedule_every (run_body s now (body a)) a interval now, a ∷ [])

  -- The loop of `poll`: the state, the actions that ran and the number of tasks. `clock i` is the time at
  -- which the task runs that `i` others follow.
  unfoldable pub run_tasks :
      TaskScheduler A → (ℕ → ℕ) → List (Task A) → TaskScheduler A × List A × ℕ
  run_tasks s clock [] = (s, [], 0)
  run_tasks s clock (t ∷ ts) =
      let (s', ran) = run_task s (clock (length ts)) t in
      let (s'', more, executed) = run_tasks s' clock ts in (s'', ran ++ more, executed + 1)

module _ {A : Type 0} (queue : PriorityQueue A) (body : A → List (Request A)) where
  unfoldable pub poll : TaskScheduler A → ℕ → (ℕ → ℕ) → ℕ → TaskScheduler A × List A × ℕ
  poll s now clock max_tasks =
      if s.is_shutdown
      then (s, [], 0)
      else (let (s', tasks) = collect_ready queue s now max_tasks in run_tasks body s' clock tasks)
