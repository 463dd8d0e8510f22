-- ===== src/Concurrent/JobQueue/Fifo.antt =====
-- Histories of a job queue: its order, its bound and what happens after `Stop`.
use knights.Base.{
  ℕ, ◌≤◌, ◌<◌, ◌≡◌, ◌∙◌, ap, ap₂, sym, refl, subst, Bool, true, false, Option, none, some, List, [],
  ◌∷◌, ◌++◌, if◌then◌else◌, length, append-nil, length-append, arith,
}
use knights.Concurrent.Order.{Queue, after, all_added, all_taken, all_keep_order}
use knights.Concurrent.JobQueue.{
  JobQueue, Outcome, waits, answers, new_queue, is_full, add, push, try_push, pop, stop, pop_front,
}

pub data Call (A : Type 0) : Type 0 where
  pushes : Option A → Call A
  tries : Option A → Call A
  pops : Call A
  stops : Call A

unfoldable pub step : {A : Type 0} → JobQueue A → Call A → JobQueue A
step q (pushes job) = (push q job).0
step q (tries job) = (try_push q job).0
step q pops = (pop q).0
step q stops = stop q

abbrev pub job_of : {A : Type 0} → Option A → List A
job_of none = []
job_of (some job) = job ∷ []

abbrev pub popped_job : {A : Type 0} → Outcome (Option A) → List A
popped_job waits = []
popped_job (answers o) = job_of o

abbrev pub accepts : Outcome Bool → Bool
accepts waits = false
accepts (answers b) = b

-- The jobs whose call says that they are in the queue.
unfoldable pub accepted_by : {A : Type 0} → JobQueue A → Call A → List A
accepted_by q (pushes job) = if accepts (push q job).1 then job_of job else []
accepted_by q (tries job) = if (try_push q job).1 then job_of job else []
accepted_by q pops = []
accepted_by q stops = []

unfoldable pub popped_by : {A : Type 0} → JobQueue A → Call A → List A
popped_by q (pushes job) = []
popped_by q (tries job) = []
popped_by q pops = popped_job (pop q).1
popped_by q stops = []

pop_front_order :
    {A : Type 0} (q : JobQueue A) (jobs : List A)
    → q.jobs ≡ jobs
    → jobs ≡ popped_job (pop_front q jobs).1 ++ (pop_front q jobs).0.jobs
unfolding pop_front
pop_front_order q [] e = ground (arith)
pop_front_order q (job ∷ rest) e = refl

pub step_keeps_order :
    {A : Type 0} (q : JobQueue A) (c : Call A)
    → q.jobs ++ accepted_by q c ≡ popped_by q c ++ (step q c).jobs
unfolding step accepted_by popped_by push try_push pop stop
step_keeps_order q (pushes none) = append-nil q.jobs
step_keeps_order q (pushes (some job)) = ground (arith, append-nil q.jobs)
step_keeps_order q (tries none) = append-nil q.jobs
step_keeps_order q (tries (some job)) = ground (arith, append-nil q.jobs)
step_keeps_order q pops = append-nil q.jobs ∙ pop_front_order q q.jobs refl
step_keeps_order q stops = append-nil q.jobs

abbrev pub job_queue : (A : Type 0) → Queue (JobQueue A) (Call A) A
job_queue A = record {
  step = step;
  items = λ q. q.jobs;
  added = accepted_by;
  taken = popped_by;
  keeps_order = step_keeps_order;
}

module _ {A : Type 0} where
  -- For every history of calls on a new queue: the jobs that `Push` and `TryPush` took, in their order, are
  -- the jobs that `Pop` handed out, in their order, followed by the jobs in the queue. No job is lost,
  -- doubled or overtaken.
  pub accepted_jobs :
      (max_size : ℕ) (cs : List (Call A))
      → (all_added (job_queue A) (new_queue max_size) cs
          ≡ all_taken (job_queue A) (new_queue max_size) cs
            ++ (after (job_queue A) (new_queue max_size) cs).jobs)
  unfolding new_queue
  accepted_jobs max_size cs = all_keep_order (job_queue A) (new_queue max_size) cs

module _ {A : Type 0} (max_size : ℕ) (bounded : 0 < max_size) where
  abbrev pub IsBounded : JobQueue A → Type 0
  IsBounded q = (q.max_size ≡ max_size) × (length q.jobs ≤ max_size)

  pop_front-IsBounded :
      (q : JobQueue A) (jobs : List A)
      → q.jobs ≡ jobs
      → IsBounded q
      → IsBounded (pop_front q jobs).0
  unfolding pop_front
  pop_front-IsBounded q [] e b = ground (arith, b)
  pop_front-IsBounded q (job ∷ rest) e (b, c) =
      let h : length (job ∷ rest) ≤ max_size = subst (λ xs. length xs ≤ max_size) e c in
      ground (arith, b, h)

  push_bound : (q : JobQueue A) (job : A) → IsBounded q → is_full q ≡ false → IsBounded (add q job)
  push_bound q job b room = ground (arith, b, length-append q.jobs (job ∷ []))

  step-IsBounded : (q : JobQueue A) (c : Call A) → IsBounded q → IsBounded (step q c)
  unfolding step push try_push pop stop
  step-IsBounded q (pushes none) b = b
  step-IsBounded q (pushes (some job)) b = ground (arith, b, push_bound q job b)
  step-IsBounded q (tries none) b = b
  step-IsBounded q (tries (some job)) b = ground (arith, b, push_bound q job b)
  step-IsBounded q pops b = pop_front-IsBounded q q.jobs refl b
  step-IsBounded q stops b = b

  new_queue-IsBounded :
      (cs : List (Call A)) → IsBounded (after (job_queue A) (new_queue max_size) cs)
  unfolding after new_queue
  new_queue-IsBounded [] = (refl, omega arith)
  new_queue-IsBounded (c ∷ cs) =
      step-IsBounded (after (job_queue A) (new_queue max_size) cs) c (new_queue-IsBounded cs)

  -- A queue made with a positive `max_size` never holds more than `max_size` jobs, whatever the calls.
  pub after_bound :
      (cs : List (Call A)) → length (after (job_queue A) (new_queue max_size) cs).jobs ≤ max_size
  after_bound cs = (new_queue-IsBounded cs).1

-- The job at the front, none if there is none.
abbrev pub front : {A : Type 0} → List A → Option A
front [] = none
front (job ∷ jobs) = some job

module _ {A : Type 0} where
  pop_front_stopping :
      (q : JobQueue A) (jobs : List A) → q.stopping ≡ true → (pop_front q jobs).0.stopping ≡ true
  unfolding pop_front
  pop_front_stopping q [] h = ground arith
  pop_front_stopping q (job ∷ rest) h = h

  pop_front_answers :
      (q : JobQueue A) (jobs : List A)
      → q.stopping ≡ true
      → (pop_front q jobs).1 ≡ answers (front jobs)
  unfolding pop_front
  pop_front_answers q [] h = ground arith
  pop_front_answers q (job ∷ rest) h = refl

  step_stopping : (q : JobQueue A) (c : Call A) → q.stopping ≡ true → (step q c).stopping ≡ true
  unfolding step push try_push pop stop pop_front
  step_stopping q (pushes none) h = h
  step_stopping q (pushes (some job)) h = ground (arith)
  step_stopping q (tries none) h = h
  step_stopping q (tries (some job)) h = ground (arith)
  step_stopping q pops h = pop_front_stopping q q.jobs h
  step_stopping q stops h = refl

  accepted_stopping : (q : JobQueue A) (c : Call A) → q.stopping ≡ true → accepted_by q c ≡ []
  unfolding accepted_by push try_push
  accepted_stopping q (pushes none) h = refl
  accepted_stopping q (pushes (some job)) h = ground (arith)
  accepted_stopping q (tries none) h = refl
  accepted_stopping q (tries (some job)) h = ground (arith)
  accepted_stopping q pops h = refl
  accepted_stopping q stops h = refl

  after_stopping :
      (q : JobQueue A) (cs : List (Call A))
      → q.stopping ≡ true
      → ((after (job_queue A) q cs).stopping ≡ true) × (all_added (job_queue A) q cs ≡ [])
  unfolding after all_added
  after_stopping q [] h = (h, refl)
  after_stopping q (c ∷ cs) h =
      let (still, none_added) = after_stopping q cs h in
      let last = accepted_stopping (after (job_queue A) q cs) c still in
      (step_stopping (after (job_queue A) q cs) c still, ap₂ ◌++◌ none_added last)

  -- After `Stop`, whatever calls follow: no job is taken any more, the jobs that were in the queue are
  -- handed out in their order, those left still stand in the queue, and the next `Pop` does not sleep. It
  -- answers the job at the front, or the empty function when the queue is used up.
  pub stop-drains :
      (q : JobQueue A) (cs : List (Call A))
      → (all_added (job_queue A) (stop q) cs ≡ [])
        × (q.jobs ≡ all_taken (job_queue A) (stop q) cs ++ (after (job_queue A) (stop q) cs).jobs)
        × ((pop (after (job_queue A) (stop q) cs)).1
            ≡ answers (front (after (job_queue A) (stop q) cs).jobs))
  unfolding stop pop
  stop-drains q cs =
      let (still, none_added) = after_stopping (stop q) cs refl in
      let order = all_keep_order (job_queue A) (stop q) cs in
      (
        none_added,
        sym (append-nil q.jobs) ∙ ap (λ xs. q.jobs ++ xs) (sym none_added) ∙ order,
        pop_front_answers (after (job_queue A) (stop q) cs) (after (job_queue A) (stop q) cs).jobs
            still,
      )
