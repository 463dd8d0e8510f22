-- ===== src/Concurrent/JobQueue.antt =====
-- `JobQueue` of core/src/concurrent/job_queue.cpp and core/include/server/core/concurrent/job_queue.hpp.
-- A call is one step, taken when it holds the mutex. A call that would sleep on the condition variable is
-- refused, and its thread makes it again; a job is a value of any type, and `none` is an empty function.
pub mod Fifo
use knights.Base.{
  ℕ, zero, suc, Bool, true, false, ◌&&◌, ◌||◌, Option, none, some, List, [], ◌∷◌, ◌++◌, ltb, leb,
  if◌then◌else◌, is_empty, length,
}

-- The front of the queue is the head of `jobs`.
pub record JobQueue {ℓ} (A : Type ℓ) : Type ℓ where
  pub jobs : List A
  pub stopping : Bool
  pub max_size : ℕ

-- How a call ends: it sleeps, or it answers.
pub data Outcome {ℓ} (B : Type ℓ) : Type ℓ where
  waits : Outcome B
  answers : B → Outcome B

unfoldable pub new_queue {ℓ} : {A : Type ℓ} → ℕ → JobQueue A
new_queue max_size = record { jobs = []; stopping = false; max_size = max_size }

abbrev pub is_full {ℓ} : {A : Type ℓ} → JobQueue A → Bool
is_full q = ltb 0 q.max_size && leb q.max_size (length q.jobs)

abbrev pub add {ℓ} : {A : Type ℓ} → JobQueue A → A → JobQueue A
add q job = record q { jobs = q.jobs ++ (job ∷ []) }

-- `Push`: the answer says whether the job is in the queue, which the code does not return.
unfoldable pub push {ℓ} : {A : Type ℓ} → JobQueue A → Option A → JobQueue A × Outcome Bool
push q none = (q, answers false)
push q (some job) =
    if q.stopping
    then (q, answers false)
    else (if is_full q then (q, waits) else (add q job, answers true))

unfoldable pub try_push {ℓ} : {A : Type ℓ} → JobQueue A → Option A → JobQueue A × Bool
try_push q none = (q, false)
try_push q (some job) =
    if q.stopping then (q, false) else (if is_full q then (q, false) else (add q job, true))

pop_front {ℓ} : {A : Type ℓ} → JobQueue A → List A → JobQueue A × Outcome (Option A)
pop_front q [] = if q.stopping then (q, answers none) else (q, waits)
pop_front q (job ∷ rest) = (record q { jobs = rest }, answers (some job))

-- `Pop`; an empty answer tells the consumer to end.
unfoldable pub pop {ℓ} : {A : Type ℓ} → JobQueue A → JobQueue A × Outcome (Option A)
unfolding pop_front
pop q = pop_front q q.jobs

unfoldable pub stop {ℓ} : {A : Type ℓ} → JobQueue A → JobQueue A
stop q = record q { stopping = true }
