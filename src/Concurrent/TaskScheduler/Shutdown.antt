-- ===== src/Concurrent/TaskScheduler/Shutdown.antt =====
-- A scheduler that has been shut down stays empty and runs nothing.
use knights.Base.{ℕ, ◌≡◌, ◌∙◌, ap, refl, true, false, List, [], ◌∷◌, ◌++◌, arith}
use knights.Concurrent.TaskScheduler.{
  TaskScheduler, PriorityQueue, Request, posts, schedules, repeats, shuts_down, shutdown, request,
  poll,
}

-- The public calls, with what they read from the clock.
pub data Call (A : Type 0) : Type 0 where
  requests : Request A → ℕ → Call A
  polls : ℕ → (ℕ → ℕ) → ℕ → Call A

module _ {A : Type 0} (queue : PriorityQueue A) (body : A → List (Request A)) where
  unfoldable pub step : TaskScheduler A → Call A → TaskScheduler A × List A
  step s (requests r now) = (request s now r, [])
  step s (polls now clock max_tasks) =
      let (s', ran, executed) = poll queue body s now clock max_tasks in (s', ran)

  -- The state after a history, the newest call at the head, and the actions that ran.
  unfoldable pub after : TaskScheduler A → List (Call A) → TaskScheduler A × List A
  after s [] = (s, [])
  after s (c ∷ cs) = let (s', ran) = after s cs in let (s'', more) = step s' c in (s'', ran ++ more)

  abbrev pub ended : TaskScheduler A
  ended = record { ready = []; delayed = []; is_shutdown = true }

  step-ended : (c : Call A) → step ended c ≡ (ended, [])
  unfolding step request poll shutdown
  step-ended (requests (posts a) now) = refl
  step-ended (requests (schedules a delay) now) = refl
  step-ended (requests (repeats a interval) now) = ground arith
  step-ended (requests shuts_down now) = refl
  step-ended (polls now clock max_tasks) = refl

  after-ended : (cs : List (Call A)) → after ended cs ≡ (ended, [])
  unfolding after
  after-ended [] = refl
  after-ended (c ∷ cs) = rw (after-ended cs) (rw (step-ended c))

  -- After `shutdown` of a running scheduler no task runs and none is kept, whatever is called.
  pub after-shutdown :
      (s : TaskScheduler A) (cs : List (Call A))
      → s.is_shutdown ≡ false
      → after (shutdown s) cs ≡ (ended, [])
  unfolding shutdown
  after-shutdown s cs runs =
      let e : shutdown s ≡ ended = ground arith in ap (λ x. after x cs) e ∙ after-ended cs
