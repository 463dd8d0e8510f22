-- ===== src/Concurrent/TaskScheduler/Heap.antt =====
-- A priority queue that takes the first of the entries with the least time.
use knights.Base.{ℕ, ◌≤◌, ◌≡◌, refl, Bool, List, [], ◌∷◌, ltb, if◌then◌else◌, length, arith}
use knights.Concurrent.TaskScheduler.{DelayedTask, PriorityQueue, count}

module _ {A : Type 0} where
  -- An entry that is not later than `d` and the others, and the rest.
  pop_least : DelayedTask A → List (DelayedTask A) → DelayedTask A × List (DelayedTask A)
  pop_least d [] = (d, [])
  pop_least d (e ∷ es) =
      let (top, rest) = pop_least e es in
      if ltb top.due d.due then (top, d ∷ rest) else (d, top ∷ rest)

  same_entries :
      (d : DelayedTask A) (ds : List (DelayedTask A)) (p : DelayedTask A → Bool)
      → count p (d ∷ ds) ≡ count p ((pop_least d ds).0 ∷ (pop_least d ds).1)
  unfolding pop_least
  same_entries d [] p = refl
  same_entries d (e ∷ es) p = ground (arith, same_entries e es p)

  same_length :
      (d : DelayedTask A) (ds : List (DelayedTask A)) → length (pop_least d ds).1 ≡ length ds
  unfolding pop_least
  same_length d [] = refl
  same_length d (e ∷ es) = ground (arith, same_length e es)

  earlier_none :
      (a b : ℕ) (ds : List (DelayedTask A))
      → b ≤ a
      → count (λ e. ltb e.due a) ds ≡ 0
      → count (λ e. ltb e.due b) ds ≡ 0
  earlier_none a b [] h k = refl
  earlier_none a b (d ∷ ds) h k = ground (arith, earlier_none a b ds)

  is_first :
      (d : DelayedTask A) (ds : List (DelayedTask A))
      → count (λ e. ltb e.due (pop_least d ds).0.due) (pop_least d ds).1 ≡ 0
  unfolding pop_least
  is_first d [] = refl
  is_first d (e ∷ es) =
      let (top, rest) = pop_least e es in
      ground (arith, is_first e es, earlier_none top.due d.due rest)

  pub least_first : PriorityQueue A
  least_first = record {
    pop_top = pop_least;
    same_entries = same_entries;
    same_length = same_length;
    is_first = is_first;
  }
