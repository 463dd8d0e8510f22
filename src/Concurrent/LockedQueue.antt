-- ===== src/Concurrent/LockedQueue.antt =====
-- `LockedQueue` and `LockedWaitQueue` of core/include/server/core/concurrent/locked_queue.hpp. A call is one
-- step, taken when it holds the mutex. A call that would sleep on the condition variable is refused, and
-- its thread makes it again. The default item `T {}` is an argument.
pub mod Wait
use knights.Base.{
  ℕ, Bool, true, false, not, ◌&&◌, ◌||◌, Option, none, some, List, [], ◌∷◌, ◌++◌, ltb, leb, ◌==◌,
  if◌then◌else◌, is_empty, length,
}

-- Both classes in one record: `shutdown` is `shutdown_` of `LockedWaitQueue`, and stays false in a plain
-- queue. The front of the queue is the head of `items`.
pub record LockedQueue (A : Type 0) : Type 0 where
  pub items : List A
  pub capacity : ℕ
  pub shutdown : Bool

unfoldable pub new_queue : {A : Type 0} → ℕ → LockedQueue A
new_queue capacity = record { items = []; capacity = capacity; shutdown = false }

abbrev pub has_room : {A : Type 0} → LockedQueue A → Bool
has_room q = q.capacity == 0 || ltb (length q.items) q.capacity

abbrev pub add : {A : Type 0} → LockedQueue A → A → LockedQueue A
add q item = record q { items = q.items ++ (item ∷ []) }

-- `LockedQueue::push`: the answer is false when the call sleeps.
unfoldable pub push : {A : Type 0} → LockedQueue A → A → LockedQueue A × Bool
push q item = if has_room q then (add q item, true) else (q, false)

-- The queue, what the caller's variable holds afterwards and whether the call ended.
unfoldable pub push_swap : {A : Type 0} → A → LockedQueue A → A → LockedQueue A × A × Bool
push_swap default q item = if has_room q then (add q item, default, true) else (q, item, false)

reset_item : {A : Type 0} → A → LockedQueue A × A × Bool → LockedQueue A × A × Bool
reset_item default (q, item, true) = (q, default, true)
reset_item default (q, item, false) = (q, item, false)

unfoldable pub push_reset : {A : Type 0} → A → LockedQueue A → A → LockedQueue A × A × Bool
unfolding reset_item
push_reset default q item = reset_item default (push_swap default q item)

take_front : {A : Type 0} → LockedQueue A → List A → LockedQueue A × Option A
take_front q [] = (q, none)
take_front q (item ∷ rest) = (record q { items = rest }, some item)

unfoldable pub try_pop : {A : Type 0} → LockedQueue A → LockedQueue A × Option A
unfolding take_front
try_pop q = take_front q q.items

or_kept : {A : Type 0} → A → LockedQueue A × Option A → LockedQueue A × A × Bool
or_kept out (q, none) = (q, out, false)
or_kept out (q, some item) = (q, item, true)

-- `try_pop(T& out)`: the queue, what `out` holds afterwards and the answer.
unfoldable pub try_pop_into : {A : Type 0} → LockedQueue A → A → LockedQueue A × A × Bool
unfolding or_kept
try_pop_into q out = or_kept out (try_pop q)

unfoldable pub try_push : {A : Type 0} → LockedQueue A → A → LockedQueue A × Bool
try_push q item =
    if ltb 0 q.capacity && leb q.capacity (length q.items) then (q, false) else (add q item, true)
