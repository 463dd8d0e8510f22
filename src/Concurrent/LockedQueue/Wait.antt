-- ===== src/Concurrent/LockedQueue/Wait.antt =====
-- `LockedWaitQueue`, which adds a shutdown to the queue, and the order of its items.
use knights.Base.{
  ℕ, ◌≡◌, ◌∙◌, refl, Bool, true, false, not, ◌||◌, Option, none, some, List, [], ◌∷◌, ◌++◌, ltb,
  ◌==◌, if◌then◌else◌, is_empty, length, append-nil, arith, ◌+◌,
}
use knights.Concurrent.Order.{Queue, after, all_added, all_taken, all_keep_order}
use knights.Concurrent.LockedQueue.{LockedQueue, new_queue, add, try_pop, try_push, take_front}

-- The three ways in which a call that may sleep ends.
pub data Pushed : Type 0 where
  sleeps : Pushed
  refused : Pushed
  queued : Pushed

-- The answer is none when the call sleeps, and `some none` is `nullopt`.
unfoldable pub pop_blocking : {A : Type 0} → LockedQueue A → LockedQueue A × Option (Option A)
pop_blocking q =
    if not (is_empty q.items) || q.shutdown
    then (let (q', o) = try_pop q in (q', some o))
    else (q, none)

unfoldable pub push : {A : Type 0} → LockedQueue A → A → LockedQueue A × Pushed
push q item =
    if q.shutdown || (q.capacity == 0 || ltb (length q.items) q.capacity)
    then (if q.shutdown then (q, refused) else (add q item, queued))
    else (q, sleeps)

unfoldable pub stop : {A : Type 0} → LockedQueue A → LockedQueue A
stop q = record q { shutdown = true }

unfoldable pub reset : {A : Type 0} → LockedQueue A → LockedQueue A
reset q = record q { shutdown = false }

-- The calls that a user of the class can make; `try_pop` and `try_push` are the inherited ones.
pub data Call (A : Type 0) : Type 0 where
  pushes : A → Call A
  tries : A → Call A
  pops : Call A
  peeks : Call A
  stops : Call A
  resets : Call A

unfoldable pub step : {A : Type 0} → LockedQueue A → Call A → LockedQueue A
step q (pushes item) = (push q item).0
step q (tries item) = (try_push q item).0
step q pops = (pop_blocking q).0
step q peeks = (try_pop q).0
step q stops = stop q
step q resets = reset q

abbrev pub is_queued : Pushed → Bool
is_queued queued = true
is_queued refused = false
is_queued sleeps = false

abbrev pub item_of : {A : Type 0} → Option A → List A
item_of none = []
item_of (some item) = item ∷ []

abbrev pub answer_of : {A : Type 0} → Option (Option A) → List A
answer_of none = []
answer_of (some o) = item_of o

unfoldable pub added_by : {A : Type 0} → LockedQueue A → Call A → List A
added_by q (pushes item) = if is_queued (push q item).1 then item ∷ [] else []
added_by q (tries item) = if (try_push q item).1 then item ∷ [] else []
added_by q pops = []
added_by q peeks = []
added_by q stops = []
added_by q resets = []

unfoldable pub taken_by : {A : Type 0} → LockedQueue A → Call A → List A
taken_by q (pushes item) = []
taken_by q (tries item) = []
taken_by q pops = answer_of (pop_blocking q).1
taken_by q peeks = item_of (try_pop q).1
taken_by q stops = []
taken_by q resets = []

take_front_order :
    {A : Type 0} (q : LockedQueue A) (items : List A)
    → q.items ≡ items
    → items ≡ item_of (take_front q items).1 ++ (take_front q items).0.items
unfolding take_front
take_front_order q [] e = ground arith
take_front_order q (item ∷ rest) e = refl

pub step_keeps_order :
    {A : Type 0} (q : LockedQueue A) (c : Call A)
    → q.items ++ added_by q c ≡ taken_by q c ++ (step q c).items
unfolding step added_by taken_by push try_push stop reset pop_blocking try_pop
step_keeps_order q (pushes item) = ground (arith, append-nil q.items)
step_keeps_order q (tries item) = ground (arith, append-nil q.items)
step_keeps_order q pops = append-nil q.items ∙ ground (arith, take_front_order q q.items refl)
step_keeps_order q peeks = append-nil q.items ∙ take_front_order q q.items refl
step_keeps_order q stops = append-nil q.items
step_keeps_order q resets = append-nil q.items

abbrev pub locked_queue : (A : Type 0) → Queue (LockedQueue A) (Call A) A
locked_queue A = record {
  step = step;
  items = λ q. q.items;
  added = added_by;
  taken = taken_by;
  keeps_order = step_keeps_order;
}

-- For every history of calls on a new queue: the items that `push` and `try_push` added, in their order,
-- are the items that `pop_blocking` and `try_pop` handed out, in their order, followed by the items in the
-- queue.
pub added_items :
    {A : Type 0} (capacity : ℕ) (cs : List (Call A))
    → (all_added (locked_queue A) (new_queue capacity) cs
        ≡ all_taken (locked_queue A) (new_queue capacity) cs
          ++ (after (locked_queue A) (new_queue capacity) cs).items)
unfolding new_queue
added_items capacity cs = all_keep_order (locked_queue _) (new_queue capacity) cs

-- The item at the front, none if there is none.
abbrev pub front : {A : Type 0} → List A → Option A
front [] = none
front (item ∷ items) = some item

abbrev pub is_reset : {A : Type 0} → Call A → Bool
is_reset resets = true
is_reset (pushes item) = false
is_reset (tries item) = false
is_reset pops = false
is_reset peeks = false
is_reset stops = false

-- How many calls of `try_push` a call is.
abbrev pub tries_in : {A : Type 0} → Call A → ℕ
tries_in (tries item) = 1
tries_in (pushes item) = 0
tries_in pops = 0
tries_in peeks = 0
tries_in stops = 0
tries_in resets = 0

module _ {A : Type 0} where
  abbrev pub has_reset : List (Call A) → Bool
  has_reset [] = false
  has_reset (c ∷ cs) = is_reset c || has_reset cs

  abbrev pub count_tries : List (Call A) → ℕ
  count_tries [] = 0
  count_tries (c ∷ cs) = count_tries cs + tries_in c
