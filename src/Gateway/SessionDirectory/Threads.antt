-- ===== src/Gateway/SessionDirectory/Threads.antt =====
-- The calls of `find_backend` and `ensure_backend` of gateway/src/session_directory.cpp as threads. Each holds the
-- mutex or talks to Redis in one step at a time, so a thread stands between two such steps of its call.
use knights.Base.{ℕ, Bool, not, ◌||◌, Option, none, some, List, if◌then◌else◌, is_empty}
use knights.Base.Bits.{u32}
use knights.Base.Texts.{same_text}
use knights.Gateway.SessionDirectory.{
  SessionDirectory, RedisClient, make_key, remember, look, given,
}

-- Where a call for a client stands: `looking` into the cache, `getting` the key from Redis, `keeping` its value in
-- the cache, `refreshing` a key that holds the desired backend, `setting` it if it does not exist, `rereading` it
-- when it did, and `keeping_last` the value to answer. The second argument is the desired backend, and none in a
-- call of `find_backend`.
pub data Thread : Type 0 where
  idle : Thread
  looking : List ℕ → Option (List ℕ) → Thread
  getting : List ℕ → Option (List ℕ) → Thread
  keeping : List ℕ → Option (List ℕ) → List ℕ → Thread
  refreshing : List ℕ → List ℕ → Thread
  setting : List ℕ → List ℕ → Thread
  rereading : List ℕ → List ℕ → Thread
  keeping_last : List ℕ → List ℕ → Thread
  returned : List ℕ → Option (List ℕ) → Thread

-- The beginning of a call, with its guards for empty texts.
unfoldable pub start : List ℕ → Option (List ℕ) → Thread
start client_id none =
    if is_empty client_id then returned client_id none else looking client_id none
start client_id (some desired) =
    if is_empty client_id || is_empty desired
    then returned client_id none
    else looking client_id (some desired)

-- After `find_backend` has found nothing, or a backend.
unfoldable pub found_none : List ℕ → Option (List ℕ) → Thread
found_none client_id none = returned client_id none
found_none client_id (some desired) = setting client_id desired

unfoldable pub found : List ℕ → Option (List ℕ) → List ℕ → Thread
found client_id none existing = returned client_id (some existing)
found client_id (some desired) existing =
    if same_text existing desired
    then refreshing client_id existing
    else returned client_id (some existing)

-- What the thread does with the answer of the cache.
unfoldable pub after_cache : Bool → List ℕ → Option (List ℕ) → Option (List ℕ) → Thread
after_cache has_redis client_id wanted (some backend) = found client_id wanted backend
after_cache has_redis client_id wanted none =
    if has_redis then getting client_id wanted else found_none client_id wanted

-- `find_backend`'s read of Redis, and that of `ensure_backend` after a `SET NX` that did not write.
unfoldable pub after_get : List ℕ → Option (List ℕ) → Option (List ℕ) → Thread
after_get client_id wanted none = found_none client_id wanted
after_get client_id wanted (some backend) = keeping client_id wanted backend

unfoldable pub after_reread : List ℕ → List ℕ → Option (List ℕ) → Thread
after_reread client_id desired none = keeping_last client_id desired
after_reread client_id desired (some current) = keeping_last client_id current

-- Without Redis `ensure_backend` keeps the desired backend at once.
unfoldable pub look_step :
    SessionDirectory → List ℕ → Option (List ℕ) → ℕ → SessionDirectory × Thread
look_step d client_id wanted now =
    let (d', cached) = look d client_id now in (d', after_cache d.has_redis client_id wanted cached)

unfoldable pub first_step :
    SessionDirectory → List ℕ → Option (List ℕ) → ℕ → SessionDirectory × Thread
first_step d client_id none now = look_step d client_id none now
first_step d client_id (some desired) now =
    if not d.has_redis
    then (d, keeping_last client_id desired)
    else look_step d client_id (some desired) now

module _ {R : Type 0} (redis : RedisClient R) where
  unfoldable pub set_step : SessionDirectory → R → List ℕ → List ℕ → R × Thread
  set_step d r client_id desired =
      let (r', is_set) = redis.set_if_not_exists r (make_key d client_id) desired (u32 d.ttl) in
      (r', if is_set then keeping_last client_id desired else rereading client_id desired)

  -- One step of a thread, which looks into the cache at `now` and writes an entry at `later`.
  unfoldable pub thread_step : SessionDirectory → R → ℕ → ℕ → Thread → SessionDirectory × R × Thread
  thread_step d r now later idle = (d, r, idle)
  thread_step d r now later (looking client_id wanted) =
      let (d', thread) = first_step d client_id wanted now in (d', r, thread)
  thread_step d r now later (getting client_id wanted) =
      (d, r, after_get client_id wanted (given (redis.get r (make_key d client_id))))
  thread_step d r now later (keeping client_id wanted backend) =
      (remember d client_id backend later, r, found client_id wanted backend)
  thread_step d r now later (refreshing client_id backend) = (
    d,
    (redis.set_if_equals r (make_key d client_id) backend backend (u32 d.ttl)).0,
    returned client_id (some backend),
  )
  thread_step d r now later (setting client_id desired) =
      let (r', thread) = set_step d r client_id desired in (d, r', thread)
  thread_step d r now later (rereading client_id desired) =
      (d, r, after_reread client_id desired (given (redis.get r (make_key d client_id))))
  thread_step d r now later (keeping_last client_id backend) =
      (remember d client_id backend later, r, returned client_id (some backend))
  thread_step d r now later (returned client_id answer) = (d, r, returned client_id answer)
