-- ===== src/Gateway/SessionDirectory.antt =====
-- `SessionDirectory` of gateway/src/session_directory.cpp: the backend that each client is bound to, cached in
-- front of Redis. Texts are lists of bytes and times are nanoseconds of the steady clock: `now` is the time
-- at which a call looks into the cache, `later` the one at which it writes an entry. A lock makes each such
-- step one step.
pub mod Agreement
pub mod Store
pub mod Threads
pub mod Valid
pub mod Interleaving
pub mod Schedule
pub mod Alone
use knights.Base.{
  ℕ, ◌+◌, ◌*◌, ◌≡◌, Bool, true, false, not, ◌||◌, Option, none, some, List, [], ◌∷◌, ◌++◌, ltb,
  ◌==◌, if◌then◌else◌, is_empty,
}
use knights.Base.Bits.{u32}
use knights.Base.Texts.{same_text}
use knights.Base.Maps.{find, put, erase, is_some}

pub record CacheEntry : Type 0 where
  pub backend : List ℕ
  pub expires : ℕ

-- `has_redis` tells whether the pointer to the client is set.
pub record SessionDirectory : Type 0 where
  pub has_redis : Bool
  pub key_prefix : List ℕ
  pub ttl : ℕ
  pub cache : List (List ℕ × CacheEntry)

-- The operations of the Redis client that the directory calls, on the state `R` of the server: `get`, `SET NX`,
-- and the scripts that write or delete a key that holds an expected value. Each answers with its success.
pub record RedisClient (R : Type 0) : Type 0 where
  pub get : R → List ℕ → Option (List ℕ)
  pub set_if_not_exists : R → List ℕ → List ℕ → ℕ → R × Bool
  pub set_if_equals : R → List ℕ → List ℕ → List ℕ → ℕ → R × Bool
  pub del_if_equals : R → List ℕ → List ℕ → R × Bool

-- "gateway/session/"
abbrev pub default_prefix : List ℕ
default_prefix =
    103 ∷ 97 ∷ 116 ∷ 101 ∷ 119 ∷ 97 ∷ 121 ∷ 47 ∷ 115 ∷ 101 ∷ 115 ∷ 115 ∷ 105 ∷ 111 ∷ 110 ∷ 47 ∷ []

abbrev pub last_or_zero : List ℕ → ℕ
last_or_zero [] = 0
last_or_zero (c ∷ cs) = let rest = last_or_zero cs in if is_empty cs then c else rest

-- A time to live of 0 stands for every one that is not positive.
unfoldable pub new_directory : Bool → List ℕ → ℕ → SessionDirectory
new_directory has_redis key_prefix ttl =
    let start = if is_empty key_prefix then default_prefix else key_prefix in
    record {
      has_redis = has_redis;
      key_prefix = if last_or_zero start == 47 then start else start ++ (47 ∷ []);
      ttl = if ttl == 0 then 30 else ttl;
      cache = [];
    }

abbrev pub make_key : SessionDirectory → List ℕ → List ℕ
make_key d client_id = d.key_prefix ++ client_id

-- `cache_[client_id] = CacheEntry{backend, now + ttl_}`
unfoldable pub remember : SessionDirectory → List ℕ → List ℕ → ℕ → SessionDirectory
remember d client_id backend later =
    let entry : CacheEntry = record { backend = backend; expires = later + d.ttl * 1000000000 } in
    record d { cache = put client_id entry d.cache }

-- What the cache answers, and the directory without an entry that has expired.
abbrev pub look_entry :
    SessionDirectory → List ℕ → ℕ → Option CacheEntry → SessionDirectory × Option (List ℕ)
look_entry d client_id now none = (d, none)
look_entry d client_id now (some entry) =
    if ltb now entry.expires
    then (d, some entry.backend)
    else (record d { cache = erase client_id d.cache }, none)

unfoldable pub look : SessionDirectory → List ℕ → ℕ → SessionDirectory × Option (List ℕ)
look d client_id now = look_entry d client_id now (find client_id d.cache)

-- An answer of `get` that is there and not empty.
abbrev pub given : Option (List ℕ) → Option (List ℕ)
given none = none
given (some xs) = if is_empty xs then none else some xs

-- What a value of Redis leaves in the cache, and the answer.
unfoldable pub keep_value :
    SessionDirectory → List ℕ → ℕ → Option (List ℕ) → SessionDirectory × Option (List ℕ)
keep_value d client_id later none = (d, none)
keep_value d client_id later (some backend) = (remember d client_id backend later, some backend)

module _ {R : Type 0} (redis : RedisClient R) where
  unfoldable pub after_look :
      SessionDirectory × Option (List ℕ) → R → List ℕ → ℕ → SessionDirectory × Option (List ℕ)
  after_look (d, some backend) r client_id later = (d, some backend)
  after_look (d, none) r client_id later =
      if not d.has_redis
      then (d, none)
      else keep_value d client_id later (given (redis.get r (make_key d client_id)))

  unfoldable pub find_backend :
      SessionDirectory → R → List ℕ → ℕ → ℕ → SessionDirectory × Option (List ℕ)
  unfolding after_look
  find_backend d r client_id now later =
      if is_empty client_id then (d, none) else after_look (look d client_id now) r client_id later

  -- The end of `ensure_backend`, after `set_if_not_exists` did not write.
  unfoldable pub ensure_current :
      SessionDirectory
      → R
      → List ℕ
      → List ℕ
      → ℕ
      → Option (List ℕ)
      → SessionDirectory × R × Option (List ℕ)
  ensure_current d r client_id desired later none =
      (remember d client_id desired later, r, some desired)
  ensure_current d r client_id desired later (some current) =
      (remember d client_id current later, r, some current)

  unfoldable pub ensure_found :
      SessionDirectory × Option (List ℕ)
      → R
      → List ℕ
      → List ℕ
      → ℕ
      → SessionDirectory × R × Option (List ℕ)
  ensure_found (d, some existing) r client_id desired later =
      if same_text existing desired
      then (
        d,
        (redis.set_if_equals r (make_key d client_id) desired desired (u32 d.ttl)).0,
        some existing,
      )
      else (d, r, some existing)
  ensure_found (d, none) r client_id desired later =
      let (r', is_set) = redis.set_if_not_exists r (make_key d client_id) desired (u32 d.ttl) in
      if is_set
      then (remember d client_id desired later, r', some desired)
      else ensure_current d r' client_id desired later (given (redis.get r' (make_key d client_id)))

  unfoldable pub ensure_backend :
      SessionDirectory → R → List ℕ → List ℕ → ℕ → ℕ → SessionDirectory × R × Option (List ℕ)
  ensure_backend d r client_id desired now later =
      if is_empty client_id || is_empty desired
      then (d, r, none)
      else (if not d.has_redis
          then (remember d client_id desired later, r, some desired)
          else ensure_found (find_backend d r client_id now later) r client_id desired later)

  unfoldable pub refresh_backend : SessionDirectory → R → List ℕ → List ℕ → ℕ → SessionDirectory × R
  refresh_backend d r client_id backend_id later =
      if is_empty client_id || is_empty backend_id then (d, r) else (
        remember d client_id backend_id later,
        (if d.has_redis
            then (redis.set_if_equals r (make_key d client_id) backend_id backend_id (u32 d.ttl)).0
            else r),
      )

  abbrev pub forget_entry :
      SessionDirectory → List ℕ → List ℕ → Option CacheEntry → SessionDirectory
  forget_entry d client_id backend_id none = d
  forget_entry d client_id backend_id (some entry) =
      if same_text entry.backend backend_id then record d { cache = erase client_id d.cache } else d

  unfoldable pub release_backend : SessionDirectory → R → List ℕ → List ℕ → SessionDirectory × R
  release_backend d r client_id backend_id =
      if is_empty client_id || is_empty backend_id then (d, r) else (
        forget_entry d client_id backend_id (find client_id d.cache),
        (if d.has_redis then (redis.del_if_equals r (make_key d client_id) backend_id).0 else r),
      )
