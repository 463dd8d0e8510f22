-- ===== src/Net/CircuitBreaker.antt =====
-- `CircuitBreaker` of core/include/server/core/net/resilience_controls.hpp. The mutex makes each call
-- one step. Counts are uint32_t, times uint64_t.
pub mod Opening
use knights.Base.{
  ℕ, zero, suc, ◌+◌, Bool, true, false, not, ◌&&◌, List, [], ◌∷◌, ltb, leb, ◌==◌, if◌then◌else◌,
  max,
}
use knights.Base.Bits.{u32, u64}

pub record CircuitBreaker : Type 0 where
  pub enabled : Bool
  pub failure_threshold : ℕ
  pub open_window_ms : ℕ
  pub consecutive_failures : ℕ
  pub open_until_ms : ℕ

unfoldable pub configure : Bool → ℕ → ℕ → CircuitBreaker
configure enabled failure_threshold open_window_ms = record {
  enabled = enabled;
  failure_threshold = max 1 failure_threshold;
  open_window_ms = max 1 open_window_ms;
  consecutive_failures = 0;
  open_until_ms = 0;
}

abbrev closed : CircuitBreaker → CircuitBreaker
closed c = record c { open_until_ms = 0; consecutive_failures = 0 }

unfoldable pub allow : CircuitBreaker → ℕ → CircuitBreaker × Bool
allow c now_ms =
    if not c.enabled
    then (c, true)
    else (if c.open_until_ms == 0
        then (c, true)
        else (if leb c.open_until_ms now_ms then (closed c, true) else (c, false)))

-- The last part of `record_failure`, which counts the failure.
count_failure : CircuitBreaker → ℕ → CircuitBreaker × Bool
count_failure c now_ms =
    let failures = u32 (c.consecutive_failures + 1) in
    if leb c.failure_threshold failures
    then (
      record c { consecutive_failures = 0; open_until_ms = u64 (now_ms + c.open_window_ms) },
      true,
    )
    else (record c { consecutive_failures = failures }, false)

unfoldable pub record_failure : CircuitBreaker → ℕ → CircuitBreaker × Bool
unfolding count_failure
record_failure c now_ms =
    if not c.enabled
    then (c, false)
    else (if not (c.open_until_ms == 0) && ltb now_ms c.open_until_ms
        then (c, false)
        else (if not (c.open_until_ms == 0) && leb c.open_until_ms now_ms
            then count_failure (closed c) now_ms
            else count_failure c now_ms))

unfoldable pub record_success : CircuitBreaker → CircuitBreaker
record_success c = if not c.enabled then c else closed c

unfoldable pub is_open : CircuitBreaker → ℕ → CircuitBreaker × Bool
is_open c now_ms =
    if not c.enabled
    then (c, false)
    else (if c.open_until_ms == 0
        then (c, false)
        else (if leb c.open_until_ms now_ms then (closed c, false) else (c, true)))

-- The breaker after failures at these times, the newest at the head.
unfoldable pub after_failures : CircuitBreaker → List ℕ → CircuitBreaker
after_failures c [] = c
after_failures c (now_ms ∷ earlier) = (record_failure (after_failures c earlier) now_ms).0
