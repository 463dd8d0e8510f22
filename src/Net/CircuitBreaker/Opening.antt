-- ===== src/Net/CircuitBreaker/Opening.antt =====
-- When the breaker opens, and for how long.
use knights.Base.{
  ◌⊎◌, ℕ, ◌∙◌, ◌+◌, ◌^◌, ◌<◌, ◌≡◌, Bool, true, false, not, List, [], ◌∷◌, length, leb, ◌==◌,
  if◌then◌else◌, arith, refl,
}
use knights.Net.CircuitBreaker.{
  CircuitBreaker, configure, allow, record_failure, record_success, is_open, after_failures,
}

-- Between calls the failures stay below the threshold, and none is counted while the breaker is open.
pub record Inv (c : CircuitBreaker) : Type 0 where
  pub threshold : 0 < c.failure_threshold
  pub threshold_fits : c.failure_threshold < 2 ^ 32
  pub below : c.consecutive_failures < c.failure_threshold
  pub quiet : (c.open_until_ms ≡ 0) ⊎ (c.consecutive_failures ≡ 0)

pub configure-Inv :
    (on : Bool) (threshold window : ℕ) → threshold < 2 ^ 32 → Inv (configure on threshold window)
unfolding configure
configure-Inv on threshold window h = ground arith

-- If the count of failures is below the threshold, and 0 while the breaker is open, it is so after
-- each call.
pub calls-Inv :
    (c : CircuitBreaker) (now : ℕ)
    → Inv c
    → Inv (allow c now).0
      × Inv (record_failure c now).0
      × Inv (record_success c)
      × Inv (is_open c now).0
unfolding allow record_failure record_success is_open
calls-Inv c now v = (ground arith, ground arith, ground arith, ground arith)

-- `is_open` and `allow` are opposite answers to one question, and leave the same state.
is_open-allow :
    (c : CircuitBreaker) (now : ℕ)
    → ((is_open c now).1 ≡ not (allow c now).1) × ((is_open c now).0 ≡ (allow c now).0)
unfolding allow is_open
is_open-allow c now = ground arith

-- When a failure opens the breaker, for a window that is not empty and ends below 2 ^ 64, calls are
-- refused before the end of the window and allowed from then on, with the state reset once it has
-- ended.
pub allow-record_failure :
    (c : CircuitBreaker) (now later : ℕ)
    → (record_failure c now).1 ≡ true
    → now + c.open_window_ms < 2 ^ 64
    → 0 < c.open_window_ms
    → let o = (record_failure c now).0 in
      ((allow o later).1 ≡ leb (now + c.open_window_ms) later)
      × ((allow o later).0.open_until_ms
          ≡ (if leb (now + c.open_window_ms) later then 0 else now + c.open_window_ms))
unfolding allow record_failure
allow-record_failure c now later opened fits window = ground arith

-- One failure at a closed breaker.
one_failure :
    (c : CircuitBreaker) (now : ℕ)
    → c.enabled ≡ true
    → c.open_until_ms ≡ 0
    → c.consecutive_failures + 1 < 2 ^ 32
    → let (c', opened) = record_failure c now in
      (opened ≡ leb c.failure_threshold (c.consecutive_failures + 1))
      × (c'.enabled ≡ true)
      × (c'.failure_threshold ≡ c.failure_threshold)
      × (opened ≡ false
          → (c'.open_until_ms ≡ 0) × (c'.consecutive_failures ≡ c.consecutive_failures + 1))
unfolding record_failure
one_failure c now on shut fits = (ground arith, ground arith, ground arith, λ f. ground arith)

record Counting (c d : CircuitBreaker) (n : ℕ) : Type 0 where
  on : d.enabled ≡ true
  shut : d.open_until_ms ≡ 0
  same : d.failure_threshold ≡ c.failure_threshold
  counted : d.consecutive_failures ≡ n

after_failures-Counting :
    (c : CircuitBreaker) (times : List ℕ)
    → c.failure_threshold < 2 ^ 32
    → c.enabled ≡ true
    → c.open_until_ms ≡ 0
    → c.consecutive_failures ≡ 0
    → length times < c.failure_threshold
    → Counting c (after_failures c times) (length times)
unfolding after_failures
after_failures-Counting c [] fits on shut fresh h = record {
  on = on;
  shut = shut;
  same = refl;
  counted = fresh;
}
after_failures-Counting c (t ∷ ts) fits on shut fresh h =
    let v = after_failures-Counting c ts fits on shut fresh (omega arith) in
    let (opened, on', same, still) =
      one_failure (after_failures c ts) t v.on v.shut (omega (arith, v.counted)) in
    let quiet : (record_failure (after_failures c ts) t).1 ≡ false =
      ground (arith, v.counted, v.same) in
    record {
      on = on';
      shut = (still quiet).0;
      same = same ∙ v.same;
      counted = omega (arith, (still quiet).1, v.counted);
    }

-- From an enabled, closed breaker with no failure counted and a threshold in uint32_t, a failure that
-- follows `times`, fewer failures than the threshold, opens it exactly if that makes
-- `failure_threshold` failures.
pub record_failure-after_failures :
    (c : CircuitBreaker) (times : List ℕ) (now : ℕ)
    → c.failure_threshold < 2 ^ 32
    → c.enabled ≡ true
    → c.open_until_ms ≡ 0
    → c.consecutive_failures ≡ 0
    → length times < c.failure_threshold
    → (record_failure (after_failures c times) now).1 ≡ (length times + 1 == c.failure_threshold)
record_failure-after_failures c times now fits on shut fresh h =
    let v = after_failures-Counting c times fits on shut fresh h in
    let opened =
      (one_failure (after_failures c times) now v.on v.shut (omega (arith, v.counted))).0 in
    ground (arith, v.counted, v.same, opened)
