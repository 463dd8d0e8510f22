-- ===== src/Gateway/AbuseGuard/Blocking.antt =====
-- When an endpoint is blocked, and for how long.
use knights.Base.{
  ℕ, subst, ◌+◌, ◌-◌, ◌^◌, ◌≤◌, ◌<◌, ◌≡◌, ◌∙◌, true, List, [], ◌∷◌, ◌++◌, All, length, ltb, leb,
  ◌==◌, arith,
}
use Prim.Native.String.{String}
use text.Mathlib.TextPositions.{eq_refl}
use knights.Gateway.AbuseGuard.{
  UdpBindAbuseGuard, Entry, fail_entry, record_failure, block_state, after_failures,
}

-- The failures of one window that began at `start`, which is not 0.
abbrev pub InWindow : UdpBindAbuseGuard → ℕ → ℕ → Type 0
InWindow g start t = (start ≤ t) × (t ≤ start + g.fail_window_ms)

record Counting (e : Entry) (start n : ℕ) : Type 0 where
  started : e.window_started_ms ≡ start
  counted : e.failures_in_window ≡ n
  open_end : e.blocked_until_ms ≡ 0

-- One failure inside a window that counts `n` of them.
count_one :
    (g : UdpBindAbuseGuard) (e : Entry) (start n now : ℕ)
    → 0 < start
    → InWindow g start now
    → n + 1 < 2 ^ 32
    → Counting e start n
    → ((fail_entry g e now).1 ≡ leb g.fail_limit (n + 1))
      × (n + 1 < g.fail_limit → Counting (fail_entry g e now).0 start (n + 1))
unfolding fail_entry
count_one g e start n now began inside fits c = (ground arith, λ h. ground arith)

-- The first failure of an endpoint with no failure counted.
count_first :
    (g : UdpBindAbuseGuard) (e : Entry) (now : ℕ)
    → e.window_started_ms ≡ 0
    → e.blocked_until_ms ≡ 0
    → ((fail_entry g e now).1 ≡ leb g.fail_limit 1)
      × (1 < g.fail_limit → Counting (fail_entry g e now).0 now 1)
unfolding fail_entry
count_first g e now fresh unblocked = (ground arith, λ h. ground arith)

count-All :
    (g : UdpBindAbuseGuard) (e : Entry) (start : ℕ) (times : List ℕ)
    → 0 < start
    → g.fail_limit < 2 ^ 32
    → e.window_started_ms ≡ 0
    → e.blocked_until_ms ≡ 0
    → All (InWindow g start) times
    → length times + 1 < g.fail_limit
    → Counting (after_failures g e (times ++ start ∷ [])) start (length times + 1)
unfolding after_failures
count-All g e start [] began fits fresh unblocked inside h =
    (count_first g e start fresh unblocked).1 (omega arith)
count-All g e start (t ∷ ts) began fits fresh unblocked inside h =
    let c = count-All g e start ts began fits fresh unblocked inside.1 (omega arith) in
    let e' : Entry = after_failures g e (ts ++ start ∷ []) in
    let next =
      (count_one g e' start (length ts + 1) t began inside.0 (omega arith) c).1 (omega arith) in
    let more : length ts + 1 + 1 ≡ length (t ∷ ts) + 1 = omega arith in
    subst (Counting (fail_entry g e' t).0 start) more next

-- From an entry with no window and no block and with a limit in uint32_t, failures that fall in one
-- window, which starts after 0, block the endpoint exactly at the failure that brings their number to
-- the limit.
pub fail_entry-after_failures :
    (g : UdpBindAbuseGuard) (e : Entry) (start now : ℕ) (times : List ℕ)
    → 0 < start
    → g.fail_limit < 2 ^ 32
    → e.window_started_ms ≡ 0
    → e.blocked_until_ms ≡ 0
    → All (InWindow g start) times
    → InWindow g start now
    → length times + 1 < g.fail_limit
    → (fail_entry g (after_failures g e (times ++ start ∷ [])) now).1
      ≡ (length times + 2 == g.fail_limit)
fail_entry-after_failures g e start now times began fits fresh unblocked inside last h =
    (count_one g _ start (length times + 1) now began last (omega arith)
      (count-All g e start times began fits fresh unblocked inside h)).0
    ∙ ground arith

-- After the failure that blocks an endpoint, for a block that ends below 2 ^ 64, `block_state` reports
-- it blocked with the time that is left until `block_ms` have passed, and not blocked from then on.
pub block_state-record_failure :
    (g : UdpBindAbuseGuard) (key : String) (now later : ℕ)
    → (record_failure g key now).1 ≡ true
    → now + g.block_ms < 2 ^ 64
    → let s = (block_state (record_failure g key now).0 key later).1 in
      (s.blocked ≡ ltb later (now + g.block_ms)) × (s.retry_after_ms ≡ now + g.block_ms - later)
unfolding block_state record_failure fail_entry
block_state-record_failure g key now later blocked fits = ground (arith, eq_refl key)
