-- ===== src/Tests/Services.antt =====
-- The breakers, budgets and gateway guards at concrete inputs.
use knights.Base.{
  ◌+◌, ◌-◌, ◌≡◌, refl, true, none, [], ◌∷◌, ◌++◌, arith, ltb, leb, if◌then◌else◌, min,
}
use knights.Net.CircuitBreaker.{CircuitBreaker, allow, record_failure}
use knights.Net.CircuitBreaker.Opening.{allow-record_failure}
use knights.Net.RetryBudget.{RetryBudget, granted}
use knights.Net.RetryBudget.Window.{granted-InWindow}
use knights.Gateway.AbuseGuard
use knights.Gateway.AbuseGuard.{
  UdpBindAbuseGuard, new_guard, default_entry, fail_entry, block_state,
}
use knights.Gateway.AbuseGuard.Blocking.{block_state-record_failure}
use knights.Gateway.SequencedMetrics.{session}
use knights.Gateway.SequencedMetrics.Account.{Accounted, session-Accounted}

-- A closed breaker that opens at the third failure, for 1000 ms.
abbrev closed_breaker : CircuitBreaker
closed_breaker = record {
  enabled = true;
  failure_threshold = 3;
  open_window_ms = 1000;
  consecutive_failures = 0;
  open_until_ms = 0;
}

abbrev tired_breaker : CircuitBreaker
tired_breaker = record closed_breaker { consecutive_failures = 2 }

allow-record_failure_example :
    let o = (record_failure tired_breaker 30).0 in
    ((allow o 500).1 ≡ leb (30 + 1000) 500)
    × ((allow o 500).0.open_until_ms ≡ (if leb (30 + 1000) 500 then 0 else 30 + 1000))
unfolding record_failure
allow-record_failure_example =
    allow-record_failure tired_breaker 30 500 refl (omega arith) (omega arith)

abbrev open_budget : RetryBudget
open_budget = record {
  budget_per_window = 3;
  window_ms = 1000;
  window_start_ms = 100;
  used_in_window = 1;
}

granted-InWindow_example : granted open_budget (300 ∷ 250 ∷ 200 ∷ []) ≡ min 3 (3 - 1)
granted-InWindow_example =
    granted-InWindow open_budget (300 ∷ 250 ∷ 200 ∷ [])
      (record { begun = omega arith; within = omega arith; fits = omega arith }) (ground arith)

-- One failure blocks.
abbrev strict_guard : UdpBindAbuseGuard
strict_guard = record { fail_window_ms = 1000; fail_limit = 1; block_ms = 500; entries = λ _. none }

block_state-record_failure_example :
    let s = (block_state (AbuseGuard.record_failure strict_guard "a" 100).0 "a" 300).1 in
    (s.blocked ≡ ltb 300 (100 + 500)) × (s.retry_after_ms ≡ 100 + 500 - 300)
unfolding AbuseGuard.record_failure fail_entry
block_state-record_failure_example =
    block_state-record_failure strict_guard "a" 100 300 refl (omega arith)

session-Accounted_example : Accounted 10 (session (((12, 150) ∷ (14, 130) ∷ []) ++ (10, 100) ∷ []))
session-Accounted_example =
    session-Accounted 10 100 ((12, 150) ∷ (14, 130) ∷ []) (omega arith) (ground arith)
