-- ===== src/Net/RetryBudget.antt =====
-- `RetryBudget` of core/include/server/core/net/resilience_controls.hpp. The mutex makes each call
-- one step. Counts are uint32_t, times uint64_t.
pub mod Window
use knights.Base.{ℕ, ◌+◌, ◌-◌, Bool, true, false, List, [], ◌∷◌, ltb, leb, ◌==◌, if◌then◌else◌, max}
use knights.Base.Bits.{u32}

pub record RetryBudget : Type 0 where
  pub budget_per_window : ℕ
  pub window_ms : ℕ
  pub window_start_ms : ℕ
  pub used_in_window : ℕ

unfoldable pub configure : ℕ → ℕ → RetryBudget
configure budget_per_window window_ms = record {
  budget_per_window = budget_per_window;
  window_ms = max 1 window_ms;
  window_start_ms = 0;
  used_in_window = 0;
}

-- `now - window_start_ms_` is exact where it is reached.
unfoldable pub roll_window : RetryBudget → ℕ → RetryBudget
roll_window b now_ms =
    if b.window_start_ms == 0
    then record b { window_start_ms = now_ms }
    else (if ltb now_ms b.window_start_ms
        then record b { window_start_ms = now_ms; used_in_window = 0 }
        else (if leb b.window_ms (now_ms - b.window_start_ms)
            then record b { window_start_ms = now_ms; used_in_window = 0 }
            else b))

unfoldable pub consume : RetryBudget → ℕ → RetryBudget × Bool
consume b now_ms =
    let rolled = roll_window b now_ms in
    if leb rolled.budget_per_window rolled.used_in_window
    then (rolled, false)
    else (record rolled { used_in_window = u32 (rolled.used_in_window + 1) }, true)

unfoldable pub remaining : RetryBudget → ℕ → RetryBudget × ℕ
remaining b now_ms =
    let rolled = roll_window b now_ms in
    if leb rolled.budget_per_window rolled.used_in_window
    then (rolled, 0)
    else (rolled, rolled.budget_per_window - rolled.used_in_window)

-- How many of the calls at these times, in their order, are granted.
unfoldable pub granted : RetryBudget → List ℕ → ℕ
granted b [] = 0
granted b (now_ms ∷ later) =
    let (b', ok) = consume b now_ms in let rest = granted b' later in if ok then rest + 1 else rest
