-- ===== src/Net/RetryBudget/Window.antt =====
-- What a budget grants.
use knights.Base.{
  ℕ, Bool-cases, inl, inr, ◌+◌, ◌-◌, ◌^◌, ◌≤◌, ◌<◌, ◌≡◌, true, false, List, [], ◌∷◌, All, length,
  ltb, if◌then◌else◌, min, arith,
}
use knights.Net.RetryBudget.{RetryBudget, roll_window, consume, granted}

-- The times of one window that has begun.
abbrev pub InWindow : RetryBudget → ℕ → Type 0
InWindow b t = (b.window_start_ms ≤ t) × (t < b.window_start_ms + b.window_ms)

pub record IsOpen (b : RetryBudget) : Type 0 where
  pub begun : 0 < b.window_start_ms
  pub within : b.used_in_window ≤ b.budget_per_window
  pub fits : b.budget_per_window < 2 ^ 32

roll_same : (b : RetryBudget) (t : ℕ) → 0 < b.window_start_ms → InWindow b t → roll_window b t ≡ b
unfolding roll_window
roll_same b t begun i = ground arith

-- A call inside the window uses one unit, or is refused with nothing left.
consume_inside :
    (b : RetryBudget) (t : ℕ)
    → IsOpen b
    → InWindow b t
    → consume b t ≡ (
        if ltb b.used_in_window b.budget_per_window
        then (record b { used_in_window = b.used_in_window + 1 }, true)
        else (b, false))
unfolding consume
consume_inside b t o i = ground (arith, roll_same b t o.begun i, o.fits)

-- In a window that has begun and whose use is within the budget, a uint32_t, any calls at times inside
-- the window get exactly what the budget has left, and no more.
pub granted-InWindow :
    (b : RetryBudget) (times : List ℕ)
    → IsOpen b
    → All (InWindow b) times
    → granted b times ≡ min (length times) (b.budget_per_window - b.used_in_window)
unfolding granted
granted-InWindow b [] o h = omega arith
granted-InWindow b (t ∷ ts) o h = elim (Bool-cases (ltb b.used_in_window b.budget_per_window)) [
  | inl left ↦
      let b' : RetryBudget = record b { used_in_window = b.used_in_window + 1 } in
      let used : consume b t ≡ (b', true) = ground (arith, consume_inside b t o h.0) in
      let o' : IsOpen b' = record { begun = o.begun; within = ground arith; fits = o.fits } in
      rw used (ground (arith, granted-InWindow b' ts o' h.1))
  | inr spent ↦
      let refused : consume b t ≡ (b, false) = ground (arith, consume_inside b t o h.0) in
      rw refused (ground (arith, granted-InWindow b ts o h.1))
]
