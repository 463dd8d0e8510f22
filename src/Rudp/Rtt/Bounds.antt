-- ===== src/Rudp/Rtt/Bounds.antt =====
-- Bounds of the estimate.
use knights.Base.{ℕ, ◌+◌, ◌-◌, ◌*◌, ◌/◌, ◌^◌, ◌≤◌, ◌<◌, ◌≡◌, ◌≢◌, true, max, min, arith}
use knights.Rudp.Rtt.{RttEstimator, update, abs_gap}

-- A sample other than 0 leaves the timeout within the configured bounds, if these are in order,
-- whatever the state.
pub update_rto_bounds :
    (r : RttEstimator) (sample lo hi : ℕ)
    → lo ≤ hi
    → sample ≢ 0
    → (lo ≤ (update r sample lo hi).rto_ms) × ((update r sample lo hi).rto_ms ≤ hi)
unfolding update
update_rto_bounds r sample lo hi order h = ground arith

-- After the first sample, for a sample other than 0 and values in uint32_t, the smoothed round trip
-- time moves from its old value towards the sample, and not past it.
pub update_srtt_between :
    (r : RttEstimator) (sample lo hi : ℕ)
    → r.initialized ≡ true
    → r.srtt_ms < 2 ^ 32
    → sample < 2 ^ 32
    → sample ≢ 0
    → (min r.srtt_ms sample ≤ (update r sample lo hi).srtt_ms)
      × ((update r sample lo hi).srtt_ms ≤ max r.srtt_ms sample)
unfolding update
update_srtt_between r sample lo hi started fits small h = ground arith

abs_gap-eq : (a b : ℕ) → a < 2 ^ 31 → b < 2 ^ 31 → abs_gap a b ≡ max a b - min a b
unfolding abs_gap
abs_gap-eq a b ha hb = ground arith

-- After the first sample, for a sample other than 0 and round trips below 2 ^ 31 ms, no cast or
-- product of `update` wraps: the new variation is the weighted mean of the old one and of the distance
-- to the sample, and the new round trip that of the old one and the sample.
pub update_rttvar_exact :
    (r : RttEstimator) (sample lo hi : ℕ)
    → r.initialized ≡ true
    → r.srtt_ms < 2 ^ 31
    → r.rttvar_ms < 2 ^ 31
    → sample < 2 ^ 31
    → sample ≢ 0
    → let gap = max r.srtt_ms sample - min r.srtt_ms sample in
      ((update r sample lo hi).rttvar_ms ≡ (3 * r.rttvar_ms + gap) / 4)
      × ((update r sample lo hi).srtt_ms ≡ (7 * r.srtt_ms + sample) / 8)
unfolding update
update_rttvar_exact r sample lo hi started fits small near h =
    ground (arith, abs_gap-eq r.srtt_ms sample fits near)
