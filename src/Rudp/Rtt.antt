-- ===== src/Rudp/Rtt.antt =====
-- `RttEstimator` of core/include/server/core/net/rudp/rudp_peer_state.hpp, in uint32_t arithmetic
-- with uint64_t intermediates.
pub mod Bounds
use knights.Base.{ℕ, ◌+◌, ◌-◌, ◌*◌, ◌/◌, ◌^◌, Bool, true, false, not, ltb, ◌==◌, if◌then◌else◌, max}
use knights.Base.Bits.{u32, u64}

pub record RttEstimator : Type 0 where
  pub initialized : Bool
  pub srtt_ms : ℕ
  pub rttvar_ms : ℕ
  pub rto_ms : ℕ

abbrev pub default_rtt : RttEstimator
default_rtt = record { initialized = false; srtt_ms = 0; rttvar_ms = 0; rto_ms = 200 }

-- `static_cast<int>` keeps the 32 bits, so that a number from 2 ^ 31 on stands for itself less
-- 2 ^ 32; adding 2 ^ 31 to both sides of the difference keeps it in ℕ.
abbrev as_int : ℕ → ℕ
as_int n = if ltb n (2 ^ 31) then n + 2 ^ 31 else n - 2 ^ 31

-- `std::abs(static_cast<int>(a) - static_cast<int>(b))`, where the difference fits an int.
pub abs_gap : ℕ → ℕ → ℕ
abs_gap a b = if ltb (as_int a) (as_int b) then as_int b - as_int a else as_int a - as_int b

-- `std::clamp`
abbrev pub clamp : ℕ → ℕ → ℕ → ℕ
clamp v lo hi = if ltb v lo then lo else if ltb hi v then hi else v

-- The smoothing step of `update`.
smooth : RttEstimator → ℕ → RttEstimator
unfolding abs_gap
smooth r sample_ms =
    if not r.initialized
    then record r { initialized = true; srtt_ms = sample_ms; rttvar_ms = max 1 (sample_ms / 2) }
    else record r {
      rttvar_ms = u32 (u64 (3 * r.rttvar_ms + u32 (abs_gap r.srtt_ms sample_ms)) / 4);
      srtt_ms = u32 (u64 (7 * r.srtt_ms + sample_ms) / 8);
    }

-- The timeout that `update` derives from the smoothed values.
derive_rto : RttEstimator → ℕ → ℕ → RttEstimator
derive_rto r rto_min_ms rto_max_ms =
    let candidate = u32 (r.srtt_ms + max 1 (u32 (4 * r.rttvar_ms))) in
    record r { rto_ms = clamp candidate rto_min_ms rto_max_ms }

unfoldable pub update : RttEstimator → ℕ → ℕ → ℕ → RttEstimator
unfolding smooth derive_rto
update r sample_ms rto_min_ms rto_max_ms =
    if sample_ms == 0 then r else derive_rto (smooth r sample_ms) rto_min_ms rto_max_ms
