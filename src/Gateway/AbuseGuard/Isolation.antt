-- ===== src/Gateway/AbuseGuard/Isolation.antt =====
-- Endpoints do not affect one another.
use Prim.Native.String.{String}
use text.Mathlib.TextEquality.{eq_iff}
use knights.Base.{ℕ, ◌≡◌, ◌≢◌, arith}
use knights.Gateway.AbuseGuard.{
  UdpBindAbuseGuard, Entry, put_entry, record_failure, record_success, block_state,
}

put_entry_other :
    (g : UdpBindAbuseGuard) (key other : String) (e : Entry)
    → other ≢ key
    → (put_entry g key e).entries other ≡ g.entries other
put_entry_other g key other e h = ground (arith, eq_iff other key)

-- No call for one endpoint changes the entry of another.
pub calls_keep_others :
    (g : UdpBindAbuseGuard) (key other : String) (now : ℕ)
    → other ≢ key
    → ((record_failure g key now).0.entries other ≡ g.entries other)
      × ((record_success g key).entries other ≡ g.entries other)
      × ((block_state g key now).0.entries other ≡ g.entries other)
unfolding record_failure record_success block_state
calls_keep_others g key other now h = ground (arith, eq_iff other key)
