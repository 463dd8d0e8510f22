-- ===== src/Gateway/AbuseGuard.antt =====
-- gateway/include/gateway/udp_bind_abuse_guard.hpp: failed UDP binds per endpoint, and blocks. The map
-- of entries is a function from endpoint keys; counts are uint32_t, times uint64_t.
pub mod Blocking
pub mod Isolation
use Prim.Native.String.{String}
use text.Mathlib.Text.{◌==◌ as str_eq}
use knights.Base.{
  ℕ, zero, suc, ◌+◌, ◌-◌, Bool, true, false, ◌||◌, Option, none, some, List, [], ◌∷◌, ltb, leb,
  ◌==◌, if◌then◌else◌,
}
use knights.Base.Bits.{u32, u64}

pub record Entry : Type 0 where
  pub window_started_ms : ℕ
  pub failures_in_window : ℕ
  pub blocked_until_ms : ℕ

abbrev pub default_entry : Entry
default_entry = record { window_started_ms = 0; failures_in_window = 0; blocked_until_ms = 0 }

pub record UdpBindAbuseGuard : Type 0 where
  pub fail_window_ms : ℕ
  pub fail_limit : ℕ
  pub block_ms : ℕ
  pub entries : String → Option Entry

pub record BlockState : Type 0 where
  pub blocked : Bool
  pub retry_after_ms : ℕ

abbrev pub not_blocked : BlockState
not_blocked = record { blocked = false; retry_after_ms = 0 }

-- The default member initialisers, with no entry.
unfoldable pub new_guard : UdpBindAbuseGuard
new_guard = record { fail_window_ms = 10000; fail_limit = 5; block_ms = 60000; entries = λ _. none }

unfoldable pub configure : UdpBindAbuseGuard → ℕ → ℕ → ℕ → UdpBindAbuseGuard
configure g fail_window_ms fail_limit block_ms = record g {
  fail_window_ms = fail_window_ms;
  fail_limit = fail_limit;
  block_ms = block_ms;
}

abbrev pub put_entry : UdpBindAbuseGuard → String → Entry → UdpBindAbuseGuard
put_entry g key entry = record g { entries = λ k. if str_eq k key then some entry else g.entries k }

-- `entries_[key]`, which makes a default entry where there is none.
abbrev pub entry_of : Option Entry → Entry
entry_of none = default_entry
entry_of (some e) = e

block_state_of : UdpBindAbuseGuard → String → Option Entry → ℕ → UdpBindAbuseGuard × BlockState
block_state_of g key none now_ms = (g, not_blocked)
block_state_of g key (some e) now_ms =
    if leb e.blocked_until_ms now_ms
    then (put_entry g key (record e { blocked_until_ms = 0 }), not_blocked)
    else (g, record { blocked = true; retry_after_ms = e.blocked_until_ms - now_ms })

unfoldable pub block_state : UdpBindAbuseGuard → String → ℕ → UdpBindAbuseGuard × BlockState
unfolding block_state_of
block_state g key now_ms = block_state_of g key (g.entries key) now_ms

-- The window starts anew if there is none, if the clock went back, or if it has run out.
abbrev pub needs_window : UdpBindAbuseGuard → Entry → ℕ → Bool
needs_window g e now_ms =
    e.window_started_ms == 0
    || (ltb now_ms e.window_started_ms || ltb g.fail_window_ms (now_ms - e.window_started_ms))

abbrev pub in_window : UdpBindAbuseGuard → Entry → ℕ → Entry
in_window g e now_ms =
    if needs_window g e now_ms
    then record e { window_started_ms = now_ms; failures_in_window = 0 }
    else e

-- `record_failure` on the entry of the endpoint.
unfoldable pub fail_entry : UdpBindAbuseGuard → Entry → ℕ → Entry × Bool
fail_entry g e now_ms =
    let w = in_window g e now_ms in
    let failures = u32 (w.failures_in_window + 1) in
    if ltb now_ms e.blocked_until_ms
    then (e, false)
    else (if ltb failures g.fail_limit
        then (record w { failures_in_window = failures }, false)
        else (
          record w {
            failures_in_window = 0;
            window_started_ms = 0;
            blocked_until_ms = u64 (now_ms + g.block_ms);
          },
          true,
        ))

unfoldable pub record_failure : UdpBindAbuseGuard → String → ℕ → UdpBindAbuseGuard × Bool
record_failure g key now_ms =
    let (e, blocked) = fail_entry g (entry_of (g.entries key)) now_ms in
    (put_entry g key e, blocked)

succeed : UdpBindAbuseGuard → String → Option Entry → UdpBindAbuseGuard
succeed g key none = g
succeed g key (some e) =
    put_entry g key (record e { failures_in_window = 0; window_started_ms = 0 })

unfoldable pub record_success : UdpBindAbuseGuard → String → UdpBindAbuseGuard
unfolding succeed
record_success g key = succeed g key (g.entries key)

-- The entry after failures at these times, the newest at the head.
unfoldable pub after_failures : UdpBindAbuseGuard → Entry → List ℕ → Entry
after_failures g e [] = e
after_failures g e (now_ms ∷ earlier) = (fail_entry g (after_failures g e earlier) now_ms).0
