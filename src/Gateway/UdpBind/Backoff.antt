-- ===== src/Gateway/UdpBind/Backoff.antt =====
-- How wrong bind requests are slowed down.
use knights.Base.{
  ℕ, zero, suc, ◌+◌, ◌*◌, ◌-◌, ◌≤◌, ◌<◌, ◌^◌, ◌≡◌, ◌∙◌, min, ap, sym, refl, Bool, true, false, ◌||◌,
  Option, List, ltb, ◌==◌, is_empty, arith, subst, Bool-cases, inl, inr,
}
use knights.Base.Bits.{u64}
use knights.Gateway.UdpBind.{
  SessionState, GatewayConfig, UdpBindTicket, Verdict, in_backoff, refused, granted,
  udp_bind_retry_delay_ms, apply_retry_backoff, judge, after_verdict, apply_udp_bind_request,
  unauthorized, forbidden, server_busy,
}

pow_positive : (m : ℕ) → 1 ≤ 2 ^ m
pow_positive zero = omega arith
pow_positive (suc m) = omega (arith, pow_positive m)

pow_monotone : (n m : ℕ) → n ≤ m → 2 ^ n ≤ 2 ^ m
pow_monotone zero m h = pow_positive m
pow_monotone (suc n) zero h = ground arith
pow_monotone (suc n) (suc m) h = omega (arith, pow_monotone n m)

-- The delay for an attempt is the first delay, doubled with each attempt up to the eighth and kept below the
-- longest one, where both delays fit 32 bits.
pub udp_bind_retry_delay_ms-min :
    (c : GatewayConfig) (attempt : ℕ)
    → c.udp_bind_retry_backoff_ms < 2 ^ 32
    → c.udp_bind_retry_backoff_max_ms < 2 ^ 32
    → udp_bind_retry_delay_ms c attempt
      ≡ min (c.udp_bind_retry_backoff_ms * 2 ^ (min attempt 8 - 1)) c.udp_bind_retry_backoff_max_ms
unfolding udp_bind_retry_delay_ms
udp_bind_retry_delay_ms-min c attempt h k =
    let n = min attempt 8 - 1 in
    let small : 2 ^ n ≤ 128 = pow_monotone n 7 (omega arith) in
    let product : c.udp_bind_retry_backoff_ms * 2 ^ n ≤ 2 ^ 32 * 128 = grind (arith, h, small) in
    ground (arith, product, k)

-- The codes of a refusal.
abbrev pub is_wrong : ℕ → Bool
is_wrong code = code == unauthorized || code == forbidden

verdict-refused :
    (c : GatewayConfig) (s : SessionState) (endpoint : List ℕ) (now : ℕ) (v : Verdict)
    → is_wrong (after_verdict c s endpoint now v).1 ≡ true
    → (after_verdict c s endpoint now v).0 ≡ apply_retry_backoff c s now
verdict-refused c s endpoint now in_backoff h = ground arith
verdict-refused c s endpoint now (refused code) h = refl
verdict-refused c s endpoint now granted h = ground arith

backoff_state :
    (c : GatewayConfig) (s s' : SessionState) (now : ℕ)
    → s' ≡ apply_retry_backoff c s now
    → (s'.udp_bind_fail_attempts ≤ c.udp_bind_retry_max_attempts)
      × (s'.udp_bind_retry_after_unix_ms
          ≡ u64 (now + udp_bind_retry_delay_ms c s'.udp_bind_fail_attempts))
unfolding apply_retry_backoff
backoff_state c s s' now h =
    let kind : SessionState → Type 0 = λ t.
      (t.udp_bind_fail_attempts ≤ c.udp_bind_retry_max_attempts)
      × (t.udp_bind_retry_after_unix_ms
          ≡ u64 (now + udp_bind_retry_delay_ms c t.udp_bind_fail_attempts)) in
    subst kind (sym h) (omega arith, refl)

module _ (hmac : List ℕ → List ℕ → Option (List ℕ)) where
  waits :
      (c : GatewayConfig) (s : SessionState) (req : UdpBindTicket) (endpoint : List ℕ) (now : ℕ)
      → is_empty req.session_id || is_empty req.token ≡ false
      → now < s.udp_bind_retry_after_unix_ms
      → apply_udp_bind_request hmac c s req endpoint now ≡ (s, server_busy)
  unfolding apply_udp_bind_request judge
  waits c s req endpoint now some_text early =
      let is_early : ltb now s.udp_bind_retry_after_unix_ms ≡ true = ground (arith, early) in
      simp (some_text, is_early) refl

  -- The session that a request leaves.
  abbrev pub left : GatewayConfig → SessionState → UdpBindTicket → List ℕ → ℕ → SessionState
  left c s req endpoint now = (apply_udp_bind_request hmac c s req endpoint now).0

  left-refused :
      (c : GatewayConfig) (s : SessionState) (req : UdpBindTicket) (endpoint : List ℕ) (now : ℕ)
      → is_wrong (apply_udp_bind_request hmac c s req endpoint now).1 ≡ true
      → left c s req endpoint now ≡ apply_retry_backoff c s now
  unfolding apply_udp_bind_request
  left-refused c s req endpoint now h =
      elim (Bool-cases (is_empty req.session_id || is_empty req.token)) [
        | inl e ↦ ground arith
        | inr e ↦
            let v = judge hmac c s req endpoint now in
            let used : apply_udp_bind_request hmac c s req endpoint now
                ≡ after_verdict c s endpoint now v =
              simp e refl in
            ap (λ o. o.0) used
            ∙ verdict-refused c s endpoint now v (sym (ap (λ o. is_wrong o.1) used) ∙ h)
      ]

  -- After a request that is refused with the code for a wrong ticket or for another endpoint, the number of failed
  -- attempts is at most the largest one, and each request with an id and a token that comes before the delay for
  -- that number has passed is answered with `SERVER_BUSY` and changes nothing, where the delay ends below 2 ^ 64.
  pub apply_udp_bind_request-refused :
      (c : GatewayConfig) (s : SessionState) (req again : UdpBindTicket) (endpoint other : List ℕ)
      (now later : ℕ)
      → is_wrong (apply_udp_bind_request hmac c s req endpoint now).1 ≡ true
      → is_empty again.session_id || is_empty again.token ≡ false
      → now + udp_bind_retry_delay_ms c (left c s req endpoint now).udp_bind_fail_attempts < 2 ^ 64
      → later < now + udp_bind_retry_delay_ms c (left c s req endpoint now).udp_bind_fail_attempts
      → ((left c s req endpoint now).udp_bind_fail_attempts ≤ c.udp_bind_retry_max_attempts)
        × (apply_udp_bind_request hmac c (left c s req endpoint now) again other later
            ≡ (left c s req endpoint now, server_busy))
  apply_udp_bind_request-refused c s req again endpoint other now later h some_text fits early =
      let (few, until) =
        backoff_state c s (left c s req endpoint now) now (left-refused c s req endpoint now h) in
      (few, waits c (left c s req endpoint now) again other later some_text (omega (arith, until)))
