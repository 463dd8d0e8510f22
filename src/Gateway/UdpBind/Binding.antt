-- ===== src/Gateway/UdpBind/Binding.antt =====
-- Which requests bind a session, and for how long.
use knights.Base.{
  ℕ, ◌+◌, ◌≤◌, ◌<◌, ◌^◌, ◌≡◌, ◌≢◌, ◌∙◌, ap, sym, refl, Bool, true, false, not, ◌&&◌, ◌||◌, Option,
  some, List, [], ◌∷◌, ◌==◌, if◌then◌else◌, is_empty, arith, if_either, subst,
}
use knights.Base.Bits.{u64}
use knights.Base.Texts.{same_text, same_text_refl, same_text-eq}
use knights.Gateway.UdpBind.{
  SessionState, GatewayConfig, UdpBindTicket, Verdict, in_backoff, refused, granted, secure_equals,
  hex_or_nothing, make_udp_bind_token, make_bind_signing_input, apply_retry_backoff, bind_to,
  give_ticket, issue_ticket, judge, after_verdict, apply_udp_bind_request, invalid_payload,
}

secure_equals_refl : (xs : List ℕ) → secure_equals xs xs ≡ true
unfolding secure_equals
secure_equals_refl xs = ground (arith, same_text_refl xs)

secure_equals-eq : (xs ys : List ℕ) → secure_equals xs ys ≡ true → same_text xs ys ≡ true
unfolding secure_equals
secure_equals-eq [] [] h = refl
secure_equals-eq [] (y ∷ ys) h = ground arith
secure_equals-eq (x ∷ xs) [] h = ground arith
secure_equals-eq (x ∷ xs) (y ∷ ys) h = ground arith

abbrev pub is_granted : Verdict → Bool
is_granted in_backoff = false
is_granted (refused code) = false
is_granted granted = true

-- The session is bound to the endpoint.
abbrev pub IsBound : SessionState → List ℕ → Type 0
IsBound s home = (s.udp_bound ≡ true) × (s.udp_endpoint ≡ home)

module _ (hmac : List ℕ → List ℕ → Option (List ℕ)) where
  -- Requests with their endpoints and times, each on what the last one left.
  abbrev pub after_requests :
      GatewayConfig → SessionState → List (UdpBindTicket × List ℕ × ℕ) → SessionState
  after_requests c s [] = s
  after_requests c s ((req, endpoint, now) ∷ rs) =
      after_requests c (apply_udp_bind_request hmac c s req endpoint now).0 rs

  -- How many of them are granted to another endpoint.
  abbrev pub granted_to_others :
      GatewayConfig → SessionState → List ℕ → List (UdpBindTicket × List ℕ × ℕ) → ℕ
  granted_to_others c s home [] = 0
  granted_to_others c s home ((req, endpoint, now) ∷ rs) =
      let (s', code) = apply_udp_bind_request hmac c s req endpoint now in
      let rest = granted_to_others c s' home rs in
      if code == 0 && not (same_text home endpoint) then rest + 1 else rest

  judge-others :
      (c : GatewayConfig) (s : SessionState) (home : List ℕ) (req : UdpBindTicket)
      (endpoint : List ℕ) (now : ℕ)
      → IsBound s home
      → is_granted (judge hmac c s req endpoint now) ≡ true
      → same_text home endpoint ≡ true
  unfolding judge
  judge-others c s home req endpoint now bound h =
      let same = ap (λ t. same_text t endpoint) bound.1 in ground (arith, same)

  verdict-IsBound :
      (c : GatewayConfig) (s : SessionState) (home endpoint : List ℕ) (now : ℕ) (v : Verdict)
      → IsBound s home
      → (is_granted v ≡ true → same_text home endpoint ≡ true)
      → IsBound (after_verdict c s endpoint now v).0 home
  unfolding bind_to apply_retry_backoff
  verdict-IsBound c s home endpoint now in_backoff bound h = bound
  verdict-IsBound c s home endpoint now (refused code) bound h = bound
  verdict-IsBound c s home endpoint now granted bound h =
      (refl, sym (same_text-eq home endpoint (h refl)))

  apply-IsBound :
      (c : GatewayConfig) (s : SessionState) (home : List ℕ) (req : UdpBindTicket)
      (endpoint : List ℕ) (now : ℕ)
      → IsBound s home
      → IsBound (apply_udp_bind_request hmac c s req endpoint now).0 home
  unfolding apply_udp_bind_request
  apply-IsBound c s home req endpoint now bound =
      if_either (λ out. IsBound out.0 home) (is_empty req.session_id || is_empty req.token)
        (s, invalid_payload) (after_verdict c s endpoint now (judge hmac c s req endpoint now))
        bound
        (verdict-IsBound c s home endpoint now (judge hmac c s req endpoint now) bound
          (judge-others c s home req endpoint now bound))

  apply-others :
      (c : GatewayConfig) (s : SessionState) (home : List ℕ) (req : UdpBindTicket)
      (endpoint : List ℕ) (now : ℕ)
      → IsBound s home
      → ((apply_udp_bind_request hmac c s req endpoint now).1 == 0) && not (same_text home endpoint)
        ≡ false
  unfolding apply_udp_bind_request judge
  apply-others c s home req endpoint now bound =
      let same = ap (λ t. same_text t endpoint) bound.1 in ground (arith, same)

  -- Over a sequence of bind requests for a session, with no other call for it in between: if it is bound to an
  -- endpoint, it stays bound to it, from whatever endpoints and at whatever times they come, and none of them
  -- is granted to another endpoint.
  pub after_requests-IsBound :
      (c : GatewayConfig) (s : SessionState) (home : List ℕ)
      (requests : List (UdpBindTicket × List ℕ × ℕ))
      → IsBound s home
      → IsBound (after_requests c s requests) home × (granted_to_others c s home requests ≡ 0)
  after_requests-IsBound c s home [] bound = (bound, refl)
  after_requests-IsBound c s home ((req, endpoint, now) ∷ rs) bound =
      let s' = (apply_udp_bind_request hmac c s req endpoint now).0 in
      let (bound', none_else) =
        after_requests-IsBound c s' home rs (apply-IsBound c s home req endpoint now bound) in
      (bound', ground (arith, apply-others c s home req endpoint now bound))

  -- A bind is granted only to a request that carries the nonce, the time and the token of the ticket that the
  -- session holds, before that time has passed, and whose token is the one that is signed for its session id.
  pub apply_udp_bind_request-granted :
      (c : GatewayConfig) (s : SessionState) (req : UdpBindTicket) (endpoint : List ℕ) (now : ℕ)
      → (apply_udp_bind_request hmac c s req endpoint now).1 ≡ 0
      → (req.nonce ≡ s.udp_nonce)
        × (req.expires_unix_ms ≡ s.udp_expires_unix_ms)
        × (now ≤ s.udp_expires_unix_ms)
        × (req.token ≡ s.udp_token)
        × (req.token ≡ make_udp_bind_token hmac c req.session_id req.nonce req.expires_unix_ms)
  unfolding apply_udp_bind_request judge
  apply_udp_bind_request-granted c s req endpoint now h =
      let signed = make_udp_bind_token hmac c req.session_id req.nonce req.expires_unix_ms in
      let same_token : same_text req.token s.udp_token ≡ true =
        ground (arith, secure_equals-eq req.token s.udp_token) in
      let same_signed : same_text req.token signed ≡ true =
        ground (arith, secure_equals-eq req.token signed) in
      (
        ground arith,
        ground arith,
        ground arith,
        same_text-eq req.token s.udp_token same_token,
        same_text-eq req.token signed same_signed,
      )

  make_udp_bind_token-some :
      (c : GatewayConfig) (session_id : List ℕ) (nonce expires : ℕ)
      → ((key text : List ℕ) → is_empty (hex_or_nothing (hmac key text)) ≡ false)
      → is_empty c.udp_bind_secret ≡ false
      → is_empty (make_udp_bind_token hmac c session_id nonce expires) ≡ false
  unfolding make_udp_bind_token
  make_udp_bind_token-some c session_id nonce expires digest secret =
      simp secret (digest c.udp_bind_secret (make_bind_signing_input session_id nonce expires))

  judge-give_ticket :
      (c : GatewayConfig) (s : SessionState) (sent : UdpBindTicket) (endpoint : List ℕ)
      (now later : ℕ)
      → is_empty sent.token ≡ false
      → sent.token ≡ make_udp_bind_token hmac c sent.session_id sent.nonce sent.expires_unix_ms
      → sent.nonce ≢ 0
      → sent.expires_unix_ms ≢ 0
      → later ≤ sent.expires_unix_ms
      → judge hmac c
          (give_ticket c s sent.session_id sent.nonce now sent.expires_unix_ms sent.token)
          sent
          endpoint
          later
        ≡ granted
  unfolding judge give_ticket
  judge-give_ticket c s sent endpoint now later some_token signed some_nonce some_time past =
      let same : secure_equals sent.token
            (make_udp_bind_token hmac c sent.session_id sent.nonce sent.expires_unix_ms)
          ≡ true =
        ap (secure_equals sent.token) (sym signed) ∙ secure_equals_refl sent.token in
      ground (arith, same, secure_equals_refl sent.token)

  -- With a UDP port, a secret and an HMAC that always gives a digest, a session gets a ticket at a time `now`
  -- that is not 0 and for a nonce that is not 0, and the first bind request with that ticket, from any endpoint
  -- until `now` and the time to live have passed, is granted and binds the session to the endpoint; the id of the session
  -- is not empty and the end of that time is below 2 ^ 64.
  pub apply_udp_bind_request-issue_ticket :
      (c : GatewayConfig) (s : SessionState) (session_id : List ℕ) (nonce now later : ℕ)
      (endpoint : List ℕ)
      → ((key text : List ℕ) → is_empty (hex_or_nothing (hmac key text)) ≡ false)
      → c.udp_listen_port ≢ 0
      → is_empty c.udp_bind_secret ≡ false
      → is_empty session_id ≡ false
      → nonce ≢ 0
      → 0 < now
      → now + c.udp_bind_ttl_ms < 2 ^ 64
      → later ≤ now + c.udp_bind_ttl_ms
      → let issued = issue_ticket hmac c s session_id nonce now in
        (sent : UdpBindTicket) × (issued.1 ≡ some sent)
        × ((apply_udp_bind_request hmac c issued.0 sent endpoint later).1 ≡ 0)
        × IsBound (apply_udp_bind_request hmac c issued.0 sent endpoint later).0 endpoint
  unfolding issue_ticket apply_udp_bind_request bind_to
  apply_udp_bind_request-issue_ticket c s session_id nonce now later endpoint digest port secret
        some_id some_nonce started fits past =
      let expires = now + c.udp_bind_ttl_ms in
      let token = make_udp_bind_token hmac c session_id nonce expires in
      let some_token = make_udp_bind_token-some c session_id nonce expires digest secret in
      let sent : UdpBindTicket = record {
        session_id = session_id;
        nonce = nonce;
        expires_unix_ms = expires;
        token = token;
      } in
      let given = give_ticket c s session_id nonce now expires token in
      let listens : (c.udp_listen_port == 0) ≡ false = ground (arith, port) in
      let kept : u64 expires ≡ expires = omega arith in
      let issued : issue_ticket hmac c s session_id nonce now ≡ (given, some sent) =
        simp (kept, listens, secret, some_token) refl in
      let verdict =
        judge-give_ticket c s sent endpoint now later some_token refl some_nonce (omega arith)
          past in
      let applied : apply_udp_bind_request hmac c given sent endpoint later
          ≡ (bind_to c given endpoint, 0) =
        simp (some_id, some_token, verdict) refl in
      subst
        (λ i.
          (t : UdpBindTicket) × (i.1 ≡ some t)
          × ((apply_udp_bind_request hmac c i.0 t endpoint later).1 ≡ 0)
          × IsBound (apply_udp_bind_request hmac c i.0 t endpoint later).0 endpoint)
        (sym issued)
        (
          sent,
          refl,
          ap (λ r. r.1) applied,
          (ap (λ r. r.0.udp_bound) applied, ap (λ r. r.0.udp_endpoint) applied),
        )
