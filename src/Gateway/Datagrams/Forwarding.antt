-- ===== src/Gateway/Datagrams/Forwarding.antt =====
-- Which frames the UDP side hands to a backend.
use knights.Base.{
  ℕ, ◌≡◌, ◌∙◌, ap, refl, Bool, true, false, not, ◌&&◌, ◌||◌, Option, none, some, List, [], ◌∷◌,
  ◌==◌, if◌then◌else◌, drop, elem, arith, Bool-cases, Option-cases, inl, inr, ◌⊎◌, if_either,
}
use Prim.Native.String.{String}
use knights.Base.Texts.{same_text, same_text_refl}
use knights.Protocol.Packet.{decode_header}
use knights.Net.Dispatcher.{OpcodePolicy, transport_allows, udp}
use knights.Rudp.Packet.{looks_like_rudp}
use knights.Rudp.Engine.{RudpEngine}
use knights.Rudp.Engine.Datagram.{process_datagram}
use knights.Gateway.AbuseGuard.{block_state}
use knights.Gateway.RudpRolloutPolicy.{opcode_allowed}
use knights.Gateway.UdpBind.{SessionState, UdpBindTicket, server_busy}
use knights.Gateway.UdpBind.Request.{Sessions, parse_udp_bind_req}
use knights.Gateway.Datagrams.{
  UdpGateway, Received, dropped, answered, is_bound_at, bound_session, has_frame_size, allows_udp,
  is_inner_valid, take_inner, with_session, fall_back, run_engine, with_engine, on_rudp, forward,
  on_frame, on_bind_parsed, on_bind, receive, msg_udp_bind_req,
}

-- The session is one of the map that is bound to the endpoint.
abbrev pub is_bound_in : Sessions → List ℕ → List ℕ → Bool
is_bound_in [] endpoint sid = false
is_bound_in ((k, s) ∷ ss) endpoint sid =
    let rest = is_bound_in ss endpoint sid in (same_text k sid && is_bound_at endpoint s) || rest

-- A session that was found is bound to the endpoint.
abbrev lands : Sessions → List ℕ → Option (List ℕ × SessionState) → Bool
lands ss endpoint none = true
lands ss endpoint (some (sid, s)) = is_bound_in ss endpoint sid

lands_deeper :
    (k : List ℕ) (t : SessionState) (ss : Sessions) (endpoint : List ℕ)
    (o : Option (List ℕ × SessionState))
    → lands ss endpoint o ≡ true
    → lands ((k, t) ∷ ss) endpoint o ≡ true
lands_deeper k t ss endpoint none h = refl
lands_deeper k t ss endpoint (some (sid, s)) h = ground arith

lands-bound_session :
    (endpoint : List ℕ) (ss : Sessions) → lands ss endpoint (bound_session endpoint ss) ≡ true
unfolding bound_session
lands-bound_session endpoint [] = refl
lands-bound_session endpoint ((k, t) ∷ ss) = elim (Bool-cases (is_bound_at endpoint t)) [
  | inl e ↦ simp (e, same_text_refl k) refl
  | inr e ↦
      simp e
        (lands_deeper k t ss endpoint (bound_session endpoint ss) (lands-bound_session endpoint ss))
]

abbrev pub all_of : (List ℕ × List ℕ → Bool) → List (List ℕ × List ℕ) → Bool
all_of p [] = true
all_of p (x ∷ xs) = let rest = all_of p xs in p x && rest

module _ (opcode_policy : ℕ → Option OpcodePolicy) where
  -- The frame has the size that its header tells, and its opcode has a policy that allows UDP.
  abbrev pub is_udp_frame : List ℕ → Bool
  is_udp_frame frame =
      has_frame_size frame && allows_udp opcode_policy (opcode_policy (decode_header frame).msg_id)

  -- The opcode is allowed to go the way of the datagram that carried it.
  abbrev pub is_listed : UdpGateway → List ℕ → List ℕ → Bool
  is_listed g datagram frame =
      if looks_like_rudp datagram
      then opcode_allowed g.config.rudp_rollout_policy (decode_header frame).msg_id
      else elem (decode_header frame).msg_id g.udp_opcode_allowlist

  abbrev pub is_legitimate : UdpGateway → List ℕ → List ℕ → List ℕ × List ℕ → Bool
  is_legitimate g endpoint datagram (sid, frame) =
      is_bound_in g.sessions endpoint sid && (is_udp_frame frame && is_listed g datagram frame)

  abbrev AllLegitimate : UdpGateway → List ℕ → List ℕ → Received → Type 0
  AllLegitimate g endpoint datagram r =
      all_of (is_legitimate g endpoint datagram) r.forwarded ≡ true

  take_inner-legitimate :
      (g : UdpGateway) (endpoint datagram sid : List ℕ) (frames : List (List ℕ))
      → is_bound_in g.sessions endpoint sid ≡ true
      → looks_like_rudp datagram ≡ true
      → all_of
          (is_legitimate g endpoint datagram)
          (with_session opcode_policy sid (take_inner opcode_policy g.config frames).0)
        ≡ true
  unfolding take_inner is_inner_valid
  take_inner-legitimate g endpoint datagram sid [] bound rudp = refl
  take_inner-legitimate g endpoint datagram sid (frame ∷ frames) bound rudp =
      ground (arith, bound, rudp, take_inner-legitimate g endpoint datagram sid frames bound rudp)

  run_engine-legitimate :
      (g : UdpGateway) (endpoint datagram sid : List ℕ) (s : SessionState) (engine : RudpEngine)
      (now : ℕ)
      → is_bound_in g.sessions endpoint sid ≡ true
      → looks_like_rudp datagram ≡ true
      → AllLegitimate g endpoint datagram (run_engine opcode_policy g sid s engine datagram now)
  unfolding run_engine
  run_engine-legitimate g endpoint datagram sid s engine now bound rudp =
      let processed = (process_datagram engine datagram now).1 in
      let taken = take_inner-legitimate g endpoint datagram sid processed.inner_frames bound rudp in
      ground (arith, taken)

  on_rudp-legitimate :
      (g : UdpGateway) (endpoint datagram : List ℕ) (o : Option (List ℕ × SessionState)) (now : ℕ)
      → lands g.sessions endpoint o ≡ true
      → looks_like_rudp datagram ≡ true
      → AllLegitimate g endpoint datagram (on_rudp opcode_policy g o datagram now)
  on_rudp-legitimate g endpoint datagram none now bound rudp = refl
  on_rudp-legitimate g endpoint datagram (some (sid, s)) now bound rudp =
      if_either (AllLegitimate g endpoint datagram)
        (not g.config.rudp_rollout_policy.enabled
          || (not s.rudp_selected || s.rudp_fallback_to_tcp))
        (dropped (fall_back opcode_policy g sid s))
        (with_engine opcode_policy g sid s s.rudp_engine datagram now) refl
        (with_engine-legitimate s.rudp_engine)
    where
      with_engine-legitimate :
          (e : Option RudpEngine)
          → AllLegitimate g endpoint datagram (with_engine opcode_policy g sid s e datagram now)
      with_engine-legitimate none = refl
      with_engine-legitimate (some engine) =
          run_engine-legitimate g endpoint datagram sid s engine now bound rudp

  forward-legitimate :
      (g : UdpGateway) (endpoint datagram sid : List ℕ) (s : SessionState) (policy : OpcodePolicy)
      (now : ℕ)
      → is_bound_in g.sessions endpoint sid ≡ true
      → looks_like_rudp datagram ≡ false
      → has_frame_size datagram ≡ true
      → opcode_policy (decode_header datagram).msg_id ≡ some policy
      → AllLegitimate g endpoint datagram (forward opcode_policy g sid s datagram policy now)
  unfolding forward
  forward-legitimate g endpoint datagram sid s policy now bound plain sized known =
      let allowed : allows_udp opcode_policy (opcode_policy (decode_header datagram).msg_id)
          ≡ transport_allows policy.transport udp =
        ap (allows_udp opcode_policy) known in
      ground (arith, allowed)

  on_frame-legitimate :
      (g : UdpGateway) (endpoint datagram : List ℕ) (o : Option (List ℕ × SessionState)) (now : ℕ)
      → lands g.sessions endpoint o ≡ true
      → looks_like_rudp datagram ≡ false
      → has_frame_size datagram ≡ true
      → AllLegitimate g endpoint datagram (on_frame opcode_policy g o datagram now)
  unfolding forward
  on_frame-legitimate g endpoint datagram none now bound plain sized = refl
  on_frame-legitimate g endpoint datagram (some (sid, s)) now bound plain sized =
      elim (Option-cases (opcode_policy (decode_header datagram).msg_id)) [
        | inl e ↦ simp e refl
        | inr (policy, e) ↦
            simp e (forward-legitimate g endpoint datagram sid s policy now bound plain sized e)
      ]

  module _ (hmac : List ℕ → List ℕ → Option (List ℕ)) (endpoint_key : List ℕ → String) where
    on_bind_parsed-nothing :
        (g : UdpGateway) (endpoint : List ℕ) (now : ℕ) (o : Option UdpBindTicket)
        → (on_bind_parsed opcode_policy hmac endpoint_key g endpoint now o).forwarded ≡ []
    on_bind_parsed-nothing g endpoint now none = refl
    on_bind_parsed-nothing g endpoint now (some req) = refl

    on_bind-nothing :
        (g : UdpGateway) (endpoint datagram : List ℕ) (now : ℕ)
        → (on_bind opcode_policy hmac endpoint_key g endpoint datagram now).forwarded ≡ []
    unfolding on_bind
    on_bind-nothing g endpoint datagram now =
        let (guard, state) = block_state g.udp_bind_abuse_guard (endpoint_key endpoint) now in
        let g' : UdpGateway = record g { udp_bind_abuse_guard = guard } in
        if_either (λ r. r.forwarded ≡ []) state.blocked (answered g' server_busy)
          (on_bind_parsed opcode_policy hmac endpoint_key g' endpoint now
            (parse_udp_bind_req (drop 14 datagram)))
          refl (on_bind_parsed-nothing g' endpoint now (parse_udp_bind_req (drop 14 datagram)))

    receive_ways :
        (g : UdpGateway) (endpoint datagram : List ℕ) (now : ℕ)
        → let found = bound_session endpoint g.sessions in
          let out = receive opcode_policy hmac endpoint_key g endpoint datagram now in
          (looks_like_rudp datagram ≡ true → out ≡ on_rudp opcode_policy g found datagram now)
          × (looks_like_rudp datagram ≡ false
              → (out.forwarded ≡ [])
                ⊎ ((has_frame_size datagram ≡ true)
                    × (out ≡ on_frame opcode_policy g found datagram now)))
    unfolding receive
    receive_ways g endpoint datagram now =
        let nothing = on_bind-nothing g endpoint datagram now in
        (
          λ rudp. simp rudp refl,
          λ plain. elim (Bool-cases (has_frame_size datagram)) [
            | inr short ↦ inl (simp (plain, short) refl)
            | inl sized ↦ elim (Bool-cases ((decode_header datagram).msg_id == msg_udp_bind_req)) [
              | inl bind ↦ inl (simp (plain, sized, bind) nothing)
              | inr other ↦ inr (sized, simp (plain, sized, other) refl)
            ]
          ],
        )

    -- Each frame that a datagram makes the gateway forward goes to a session that was bound to the endpoint of the
    -- datagram, has the size that its header tells, has an opcode whose policy allows UDP, and that opcode is
    -- allowed by the rollout policy if the datagram is RUDP and is in the UDP allowlist otherwise.
    pub receive-legitimate :
        (g : UdpGateway) (endpoint datagram : List ℕ) (now : ℕ)
        → all_of
            (is_legitimate g endpoint datagram)
            (receive opcode_policy hmac endpoint_key g endpoint datagram now).forwarded
          ≡ true
    receive-legitimate g endpoint datagram now =
        let found = bound_session endpoint g.sessions in
        let bound = lands-bound_session endpoint g.sessions in
        let test : Received → Bool = λ r. all_of (is_legitimate g endpoint datagram) r.forwarded in
        let (as_rudp, as_frame) = receive_ways g endpoint datagram now in
        elim (Bool-cases (looks_like_rudp datagram)) [
          | inl rudp ↦
              ap test (as_rudp rudp) ∙ on_rudp-legitimate g endpoint datagram found now bound rudp
          | inr plain ↦ elim (as_frame plain) [
            | inl nothing ↦ ap (all_of (is_legitimate g endpoint datagram)) nothing
            | inr (sized, e) ↦
                ap test e ∙ on_frame-legitimate g endpoint datagram found now bound plain sized
          ]
        ]
