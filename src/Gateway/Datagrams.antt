-- ===== src/Gateway/Datagrams.antt =====
-- `do_udp_receive` of gateway/src/gateway_app.cpp: what a UDP datagram changes, forwards and answers. The table of
-- opcodes is generated: a parameter that gives the policy of an opcode, `none` for one that no table names. So is
-- the text of an endpoint. A datagram is handled in one step; the answer is its code, without its frame.
pub mod Forwarding
use Prim.Native.String.{String}
use knights.Base.{
  ℕ, ◌+◌, ◌-◌, Bool, true, false, not, ◌&&◌, ◌||◌, Option, none, some, List, [], ◌∷◌, ◌++◌, ltb,
  ◌==◌, if◌then◌else◌, is_empty, length, drop, elem,
}
use knights.Base.Texts.{same_text}
use knights.Base.Maps.{find, put}
use knights.Protocol.Packet.{PacketHeader, decode_header}
use knights.Net.Dispatcher.{
  OpcodePolicy, DeliveryClass, TransportKind, reliable_ordered, reliable, unreliable_sequenced, udp,
  transport_allows,
}
use knights.Rudp.Packet.{looks_like_rudp}
use knights.Rudp.Engine.{RudpEngine, ProcessResult}
use knights.Rudp.Engine.Datagram.{process_datagram}
use knights.Rudp.Engine.Send.{poll}
use knights.Gateway.AbuseGuard.{UdpBindAbuseGuard, block_state, record_failure, record_success}
use knights.Gateway.SequencedMetrics.{on_packet}
use knights.Gateway.RudpRolloutPolicy.{opcode_allowed}
use knights.Gateway.UdpBind.{
  SessionState, GatewayConfig, UdpBindTicket, invalid_payload, server_busy, unauthorized, forbidden,
}
use knights.Gateway.UdpBind.Request.{Sessions, parse_udp_bind_req, bind_session}

-- The members of `GatewayApp` that the UDP side changes.
pub record UdpGateway : Type 0 where
  pub config : GatewayConfig
  pub sessions : Sessions
  pub udp_bind_abuse_guard : UdpBindAbuseGuard
  pub udp_opcode_allowlist : List ℕ

-- The gateway after a datagram, the frames that it forwards with their sessions, the datagrams that it sends for
-- RUDP, and the code of its answer, if it answers.
pub record Received : Type 0 where
  pub gateway : UdpGateway
  pub forwarded : List (List ℕ × List ℕ)
  pub egress : List (List ℕ)
  pub code : Option ℕ

abbrev pub dropped : UdpGateway → Received
dropped g = record { gateway = g; forwarded = []; egress = []; code = none }

abbrev pub answered : UdpGateway → ℕ → Received
answered g code = record { gateway = g; forwarded = []; egress = []; code = some code }

abbrev pub unknown_msg_id : ℕ
unknown_msg_id = 0x0003

abbrev pub msg_udp_bind_req : ℕ
msg_udp_bind_req = 0x0012

abbrev pub is_bound_at : List ℕ → SessionState → Bool
is_bound_at endpoint s = s.udp_bound && same_text s.udp_endpoint endpoint

-- The loop that looks for the session of an endpoint.
unfoldable pub bound_session : List ℕ → Sessions → Option (List ℕ × SessionState)
bound_session endpoint [] = none
bound_session endpoint ((sid, s) ∷ ss) =
    let rest = bound_session endpoint ss in if is_bound_at endpoint s then some (sid, s) else rest

-- A frame is at least a header, and the header tells the length of the rest.
abbrev pub has_frame_size : List ℕ → Bool
has_frame_size frame =
    not (ltb (length frame) 14) && (decode_header frame).length == length frame - 14

abbrev pub is_sequenced : DeliveryClass → Bool
is_sequenced reliable_ordered = false
is_sequenced reliable = false
is_sequenced unreliable_sequenced = true

module _ (opcode_policy : ℕ → Option OpcodePolicy) where
  abbrev pub allows_udp : Option OpcodePolicy → Bool
  allows_udp none = false
  allows_udp (some policy) = transport_allows policy.transport udp

  -- The checks of an inner frame of RUDP.
  unfoldable pub is_inner_valid : GatewayConfig → List ℕ → Bool
  is_inner_valid c frame =
      has_frame_size frame
      && (allows_udp (opcode_policy (decode_header frame).msg_id)
          && opcode_allowed c.rudp_rollout_policy (decode_header frame).msg_id)

  -- The loop over the inner frames: the ones before the first that is not valid, and whether there is such a one.
  unfoldable pub take_inner : GatewayConfig → List (List ℕ) → List (List ℕ) × Bool
  take_inner c [] = ([], false)
  take_inner c (frame ∷ frames) =
      let (rest, invalid) = take_inner c frames in
      if is_inner_valid c frame then (frame ∷ rest, invalid) else ([], true)

  abbrev pub with_session : List ℕ → List (List ℕ) → List (List ℕ × List ℕ)
  with_session sid [] = []
  with_session sid (frame ∷ frames) = (sid, frame) ∷ with_session sid frames

  unfoldable pub fall_back : UdpGateway → List ℕ → SessionState → UdpGateway
  fall_back g sid s = record g {
    sessions = put sid (record s { rudp_fallback_to_tcp = true }) g.sessions;
  }

  -- A RUDP datagram for a session with an engine.
  unfoldable pub run_engine :
      UdpGateway → List ℕ → SessionState → RudpEngine → List ℕ → ℕ → Received
  run_engine g sid s engine datagram now =
      let (engine', processed) = process_datagram engine datagram now in
      let (engine'', polled) = poll engine' now in
      let s' = record s { rudp_engine = some engine'' } in
      let (frames, invalid) = take_inner g.config processed.inner_frames in
      let kept = record g { sessions = put sid s' g.sessions } in
      let failed = fall_back g sid s' in
      let egress = processed.egress_datagrams ++ polled.egress_datagrams in
      if processed.fallback_required || polled.fallback_required
      then record { gateway = failed; forwarded = []; egress = egress; code = none }
      else record {
        gateway = if invalid then failed else kept;
        forwarded = with_session sid frames;
        egress = egress;
        code = none;
      }

  abbrev pub with_engine :
      UdpGateway → List ℕ → SessionState → Option RudpEngine → List ℕ → ℕ → Received
  with_engine g sid s none datagram now = dropped (fall_back g sid s)
  with_engine g sid s (some engine) datagram now = run_engine g sid s engine datagram now

  abbrev pub on_rudp : UdpGateway → Option (List ℕ × SessionState) → List ℕ → ℕ → Received
  on_rudp g none datagram now = dropped g
  on_rudp g (some (sid, s)) datagram now =
      if not g.config.rudp_rollout_policy.enabled || (not s.rudp_selected || s.rudp_fallback_to_tcp)
      then dropped (fall_back g sid s)
      else with_engine g sid s s.rudp_engine datagram now

  -- A frame of a bound session whose opcode has the policy.
  unfoldable pub forward : UdpGateway → List ℕ → SessionState → List ℕ → OpcodePolicy → ℕ → Received
  forward g sid s datagram policy now =
      let header = decode_header datagram in
      let (metrics, update) = on_packet s.udp_sequenced_metrics header.seq now in
      let tracked = record g {
        sessions = put sid (record s { udp_sequenced_metrics = metrics }) g.sessions;
      } in
      let sent = (sid, datagram) ∷ [] in
      if not (elem header.msg_id g.udp_opcode_allowlist)
      then answered g forbidden
      else (if not (transport_allows policy.transport udp)
          then answered g forbidden
          else (if not (is_sequenced policy.delivery)
              then record { gateway = g; forwarded = sent; egress = []; code = none }
              else (if not update.accepted
                  then answered tracked forbidden
                  else record { gateway = tracked; forwarded = sent; egress = []; code = none })))

  abbrev pub forward_known :
      UdpGateway → List ℕ → SessionState → List ℕ → Option OpcodePolicy → ℕ → Received
  forward_known g sid s datagram none now = answered g unknown_msg_id
  forward_known g sid s datagram (some policy) now = forward g sid s datagram policy now

  abbrev pub on_frame : UdpGateway → Option (List ℕ × SessionState) → List ℕ → ℕ → Received
  on_frame g none datagram now = answered g unauthorized
  on_frame g (some (sid, s)) datagram now =
      forward_known g sid s datagram (opcode_policy (decode_header datagram).msg_id) now

  module _ (hmac : List ℕ → List ℕ → Option (List ℕ)) (endpoint_key : List ℕ → String) where
    abbrev pub on_bind_parsed : UdpGateway → List ℕ → ℕ → Option UdpBindTicket → Received
    on_bind_parsed g endpoint now none =
        answered
          (record g {
            udp_bind_abuse_guard =
                (record_failure g.udp_bind_abuse_guard (endpoint_key endpoint) now).0;
          })
          invalid_payload
    on_bind_parsed g endpoint now (some req) =
        let (sessions, code) = bind_session hmac g.config g.sessions req endpoint now in
        let guard =
          if code == 0
          then record_success g.udp_bind_abuse_guard (endpoint_key endpoint)
          else (record_failure g.udp_bind_abuse_guard (endpoint_key endpoint) now).0 in
        answered (record g { sessions = sessions; udp_bind_abuse_guard = guard }) code

    unfoldable pub on_bind : UdpGateway → List ℕ → List ℕ → ℕ → Received
    on_bind g endpoint datagram now =
        let (guard, state) = block_state g.udp_bind_abuse_guard (endpoint_key endpoint) now in
        let g' = record g { udp_bind_abuse_guard = guard } in
        if state.blocked
        then answered g' server_busy
        else on_bind_parsed g' endpoint now (parse_udp_bind_req (drop 14 datagram))

    unfoldable pub receive : UdpGateway → List ℕ → List ℕ → ℕ → Received
    receive g endpoint datagram now =
        if looks_like_rudp datagram
        then on_rudp g (bound_session endpoint g.sessions) datagram now
        else (if not (has_frame_size datagram)
            then dropped g
            else (if (decode_header datagram).msg_id == msg_udp_bind_req
                then on_bind g endpoint datagram now
                else on_frame g (bound_session endpoint g.sessions) datagram now))
