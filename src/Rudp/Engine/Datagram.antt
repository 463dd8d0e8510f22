-- ===== src/Rudp/Engine/Datagram.antt =====
-- `process_datagram` of core/src/net/rudp/rudp_engine.cpp, a function for each stretch of its body.
use knights.Base.{
  ℕ, ◌+◌, ◌-◌, Bool, true, not, ◌&&◌, Option, none, some, List, [], ◌∷◌, ◌++◌, leb, ◌==◌,
  if◌then◌else◌, is_empty, bit_and,
}
use knights.Base.Bits.{u64, u32}
use knights.Rudp.AckWindow.{AckObservation}
use knights.Rudp.AckWindow
use knights.Rudp.Retransmission
use knights.Rudp.Rtt
use knights.Rudp.Packet.{
  RudpHeader, type_hello, type_hello_ack, type_data, type_ping, type_close, flag_ack_only,
  decode_packet, looks_like_rudp,
}
use knights.Rudp.Engine.{
  established, closed, Reason, invalid_packet, connection_id_mismatch, not_established, peer_closed,
  RudpEngine, ProcessResult, default_result, make_packet, set_fallback, is_established,
}

-- `set_fallback` on the engine, and the return behind it.
abbrev pub fall_back : RudpEngine → ProcessResult → Reason → RudpEngine × ProcessResult
fall_back e result reason =
    let (state, result') = set_fallback e.state result reason in
    (record e { state = state }, result')

-- An ACK goes out unless the packet is one, or the last went out less than the delay ago.
abbrev pub should_emit_ack : RudpEngine → RudpHeader → ℕ → Bool
should_emit_ack e h now_unix_ms =
    bit_and h.flags flag_ack_only == 0
    && leb (u64 (e.state.last_ack_emit_unix_ms + e.config.ack_delay_ms)) now_unix_ms

-- The ACK of an accepted packet.
unfoldable pub emit_ack : RudpEngine → RudpHeader → ℕ → ProcessResult → RudpEngine × ProcessResult
emit_ack e h now_unix_ms result =
    if should_emit_ack e h now_unix_ms
    then (
      record e { state = record (e.state) { last_ack_emit_unix_ms = now_unix_ms } },
      record result {
        egress_datagrams =
            result.egress_datagrams
            ++ make_packet e.config e.state type_data flag_ack_only h.channel 0 now_unix_ms [] ∷ [];
      },
    )
    else (e, result)

-- The round trip sample of an accepted packet.
unfoldable pub take_sample : RudpEngine → RudpHeader → ℕ → RudpEngine
take_sample e h now_unix_ms =
    let now_ts = bit_and now_unix_ms 0xffff_ffff in
    let sample = u32 (if leb h.timestamp_ms now_ts then now_ts - h.timestamp_ms else 0) in
    let rtt = Rtt.update e.state.rtt sample e.config.rto_min_ms e.config.rto_max_ms in
    if h.timestamp_ms == 0 then e else record e { state = record (e.state) { rtt = rtt } }

-- A data packet of an established peer that the window has accepted.
unfoldable pub deliver :
    RudpEngine → RudpHeader → List ℕ → ℕ → ProcessResult → RudpEngine × ProcessResult
deliver e h payload now_unix_ms result =
    let frames =
      if is_empty payload then result.inner_frames else result.inner_frames ++ payload ∷ [] in
    let (e', result') = emit_ack e h now_unix_ms (record result { inner_frames = frames }) in
    (take_sample e' h now_unix_ms, result')

-- From `if (state_.lifecycle != kEstablished)` to the end of the function.
unfoldable pub handle_data :
    RudpEngine → RudpHeader → List ℕ → ℕ → ProcessResult → RudpEngine × ProcessResult
handle_data e h payload now_unix_ms result =
    let (window, ack) = AckWindow.observe e.ack_window h.packet_number in
    let state = record (e.state) { ack_largest = ack.ack_largest; ack_mask = ack.ack_mask } in
    let observed = record e { state = state; ack_window = window } in
    if not (is_established e.state.lifecycle)
    then fall_back e result not_established
    else (if not ack.accepted
        then (observed, result)
        else deliver observed h payload now_unix_ms result)

unfoldable pub handle_hello : RudpEngine → ℕ → ProcessResult → RudpEngine × ProcessResult
handle_hello e now_unix_ms result =
    let state = record (e.state) { lifecycle = established; last_send_unix_ms = now_unix_ms } in
    (
      record e { state = state },
      record result {
        handshake_established = not (is_established e.state.lifecycle);
        egress_datagrams =
            result.egress_datagrams
            ++ make_packet e.config state type_hello_ack 0 0 0 now_unix_ms [] ∷ [];
      },
    )

unfoldable pub handle_hello_ack : RudpEngine → ProcessResult → RudpEngine × ProcessResult
handle_hello_ack e result = (
  record e { state = record (e.state) { lifecycle = established } },
  record result { handshake_established = true },
)

unfoldable pub handle_close : RudpEngine → ProcessResult → RudpEngine × ProcessResult
handle_close e result =
    fall_back (record e { state = record (e.state) { lifecycle = closed } }) result peer_closed

unfoldable pub handle_ping : RudpEngine → ℕ → ProcessResult → RudpEngine × ProcessResult
handle_ping e now_unix_ms result = (
  e,
  record result {
    egress_datagrams =
        result.egress_datagrams
        ++ make_packet e.config e.state type_data flag_ack_only 0 0 now_unix_ms [] ∷ [];
  },
)

-- The `switch` on the type. It has no default, so a byte that names no type goes on as data.
unfoldable pub handle_type :
    RudpEngine → RudpHeader → List ℕ → ℕ → ProcessResult → RudpEngine × ProcessResult
handle_type e h payload now_unix_ms result =
    if h.packet_type == type_hello
    then handle_hello e now_unix_ms result
    else (if h.packet_type == type_hello_ack
        then handle_hello_ack e result
        else (if h.packet_type == type_close
            then handle_close e result
            else (if h.packet_type == type_ping
                then handle_ping e now_unix_ms result
                else handle_data e h payload now_unix_ms result)))

-- The engine that has noted the time, adopted the connection id if it had none, and handed the ACK
-- fields to the retransmission queue.
abbrev pub admitted : RudpEngine → RudpHeader → ℕ → RudpEngine
admitted e h now_unix_ms = record e {
  state = record (e.state) {
    last_recv_unix_ms = now_unix_ms;
    connection_id = (if e.state.connection_id == 0 then h.connection_id else e.state.connection_id);
  };
  retransmission_queue = Retransmission.mark_acked e.retransmission_queue h.ack_largest h.ack_mask;
}

-- The packet belongs to another connection.
abbrev pub is_mismatch : RudpEngine → RudpHeader → Bool
is_mismatch e h =
    not (e.state.connection_id == 0)
    && (not (h.connection_id == 0) && not (e.state.connection_id == h.connection_id))

-- A decoded packet of version 1, from `result.parsed = true` to the `switch`.
unfoldable pub handle_packet :
    RudpEngine → RudpHeader → List ℕ → ℕ → ProcessResult → RudpEngine × ProcessResult
handle_packet e h payload now_unix_ms result =
    let parsed = record result { parsed = true } in
    let received = record e { state = record (e.state) { last_recv_unix_ms = now_unix_ms } } in
    if is_mismatch e h
    then fall_back received parsed connection_id_mismatch
    else handle_type (admitted e h now_unix_ms) h payload now_unix_ms parsed

-- What `decode_packet` found, and the test of the version.
unfoldable pub handle_decoded :
    RudpEngine → Option (RudpHeader × List ℕ) → ℕ → ProcessResult → RudpEngine × ProcessResult
handle_decoded e none now_unix_ms result = fall_back e result invalid_packet
handle_decoded e (some (h, payload)) now_unix_ms result =
    if not (h.version == 1)
    then fall_back e result invalid_packet
    else handle_packet e h payload now_unix_ms result

unfoldable pub process_datagram : RudpEngine → List ℕ → ℕ → RudpEngine × ProcessResult
process_datagram e datagram now_unix_ms =
    if not (looks_like_rudp datagram)
    then (e, default_result)
    else handle_decoded e (decode_packet datagram) now_unix_ms
        (record default_result { consumed = true })
