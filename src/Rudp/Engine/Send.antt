-- ===== src/Rudp/Engine/Send.antt =====
-- `queue_reliable_payload` and `poll` of core/src/net/rudp/rudp_engine.cpp.
use knights.Base.{
  ℕ, ◌+◌, not, ◌&&◌, Option, none, some, List, map, ltb, leb, if◌then◌else◌, is_empty, length, set,
  bit_or,
}
use knights.Base.Bits.{u8, u32, u64}
use knights.Protocol.Bytes.{byte_at}
use knights.Rudp.Retransmission.{PendingPacket, inflight_packets}
use knights.Rudp.Retransmission
use knights.Rudp.Packet.{type_data, flag_retransmit, rudp_header_bytes}
use knights.Rudp.Engine.{
  RudpEngine, ProcessResult, default_result, handshake_timeout, idle_timeout, make_packet,
  is_established, is_hello_sent,
}
use knights.Rudp.Engine.Datagram.{fall_back}

-- What `queue_reliable_payload` does when it has passed every test.
unfoldable pub enqueue : RudpEngine → List ℕ → ℕ → ℕ → RudpEngine × List ℕ
enqueue e inner_frame channel now_unix_ms =
    let packet_number = e.state.next_packet_number in
    let numbered = record (e.state) { next_packet_number = u32 (packet_number + 1) } in
    let frame =
      make_packet e.config numbered type_data 0 channel packet_number now_unix_ms inner_frame in
    let queue = Retransmission.push e.retransmission_queue packet_number now_unix_ms frame in
    (
      record e {
        state = record numbered { last_send_unix_ms = now_unix_ms };
        retransmission_queue = queue;
      },
      frame,
    )

-- `none` is the result `false`, with the engine and `out_datagram` as they were.
unfoldable pub queue_reliable_payload : RudpEngine → List ℕ → ℕ → ℕ → Option (RudpEngine × List ℕ)
queue_reliable_payload e inner_frame channel now_unix_ms =
    let queue = e.retransmission_queue in
    if not (is_established e.state.lifecycle)
    then none
    else (if is_empty inner_frame
        then none
        else (if ltb e.config.mtu_payload_bytes (length inner_frame)
            then none
            else (if leb e.config.max_inflight_packets (inflight_packets queue)
                then none
                else (if ltb e.config.max_inflight_bytes
                      (u64 (queue.inflight_bytes + length inner_frame))
                    then none
                    else some (enqueue e inner_frame channel now_unix_ms)))))

-- The copy of a frame that `poll` sends, with the retransmit flag in its header.
unfoldable pub retransmitted : PendingPacket → List ℕ
retransmitted packet =
    let frame = packet.encoded_frame in
    if leb rudp_header_bytes (length frame)
    then set frame 27 (u8 (bit_or (byte_at frame 27) flag_retransmit))
    else frame

-- `poll` when no timeout of the connection has passed.
unfoldable pub poll_queue : RudpEngine → ℕ → RudpEngine × ProcessResult
poll_queue e now_unix_ms =
    let (due, queue) =
      Retransmission.collect_timeouts e.retransmission_queue now_unix_ms e.state.rtt.rto_ms 16 in
    let e' = record e { retransmission_queue = queue } in
    if is_empty due then (e', default_result) else (
      e',
      record default_result {
        retransmit_count = length due;
        egress_datagrams = map retransmitted due;
      },
    )

unfoldable pub poll : RudpEngine → ℕ → RudpEngine × ProcessResult
poll e now_unix_ms =
    if is_hello_sent e.state.lifecycle
      && (ltb 0 e.state.last_send_unix_ms
          && ltb (u64 (e.state.last_send_unix_ms + e.config.handshake_timeout_ms)) now_unix_ms)
    then fall_back e default_result handshake_timeout
    else (if is_established e.state.lifecycle
          && (ltb 0 e.state.last_recv_unix_ms
              && ltb (u64 (e.state.last_recv_unix_ms + e.config.idle_timeout_ms)) now_unix_ms)
        then fall_back e default_result idle_timeout
        else poll_queue e now_unix_ms)
