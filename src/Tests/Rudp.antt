-- ===== src/Tests/Rudp.antt =====
-- The RUDP layer at concrete inputs.
use knights.Base.{
  ℕ, ◌+◌, ◌≡◌, ◌⊎◌, refl, false, not, ◌&&◌, some, List, [], ◌∷◌, arith, keep, length, ltb, bit_or,
  elem, Distinct, All, map, take,
}
use knights.Base.Bits.{u8}
use knights.Rudp.AckWindow
use knights.Rudp.AckWindow.{AckWindow, observe, observe_all}
use knights.Rudp.AckWindow.Delivery.{accepted-observe_all}
use knights.Rudp.Retransmission
use knights.Rudp.Retransmission.{RetransmissionQueue, PendingPacket, mark_acked, collect_timeouts}
use knights.Rudp.Retransmission.Acked.{Inv, outstanding, reset-Inv, push-Inv, mark_acked_lem}
use knights.Rudp.Retransmission.Timeouts.{is_due, sent_packet, identity, collect_timeouts_lem}
use knights.Rudp.Packet.{
  RudpHeader, default_header, encode_packet, decode_packet, looks_like_rudp, flag_retransmit,
}
use knights.Rudp.Packet.RoundTrip.{InRange, decode_packet-encode_packet}
use knights.Rudp.Reliability.{still_needed, mark_acked-observe_all}
use knights.Rudp.Engine.{RudpEngine, default_config, default_state, established}
use knights.Rudp.Engine.Datagram.{process_datagram}
use knights.Rudp.Engine.Send.{enqueue, retransmitted}
use knights.Rudp.Engine.Run.{Call, receives, queues, polls, greets, after, delivered}
use knights.Rudp.Engine.Delivery.{delivered-Distinct}
use knights.Rudp.Engine.Queue.{IsBounded, after-IsBounded}
use knights.Rudp.Engine.Data.{IsData, answering, process_datagram_answer}
use knights.Rudp.Engine.Wire.{FitsWire, data_packet, decode_packet-retransmitted}

-- A data packet of connection 7 with number 5, an ACK of packet 3 and two bytes.
abbrev data_header : RudpHeader
data_header = record default_header {
  connection_id = 7;
  packet_number = 5;
  ack_largest = 3;
  timestamp_ms = 40;
}

abbrev two_bytes : List ℕ
two_bytes = 170 ∷ 187 ∷ []

abbrev data_datagram : List ℕ
data_datagram = encode_packet data_header two_bytes

data_header-InRange : InRange data_header
data_header-InRange = record {
  magic = omega arith;
  version = omega arith;
  packet_type = omega arith;
  connection_id = omega arith;
  packet_number = omega arith;
  ack_largest = omega arith;
  ack_mask = omega arith;
  ack_delay_ms = omega arith;
  channel = omega arith;
  flags = omega arith;
  timestamp_ms = omega arith;
  payload_length = omega arith;
}

-- The same datagram arrives twice, after a payload was queued.
abbrev engine_calls : List Call
engine_calls =
    polls 300
    ∷ receives data_datagram 60
    ∷ receives data_datagram 50
    ∷ queues two_bytes 0 20
    ∷ greets 7 10
    ∷ []

delivered-Distinct_example : Distinct (delivered default_config engine_calls)
delivered-Distinct_example = delivered-Distinct default_config engine_calls

after-IsBounded_example :
    IsBounded default_config (after default_config engine_calls).retransmission_queue
after-IsBounded_example = after-IsBounded default_config engine_calls (omega arith)

accepted-observe_all_example :
    let w = observe_all (5 ∷ 3 ∷ []) in
    (observe w 4).1.accepted ≡ (not (elem 4 (5 ∷ 3 ∷ [])) && ltb w.largest (4 + 64))
accepted-observe_all_example = accepted-observe_all 4 5 (3 ∷ [])

-- Packets 3 and 4, sent at 100 and 200.
abbrev two_pending : RetransmissionQueue
two_pending =
    Retransmission.push (Retransmission.push Retransmission.reset 3 100 two_bytes) 4 200 two_bytes

two_pending-Inv : Inv two_pending
unfolding Retransmission.push Retransmission.reset
two_pending-Inv =
    push-Inv (Retransmission.push Retransmission.reset 3 100 two_bytes) 4 200 two_bytes
      (push-Inv Retransmission.reset 3 100 two_bytes reset-Inv (omega arith)) (omega arith)

mark_acked_lem_example :
    ((mark_acked two_pending 3 0).pending ≡ keep (outstanding 3 0) two_pending.pending)
    × Inv (mark_acked two_pending 3 0)
mark_acked_lem_example = mark_acked_lem two_pending 3 0 two_pending-Inv

mark_acked-observe_all_example :
    let w = observe_all (4 ∷ 2 ∷ []) in
    (mark_acked two_pending w.largest w.mask).pending
    ≡ keep (still_needed w.largest (4 ∷ 2 ∷ [])) two_pending.pending
mark_acked-observe_all_example = mark_acked-observe_all two_pending 4 (2 ∷ []) two_pending-Inv

collect_timeouts_lem_example :
    let (due, q') = collect_timeouts two_pending 320 200 16 in
    (due ≡ take 16 (map (sent_packet 320) (keep (is_due 320 200) two_pending.pending)))
    × (map identity q'.pending ≡ map identity two_pending.pending)
    × (q'.inflight_bytes ≡ two_pending.inflight_bytes)
    × ((length due ≡ 16) ⊎ All (λ e. is_due 320 200 e ≡ false) q'.pending)
collect_timeouts_lem_example =
    collect_timeouts_lem two_pending 320 200 16 (omega arith) (omega arith) (omega arith)

decode_packet-encode_packet_example :
    decode_packet (encode_packet data_header two_bytes)
    ≡ some (record data_header { payload_length = 2 }, two_bytes)
decode_packet-encode_packet_example =
    decode_packet-encode_packet data_header two_bytes data_header-InRange (omega arith)

abbrev sent_data : PendingPacket
sent_data = record {
  packet_number = 5;
  first_sent_unix_ms = 40;
  last_sent_unix_ms = 40;
  retransmit_count = 0;
  encoded_frame = encode_packet data_header two_bytes;
}

decode_packet-retransmitted_example :
    decode_packet (retransmitted sent_data)
    ≡ some (
      record data_header { payload_length = 2; flags = u8 (bit_or 0 flag_retransmit) },
      two_bytes,
    )
decode_packet-retransmitted_example =
    decode_packet-retransmitted sent_data data_header two_bytes data_header-InRange (omega arith)
      refl

-- An engine that has greeted connection 7 and heard its answer.
abbrev peer_engine : RudpEngine
peer_engine = record {
  config = default_config;
  state = record default_state { connection_id = 7; lifecycle = established };
  ack_window = AckWindow.reset;
  retransmission_queue = Retransmission.reset;
}

fresh_window : peer_engine.ack_window ≡ observe_all []
unfolding observe_all
fresh_window = refl

-- What `peer_engine` answers when it queues two bytes.
abbrev queued_bytes : RudpEngine × List ℕ
queued_bytes = enqueue peer_engine two_bytes 1 90

data_datagram-IsData :
    IsData peer_engine data_datagram (record data_header { payload_length = 2 }) two_bytes
unfolding looks_like_rudp encode_packet
data_datagram-IsData = record {
  magic = refl;
  decoded = decode_packet-encode_packet data_header two_bytes data_header-InRange (omega arith);
  version = refl;
  kind = refl;
  own = refl;
  open_peer = refl;
}

answering-FitsWire : FitsWire (answering peer_engine.state data_header [])
unfolding observe_all observe AckWindow.reset
answering-FitsWire = record {
  connection_id = omega arith;
  next_packet_number = omega arith;
  ack_largest = omega arith;
  ack_mask = omega arith;
}

process_datagram_answer_example :
    let (e', r) = process_datagram peer_engine data_datagram 1000 in
    let h : RudpHeader = record data_header { payload_length = 2 } in
    let ack = data_packet default_config (answering peer_engine.state h []) 1 0 0 1000 0 in
    (r.inner_frames ≡ two_bytes ∷ [])
    × (map decode_packet r.egress_datagrams ≡ some (ack, []) ∷ [])
    × (e'.state.last_ack_emit_unix_ms ≡ 1000)
process_datagram_answer_example =
    process_datagram_answer peer_engine data_datagram (record data_header { payload_length = 2 })
      two_bytes 1000 [] data_datagram-IsData fresh_window answering-FitsWire (omega arith)
