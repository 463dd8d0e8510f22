-- ===== src/Rudp/Engine/Queue.antt =====
-- Flow control: what `queue_reliable_payload` bounds, over every history.
use knights.Base.{
  ℕ, subst, sym, ◌+◌, ◌^◌, ◌≤◌, ◌<◌, ◌≡◌, ◌⊎◌, inl, inr, refl, ◌∙◌, true, not, Option, none, some,
  List, [], ◌∷◌, length, length-keep-le, arith, ◌==◌, Bool-cases,
}
use knights.Base.Bits.{u64, u32}
use knights.Rudp.Retransmission.{reset, RetransmissionQueue, mark_acked, collect_timeouts}
use knights.Rudp.Retransmission.Acked.{
  push_grows, Inv, reset-Inv, push-Inv, mark_acked_lem, total_bytes, total_bytes-keep_any,
  outstanding,
}
use knights.Rudp.Retransmission.Timeouts.{collect_timeouts-Inv}
use knights.Rudp.Packet.{type_data, RudpHeader, decode_packet, looks_like_rudp}
use knights.Rudp.Packet.RoundTrip.{length-encode_packet}
use knights.Rudp.Engine.{
  RudpPeerState, RudpConfig, RudpEngine, ProcessResult, new_engine, make_packet, make_hello,
  make_close, set_fallback,
}
use knights.Rudp.Engine.Datagram.{
  is_mismatch, admitted, process_datagram, handle_decoded, handle_packet, handle_type, handle_hello,
  handle_hello_ack, handle_close, handle_ping, handle_data, deliver, emit_ack, take_sample,
}
use knights.Rudp.Engine.Send.{queue_reliable_payload, enqueue, poll, poll_queue}
use knights.Rudp.Engine.Run.{Call, receives, queues, polls, greets, closes, or_same, step, after}

-- The limits leave room for one more frame in size_t.
abbrev pub IsSane : RudpConfig → Type 0
IsSane c = c.max_inflight_bytes + 34 + c.mtu_payload_bytes + 34 < 2 ^ 64

-- The queue is valid, holds no more packets than configured, and passes the configured bytes by at
-- most the header of the last packet.
pub record IsBounded (c : RudpConfig) (q : RetransmissionQueue) : Type 0 where
  pub valid : Inv q
  pub packets : length q.pending ≤ c.max_inflight_packets
  pub bytes : total_bytes q.pending ≤ c.max_inflight_bytes + 34

mark_acked-IsBounded :
    (c : RudpConfig) (q : RetransmissionQueue) (largest mask : ℕ)
    → IsBounded c q
    → IsBounded c (mark_acked q largest mask)
mark_acked-IsBounded c q largest mask b =
    let (left, valid) = mark_acked_lem q largest mask b.valid in
    record {
      valid = valid;
      packets =
          rw left (omega (arith, length-keep-le (outstanding largest mask) q.pending, b.packets));
      bytes =
          rw left
            (omega (arith, total_bytes-keep_any (outstanding largest mask) q.pending, b.bytes));
    }

-- What a call of the engine may do to the queue and the configuration.
abbrev KeepsQueue : RudpEngine → RudpEngine × ProcessResult → Type 0
KeepsQueue e r = (r.0.retransmission_queue ≡ e.retransmission_queue) × (r.0.config ≡ e.config)

handle_data-KeepsQueue :
    (e : RudpEngine) (h : RudpHeader) (payload : List ℕ) (now : ℕ) (result : ProcessResult)
    → KeepsQueue e (handle_data e h payload now result)
unfolding handle_data deliver emit_ack take_sample set_fallback
handle_data-KeepsQueue e h payload now result = ground arith

handle_type-KeepsQueue :
    (e : RudpEngine) (h : RudpHeader) (payload : List ℕ) (now : ℕ) (result : ProcessResult)
    → KeepsQueue e (handle_type e h payload now result)
unfolding handle_type handle_hello handle_hello_ack handle_close handle_ping set_fallback
handle_type-KeepsQueue e h payload now result =
    ground (arith, handle_data-KeepsQueue e h payload now result)

-- A datagram leaves the queue alone or acknowledges packets in it.
abbrev AcksOnly : RudpEngine → RudpEngine × ProcessResult → Type 0
AcksOnly e r =
    (r.0.config ≡ e.config)
    × ((r.0.retransmission_queue ≡ e.retransmission_queue)
        ⊎ ((h : RudpHeader) × (r.0.retransmission_queue
              ≡ mark_acked e.retransmission_queue h.ack_largest h.ack_mask)))

handle_packet-AcksOnly :
    (e : RudpEngine) (h : RudpHeader) (payload : List ℕ) (now : ℕ) (result : ProcessResult)
    → AcksOnly e (handle_packet e h payload now result)
unfolding handle_packet set_fallback
handle_packet-AcksOnly e h payload now result = elim (Bool-cases (is_mismatch e h)) [
  | inl other ↦ rw (other, handle_packet) (refl, inl refl)
  | inr own ↦
      let kept =
        handle_type-KeepsQueue (admitted e h now) h payload now (record result { parsed = true }) in
      rw (own, handle_packet) (kept.1, inr (h, kept.0))
]

handle_decoded-AcksOnly :
    (e : RudpEngine) (o : Option (RudpHeader × List ℕ)) (now : ℕ) (result : ProcessResult)
    → AcksOnly e (handle_decoded e o now result)
unfolding handle_decoded set_fallback
handle_decoded-AcksOnly e none now result = (refl, inl refl)
handle_decoded-AcksOnly e (some (h, payload)) now result =
    elim (Bool-cases (not (h.version == 1))) [
      | inl other ↦ rw (other, handle_decoded) (refl, inl refl)
      | inr own ↦ rw (own, handle_decoded) (handle_packet-AcksOnly e h payload now result)
    ]

process_datagram-AcksOnly :
    (e : RudpEngine) (d : List ℕ) (now : ℕ) → AcksOnly e (process_datagram e d now)
unfolding process_datagram
process_datagram-AcksOnly e d now = elim (Bool-cases (not (looks_like_rudp d))) [
  | inl other ↦ rw (other, process_datagram) (refl, inl refl)
  | inr own ↦ rw (own, process_datagram) (handle_decoded-AcksOnly e (decode_packet d) now _)
]

length-make_packet :
    (c : RudpConfig) (st : RudpPeerState) (kind flags channel n now : ℕ) (payload : List ℕ)
    → length (make_packet c st kind flags channel n now payload) ≡ 34 + length payload
unfolding make_packet
length-make_packet c st kind flags channel n now payload = length-encode_packet _ payload

-- A payload is counted without its header, so the bytes may pass the limit by 34.
enqueue-IsBounded :
    (e : RudpEngine) (frame : List ℕ) (channel now : ℕ)
    → IsSane e.config
    → length frame ≤ e.config.mtu_payload_bytes
    → length e.retransmission_queue.pending < e.config.max_inflight_packets
    → u64 (e.retransmission_queue.inflight_bytes + length frame) ≤ e.config.max_inflight_bytes
    → IsBounded e.config e.retransmission_queue
    → IsBounded e.config (enqueue e frame channel now).0.retransmission_queue
unfolding enqueue
enqueue-IsBounded e frame channel now sane mtu room space b =
    let st = record (e.state) { next_packet_number = u32 (e.state.next_packet_number + 1) } in
    let n = e.state.next_packet_number in
    let packet = make_packet e.config st type_data 0 channel n now frame in
    let size = length-make_packet e.config st type_data 0 channel n now frame in
    let grows = push_grows e.retransmission_queue n now packet in
    let counted = b.valid.counted in
    record {
      valid = push-Inv e.retransmission_queue n now packet b.valid (omega (arith, b.bytes));
      packets = omega arith;
      bytes = omega (arith, b.bytes);
    }

-- A payload is queued exactly if the peer is established and the payload is not empty, within the
-- MTU, and within what the limits leave.
queue_cases :
    (e : RudpEngine) (frame : List ℕ) (channel now : ℕ)
    → (queue_reliable_payload e frame channel now ≡ none)
      ⊎ ((queue_reliable_payload e frame channel now ≡ some (enqueue e frame channel now))
          × (length frame ≤ e.config.mtu_payload_bytes)
          × (length e.retransmission_queue.pending < e.config.max_inflight_packets)
          × (u64 (e.retransmission_queue.inflight_bytes + length frame)
              ≤ e.config.max_inflight_bytes))
unfolding queue_reliable_payload
queue_cases e frame channel now = ground arith

config-enqueue :
    (e : RudpEngine) (frame : List ℕ) (channel now : ℕ)
    → (enqueue e frame channel now).0.config ≡ e.config
unfolding enqueue
config-enqueue e frame channel now = refl

queue-IsBounded :
    (e : RudpEngine) (frame : List ℕ) (channel now : ℕ)
    → IsSane e.config
    → IsBounded e.config e.retransmission_queue
    → let e' = or_same e (queue_reliable_payload e frame channel now) in
      IsBounded e.config e'.retransmission_queue × (e'.config ≡ e.config)
queue-IsBounded e frame channel now sane b = elim (queue_cases e frame channel now) [
  | inl refused ↦ rw refused (b, refl)
  | inr (done, mtu, room, space) ↦ rw done (
    enqueue-IsBounded e frame channel now sane mtu room space b,
    config-enqueue e frame channel now,
  )
]

poll_cases :
    (e : RudpEngine) (now : ℕ)
    → ((poll e now).0.config ≡ e.config)
      × (((poll e now).0.retransmission_queue ≡ e.retransmission_queue)
          ⊎ ((poll e now).0.retransmission_queue
              ≡ (collect_timeouts e.retransmission_queue now e.state.rtt.rto_ms 16).1))
unfolding poll poll_queue set_fallback
poll_cases e now = ground arith

poll-IsBounded :
    (e : RudpEngine) (now : ℕ)
    → IsBounded e.config e.retransmission_queue
    → IsBounded e.config (poll e now).0.retransmission_queue × ((poll e now).0.config ≡ e.config)
poll-IsBounded e now b =
    let (config, moved) = poll_cases e now in
    let (valid, same, bytes) =
      collect_timeouts-Inv e.retransmission_queue now e.state.rtt.rto_ms 16 b.valid in
    (
      elim moved [
        | inl kept ↦ rw kept b
        | inr polled ↦ rw polled (record {
          valid = valid;
          packets = omega (arith, b.packets);
          bytes = omega (arith, b.bytes);
        })
      ],
      config,
    )

step-IsBounded :
    (e : RudpEngine) (c : Call)
    → IsSane e.config
    → IsBounded e.config e.retransmission_queue
    → IsBounded e.config (step e c).retransmission_queue × ((step e c).config ≡ e.config)
unfolding step make_hello make_close
step-IsBounded e (receives d now) sane b =
    let (config, moved) = process_datagram-AcksOnly e d now in
    (
      elim moved [
        | inl same ↦ rw same b
        | inr (h, acked) ↦
            rw acked
              (mark_acked-IsBounded e.config e.retransmission_queue h.ack_largest h.ack_mask b)
      ],
      config,
    )
step-IsBounded e (queues frame channel now) sane b = queue-IsBounded e frame channel now sane b
step-IsBounded e (polls now) sane b = poll-IsBounded e now b
step-IsBounded e (greets id now) sane b = (b, refl)
step-IsBounded e (closes now) sane b = (b, refl)

-- The bounds of the configuration that the engine was made with.
abbrev HasBounds : RudpConfig → RudpEngine → Type 0
HasBounds config e = IsBounded config e.retransmission_queue × (e.config ≡ config)

step-HasBounds :
    (config : RudpConfig) (e : RudpEngine) (c : Call)
    → IsSane config
    → HasBounds config e
    → HasBounds config (step e c)
step-HasBounds config e c sane (b, same) =
    let (bounded, config') =
      step-IsBounded e c (subst IsSane (sym same) sane)
        (subst (λ k. IsBounded k e.retransmission_queue) (sym same) b) in
    (subst (λ k. IsBounded k (step e c).retransmission_queue) same bounded, config' ∙ same)

after-HasBounds :
    (config : RudpConfig) (cs : List Call) → IsSane config → HasBounds config (after config cs)
unfolding after new_engine
after-HasBounds config [] sane = (
  record {
    valid = reset-Inv;
    packets = unfold reset in omega arith;
    bytes = unfold reset in omega arith;
  },
  refl,
)
after-HasBounds config (c ∷ cs) sane =
    step-HasBounds config (after config cs) c sane (after-HasBounds config cs sane)

-- If the configured bytes and two frames fit 64 bits, then in every history the queue is valid, holds
-- at most the configured number of packets, and at most 34 bytes more than configured.
pub after-IsBounded :
    (config : RudpConfig) (cs : List Call)
    → IsSane config
    → IsBounded config (after config cs).retransmission_queue
after-IsBounded config cs sane = (after-HasBounds config cs sane).0
