-- ===== src/Rudp/Retransmission.antt =====
-- core/src/net/rudp/retransmission_queue.cpp and its header: the packets that wait for an ACK.
-- Sizes and times are uint64_t, packet numbers and counts uint32_t; each sum wraps as in C++.
pub mod Acked
pub mod Timeouts
use knights.Base.{
  ℕ, ◌+◌, ◌-◌, ◌^◌, ◌≡◌, Bool, true, false, not, ◌||◌, List, [], ◌∷◌, ◌++◌, map, ltb, leb, ◌==◌,
  if◌then◌else◌, length, keep, is_empty, bit_and, zero, suc,
}
use knights.Base.Bits.{shl, u32, u64}

pub record PendingPacket : Type 0 where
  pub packet_number : ℕ
  pub first_sent_unix_ms : ℕ
  pub last_sent_unix_ms : ℕ
  pub retransmit_count : ℕ
  pub encoded_frame : List ℕ

pub record Entry : Type 0 where
  pub packet : PendingPacket
  pub acked : Bool

pub record RetransmissionQueue : Type 0 where
  pub pending : List Entry
  pub inflight_bytes : ℕ

unfoldable pub reset : RetransmissionQueue
reset = record { pending = []; inflight_bytes = 0 }

abbrev pub inflight_packets : RetransmissionQueue → ℕ
inflight_packets q = length q.pending

abbrev pub frame_size : Entry → ℕ
frame_size e = length e.packet.encoded_frame

-- The entry that `push` builds.
abbrev pub new_entry : ℕ → ℕ → List ℕ → Entry
new_entry packet_number sent_unix_ms encoded_frame = record {
  packet = record {
    packet_number = packet_number;
    first_sent_unix_ms = sent_unix_ms;
    last_sent_unix_ms = sent_unix_ms;
    retransmit_count = 0;
    encoded_frame = encoded_frame;
  };
  acked = false;
}

unfoldable pub push : RetransmissionQueue → ℕ → ℕ → List ℕ → RetransmissionQueue
push q packet_number sent_unix_ms encoded_frame = if is_empty encoded_frame then q else record {
  pending = q.pending ++ new_entry packet_number sent_unix_ms encoded_frame ∷ [];
  inflight_bytes = u64 (q.inflight_bytes + length encoded_frame);
}

unfoldable pub is_acked_by_mask : ℕ → ℕ → ℕ → Bool
is_acked_by_mask packet_number ack_largest ack_mask =
    let distance = ack_largest - packet_number in
    if ltb ack_largest packet_number
    then false
    else (if packet_number == ack_largest
        then true
        else (if leb 64 distance then true else not (bit_and ack_mask (shl 1 distance) == 0)))

-- The `while` loop of `erase_acked`, which drops acked entries at the front.
pop_acked : List Entry → ℕ → RetransmissionQueue
pop_acked [] bytes = record { pending = []; inflight_bytes = bytes }
pop_acked (e ∷ es) bytes =
    let rest = pop_acked es (if leb (frame_size e) bytes then bytes - frame_size e else 0) in
    if e.acked then rest else record { pending = e ∷ es; inflight_bytes = bytes }

-- The last loop of `erase_acked`, which adds the sizes up again.
add_sizes : List Entry → ℕ → ℕ
add_sizes [] bytes = bytes
add_sizes (e ∷ es) bytes = add_sizes es (u64 (bytes + frame_size e))

-- `erase_acked` behind its first loop.
sweep_acked : RetransmissionQueue → RetransmissionQueue
unfolding add_sizes
sweep_acked q =
    let kept = keep (λ e. not e.acked) q.pending in
    if is_empty q.pending
    then q
    else (if length kept == length q.pending
        then q
        else record { pending = kept; inflight_bytes = add_sizes kept 0 })

erase_acked : RetransmissionQueue → RetransmissionQueue
unfolding pop_acked sweep_acked
erase_acked q = sweep_acked (pop_acked q.pending q.inflight_bytes)

-- The body of the loop of `mark_acked`.
mark : ℕ → ℕ → Entry → Entry
mark ack_largest ack_mask e =
    if e.acked
    then e
    else (if is_acked_by_mask e.packet.packet_number ack_largest ack_mask
        then record e { acked = true }
        else e)

unfoldable pub mark_acked : RetransmissionQueue → ℕ → ℕ → RetransmissionQueue
unfolding erase_acked mark
mark_acked q ack_largest ack_mask =
    erase_acked (record q { pending = map (mark ack_largest ack_mask) q.pending })

-- `now - last_sent` in uint64_t.
abbrev pub elapsed_since : ℕ → ℕ → ℕ
elapsed_since now last_sent = u64 (now + 2 ^ 64 - last_sent)

-- An entry as it is sent once more.
abbrev resend : ℕ → Entry → Entry
resend now e = record e {
  packet = record (e.packet) {
    last_sent_unix_ms = now;
    retransmit_count = u32 (e.packet.retransmit_count + 1);
  };
}

-- An entry that the loop passes over, or sends once more, in front of what it does to the rest.
abbrev put_back : Entry → List PendingPacket × List Entry → List PendingPacket × List Entry
put_back e (due, rest) = (due, e ∷ rest)

abbrev put_due : Entry → List PendingPacket × List Entry → List PendingPacket × List Entry
put_due e (due, rest) = (e.packet ∷ due, e ∷ rest)

-- The loop of `collect_timeouts`, with the size that `due` has reached: what it adds to `due`, and
-- the entries afterwards.
collect : ℕ → ℕ → ℕ → ℕ → List Entry → List PendingPacket × List Entry
collect now rto_ms max_batch due_size [] = ([], [])
collect now rto_ms max_batch due_size (e ∷ es) =
    let skip = put_back e (collect now rto_ms max_batch due_size es) in
    let sent = resend now e in
    let more = put_due sent (collect now rto_ms max_batch (due_size + 1) es) in
    if e.acked
    then skip
    else (if ltb (elapsed_since now e.packet.last_sent_unix_ms) rto_ms
        then skip
        else (if leb max_batch (due_size + 1) then (sent.packet ∷ [], sent ∷ es) else more))

unfoldable pub collect_timeouts :
    RetransmissionQueue → ℕ → ℕ → ℕ → List PendingPacket × RetransmissionQueue
unfolding collect
collect_timeouts q now rto_ms max_batch =
    if max_batch == 0 || rto_ms == 0
    then ([], q)
    else (let (due, rest) = collect now rto_ms max_batch 0 q.pending in
        (due, record q { pending = rest }))
