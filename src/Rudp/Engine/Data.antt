-- ===== src/Rudp/Engine/Data.antt =====
-- How an established engine answers a data datagram.
use knights.Base.{
  ℕ, ◌≡◌, true, false, not, ◌&&◌, some, List, [], ◌∷◌, if◌then◌else◌, is_empty, arith, refl, Bool,
  ◌==◌, leb, ltb, elem, bit_and, ◌+◌, ◌^◌, ◌%◌, ◌<◌, ◌∙◌, ap, ap₂, map,
}
use knights.Rudp.AckWindow
use knights.Rudp.AckWindow.{observe_all}
use knights.Rudp.AckWindow.Delivery.{accepted-observe_all, observe_classifies}
use knights.Rudp.Engine.Wire.{FitsWire, data_packet, decode_packet-make_packet}
use knights.Rudp.Packet.{RudpHeader, type_data, decode_packet, looks_like_rudp}
use knights.Rudp.Engine.{
  RudpEngine, RudpPeerState, make_packet, ProcessResult, default_result, established,
}
use knights.Rudp.Engine.Datagram.{
  admitted, is_mismatch, process_datagram, handle_decoded, handle_packet, handle_type, handle_data,
  deliver, emit_ack, take_sample,
}

-- A datagram that reaches the window: well formed, of version 1 and of this connection, and of data.
pub record IsData (e : RudpEngine) (d : List ℕ) (h : RudpHeader) (payload : List ℕ) : Type 0 where
  pub magic : looks_like_rudp d ≡ true
  pub decoded : decode_packet d ≡ some (h, payload)
  pub version : h.version ≡ 1
  pub kind : h.packet_type ≡ type_data
  pub own : is_mismatch e h ≡ false
  pub open_peer : e.state.lifecycle ≡ established

-- The only way through `process_datagram` for such a datagram.
to_handle_data :
    (e : RudpEngine) (d : List ℕ) (h : RudpHeader) (payload : List ℕ) (now : ℕ)
    → IsData e d h payload
    → process_datagram e d now
      ≡ handle_data
          (admitted e h now)
          h
          payload
          now
          (record default_result { consumed = true; parsed = true })
unfolding process_datagram handle_decoded handle_packet handle_type
to_handle_data e d h payload now i = ground arith

-- The number has not arrived before and lies less than 64 below the largest number so far.
abbrev pub is_new : ℕ → List ℕ → Bool
is_new n [] = true
is_new n (m ∷ seen) = not (elem n (m ∷ seen)) && ltb (observe_all (m ∷ seen)).largest (n + 64)

accepted-is_new :
    (n : ℕ) (seen : List ℕ) → (AckWindow.observe (observe_all seen) n).1.accepted ≡ is_new n seen
unfolding observe_all AckWindow.reset AckWindow.observe
accepted-is_new n [] = refl
accepted-is_new n (m ∷ seen) = accepted-observe_all n m seen

-- The state of the engine when it answers: it has adopted the id of the connection, if it had none, and the ACK
-- fields tell of the packet.
abbrev pub answering : RudpPeerState → RudpHeader → List ℕ → RudpPeerState
answering s h seen = record s {
  connection_id = if s.connection_id == 0 then h.connection_id else s.connection_id;
  ack_largest = (observe_all (h.packet_number ∷ seen)).largest;
  ack_mask = (observe_all (h.packet_number ∷ seen)).mask;
}

-- The packet carries more than an ACK, and the delay since the last ACK has passed.
abbrev pub wants_ack : RudpEngine → RudpHeader → ℕ → Bool
wants_ack e h now =
    bit_and h.flags 1 == 0
    && leb ((e.state.last_ack_emit_unix_ms + e.config.ack_delay_ms) % 2 ^ 64) now

-- The answer of `handle_data` to an established peer.
handle_data_answer :
    (e : RudpEngine) (h : RudpHeader) (payload : List ℕ) (now : ℕ) (result : ProcessResult)
    → e.state.lifecycle ≡ established
    → result.inner_frames ≡ []
    → result.egress_datagrams ≡ []
    → let (e', r) = handle_data e h payload now result in
      let (w, ack) = AckWindow.observe e.ack_window h.packet_number in
      let s = record (e.state) { ack_largest = ack.ack_largest; ack_mask = ack.ack_mask } in
      (r.inner_frames ≡ (if ack.accepted && not (is_empty payload) then payload ∷ [] else []))
      × (r.egress_datagrams ≡ (
          if ack.accepted && wants_ack e h now
          then make_packet e.config s type_data 1 h.channel 0 now [] ∷ []
          else []))
      × (e'.state.last_ack_emit_unix_ms
          ≡ (if ack.accepted && wants_ack e h now then now else e.state.last_ack_emit_unix_ms))
unfolding handle_data deliver emit_ack take_sample
handle_data_answer e h payload now result open_peer frames egress = ground arith

map_if :
    {A B : Type 0} (f : A → B) (b : Bool) (x : A)
    → map f (if b then x ∷ [] else []) ≡ (if b then f x ∷ [] else [])
map_if f true x = refl
map_if f false x = refl

-- The ACK that the engine sends, as its peer reads it.
decoded_answer :
    (e : RudpEngine) (h : RudpHeader) (now : ℕ) (seen : List ℕ)
    → e.ack_window ≡ observe_all seen
    → FitsWire (answering e.state h seen)
    → h.channel < 2 ^ 8
    → let a = admitted e h now in
      let ack = (AckWindow.observe e.ack_window h.packet_number).1 in
      let s = record (a.state) { ack_largest = ack.ack_largest; ack_mask = ack.ack_mask } in
      decode_packet (make_packet e.config s type_data 1 h.channel 0 now [])
      ≡ some (data_packet e.config (answering e.state h seen) 1 h.channel 0 now 0, [])
unfolding observe_all
decoded_answer e h now seen window f channel =
    let n = h.packet_number in
    let a = admitted e h now in
    let told = observe_classifies (observe_all seen) n in
    let largest = ap (λ w. (AckWindow.observe w n).1.ack_largest) window ∙ told.3 in
    let mask = ap (λ w. (AckWindow.observe w n).1.ack_mask) window ∙ told.4 in
    let told_state : RudpPeerState = record (a.state) {
      ack_largest = (observe_all (n ∷ seen)).largest;
      ack_mask = (observe_all (n ∷ seen)).mask;
    } in
    let fits : FitsWire told_state = record {
      connection_id = f.connection_id;
      next_packet_number = f.next_packet_number;
      ack_largest = f.ack_largest;
      ack_mask = f.ack_mask;
    } in
    ap₂
      (λ l m. decode_packet (
        make_packet e.config (record (a.state) { ack_largest = l; ack_mask = m }) type_data 1
          h.channel 0 now []))
      largest mask
    ∙ decode_packet-make_packet e.config told_state 1 h.channel 0 now [] fits (omega arith) channel
        (omega arith) (omega arith)

-- What the engine hands up.
pub process_datagram_frames :
    (e : RudpEngine) (d : List ℕ) (h : RudpHeader) (payload : List ℕ) (now : ℕ) (seen : List ℕ)
    → IsData e d h payload
    → e.ack_window ≡ observe_all seen
    → (process_datagram e d now).1.inner_frames
      ≡ (if is_new h.packet_number seen && not (is_empty payload) then payload ∷ [] else [])
process_datagram_frames e d h payload now seen i window =
    let answer =
      handle_data_answer (admitted e h now) h payload now
        (record default_result { consumed = true; parsed = true }) i.open_peer refl refl in
    let accepted =
      ap (λ w. (AckWindow.observe w h.packet_number).1.accepted) window
      ∙ accepted-is_new h.packet_number seen in
    rw (to_handle_data e d h payload now i)
      (answer.0 ∙ ap (λ b. if b && not (is_empty payload) then payload ∷ [] else []) accepted)

-- An established engine whose window has seen the packets `seen`, in any order of arrival, gets a data datagram
-- of its connection. It hands up exactly the payload if the packet is new and the payload is not empty, else
-- nothing. If the packet is new and no bare ACK, and the delay since the last ACK has passed, it sends exactly
-- one datagram, which its peer decodes as an ACK: of type data with the flag 1 alone, number 0 and no payload,
-- whose ACK fields tell of `seen` and of this packet; else it sends none, so that a duplicate is never
-- acknowledged. The fields that go into the ACK fit their C++ types.
pub process_datagram_answer :
    (e : RudpEngine) (d : List ℕ) (h : RudpHeader) (payload : List ℕ) (now : ℕ) (seen : List ℕ)
    → IsData e d h payload
    → e.ack_window ≡ observe_all seen
    → FitsWire (answering e.state h seen)
    → h.channel < 2 ^ 8
    → let (e', r) = process_datagram e d now in
      let new = is_new h.packet_number seen in
      let ack = data_packet e.config (answering e.state h seen) 1 h.channel 0 now 0 in
      (r.inner_frames ≡ (if new && not (is_empty payload) then payload ∷ [] else []))
      × (map decode_packet r.egress_datagrams
          ≡ (if new && wants_ack e h now then some (ack, []) ∷ [] else []))
      × (e'.state.last_ack_emit_unix_ms
          ≡ (if new && wants_ack e h now then now else e.state.last_ack_emit_unix_ms))
process_datagram_answer e d h payload now seen i window f channel =
    let a = admitted e h now in
    let observed = (AckWindow.observe e.ack_window h.packet_number).1 in
    let s = record (a.state) { ack_largest = observed.ack_largest; ack_mask = observed.ack_mask } in
    let sent = make_packet e.config s type_data 1 h.channel 0 now [] in
    let answer =
      handle_data_answer a h payload now (record default_result { consumed = true; parsed = true })
        i.open_peer refl refl in
    let accepted : observed.accepted ≡ is_new h.packet_number seen =
      ap (λ w. (AckWindow.observe w h.packet_number).1.accepted) window
      ∙ accepted-is_new h.packet_number seen in
    let frames = process_datagram_frames e d h payload now seen i window in
    rw (to_handle_data e d h payload now i) (
      rw (to_handle_data e d h payload now i) at frames,
      ap (map decode_packet) answer.1
          ∙ map_if decode_packet (observed.accepted && wants_ack e h now) sent
          ∙ ap₂ (λ b m. if b && wants_ack e h now then m ∷ [] else []) accepted
              (decoded_answer e h now seen window f channel),
      answer.2
          ∙ ap (λ b. if b && wants_ack e h now then now else e.state.last_ack_emit_unix_ms)
              accepted,
    )
