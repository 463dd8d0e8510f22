-- ===== src/Rudp/Engine/Delivery.antt =====
-- What the engine hands up, over every history.
use knights.Base.{
  ℕ, ◌≡◌, ◌⊎◌, inl, inr, refl, true, false, Option, none, some, List, [], ◌∷◌, ◌++◌, elem, Distinct,
  arith,
}
use knights.Rudp.AckWindow
use knights.Rudp.AckWindow.{AckWindow, observe_all}
use knights.Rudp.AckWindow.Delivery.{accepted-new}
use knights.Rudp.Packet.{RudpHeader, decode_header, decode_packet}
use knights.Rudp.Engine.{
  RudpConfig, RudpEngine, ProcessResult, default_result, new_engine, make_hello, make_close,
  set_fallback,
}
use knights.Rudp.Engine.Datagram.{
  admitted, process_datagram, handle_decoded, handle_packet, handle_type, handle_hello,
  handle_hello_ack, handle_close, handle_ping, handle_data, deliver, emit_ack, take_sample,
}
use knights.Rudp.Engine.Send.{queue_reliable_payload, enqueue, poll, poll_queue}
use knights.Rudp.Engine.Run.{
  Call, receives, queues, polls, greets, closes, step, delivered_by, after, delivered,
}

-- A call leaves the window alone and hands nothing up, or shows one packet number to the window
-- and hands something up only if that is accepted.
abbrev pub Observes : RudpEngine → ℕ → RudpEngine × ProcessResult → Type 0
Observes e n r =
    ((r.0.ack_window ≡ e.ack_window) × (r.1.inner_frames ≡ []))
    ⊎ ((r.0.ack_window ≡ (AckWindow.observe e.ack_window n).0)
        × ((r.1.inner_frames ≡ []) ⊎ ((AckWindow.observe e.ack_window n).1.accepted ≡ true)))

handle_data-Observes :
    (e : RudpEngine) (h : RudpHeader) (payload : List ℕ) (now : ℕ) (result : ProcessResult)
    → result.inner_frames ≡ []
    → Observes e h.packet_number (handle_data e h payload now result)
unfolding handle_data deliver emit_ack take_sample set_fallback
handle_data-Observes e h payload now result r = ground arith

handle_type-Observes :
    (e : RudpEngine) (h : RudpHeader) (payload : List ℕ) (now : ℕ) (result : ProcessResult)
    → result.inner_frames ≡ []
    → Observes e h.packet_number (handle_type e h payload now result)
unfolding handle_type handle_hello handle_hello_ack handle_close handle_ping set_fallback
handle_type-Observes e h payload now result r =
    ground (arith, handle_data-Observes e h payload now result r)

decode_packet-header :
    (d : List ℕ) (h : RudpHeader) (payload : List ℕ)
    → decode_packet d ≡ some (h, payload)
    → h ≡ decode_header d
unfolding decode_packet
decode_packet-header d h payload e = ground arith

handle_packet-Observes :
    (e : RudpEngine) (h : RudpHeader) (payload : List ℕ) (now : ℕ) (result : ProcessResult)
    → result.inner_frames ≡ []
    → Observes e h.packet_number (handle_packet e h payload now result)
unfolding handle_packet set_fallback
handle_packet-Observes e h payload now result r = ground (
  arith,
  handle_type-Observes (admitted e h now) h payload now (record result { parsed = true }) r,
)

handle_decoded-Observes :
    (e : RudpEngine) (d : List ℕ) (o : Option (RudpHeader × List ℕ)) (now : ℕ)
    (result : ProcessResult)
    → decode_packet d ≡ o
    → result.inner_frames ≡ []
    → Observes e (decode_header d).packet_number (handle_decoded e o now result)
unfolding handle_decoded set_fallback
handle_decoded-Observes e d none now result q r = inl (refl, r)
handle_decoded-Observes e d (some (h, payload)) now result q r =
    ground
      (arith, decode_packet-header d h payload q, handle_packet-Observes e h payload now result r)

pub process_datagram-Observes :
    (e : RudpEngine) (d : List ℕ) (now : ℕ)
    → Observes e (decode_header d).packet_number (process_datagram e d now)
unfolding process_datagram
process_datagram-Observes e d now = ground (
  arith,
  handle_decoded-Observes e d (decode_packet d) now (record default_result { consumed = true }) refl
      refl,
)

-- The other calls do not touch the window.
step-window :
    (e : RudpEngine) (c : Call)
    → ((step e c).ack_window ≡ e.ack_window) × (delivered_by e c ≡ [])
      ⊎ ((n : ℕ) × ((step e c).ack_window ≡ (AckWindow.observe e.ack_window n).0)
          × ((delivered_by e c ≡ [])
              ⊎ ((delivered_by e c ≡ n ∷ [])
                  × ((AckWindow.observe e.ack_window n).1.accepted ≡ true))))
unfolding step delivered_by queue_reliable_payload enqueue poll poll_queue make_hello make_close
    set_fallback
step-window e (receives d now) = elim (process_datagram-Observes e d now) [
  | inl (same, nothing) ↦ inl (same, rw nothing)
  | inr (moved, what) ↦ inr ((decode_header d).packet_number, moved, ground arith)
]
step-window e (queues frame channel now) = inl (ground arith, refl)
step-window e (polls now) = inl (ground arith, refl)
step-window e (greets id now) = inl (refl, refl)
step-window e (closes now) = inl (refl, refl)

-- The window stands for the packet numbers seen, and what was delivered is among them, once each.
abbrev Once : AckWindow → List ℕ → Type 0
Once w ds =
    (seen : List ℕ) × (w ≡ observe_all seen)
    × ((a : ℕ) → elem a seen ≡ false → elem a ds ≡ false)
    × Distinct ds

observe_all-cons :
    (n : ℕ) (seen : List ℕ) → (AckWindow.observe (observe_all seen) n).0 ≡ observe_all (n ∷ seen)
unfolding observe_all
observe_all-cons n seen = refl

observe-Once : (w : AckWindow) (ds : List ℕ) (n : ℕ) → Once w ds → Once (AckWindow.observe w n).0 ds
observe-Once w ds n (seen, e, sub, once) =
    (n ∷ seen, rw e (observe_all-cons n seen), λ a h. sub a (ground arith), once)

accept-Once :
    (w : AckWindow) (ds : List ℕ) (n : ℕ)
    → (AckWindow.observe w n).1.accepted ≡ true
    → Once w ds
    → Once (AckWindow.observe w n).0 (n ∷ ds)
accept-Once w ds n acc (seen, e, sub, once) = (
  n ∷ seen,
  rw e (observe_all-cons n seen),
  λ a h. ground (arith, sub a),
  (sub n (accepted-new n seen (rw e at acc)), once),
)

step-Once :
    (e : RudpEngine) (c : Call) (ds : List ℕ)
    → Once e.ack_window ds
    → Once (step e c).ack_window (delivered_by e c ++ ds)
step-Once e c ds o = elim (step-window e c) [
  | inl (same, nothing) ↦ rw (same, nothing) o
  | inr (n, moved, inl nothing) ↦ rw (moved, nothing) (observe-Once e.ack_window ds n o)
  | inr (n, moved, inr (one, acc)) ↦ rw (moved, one) (accept-Once e.ack_window ds n acc o)
]

after-Once :
    (config : RudpConfig) (cs : List Call) → Once (after config cs).ack_window (delivered config cs)
unfolding after delivered
after-Once config [] = ([], unfold new_engine observe_all in refl, λ a h. refl, tt)
after-Once config (c ∷ cs) =
    step-Once (after config cs) c (delivered config cs) (after-Once config cs)

-- Whatever datagrams arrive, and whatever else its owner calls in between, an engine hands up the
-- payload of each packet number at most once until it is reset.
pub delivered-Distinct : (config : RudpConfig) (cs : List Call) → Distinct (delivered config cs)
delivered-Distinct config cs = (after-Once config cs).3
