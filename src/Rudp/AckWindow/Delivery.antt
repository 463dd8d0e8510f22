-- ===== src/Rudp/AckWindow/Delivery.antt =====
-- What the window promises its caller, over every order of arrival.
use knights.Base.{
  ℕ, true, false, ◌+◌, ◌-◌, ◌≡◌, not, List, [], ◌∷◌, ltb, leb, ◌&&◌, arith, elem, Distinct,
  if◌then◌else◌, refl,
}
use knights.Rudp.AckWindow.{AckWindow, observe, observe_all}
use knights.Rudp.AckWindow.Tracks.{observe_all-Tracks, accepted-observe}

-- After any packets `q ∷ ps`, the window accepts a packet exactly if it has not arrived before and
-- lies less than 64 below the largest packet so far.
pub accepted-observe_all :
    (p q : ℕ) (ps : List ℕ)
    → let w = observe_all (q ∷ ps) in
      (observe w p).1.accepted ≡ (not (elem p (q ∷ ps)) && ltb w.largest (p + 64))
accepted-observe_all p q ps =
    accepted-observe (observe_all (q ∷ ps)) p (q ∷ ps) (observe_all-Tracks q ps)

pub accepted-new :
    (p : ℕ) (seen : List ℕ) → (observe (observe_all seen) p).1.accepted ≡ true → elem p seen ≡ false
accepted-new p [] h = refl
accepted-new p (q ∷ ps) h = ground (arith, accepted-observe_all p q ps)

-- The packets that were accepted, out of all that arrived (newest first).
pub accepted_packets : List ℕ → List ℕ
accepted_packets [] = []
accepted_packets (p ∷ ps) =
    let older = accepted_packets ps in
    if (observe (observe_all ps) p).1.accepted then p ∷ older else older

elem-accepted_packets :
    (a : ℕ) (ps : List ℕ) → elem a ps ≡ false → elem a (accepted_packets ps) ≡ false
unfolding accepted_packets
elem-accepted_packets a [] h = refl
elem-accepted_packets a (p ∷ ps) h = ground (arith, elem-accepted_packets a ps)

-- Whatever arrives, and in whatever order, no packet number is accepted twice.
pub accepted_packets-Distinct : (ps : List ℕ) → Distinct (accepted_packets ps)
unfolding accepted_packets
accepted_packets-Distinct [] = tt
accepted_packets-Distinct (p ∷ ps) =
    ground (arith, accepted-new p ps, elem-accepted_packets p ps, accepted_packets-Distinct ps)

-- In every state, a packet is a duplicate exactly if it is not accepted; it is reported as
-- reordered exactly if it is accepted at or below the largest one; and the estimated loss is the gap
-- between it and the largest packet before it.
pub observe_classifies :
    (w : AckWindow) (p : ℕ)
    → let o = (observe w p).1 in
      (o.duplicate ≡ not o.accepted)
      × (o.reordered ≡ (o.accepted && (w.initialized && leb p w.largest)))
      × (o.estimated_lost_packets ≡ (if w.initialized then p - w.largest - 1 else 0))
      × (o.ack_largest ≡ (observe w p).0.largest)
      × (o.ack_mask ≡ (observe w p).0.mask)
unfolding observe
observe_classifies w p = ground arith
