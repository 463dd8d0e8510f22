-- ===== src/Rudp/Reliability.antt =====
-- The sender's queue against the receiver's window: which packets an ACK takes out of the queue.
use knights.Base.{ℕ, refl, ◌+◌, ◌≡◌, ◌∙◌, Bool, not, ◌||◌, List, [], ◌∷◌, elem, leb, keep, arith}
use knights.Rudp.AckWindow.{observe_all, AckWindow}
use knights.Rudp.AckWindow.Tracks.{Tracks, observe_all-Tracks, seen_bit, elem_above}
use knights.Rudp.Retransmission.{Entry, RetransmissionQueue, is_acked_by_mask, mark_acked}
use knights.Rudp.Retransmission.Acked.{Inv, mark_acked_lem, outstanding}

-- What an ACK says of a packet: that it was received, or that it lies 64 or more below.
is_acked-received :
    (w : AckWindow) (p : ℕ) (seen : List ℕ)
    → Tracks w seen
    → is_acked_by_mask p w.largest w.mask ≡ (elem p seen || leb (p + 64) w.largest)
unfolding is_acked_by_mask
is_acked-received w p seen t =
    ground (arith, elem_above w.largest p seen t.top, seen_bit w p seen t, t.received)

-- The packets that stay queued when the receiver has seen `seen`.
abbrev pub still_needed : ℕ → List ℕ → Entry → Bool
still_needed largest seen e =
    let n = e.packet.packet_number in not (elem n seen || leb (n + 64) largest)

keep-still_needed :
    (w : AckWindow) (seen : List ℕ) (es : List Entry)
    → Tracks w seen
    → keep (outstanding w.largest w.mask) es ≡ keep (still_needed w.largest seen) es
keep-still_needed w seen [] t = refl
keep-still_needed w seen (e ∷ es) t =
    ground (arith, is_acked-received w e.packet.packet_number seen t, keep-still_needed w seen es t)

-- When the sender's queue is valid and the receiver has seen the packets `n ∷ seen`, its ACK leaves in
-- the queue exactly the packets that it has not seen and that lie less than 64 below its largest, in
-- order. A packet that was never received is dropped too once the receiver is 64 ahead of it.
pub mark_acked-observe_all :
    (q : RetransmissionQueue) (n : ℕ) (seen : List ℕ)
    → Inv q
    → let w = observe_all (n ∷ seen) in
      (mark_acked q w.largest w.mask).pending ≡ keep (still_needed w.largest (n ∷ seen)) q.pending
mark_acked-observe_all q n seen v =
    let w = observe_all (n ∷ seen) in
    (mark_acked_lem q w.largest w.mask v).0
    ∙ keep-still_needed w (n ∷ seen) q.pending (observe_all-Tracks n seen)
