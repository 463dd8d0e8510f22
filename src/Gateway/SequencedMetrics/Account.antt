-- ===== src/Gateway/SequencedMetrics/Account.antt =====
-- The totals of a session add up.
use knights.Base.{
  ◌⊎◌, ℕ, ◌+◌, ◌^◌, ◌≤◌, ◌<◌, ◌≡◌, true, false, not, List, [], ◌∷◌, ◌++◌, All, ltb, ◌==◌, ◌&&◌,
  ◌||◌, arith,
}
use knights.Gateway.SequencedMetrics.{UdpSequencedMetrics, reset, on_packet, Session, session}

-- Exactly one of the three verdicts holds of each packet, and only an accepted one changes the tracker:
-- it is accepted exactly if it is the first or lies above the last accepted one.
pub on_packet_verdict :
    (m : UdpSequencedMetrics) (seq time : ℕ)
    → let (m', r) = on_packet m seq time in
      (r.accepted ≡ (not m.initialized || ltb m.last_seq seq))
      × (r.duplicate ≡ (m.initialized && seq == m.last_seq))
      × (r.reordered ≡ (m.initialized && ltb seq m.last_seq))
      × (((r.accepted ≡ true) × (m'.last_seq ≡ seq)) ⊎ ((r.accepted ≡ false) × (m' ≡ m)))
unfolding on_packet
on_packet_verdict m seq time = (ground arith, ground arith, ground arith, ground arith)

pub record Accounted (first : ℕ) (s : Session) : Type 0 where
  pub started : s.tracker.initialized ≡ true
  pub from_first : first ≤ s.tracker.last_seq
  pub top_fits : s.tracker.last_seq < 2 ^ 32
  pub balance : first + s.accepted_total + s.lost_total ≡ s.tracker.last_seq + 1

-- The sequence numbers are uint32_t.
abbrev pub Fits : ℕ × ℕ → Type 0
Fits p = p.0 < 2 ^ 32

-- For sequence numbers in uint32_t: from the first packet on, the accepted and the lost packets
-- together make up every sequence number from the first to the last one, whatever the order in which
-- packets arrive.
pub session-Accounted :
    (first time : ℕ) (later : List (ℕ × ℕ))
    → first < 2 ^ 32
    → All Fits later
    → Accounted first (session (later ++ (first, time) ∷ []))
unfolding session on_packet reset
session-Accounted first time [] small h = ground arith
session-Accounted first time ((seq, t) ∷ later) small h =
    ground (arith, session-Accounted first time later small h.1)
