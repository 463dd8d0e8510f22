-- ===== src/Rudp/AckWindow.antt =====
-- core/src/net/rudp/ack_window.cpp and its header: the window over received packet numbers.
-- Packet numbers are uint32_t and the mask is a uint64_t; both are numbers below `2 ^ w`.
pub mod Tracks
pub mod Delivery
use knights.Base.{
  ℕ, ◌+◌, ◌-◌, Bool, true, false, not, List, [], ◌∷◌, ltb, leb, ◌==◌, if◌then◌else◌, bit_and,
  bit_or,
}
use knights.Base.Bits.{shl, u64}

-- `AckObservation`
pub record AckObservation : Type 0 where
  pub accepted : Bool
  pub duplicate : Bool
  pub reordered : Bool
  pub estimated_lost_packets : ℕ
  pub ack_largest : ℕ
  pub ack_mask : ℕ

-- The fields of `AckWindow`.
pub record AckWindow : Type 0 where
  pub initialized : Bool
  pub largest : ℕ
  pub mask : ℕ

-- `reset`, which is also the state of a new window.
unfoldable pub reset : AckWindow
reset = record { initialized = false; largest = 0; mask = 0 }

-- What `observe` reports when it has left `w` behind.
abbrev report : AckWindow → Bool → Bool → Bool → ℕ → AckWindow × AckObservation
report w accepted duplicate reordered lost = (
  w,
  record {
    accepted = accepted;
    duplicate = duplicate;
    reordered = reordered;
    estimated_lost_packets = lost;
    ack_largest = w.largest;
    ack_mask = w.mask;
  },
)

-- The branch of a packet above the largest one; `delta` is exact, since the packet is larger.
advance : AckWindow → ℕ → AckWindow × AckObservation
advance w packet_number =
    let delta = packet_number - w.largest in
    let lost = if ltb 1 delta then delta - 1 else 0 in
    let mask = if leb 64 delta then 1 else bit_or (u64 (shl w.mask delta)) 1 in
    report (record w { largest = packet_number; mask = mask }) true false false lost

-- The branch of a packet at or below the largest one.
look_back : AckWindow → ℕ → AckWindow × AckObservation
look_back w packet_number =
    let distance = w.largest - packet_number in
    let bit = shl 1 distance in
    if leb 64 distance
    then report w false true false 0
    else (if not (bit_and w.mask bit == 0)
        then report w false true false 0
        else report (record w { mask = bit_or w.mask bit }) true false true 0)

unfoldable pub observe : AckWindow → ℕ → AckWindow × AckObservation
unfolding advance look_back
observe w packet_number =
    if not w.initialized
    then report (record { initialized = true; largest = packet_number; mask = 1 }) true false false
        0
    else (if ltb w.largest packet_number
        then advance w packet_number
        else look_back w packet_number)

-- The window after packets in their order of arrival, the newest at the head of the list.
unfoldable pub observe_all : List ℕ → AckWindow
observe_all [] = reset
observe_all (p ∷ ps) = (observe (observe_all ps) p).0
