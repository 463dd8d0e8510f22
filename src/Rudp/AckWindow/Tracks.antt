-- ===== src/Rudp/AckWindow/Tracks.antt =====
-- The window refines the list of packet numbers received so far.
use knights.Base.{
  ℕ, ◌+◌, ◌-◌, ◌≤◌, ◌<◌, ◌≡◌, Bool, true, false, not, List, [], ◌∷◌, ltb, ◌&&◌, arith, All, elem,
  refl, bit_or, ◌==◌, bit_and,
}
use knights.Base.Bits.{
  test_bit, shl, u64, test_bit-bit_or, test_bit-shl, test_bit-mod, test_bit-one, bit_and-one,
  test_bit-le-one,
}
use native.Mathlib.Nat.{one-le-pow}
use knights.Rudp.AckWindow.{AckWindow, reset, observe, observe_all}

abbrev pub bit_of : Bool → ℕ
bit_of true = 1
bit_of false = 0

-- What the mask says of the distance `d` below the largest number.
abbrev pub MarksReceived : ℕ → ℕ → List ℕ → Type 0
MarksReceived largest mask ps =
    (d : ℕ) → d < 64 → d ≤ largest → test_bit mask d ≡ bit_of (elem (largest - d) ps)

pub record Tracks (w : AckWindow) (ps : List ℕ) : Type 0 where
  pub started : w.initialized ≡ true
  pub top : All (λ p. p ≤ w.largest) ps
  pub received : elem w.largest ps ≡ true
  pub marks : MarksReceived w.largest w.mask ps

pub elem_above : (b a : ℕ) (ps : List ℕ) → All (λ p. p ≤ b) ps → b < a → elem a ps ≡ false
elem_above b a [] h lt = refl
elem_above b a (p ∷ ps) h lt = ground (arith, elem_above b a ps h.1 lt)

All-le_mono : (a b : ℕ) (ps : List ℕ) → a ≤ b → All (λ p. p ≤ a) ps → All (λ p. p ≤ b) ps
All-le_mono a b [] h t = tt
All-le_mono a b (p ∷ ps) h t = (omega arith, All-le_mono a b ps h t.1)

-- The bit that each branch of `observe` leaves at the distance `d`.
first-marks : (p d : ℕ) → d < 64 → d ≤ p → test_bit 1 d ≡ bit_of (elem (p - d) (p ∷ []))
first-marks p d small below = ground (arith, test_bit-one 0 d)

module _ (w : AckWindow) (p : ℕ) (ps : List ℕ) (t : Tracks w ps) (d : ℕ) where
  advance-marks :
      w.largest < p
      → p - w.largest < 64
      → d < 64
      → d ≤ p
      → test_bit (bit_or (u64 (shl w.mask (p - w.largest))) 1) d ≡ bit_of (elem (p - d) (p ∷ ps))
  advance-marks above near small below = ground (
    arith,
    test_bit-bit_or (u64 (shl w.mask (p - w.largest))) 1 d,
    test_bit-mod (shl w.mask (p - w.largest)) 64 d,
    test_bit-shl w.mask (p - w.largest) d,
    test_bit-one 0 d,
    t.marks (d - (p - w.largest)),
    elem_above w.largest (p - d) ps t.top,
  )

  jump-marks : 64 ≤ p - w.largest → d < 64 → d ≤ p → test_bit 1 d ≡ bit_of (elem (p - d) (p ∷ ps))
  jump-marks far small below =
      ground (arith, test_bit-one 0 d, elem_above w.largest (p - d) ps t.top)

  fill-marks :
      p ≤ w.largest
      → d < 64
      → d ≤ w.largest
      → test_bit (bit_or w.mask (shl 1 (w.largest - p))) d ≡ bit_of (elem (w.largest - d) (p ∷ ps))
  fill-marks below small at_most = ground (
    arith,
    test_bit-bit_or w.mask (shl 1 (w.largest - p)) d,
    test_bit-one (w.largest - p) d,
    test_bit-le-one w.mask d,
    t.marks d small at_most,
  )

first-Tracks : (w : AckWindow) (p : ℕ) → w.initialized ≡ false → Tracks (observe w p).0 (p ∷ [])
unfolding observe
first-Tracks w p e = record {
  started = ground arith;
  top = (ground arith, tt);
  received = ground arith;
  marks = rw (e, observe) (first-marks p);
}

-- The test by which `look_back` finds a packet that it has seen.
pub seen_bit :
    (w : AckWindow) (p : ℕ) (ps : List ℕ)
    → Tracks w ps
    → p ≤ w.largest
    → w.largest - p < 64
    → not (bit_and w.mask (shl 1 (w.largest - p)) == 0) ≡ elem p ps
seen_bit w p ps t below near = ground (
  arith,
  bit_and-one w.mask (w.largest - p),
  test_bit-le-one w.mask (w.largest - p),
  t.marks (w.largest - p) near,
  one-le-pow (w.largest - p) 2,
)

-- Receiving a packet keeps the window in step with the list.
pub observe-Tracks :
    (w : AckWindow) (p : ℕ) (ps : List ℕ) → Tracks w ps → Tracks (observe w p).0 (p ∷ ps)
unfolding observe
observe-Tracks w p ps t = record {
  started = ground (arith, t.started);
  top = (ground (arith, t.started), All-le_mono w.largest _ ps (ground (arith, t.started)) t.top);
  received = ground (arith, t.started, t.received);
  marks = λ d small below. ground (
    arith,
    t.started,
    advance-marks w p ps t d,
    jump-marks w p ps t d,
    fill-marks w p ps t d,
    t.marks d small,
    seen_bit w p ps t,
  );
}

pub observe_all-Tracks : (p : ℕ) (ps : List ℕ) → Tracks (observe_all (p ∷ ps)) (p ∷ ps)
unfolding observe_all reset
observe_all-Tracks p [] = first-Tracks reset p refl
observe_all-Tracks p (q ∷ ps) =
    observe-Tracks (observe_all (q ∷ ps)) p (q ∷ ps) (observe_all-Tracks q ps)

pub accepted-observe :
    (w : AckWindow) (p : ℕ) (ps : List ℕ)
    → Tracks w ps
    → (observe w p).1.accepted ≡ (not (elem p ps) && ltb w.largest (p + 64))
unfolding observe
accepted-observe w p ps t =
    ground (arith, t.started, elem_above w.largest p ps t.top, seen_bit w p ps t)
