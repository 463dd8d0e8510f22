-- ===== src/Rudp/Retransmission/Timeouts.antt =====
-- What `collect_timeouts` returns and leaves.
use knights.Base.{
  ◌||◌, ◌==◌, inl, inr, ℕ, ◌+◌, ◌-◌, ◌^◌, ◌≤◌, ◌<◌, ◌≡◌, ◌⊎◌, inl, inr, Bool, true, false, not,
  List, [], ◌∷◌, map, All, keep, length, arith, ltb, refl, zero, suc, ap, ◌∙◌, sym, take,
  Bool-cases, ◌&&◌, dec_lt,
}
use knights.Rudp.Retransmission.{
  Entry, PendingPacket, RetransmissionQueue, collect, collect_timeouts, elapsed_since, put_due,
  put_back, resend,
}
use knights.Rudp.Retransmission.Acked.{Inv, IsWaiting, total_bytes}

-- An entry whose retransmission timer has run out.
abbrev pub is_due : ℕ → ℕ → Entry → Bool
is_due now rto_ms e = not e.acked && not (ltb (elapsed_since now e.packet.last_sent_unix_ms) rto_ms)

-- What stays of a packet when it is sent once more.
abbrev pub identity : Entry → ℕ × List ℕ × Bool
identity e = (e.packet.packet_number, e.packet.encoded_frame, e.acked)

-- The copy of an entry that goes out.
abbrev pub sent_packet : ℕ → Entry → PendingPacket
sent_packet now e = (resend now e).packet

-- The loop, from a `due` that holds `n` packets already.
record Collected (now rto_ms max_batch n : ℕ) (es : List Entry)
    (r : List PendingPacket × List Entry) : Type 0 where
  picked : r.0 ≡ take (max_batch - n) (map (sent_packet now) (keep (is_due now rto_ms) es))
  same : map identity r.1 ≡ map identity es
  complete : (n + length r.0 ≡ max_batch) ⊎ All (λ e. is_due now rto_ms e ≡ false) r.1

collect_timeouts_loop :
    (q : RetransmissionQueue) (now rto_ms max_batch : ℕ)
    → 0 < rto_ms
    → 0 < max_batch
    → collect_timeouts q now rto_ms max_batch
      ≡ (let r = collect now rto_ms max_batch 0 q.pending in (r.0, record q { pending = r.1 }))
unfolding collect_timeouts
collect_timeouts_loop q now rto_ms max_batch rto room = ground arith

take-nil : {A : Type 0} (k : ℕ) → take {A = A} k [] ≡ []
take-nil zero = refl
take-nil (suc k) = refl

take_room :
    {A : Type 0} (k n : ℕ) (x : A) (xs : List A)
    → n < k
    → take (k - n) (x ∷ xs) ≡ x ∷ take (k - (n + 1)) xs
take_room k n x xs h =
    let e : k - n ≡ suc (k - (n + 1)) = omega arith in ap (λ m. take m (x ∷ xs)) e

module _ (now rto_ms max_batch : ℕ) (clock : now < 2 ^ 64) (rto : 0 < rto_ms) where
  passed_over :
      (n : ℕ) (e : Entry) (es : List Entry) (r : List PendingPacket × List Entry)
      → is_due now rto_ms e ≡ false
      → Collected now rto_ms max_batch n es r
      → Collected now rto_ms max_batch n (e ∷ es) (put_back e r)
  passed_over n e es r idle c = record {
    picked = rw idle c.picked;
    same = ap (◌∷◌ (identity e)) c.same;
    complete = elim c.complete [ inl full ↦ inl full | inr rest ↦ inr (idle, rest) ];
  }

  not_due_now : (e : Entry) → is_due now rto_ms (resend now e) ≡ false
  not_due_now e = ground arith

  resent :
      (n : ℕ) (e : Entry) (es : List Entry) (r : List PendingPacket × List Entry)
      → n < max_batch
      → is_due now rto_ms e ≡ true
      → Collected now rto_ms max_batch (n + 1) es r
      → Collected now rto_ms max_batch n (e ∷ es) (put_due (resend now e) r)
  resent n e es r room due c = record {
    picked = rw due (rw c.picked (sym (take_room max_batch n (sent_packet now e) _ room)));
    same = ap (◌∷◌ (identity e)) c.same;
    complete = elim c.complete [
      | inl full ↦ inl (omega arith)
      | inr rest ↦ inr (not_due_now e, rest)
    ];
  }

  last_one :
      (n : ℕ) (e : Entry) (es : List Entry)
      → n + 1 ≡ max_batch
      → is_due now rto_ms e ≡ true
      → Collected now rto_ms max_batch n (e ∷ es) (sent_packet now e ∷ [], resend now e ∷ es)
  last_one n e es full due = record {
    picked = rw due (
        sym (
          take_room max_batch n (sent_packet now e) _ (omega arith)
          ∙ ap
              (λ k.
                sent_packet now e ∷ take k (map (sent_packet now) (keep (is_due now rto_ms) es)))
              (let z : max_batch - (n + 1) ≡ 0 = omega arith in z)));
    same = refl;
    complete = inl full;
  }

  -- The three ways through the loop's body.
  module _ (n : ℕ) (e : Entry) (es : List Entry) where
    collect_skips :
        is_due now rto_ms e ≡ false
        → collect now rto_ms max_batch n (e ∷ es) ≡ put_back e (collect now rto_ms max_batch n es)
    unfolding collect
    collect_skips h = ground arith

    collect_stops :
        is_due now rto_ms e ≡ true
        → max_batch ≤ n + 1
        → collect now rto_ms max_batch n (e ∷ es) ≡ (sent_packet now e ∷ [], resend now e ∷ es)
    unfolding collect
    collect_stops h full = ground arith

    collect_goes_on :
        is_due now rto_ms e ≡ true
        → n + 1 < max_batch
        → collect now rto_ms max_batch n (e ∷ es)
          ≡ put_due (resend now e) (collect now rto_ms max_batch (n + 1) es)
    unfolding collect
    collect_goes_on h room = ground arith

  collect-Collected :
      (n : ℕ) (es : List Entry)
      → n < max_batch
      → Collected now rto_ms max_batch n es (collect now rto_ms max_batch n es)
  collect-Collected n [] h = record {
    picked = unfold collect in sym (take-nil (max_batch - n));
    same = unfold collect in refl;
    complete = unfold collect in inr tt;
  }
  collect-Collected n (e ∷ es) h = elim (Bool-cases (is_due now rto_ms e)) [
    | inl due ↦ elim (dec_lt (n + 1) max_batch) [
      | yes room ↦
          rw (collect_goes_on n e es due room)
            (resent n e es _ h due (collect-Collected (n + 1) es room))
      | no full ↦ rw (collect_stops n e es due (omega arith)) (last_one n e es (omega arith) due)
    ]
    | inr idle ↦
        rw (collect_skips n e es idle) (passed_over n e es _ idle (collect-Collected n es h))
  ]

-- With a clock in uint64_t and a timeout and a batch above 0, what is sent again is, in queue order,
-- the first `max_batch` entries whose timer has run out; every entry stays queued with its number,
-- frame and mark, the byte count stays, and afterwards either the batch is full or no timer has run
-- out.
pub collect_timeouts_lem :
    (q : RetransmissionQueue) (now rto_ms max_batch : ℕ)
    → now < 2 ^ 64
    → 0 < rto_ms
    → 0 < max_batch
    → let (due, q') = collect_timeouts q now rto_ms max_batch in
      (due ≡ take max_batch (map (sent_packet now) (keep (is_due now rto_ms) q.pending)))
      × (map identity q'.pending ≡ map identity q.pending)
      × (q'.inflight_bytes ≡ q.inflight_bytes)
      × ((length due ≡ max_batch) ⊎ All (λ e. is_due now rto_ms e ≡ false) q'.pending)
collect_timeouts_lem q now rto_ms max_batch clock rto room =
    rw (collect_timeouts_loop q now rto_ms max_batch rto room) (
      all.picked
          ∙ ap (λ k. take k (map (sent_packet now) (keep (is_due now rto_ms) q.pending))) whole,
      all.same,
      refl,
      elim all.complete [ inl full ↦ inl (omega arith) | inr rest ↦ inr rest ],
    )
  where
    whole : max_batch - 0 ≡ max_batch
    whole = omega arith

    all : Collected now rto_ms max_batch 0 q.pending (collect now rto_ms max_batch 0 q.pending)
    all = collect-Collected now rto_ms max_batch clock rto 0 q.pending room

-- Whatever the arguments, the loop keeps the number of entries, their bytes and their marks.
module _ (now rto_ms max_batch : ℕ) where
  collect-length :
      (n : ℕ) (es : List Entry) → length (collect now rto_ms max_batch n es).1 ≡ length es
  unfolding collect
  collect-length n [] = refl
  collect-length n (e ∷ es) = ground (arith, collect-length n es, collect-length (n + 1) es)

  collect-total_bytes :
      (n : ℕ) (es : List Entry) → total_bytes (collect now rto_ms max_batch n es).1 ≡ total_bytes es
  unfolding collect
  collect-total_bytes n [] = refl
  collect-total_bytes n (e ∷ es) =
      ground (arith, collect-total_bytes n es, collect-total_bytes (n + 1) es)

  collect-IsWaiting :
      (n : ℕ) (es : List Entry)
      → All IsWaiting es
      → All IsWaiting (collect now rto_ms max_batch n es).1
  unfolding collect
  collect-IsWaiting n [] h = tt
  collect-IsWaiting n (e ∷ es) h =
      ground (arith, collect-IsWaiting n es h.1, collect-IsWaiting (n + 1) es h.1)

-- A round of retransmission keeps the queue valid, and as long as it was.
pub collect_timeouts-Inv :
    (q : RetransmissionQueue) (now rto_ms max_batch : ℕ)
    → Inv q
    → let q' = (collect_timeouts q now rto_ms max_batch).1 in
      Inv q'
      × (length q'.pending ≡ length q.pending)
      × (total_bytes q'.pending ≡ total_bytes q.pending)
unfolding collect_timeouts
collect_timeouts-Inv q now rto_ms max_batch v = elim (Bool-cases (max_batch == 0 || rto_ms == 0)) [
  | inl idle ↦ rw idle (v, refl, refl)
  | inr busy ↦
      let total = collect-total_bytes now rto_ms max_batch 0 q.pending in
      rw busy (
        record {
          waiting = collect-IsWaiting now rto_ms max_batch 0 q.pending v.waiting;
          counted = v.counted ∙ sym total;
          fits = omega (arith, v.fits);
        },
        collect-length now rto_ms max_batch 0 q.pending,
        total,
      )
]
