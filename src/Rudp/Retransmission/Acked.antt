-- ===== src/Rudp/Retransmission/Acked.antt =====
-- What `push` and `mark_acked` do to the queue and to its byte count.
use knights.Base.{
  length-append, ℕ, ◌+◌, ◌-◌, ◌^◌, ◌≤◌, ◌<◌, ◌≡◌, Bool, true, false, not, List, [], ◌∷◌, ◌++◌, map,
  All, keep, length, arith, refl, is_empty, length-keep-le, Bool-cases, inl, inr, ◌∙◌,
}
use knights.Base.Bits.{u64}
use knights.Rudp.Retransmission.{
  Entry, new_entry, RetransmissionQueue, reset, frame_size, push, is_acked_by_mask, pop_acked,
  add_sizes, sweep_acked, erase_acked, mark, mark_acked,
}

-- The bytes of the frames in a queue, in unbounded arithmetic.
abbrev pub total_bytes : List Entry → ℕ
total_bytes [] = 0
total_bytes (e ∷ es) = frame_size e + total_bytes es

abbrev pub IsWaiting : Entry → Type 0
IsWaiting e = e.acked ≡ false

-- Between two calls nothing acked is left in the queue, the byte count is exact, and it fits size_t.
pub record Inv (q : RetransmissionQueue) : Type 0 where
  pub waiting : All IsWaiting q.pending
  pub counted : q.inflight_bytes ≡ total_bytes q.pending
  pub fits : total_bytes q.pending < 2 ^ 64

abbrev pub is_waiting : Entry → Bool
is_waiting e = not e.acked

pub total_bytes-append :
    (xs ys : List Entry) → total_bytes (xs ++ ys) ≡ total_bytes xs + total_bytes ys
total_bytes-append [] ys = omega arith
total_bytes-append (x ∷ xs) ys = omega (arith, total_bytes-append xs ys)

All-append {ℓ κ} :
    {A : Type ℓ} (P : A → Type κ) (xs ys : List A) → All P xs → All P ys → All P (xs ++ ys)
All-append P [] ys h k = k
All-append P (x ∷ xs) ys h k = (h.0, All-append P xs ys h.1 k)

pub reset-Inv : Inv reset
unfolding reset
reset-Inv = record { waiting = tt; counted = refl; fits = omega arith }

-- A packet is queued with its bytes counted, if the sum of all frames fits size_t.
pub push-Inv :
    (q : RetransmissionQueue) (n sent : ℕ) (frame : List ℕ)
    → Inv q
    → total_bytes q.pending + length frame < 2 ^ 64
    → Inv (push q n sent frame)
unfolding push
push-Inv q n sent [] v h = v
push-Inv q n sent (b ∷ bytes) v h =
    let e : Entry = new_entry n sent (b ∷ bytes) in
    let total : total_bytes (q.pending ++ e ∷ []) ≡ total_bytes q.pending + length (b ∷ bytes) =
      omega (arith, total_bytes-append q.pending (e ∷ [])) in
    record {
      waiting = All-append IsWaiting q.pending (e ∷ []) v.waiting (refl, tt);
      counted = omega (arith, v.counted);
      fits = omega arith;
    }

-- What `push` adds.
pub push_grows :
    (q : RetransmissionQueue) (n sent : ℕ) (frame : List ℕ)
    → (length (push q n sent frame).pending ≤ length q.pending + 1)
      × (total_bytes (push q n sent frame).pending ≡ total_bytes q.pending + length frame)
unfolding push
push_grows q n sent [] = (omega arith, omega arith)
push_grows q n sent (b ∷ bytes) =
    let e : Entry = new_entry n sent (b ∷ bytes) in
    (
      omega (arith, length-append q.pending (e ∷ [])),
      omega (arith, total_bytes-append q.pending (e ∷ [])),
    )

add_sizes-eq :
    (es : List Entry) (acc : ℕ)
    → acc + total_bytes es < 2 ^ 64
    → add_sizes es acc ≡ acc + total_bytes es
unfolding add_sizes
add_sizes-eq [] acc h = omega arith
add_sizes-eq (e ∷ es) acc h =
    let exact : u64 (acc + frame_size e) ≡ acc + frame_size e = omega arith in
    rw exact (add_sizes-eq es (acc + frame_size e) (omega arith) ∙ omega arith)

keep-length-eq :
    (es : List Entry) → length (keep is_waiting es) ≡ length es → keep is_waiting es ≡ es
keep-length-eq [] h = refl
keep-length-eq (e ∷ es) h = ground (arith, length-keep-le is_waiting es, keep-length-eq es)

total_bytes-keep : (es : List Entry) → total_bytes (keep is_waiting es) ≤ total_bytes es
total_bytes-keep [] = omega arith
total_bytes-keep (e ∷ es) = ground (arith, total_bytes-keep es)

empty-keep : (es : List Entry) → is_empty es ≡ true → keep is_waiting es ≡ es
empty-keep [] h = refl
empty-keep (e ∷ es) h = cc

-- What erasing leaves: the entries not acked, in order, with their bytes.
pub record Erased (es : List Entry) (q : RetransmissionQueue) : Type 0 where
  pub kept : q.pending ≡ keep is_waiting es
  pub exact : q.inflight_bytes ≡ total_bytes q.pending

sweep-Erased :
    (q : RetransmissionQueue)
    → total_bytes q.pending < 2 ^ 64
    → q.inflight_bytes ≡ total_bytes q.pending
    → Erased q.pending (sweep_acked q)
unfolding sweep_acked
sweep-Erased q h e = record {
  kept = ground (arith, keep-length-eq q.pending, empty-keep q.pending);
  exact = ground (arith, add_sizes-eq (keep is_waiting q.pending) 0, total_bytes-keep q.pending);
}

pop-same :
    (es : List Entry) (bytes : ℕ)
    → bytes ≡ total_bytes es
    → let q = pop_acked es bytes in
      (q.inflight_bytes ≡ total_bytes q.pending)
      × (keep is_waiting q.pending ≡ keep is_waiting es)
      × (total_bytes q.pending ≤ total_bytes es)
unfolding pop_acked
pop-same [] bytes h = (h, refl, omega arith)
pop-same (e ∷ es) bytes h = ground (arith, pop-same es (bytes - frame_size e))

erase-Erased :
    (q : RetransmissionQueue)
    → total_bytes q.pending < 2 ^ 64
    → q.inflight_bytes ≡ total_bytes q.pending
    → Erased q.pending (erase_acked q)
unfolding erase_acked
erase-Erased q h e =
    let (counted, same, less) = pop-same q.pending q.inflight_bytes e in
    let swept : Erased (pop_acked q.pending q.inflight_bytes).pending
        (sweep_acked (pop_acked q.pending q.inflight_bytes)) =
      sweep-Erased (pop_acked q.pending q.inflight_bytes) (omega arith) counted in
    record { kept = swept.kept ∙ same; exact = swept.exact }

-- The entries that an ACK leaves in the queue.
abbrev pub outstanding : ℕ → ℕ → Entry → Bool
outstanding ack_largest ack_mask e =
    not (is_acked_by_mask e.packet.packet_number ack_largest ack_mask)

total_bytes-mark :
    (largest mask : ℕ) (es : List Entry) → total_bytes (map (mark largest mask) es) ≡ total_bytes es
unfolding mark
total_bytes-mark largest mask [] = refl
total_bytes-mark largest mask (e ∷ es) = ground (arith, total_bytes-mark largest mask es)

keep-mark :
    (largest mask : ℕ) (es : List Entry)
    → All IsWaiting es
    → keep is_waiting (map (mark largest mask) es) ≡ keep (outstanding largest mask) es
unfolding mark
keep-mark largest mask [] h = refl
keep-mark largest mask (e ∷ es) h = ground (arith, h.0, keep-mark largest mask es h.1)

keep-Waiting : (p : Entry → Bool) (es : List Entry) → All IsWaiting es → All IsWaiting (keep p es)
keep-Waiting p [] h = tt
keep-Waiting p (e ∷ es) h = elim (Bool-cases (p e)) [
  | inl y ↦ rw y (h.0, keep-Waiting p es h.1)
  | inr n ↦ rw n (keep-Waiting p es h.1)
]

pub total_bytes-keep_any :
    (p : Entry → Bool) (es : List Entry) → total_bytes (keep p es) ≤ total_bytes es
total_bytes-keep_any p [] = omega arith
total_bytes-keep_any p (e ∷ es) = ground (arith, total_bytes-keep_any p es)

-- An ACK to a valid queue removes exactly the packets that it covers, keeps the others as they are and
-- in their order, and leaves the byte count exact.
pub mark_acked_lem :
    (q : RetransmissionQueue) (largest mask : ℕ)
    → Inv q
    → ((mark_acked q largest mask).pending ≡ keep (outstanding largest mask) q.pending)
      × Inv (mark_acked q largest mask)
unfolding mark_acked
mark_acked_lem q largest mask v =
    let marked : List Entry = map (mark largest mask) q.pending in
    let erased : Erased marked (mark_acked q largest mask) =
      erase-Erased (record q { pending = marked })
        (omega (arith, v.fits, total_bytes-mark largest mask q.pending))
        (v.counted ∙ omega (arith, total_bytes-mark largest mask q.pending)) in
    let left : (mark_acked q largest mask).pending ≡ keep (outstanding largest mask) q.pending =
      erased.kept ∙ keep-mark largest mask q.pending v.waiting in
    (
      left,
      record {
        waiting = rw left (keep-Waiting (outstanding largest mask) q.pending v.waiting);
        counted = erased.exact;
        fits =
            rw left
              (omega (arith, v.fits, total_bytes-keep_any (outstanding largest mask) q.pending));
      },
    )
