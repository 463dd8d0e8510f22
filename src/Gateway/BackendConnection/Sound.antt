-- ===== src/Gateway/BackendConnection/Sound.antt =====
-- The calls on a connection and what each keeps of its queue.
use knights.Base.{
  ℕ, ◌+◌, ◌≤◌, ◌<◌, ◌≢◌, ◌^◌, ◌≡◌, ◌∙◌, ap, sym, true, false, not, ◌&&◌, List, [], ◌∷◌, ◌++◌,
  append-nil, if◌then◌else◌, is_empty, length, arith, Bool-cases, List-cases, inl, inr, subst,
}
use knights.Base.Bits.{u64}
use knights.Gateway.BackendConnection.{
  BackendConnection, exceeds_queue_budget, do_write, close, send, on_connected, on_written,
  complete, rest_of,
}

-- `connects` is a connect that succeeds, which a connection that is up does not see again; `writes` is a write
-- that completes, `fails` one that does not.
pub data Call : Type 0 where
  sends : List ℕ → Call
  connects writes fails : Call

-- The connection after a call, the payloads that it took and those that it wrote.
abbrev pub step : BackendConnection → Call → BackendConnection × List (List ℕ) × List (List ℕ)
step c (sends payload) =
    let (c', is_taken) = send c payload in (c', (if is_taken then payload ∷ [] else []), [])
step c connects = (if c.connected then c else on_connected c, [], [])
step c writes = let (c', written) = complete c c.in_flight in (c', [], written)
step c fails = (close c, [], [])

abbrev pub total : List (List ℕ) → ℕ
total [] = 0
total (x ∷ xs) = length x + total xs

abbrev pub first_of : List (List ℕ) → List (List ℕ)
first_of [] = []
first_of (x ∷ xs) = x ∷ []

total-append : (xs ys : List (List ℕ)) → total (xs ++ ys) ≡ total xs + total ys
total-append [] ys = omega arith
total-append (x ∷ xs) ys = omega (arith, total-append xs ys)

-- An open connection: the counter is the size of the queue and within the limit, and the front of the queue is
-- the only payload that is being written, if the connection is up.
pub record Sound (max_bytes : ℕ) (c : BackendConnection) : Type 0 where
  pub limit : c.send_queue_max_bytes ≡ max_bytes
  pub counted : c.queued_bytes ≡ total c.write_queue
  pub fits : c.queued_bytes ≤ max_bytes
  pub writing : c.write_in_progress ≡ c.connected && not (is_empty c.write_queue)
  pub one : c.in_flight ≡ (if c.connected then first_of c.write_queue else [])

-- The fields that a sound connection is about.
pub sound :
    (max_bytes : ℕ) (c : BackendConnection)
    → c.send_queue_max_bytes ≡ max_bytes
    → c.queued_bytes ≡ total c.write_queue
    → c.queued_bytes ≤ max_bytes
    → c.write_in_progress ≡ c.connected && not (is_empty c.write_queue)
    → c.in_flight ≡ (if c.connected then first_of c.write_queue else [])
    → Sound max_bytes c
sound max_bytes c l k f w o = record { limit = l; counted = k; fits = f; writing = w; one = o }

-- The connection with the payload at the end of its queue.
abbrev queued : BackendConnection → List ℕ → BackendConnection
queued c payload = record c {
  queued_bytes = u64 (c.queued_bytes + length payload);
  write_queue = c.write_queue ++ (payload ∷ []);
}

abbrev with_write : BackendConnection → List ℕ → BackendConnection
with_write c payload =
    if c.connected && not c.write_in_progress then do_write (queued c payload) else queued c payload

room :
    (max_bytes : ℕ) (c : BackendConnection) (n : ℕ)
    → max_bytes ≢ 0
    → Sound max_bytes c
    → exceeds_queue_budget c.send_queue_max_bytes c.queued_bytes n ≡ false
    → c.queued_bytes + n ≤ max_bytes
unfolding exceeds_queue_budget
room max_bytes c n some_limit s h = ground (arith, s.limit, s.fits)

with_write-Sound :
    (max_bytes : ℕ) (c : BackendConnection) (payload : List ℕ)
    → max_bytes < 2 ^ 64
    → c.queued_bytes + length payload ≤ max_bytes
    → Sound max_bytes c
    → Sound max_bytes (with_write c payload)
      × ((with_write c payload).write_queue ≡ c.write_queue ++ (payload ∷ []))
with_write-Sound max_bytes c payload small fit s =
    let sum = total-append c.write_queue (payload ∷ []) in
    let no_wrap : u64 (c.queued_bytes + length payload) ≡ c.queued_bytes + length payload =
      omega arith in
    let c' = with_write c payload in
    elim (List-cases c.write_queue) [
      | inl e ↦
          let longer : c.write_queue ++ (payload ∷ []) ≡ payload ∷ [] =
            ap (λ q. q ++ (payload ∷ [])) e in
          let flown = ap (λ q. q ++ (payload ∷ [])) s.one in
          (
            sound max_bytes c' (ground (arith, s.limit))
                (ground (arith, longer, sum, no_wrap, s.counted)) (ground (arith, longer, no_wrap))
                (ground (arith, longer, e, s.writing))
                (ground (arith, longer, e, s.writing, s.one, flown)),
            ground (arith, longer),
          )
      | inr (x, xs, e) ↦
          let longer : c.write_queue ++ (payload ∷ []) ≡ x ∷ (xs ++ (payload ∷ [])) =
            ap (λ q. q ++ (payload ∷ [])) e in
          (
            sound max_bytes c' (ground (arith, s.limit))
                (ground (arith, longer, sum, no_wrap, s.counted)) (ground (arith, longer, no_wrap))
                (ground (arith, longer, e, s.writing))
                (ground (arith, longer, e, s.writing, s.one)),
            ground (arith, longer),
          )
    ]

-- What a call leaves of an open connection: it is sound, and its queue is the old one with what was taken, less
-- what was written.
abbrev pub Keeps :
    ℕ → BackendConnection → BackendConnection × List (List ℕ) × List (List ℕ) → Type 0
Keeps max_bytes c (c', ins, outs) =
    Sound max_bytes c' × (c.write_queue ++ ins ≡ outs ++ c'.write_queue)

pub same-Keeps :
    (max_bytes : ℕ) (c : BackendConnection) → Sound max_bytes c → Keeps max_bytes c (c, [], [])
same-Keeps max_bytes c s = (s, append-nil c.write_queue)

pub send-Keeps :
    (max_bytes : ℕ) (c : BackendConnection) (payload : List ℕ)
    → max_bytes ≢ 0
    → max_bytes < 2 ^ 64
    → c.closed ≡ false
    → Sound max_bytes c
    → (send c payload).0.closed ≡ false
    → Keeps max_bytes c (step c (sends payload))
unfolding send close
send-Keeps max_bytes c payload some_limit small up s still =
    let over = exceeds_queue_budget c.send_queue_max_bytes c.queued_bytes (length payload) in
    elim (Bool-cases (is_empty payload)) [
      | inl e ↦ simp e (same-Keeps max_bytes c s)
      | inr e ↦ elim (Bool-cases over) [
        | inl o ↦ absurd (ground (arith, e, o, up, still))
        | inr o ↦
            let (sound', queue) =
              with_write-Sound max_bytes c payload small
                (room max_bytes c (length payload) some_limit s o) s in
            let used : send c payload ≡ (with_write c payload, true) = ground (arith, e, o, up) in
            subst (λ r. Keeps max_bytes c (r.0, (if r.1 then payload ∷ [] else []), [])) (sym used)
              (sound', sym queue)
      ]
    ]

pub on_connected-Keeps :
    (max_bytes : ℕ) (c : BackendConnection)
    → c.closed ≡ false
    → c.connected ≡ false
    → Sound max_bytes c
    → Keeps max_bytes c (on_connected c, [], [])
unfolding on_connected
on_connected-Keeps max_bytes c up down s =
    let c' = on_connected c in
    elim (List-cases c.write_queue) [
      | inl e ↦ (
        sound max_bytes c' (ground (arith, s.limit)) (ground (arith, s.counted))
            (ground (arith, s.fits)) (ground (arith, e, s.writing)) (ground (arith, e, s.one)),
        append-nil c.write_queue ∙ ground arith,
      )
      | inr (x, xs, e) ↦
          let nothing : c.in_flight ≡ [] = ground (arith, s.one, down) in
          let flown : c.in_flight ++ (x ∷ []) ≡ x ∷ [] = ap (λ q. q ++ (x ∷ [])) nothing in
          (
            sound max_bytes c' (ground (arith, s.limit)) (ground (arith, s.counted))
                (ground (arith, s.fits)) (ground (arith, e, s.writing))
                (ground (arith, e, s.one, flown)),
            append-nil c.write_queue ∙ ground arith,
          )
    ]

-- The connection when the front `x` of its queue was written and `xs` is the rest.
on_written-Keeps :
    (max_bytes : ℕ) (c : BackendConnection) (x : List ℕ) (xs : List (List ℕ))
    → c.closed ≡ false
    → c.connected ≡ true
    → c.write_queue ≡ x ∷ xs
    → Sound max_bytes c
    → Keeps max_bytes c (on_written (record c { in_flight = [] }) x, [], x ∷ [])
unfolding on_written
on_written-Keeps max_bytes c x xs open_yet up e s =
    let c' = on_written (record c { in_flight = [] }) x in
    let size : c.queued_bytes ≡ length x + total xs = s.counted ∙ ap total e in
    let popped : rest_of c.write_queue ≡ xs = ap rest_of e in
    let moved = append-nil c.write_queue ∙ e in
    elim (List-cases xs) [
      | inl f ↦ (
        sound max_bytes c' (ground (arith, s.limit)) (ground (arith, size, popped, e, f))
            (ground (arith, s.fits)) (ground (arith, popped, e, f)) (ground (arith, popped, e, f)),
        moved ∙ ground (arith, popped, e, f),
      )
      | inr (y, ys, f) ↦ (
        sound max_bytes c' (ground (arith, s.limit)) (ground (arith, size, popped, e, f))
            (ground (arith, s.fits)) (ground (arith, popped, e, f)) (ground (arith, popped, e, f)),
        moved ∙ ground (arith, popped, e, f),
      )
    ]

pub complete-Keeps :
    (max_bytes : ℕ) (c : BackendConnection)
    → c.closed ≡ false
    → Sound max_bytes c
    → Keeps max_bytes c (step c writes)
complete-Keeps max_bytes c open_yet s =
    let kind : List (List ℕ) → Type 0 =
      λ flying. Keeps max_bytes c ((complete c flying).0, [], (complete c flying).1) in
    elim (Bool-cases c.connected) [
      | inr down ↦
          let nothing : c.in_flight ≡ [] = ground (arith, s.one, down) in
          subst kind (sym nothing) (same-Keeps max_bytes c s)
      | inl up ↦ elim (List-cases c.write_queue) [
        | inl e ↦
            let nothing : c.in_flight ≡ [] = ground (arith, s.one, e) in
            subst kind (sym nothing) (same-Keeps max_bytes c s)
        | inr (x, xs, e) ↦
            let front : c.in_flight ≡ x ∷ [] = ground (arith, s.one, e, up) in
            subst kind (sym front) (on_written-Keeps max_bytes c x xs open_yet up e s)
      ]
    ]
