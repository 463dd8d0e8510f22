-- ===== src/Gateway/BackendConnection/Queue.antt =====
-- The payloads that a connection takes, holds and writes.
use knights.Base.{
  ℕ, ◌<◌, ◌≢◌, ◌^◌, ◌≡◌, ◌∙◌, ap, sym, refl, true, false, List, [], ◌∷◌, ◌++◌, append_assoc, arith,
  Bool-cases, inl, inr,
}
use knights.Gateway.BackendConnection.Sound.{
  Call, sends, connects, writes, fails, step, Sound, sound, Keeps, same-Keeps, send-Keeps,
  on_connected-Keeps, complete-Keeps,
}
use knights.Gateway.BackendConnection.{
  BackendConnection, new_connection, close, send, on_connected, on_written, complete,
}

-- The connection after a history, the last call first; the payloads that it took, and those that it wrote.
abbrev pub after : ℕ → List Call → BackendConnection
after max_bytes [] = new_connection max_bytes
after max_bytes (call ∷ cs) = (step (after max_bytes cs) call).0

abbrev pub taken : ℕ → List Call → List (List ℕ)
taken max_bytes [] = []
taken max_bytes (call ∷ cs) = taken max_bytes cs ++ (step (after max_bytes cs) call).1

abbrev pub written : ℕ → List Call → List (List ℕ)
written max_bytes [] = []
written max_bytes (call ∷ cs) = written max_bytes cs ++ (step (after max_bytes cs) call).2

step-Keeps :
    (max_bytes : ℕ) (c : BackendConnection) (call : Call)
    → max_bytes ≢ 0
    → max_bytes < 2 ^ 64
    → c.closed ≡ false
    → Sound max_bytes c
    → (step c call).0.closed ≡ false
    → Keeps max_bytes c (step c call)
unfolding close
step-Keeps max_bytes c (sends payload) some_limit small up s still =
    send-Keeps max_bytes c payload some_limit small up s still
step-Keeps max_bytes c connects some_limit small up s still = elim (Bool-cases c.connected) [
  | inl e ↦ simp e (same-Keeps max_bytes c s)
  | inr e ↦ simp e (on_connected-Keeps max_bytes c up e s)
]
step-Keeps max_bytes c writes some_limit small up s still = complete-Keeps max_bytes c up s
step-Keeps max_bytes c fails some_limit small up s still = absurd (ground (arith, up, still))

written_closed :
    (c : BackendConnection) (msg : List ℕ) → c.closed ≡ true → (on_written c msg).closed ≡ true
unfolding on_written
written_closed c msg h = ground (arith, h)

complete_closed :
    (c : BackendConnection) (flying : List (List ℕ))
    → c.closed ≡ true
    → (complete c flying).0.closed ≡ true
complete_closed c [] h = h
complete_closed c (msg ∷ others) h = written_closed (record c { in_flight = others }) msg h

stays_closed :
    (c : BackendConnection) (call : Call) → c.closed ≡ true → (step c call).0.closed ≡ true
unfolding send close on_connected
stays_closed c (sends payload) h = ground (arith, h)
stays_closed c connects h = ground (arith, h)
stays_closed c writes h = complete_closed c c.in_flight h
stays_closed c fails h = ground (arith, h)

was_open : (c : BackendConnection) (call : Call) → (step c call).0.closed ≡ false → c.closed ≡ false
was_open c call h = elim (Bool-cases c.closed) [
  | inl e ↦ let still = stays_closed c call e in absurd (ground arith)
  | inr e ↦ e
]

-- After every history that leaves the connection open, with a limit that is not 0 and below 2 ^ 64, the payloads
-- that it took are those that were written and then those of its queue, in order; the counter is the size of the
-- queue and within the limit; and while the connection is up exactly the front of the queue is being written.
pub after-Sound :
    (max_bytes : ℕ) (cs : List Call)
    → max_bytes ≢ 0
    → max_bytes < 2 ^ 64
    → (after max_bytes cs).closed ≡ false
    → Sound max_bytes (after max_bytes cs)
      × (taken max_bytes cs ≡ written max_bytes cs ++ (after max_bytes cs).write_queue)
after-Sound max_bytes [] some_limit small still =
    (sound max_bytes (new_connection max_bytes) refl refl (omega arith) refl refl, refl)
after-Sound max_bytes (call ∷ cs) some_limit small still =
    let c = after max_bytes cs in
    let up = was_open c call still in
    let (s, order) = after-Sound max_bytes cs some_limit small up in
    let (s', queue) = step-Keeps max_bytes c call some_limit small up s still in
    let (c', ins, outs) = step c call in
    (
      s',
      ap (λ t. t ++ ins) order
          ∙ append_assoc (written max_bytes cs) c.write_queue ins
          ∙ ap (λ t. written max_bytes cs ++ t) queue
          ∙ sym (append_assoc (written max_bytes cs) outs c'.write_queue),
    )
