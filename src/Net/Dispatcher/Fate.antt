-- ===== src/Net/Dispatcher/Fate.antt =====
-- What becomes of a message: run, scheduled or answered by an error.
use knights.Base.{
  ℕ, ◌≡◌, ap, sym, subst, inl, inr, refl, Bool, true, false, not, ◌&&◌, Option, none, some, List,
  [], ◌∷◌, ◌++◌, if◌then◌else◌, length, Bool-cases, append-nil, arith, ◌||◌, ◌==◌, ltb,
}
use knights.Concurrent.JobQueue.{JobQueue, try_push}
use knights.Net.Dispatcher.{
  SessionStatus, ProcessingPlace, inline, worker, room_strand, unsupported, TransportKind,
  OpcodePolicy, transport_allows, satisfies_required_state, forbidden, Task, Entry, Context, find,
  send_error, post_serialized, place_task, dispatch, run_handler_with_guard, run_on_strand,
  queue_job, run_on_worker, dispatch_entry,
}

abbrev pub jobs_of : {H : Type 0} → Option (JobQueue (Task H)) → List (Task H)
jobs_of none = []
jobs_of (some queue) = queue.jobs

abbrev pub is_inline : ProcessingPlace → Bool
is_inline inline = true
is_inline worker = false
is_inline room_strand = false
is_inline unsupported = false

abbrev pub is_room_strand : ProcessingPlace → Bool
is_room_strand inline = false
is_room_strand worker = false
is_room_strand room_strand = true
is_room_strand unsupported = false

abbrev pub is_worker : ProcessingPlace → Bool
is_worker inline = false
is_worker worker = true
is_worker room_strand = false
is_worker unsupported = false

-- A worker queue that is registered, runs and has room.
abbrev pub queue_takes : {H : Type 0} → Option (JobQueue (Task H)) → Bool
queue_takes none = false
queue_takes (some queue) =
    not queue.stopping && (queue.max_size == 0 || ltb (length queue.jobs) queue.max_size)

-- Whether a task can go to the place.
abbrev pub can_take : {H : Type 0} → Context H → ProcessingPlace → Bool
can_take c inline = true
can_take c worker = c.is_shared && queue_takes c.job_queue
can_take c room_strand = c.is_shared
can_take c unsupported = false

abbrev pub when {ℓ} : {A : Type ℓ} → Bool → A → List A
when b x = if b then x ∷ [] else []

-- What a task for the place does to `c`, `status` and `throws` being what its handler leaves: it is added to
-- the list of the place, and to no other, if the place can take it; an error is sent if it cannot or if the
-- handler, run at once, throws; and only a handler that ran changes the status.
abbrev pub Placed :
    {H : Type 0} → Context H → ProcessingPlace → Task H → SessionStatus × Bool → Context H → Type 0
Placed c place task (status, throws) c' =
    (c'.ran ≡ c.ran ++ when (is_inline place) task)
    × (c'.strand ≡ c.strand ++ when (is_room_strand place && can_take c place) task)
    × (jobs_of c'.job_queue
        ≡ jobs_of c.job_queue ++ when (is_worker place && can_take c place) task)
    × (c'.errors
        ≡ c.errors
          ++ (if is_inline place
              then when throws 1
              else (if is_worker place || is_room_strand place
                  then when (not (can_take c place)) 8
                  else 1 ∷ [])))
    × (c'.session_status ≡ (if is_inline place then status else c.session_status))
    × (c'.is_shared ≡ c.is_shared)

abbrev pub is_allowed : OpcodePolicy → SessionStatus → TransportKind → Bool
is_allowed policy current kind =
    transport_allows policy.transport kind && satisfies_required_state policy.required_state current

module _ {H : Type 0} (run : Task H → SessionStatus → SessionStatus × Bool) where
  -- What a message with the payload does to the context `c` when its policy allows it or not.
  abbrev pub Handled : Bool → Context H → Entry H → List ℕ → Context H → Type 0
  Handled true c entry payload c' =
      let task : Task H = record { handler = entry.handler; payload = payload } in
      Placed c entry.policy.processing_place task (run task c.session_status) c'
  Handled false c entry payload c' = c' ≡ record c { errors = c.errors ++ 258 ∷ [] }

  -- The context and the answer after a message with the entry `o`.
  abbrev pub Fate :
      Context H → Option (Entry H) → List ℕ → TransportKind → Context H → Bool → Type 0
  Fate c none payload kind c' answer = (answer ≡ false) × (c' ≡ c)
  Fate c (some entry) payload kind c' answer =
      (answer ≡ true) × Handled (is_allowed entry.policy c.session_status kind) c entry payload c'

  worker_queue-Placed :
      (c : Context H) (o : Option (JobQueue (Task H))) (task : Task H) (r : SessionStatus × Bool)
      → c.job_queue ≡ o
      → c.is_shared ≡ true
      → Placed c worker task r (run_on_worker run c o task)
  unfolding run_on_worker queue_job try_push
  worker_queue-Placed c none task (status, throws) e shared =
      let old : jobs_of c.job_queue ≡ [] = ap jobs_of e in
      let room : queue_takes c.job_queue ≡ false = ap queue_takes e in
      ground (arith, append-nil c.ran, append-nil c.strand, old, room)
  worker_queue-Placed c (some queue) task (status, throws) e shared =
      let old : jobs_of c.job_queue ≡ queue.jobs = ap jobs_of e in
      let room : queue_takes c.job_queue ≡ queue_takes (some queue) = ap queue_takes e in
      ground (
        arith,
        append-nil c.ran,
        append-nil c.strand,
        append-nil queue.jobs,
        append-nil c.errors,
        old,
        room,
      )

  place_task-Placed :
      (c : Context H) (place : ProcessingPlace) (task : Task H)
      → Placed c place task (run task c.session_status) (place_task run c place task)
  unfolding place_task run_handler_with_guard run_on_strand post_serialized
  place_task-Placed c unsupported task = (
    sym (append-nil c.ran),
    sym (append-nil c.strand),
    sym (append-nil (jobs_of c.job_queue)),
    refl,
    refl,
    refl,
  )
  place_task-Placed c inline task =
      ground (arith, append-nil c.strand, append-nil (jobs_of c.job_queue), append-nil c.errors)
  place_task-Placed c room_strand task = ground (
    arith,
    append-nil c.ran,
    append-nil c.strand,
    append-nil (jobs_of c.job_queue),
    append-nil c.errors,
  )
  place_task-Placed c worker task = elim (Bool-cases c.is_shared) [
    | inl e ↦
        let p : place_task run c worker task ≡ run_on_worker run c c.job_queue task =
          ground arith in
        subst (Placed c worker task (run task c.session_status)) (sym p)
          (worker_queue-Placed c c.job_queue task (run task c.session_status) refl e)
    | inr e ↦ ground (
      arith,
      append-nil c.ran,
      append-nil c.strand,
      append-nil (jobs_of c.job_queue),
      append-nil c.errors,
    )
  ]

  checked-Handled :
      (c placed : Context H) (entry : Entry H) (payload : List ℕ) (by_transport by_state : Bool)
      → Handled true c entry payload placed
      → let r : Context H × Bool =
          if not by_transport
          then (send_error c forbidden, true)
          else (if not by_state then (send_error c forbidden, true) else (placed, true)) in
        (r.1 ≡ true) × Handled (by_transport && by_state) c entry payload r.0
  checked-Handled c placed entry payload true true h = (refl, h)
  checked-Handled c placed entry payload true false h = (refl, refl)
  checked-Handled c placed entry payload false by_state h = (refl, refl)

  dispatch_entry-Fate :
      (c : Context H) (o : Option (Entry H)) (payload : List ℕ) (kind : TransportKind)
      → Fate c o payload kind
          (dispatch_entry run c o payload kind).0
          (dispatch_entry run c o payload kind).1
  unfolding dispatch_entry
  dispatch_entry-Fate c none payload kind = (refl, refl)
  dispatch_entry-Fate c (some entry) payload kind =
      let task : Task H = record { handler = entry.handler; payload = payload } in
      checked-Handled c (place_task run c entry.policy.processing_place task) entry payload
        (transport_allows entry.policy.transport kind)
        (satisfies_required_state entry.policy.required_state c.session_status)
        (place_task-Placed c entry.policy.processing_place task)

  -- `dispatch` answers false and changes nothing when the message has no handler. Otherwise it answers true.
  -- If the policy forbids the transport or the session's status, the only change is the error FORBIDDEN. If
  -- it allows them, the message becomes the task of its handler with its payload: run at once, or added at the
  -- end of the strand or of the worker queue, whichever the policy names, and nowhere else. A strand takes it
  -- if a `shared_ptr` owns the session, a worker queue if it also is registered, runs and has room; the one
  -- that does not is answered by exactly one SERVER_BUSY. An unknown place or a handler that throws is
  -- answered by exactly one INTERNAL_ERROR; no other error is sent.
  pub dispatch-Fate :
      (table : List (ℕ × Entry H)) (msg_id : ℕ) (c : Context H) (payload : List ℕ)
      (kind : TransportKind)
      → Fate c
          (find table msg_id)
          payload
          kind
          (dispatch run table msg_id c payload kind).0
          (dispatch run table msg_id c payload kind).1
  unfolding dispatch
  dispatch-Fate table msg_id c payload kind = dispatch_entry-Fate c (find table msg_id) payload kind
