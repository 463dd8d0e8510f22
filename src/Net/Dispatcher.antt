-- ===== src/Net/Dispatcher.antt =====
-- `Dispatcher` of core/src/net/dispatcher.cpp, the policies of
-- core/include/server/core/protocol/opcode_policy.hpp and `Session::post_serialized` of
-- core/src/net/session.cpp. The handlers are a parameter; logs and metrics are left out.
pub mod Policy
pub mod Fate
use knights.Base.{
  ℕ, Bool, true, false, not, ◌&&◌, ◌||◌, Option, none, some, List, [], ◌∷◌, ◌++◌, ◌==◌,
  if◌then◌else◌,
}
use knights.Concurrent.JobQueue.{JobQueue, try_push}

pub data SessionStatus : Type 0 where
  any : SessionStatus
  authenticated : SessionStatus
  in_room : SessionStatus
  admin : SessionStatus

-- `unsupported` stands for every other value of the enumeration's byte.
pub data ProcessingPlace : Type 0 where
  inline : ProcessingPlace
  worker : ProcessingPlace
  room_strand : ProcessingPlace
  unsupported : ProcessingPlace

pub data TransportMask : Type 0 where
  no_transport : TransportMask
  only_tcp : TransportMask
  only_udp : TransportMask
  both : TransportMask

pub data TransportKind : Type 0 where
  tcp : TransportKind
  udp : TransportKind

pub data DeliveryClass : Type 0 where
  reliable_ordered : DeliveryClass
  reliable : DeliveryClass
  unreliable_sequenced : DeliveryClass

pub record OpcodePolicy : Type 0 where
  pub required_state : SessionStatus
  pub processing_place : ProcessingPlace
  pub transport : TransportMask
  pub delivery : DeliveryClass
  pub channel : ℕ

abbrev pub default_opcode_policy : OpcodePolicy
default_opcode_policy = record {
  required_state = any;
  processing_place = inline;
  transport = only_tcp;
  delivery = reliable_ordered;
  channel = 0;
}

unfoldable pub transport_allows : TransportMask → TransportKind → Bool
transport_allows both kind = true
transport_allows no_transport kind = false
transport_allows only_tcp tcp = true
transport_allows only_udp tcp = false
transport_allows only_tcp udp = false
transport_allows only_udp udp = true

unfoldable pub satisfies_required_state : SessionStatus → SessionStatus → Bool
satisfies_required_state any current = true
satisfies_required_state authenticated any = false
satisfies_required_state authenticated authenticated = true
satisfies_required_state authenticated in_room = true
satisfies_required_state authenticated admin = true
satisfies_required_state in_room any = false
satisfies_required_state in_room authenticated = false
satisfies_required_state in_room in_room = true
satisfies_required_state in_room admin = true
satisfies_required_state admin any = false
satisfies_required_state admin authenticated = false
satisfies_required_state admin in_room = false
satisfies_required_state admin admin = true

-- core/include/server/core/protocol/protocol_errors.hpp
abbrev pub internal_error : ℕ
internal_error = 1

abbrev pub server_busy : ℕ
server_busy = 8

abbrev pub forbidden : ℕ
forbidden = 258

-- `invoke_on_session`: a handler with its copy of the payload.
pub record Task (H : Type 0) : Type 0 where
  pub handler : H
  pub payload : List ℕ

pub record Entry (H : Type 0) : Type 0 where
  pub handler : H
  pub policy : OpcodePolicy

-- What a dispatch reads and changes: the session's status, whether a `shared_ptr` owns it, the error codes
-- sent to it, the tasks run on it and posted to its strand, and the worker queue if it is registered.
pub record Context (H : Type 0) : Type 0 where
  pub session_status : SessionStatus
  pub is_shared : Bool
  pub errors : List ℕ
  pub ran : List (Task H)
  pub strand : List (Task H)
  pub job_queue : Option (JobQueue (Task H))

abbrev pub register_handler :
    {H : Type 0} → List (ℕ × Entry H) → ℕ → H → OpcodePolicy → List (ℕ × Entry H)
register_handler [] msg_id handler policy =
    (msg_id, record { handler = handler; policy = policy }) ∷ []
register_handler ((id, entry) ∷ table) msg_id handler policy =
    let rest = register_handler table msg_id handler policy in
    if id == msg_id
    then (msg_id, record { handler = handler; policy = policy }) ∷ table
    else (id, entry) ∷ rest

abbrev pub find : {H : Type 0} → List (ℕ × Entry H) → ℕ → Option (Entry H)
find [] msg_id = none
find ((id, entry) ∷ table) msg_id =
    let rest = find table msg_id in if id == msg_id then some entry else rest

abbrev pub send_error : {H : Type 0} → Context H → ℕ → Context H
send_error c code = record c { errors = c.errors ++ (code ∷ []) }

unfoldable pub post_serialized : {H : Type 0} → Context H → Task H → Context H × Bool
post_serialized c task =
    if c.is_shared then (record c { strand = c.strand ++ (task ∷ []) }, true) else (c, false)

-- `run` says which status a handler leaves and whether it throws.
module _ {H : Type 0} (run : Task H → SessionStatus → SessionStatus × Bool) where
  run_handler_with_guard : Context H → Task H → Context H
  run_handler_with_guard c task =
      let (status, throws) = run task c.session_status in
      let c' : Context H = record c { session_status = status; ran = c.ran ++ (task ∷ []) } in
      if throws then send_error c' internal_error else c'

  run_on_strand : Context H × Bool → Context H
  run_on_strand (c, true) = c
  run_on_strand (c, false) = send_error c server_busy

  queue_job : Context H → JobQueue (Task H) × Bool → Context H
  queue_job c (queue, true) = record c { job_queue = some queue }
  queue_job c (queue, false) = send_error (record c { job_queue = some queue }) server_busy

  run_on_worker : Context H → Option (JobQueue (Task H)) → Task H → Context H
  run_on_worker c none task = send_error c server_busy
  run_on_worker c (some queue) task = queue_job c (try_push queue (some task))

  -- The body of `dispatch` after the checks of the policy.
  unfoldable pub place_task : Context H → ProcessingPlace → Task H → Context H
  unfolding run_handler_with_guard run_on_strand queue_job run_on_worker
  place_task c unsupported task = send_error c internal_error
  place_task c inline task = run_handler_with_guard c task
  place_task c room_strand task =
      if not c.is_shared then send_error c server_busy else run_on_strand (post_serialized c task)
  place_task c worker task =
      if not c.is_shared then send_error c server_busy else run_on_worker c c.job_queue task

  dispatch_entry : Context H → Option (Entry H) → List ℕ → TransportKind → Context H × Bool
  dispatch_entry c none payload transport = (c, false)
  dispatch_entry c (some entry) payload transport =
      if not (transport_allows entry.policy.transport transport)
      then (send_error c forbidden, true)
      else (if not (satisfies_required_state entry.policy.required_state c.session_status)
          then (send_error c forbidden, true)
          else (
            place_task c entry.policy.processing_place
                (record { handler = entry.handler; payload = payload }),
            true,
          ))

  unfoldable pub dispatch :
      List (ℕ × Entry H) → ℕ → Context H → List ℕ → TransportKind → Context H × Bool
  unfolding dispatch_entry
  dispatch table msg_id c payload transport = dispatch_entry c (find table msg_id) payload transport
