-- ===== src/Gateway/BackendConnection.antt =====
-- The send queue of `GatewayApp::BackendConnection` in gateway/src/gateway_app.cpp, and
-- core/include/server/core/net/queue_budget.hpp. The socket is I/O: `in_flight` holds the payloads whose
-- `async_write` has not completed, and the completions are calls of the model. A payload is a list of bytes.
pub mod Sound
pub mod Queue
use knights.Base.{
  ℕ, ◌+◌, ◌-◌, Bool, true, false, not, ◌&&◌, ◌||◌, List, [], ◌∷◌, ◌++◌, ltb, leb, ◌==◌,
  if◌then◌else◌, is_empty, length,
}
use knights.Base.Bits.{u64}

pub record BackendConnection : Type 0 where
  pub closed : Bool
  pub connected : Bool
  pub write_in_progress : Bool
  pub queued_bytes : ℕ
  pub send_queue_max_bytes : ℕ
  pub write_queue : List (List ℕ)
  pub in_flight : List (List ℕ)

abbrev pub new_connection : ℕ → BackendConnection
new_connection max_bytes = record {
  closed = false;
  connected = false;
  write_in_progress = false;
  queued_bytes = 0;
  send_queue_max_bytes = max_bytes;
  write_queue = [];
  in_flight = [];
}

unfoldable pub exceeds_queue_budget : ℕ → ℕ → ℕ → Bool
exceeds_queue_budget queue_max_bytes queued_bytes incoming_bytes =
    if queue_max_bytes == 0
    then false
    else (if ltb queue_max_bytes incoming_bytes
        then true
        else ltb (queue_max_bytes - incoming_bytes) queued_bytes)

abbrev pub write_front : BackendConnection → List (List ℕ) → BackendConnection
write_front c [] = record c { write_in_progress = false }
write_front c (msg ∷ queue) = record c {
  write_in_progress = true;
  in_flight = c.in_flight ++ (msg ∷ []);
}

-- The pointers in the queue are never null.
abbrev pub do_write : BackendConnection → BackendConnection
do_write c = write_front c c.write_queue

unfoldable pub close : BackendConnection → BackendConnection
close c = if c.closed then c else record c {
  closed = true;
  write_queue = [];
  queued_bytes = 0;
  connected = false;
  write_in_progress = false;
}

-- The connection that a `send` leaves, and whether it took the payload; on an overflow the connection is closed.
unfoldable pub send : BackendConnection → List ℕ → BackendConnection × Bool
send c payload =
    let queued = record c {
      queued_bytes = u64 (c.queued_bytes + length payload);
      write_queue = c.write_queue ++ (payload ∷ []);
    } in
    if is_empty payload
    then (c, false)
    else (if c.closed
        then (c, false)
        else (if exceeds_queue_budget c.send_queue_max_bytes c.queued_bytes (length payload)
            then (close c, false)
            else (if c.connected && not c.write_in_progress
                then (do_write queued, true)
                else (queued, true))))

-- The handler of a connect that succeeded, up to the binding and the read.
unfoldable pub on_connected : BackendConnection → BackendConnection
on_connected c =
    let c' = record c { connected = true } in
    if c.closed then c else if is_empty c.write_queue then c' else do_write c'

abbrev pub rest_of : List (List ℕ) → List (List ℕ)
rest_of [] = []
rest_of (x ∷ xs) = xs

-- The handler of a write of `msg` that succeeded.
unfoldable pub on_written : BackendConnection → List ℕ → BackendConnection
on_written c msg =
    let popped = record c {
      queued_bytes = if leb (length msg) c.queued_bytes then c.queued_bytes - length msg else 0;
      write_queue = rest_of c.write_queue;
    } in
    let c' = if is_empty c.write_queue then c else popped in
    if c.closed
    then c
    else if is_empty c'.write_queue
    then record c' { write_in_progress = false }
    else do_write c'

-- A write completes: its handler, and the payload that was written.
abbrev pub complete : BackendConnection → List (List ℕ) → BackendConnection × List (List ℕ)
complete c [] = (c, [])
complete c (msg ∷ others) = (on_written (record c { in_flight = others }) msg, msg ∷ [])

-- `close_socket_for_retry`
unfoldable pub close_socket_for_retry : BackendConnection → BackendConnection
close_socket_for_retry c = record c { connected = false; write_in_progress = false }
