-- ===== src/Rudp/Engine/Run.antt =====
-- Histories of an engine between two resets: the calls that its owner makes, and the engine and the
-- deliveries that they lead to.
use knights.Base.{ℕ, List, [], ◌∷◌, ◌++◌, Option, none, some, if◌then◌else◌, is_empty}
use knights.Rudp.Packet.{decode_header}
use knights.Rudp.Engine.{RudpConfig, RudpEngine, new_engine, make_hello, make_close}
use knights.Rudp.Engine.Datagram.{process_datagram}
use knights.Rudp.Engine.Send.{queue_reliable_payload, poll}

-- The public calls, with the time at which each is made.
pub data Call : Type 0 where
  receives : List ℕ → ℕ → Call
  queues : List ℕ → ℕ → ℕ → Call
  polls : ℕ → Call
  greets : ℕ → ℕ → Call
  closes : ℕ → Call

-- A refused payload leaves the engine as it is.
abbrev pub or_same : RudpEngine → Option (RudpEngine × List ℕ) → RudpEngine
or_same e none = e
or_same e (some (e', out)) = e'

unfoldable pub step : RudpEngine → Call → RudpEngine
step e (receives datagram now) = (process_datagram e datagram now).0
step e (queues frame channel now) = or_same e (queue_reliable_payload e frame channel now)
step e (polls now) = (poll e now).0
step e (greets id now) = (make_hello e id now).0
step e (closes now) = (make_close e now).0

-- The packet number of a datagram whose payload the call hands up.
unfoldable pub delivered_by : RudpEngine → Call → List ℕ
delivered_by e (receives datagram now) =
    if is_empty (process_datagram e datagram now).1.inner_frames
    then []
    else (decode_header datagram).packet_number ∷ []
delivered_by e _ = []

-- The engine after a history, the newest call at the head.
unfoldable pub after : RudpConfig → List Call → RudpEngine
after config [] = new_engine config
after config (c ∷ cs) = step (after config cs) c

unfoldable pub delivered : RudpConfig → List Call → List ℕ
delivered config [] = []
delivered config (c ∷ cs) = delivered_by (after config cs) c ++ delivered config cs
