-- ===== src/Gateway/SequencedMetrics.antt =====
-- gateway/include/gateway/udp_sequenced_metrics.hpp: loss and jitter of one UDP session. Sequence
-- numbers are uint32_t, times uint64_t.
pub mod Account
use knights.Base.{
  ℕ, ◌+◌, ◌-◌, Bool, true, false, not, ◌&&◌, List, [], ◌∷◌, ltb, leb, ◌==◌, if◌then◌else◌,
}
use knights.Base.Bits.{u32}

pub record UdpSequencedMetrics : Type 0 where
  pub initialized : Bool
  pub last_seq : ℕ
  pub last_recv_ms : ℕ
  pub last_interarrival_ms : ℕ

pub record UpdateResult : Type 0 where
  pub accepted : Bool
  pub duplicate : Bool
  pub reordered : Bool
  pub estimated_lost_packets : ℕ
  pub jitter_ms : ℕ

abbrev pub default_update : UpdateResult
default_update = record {
  accepted = false;
  duplicate = false;
  reordered = false;
  estimated_lost_packets = 0;
  jitter_ms = 0;
}

-- `reset`, which is also the state of a new tracker.
unfoldable pub reset : UdpSequencedMetrics
reset = record { initialized = false; last_seq = 0; last_recv_ms = 0; last_interarrival_ms = 0 }

-- The block under `if (last_recv_ms_ != 0)`: the new interarrival time, and the jitter.
pub arrival : UdpSequencedMetrics → ℕ → ℕ × ℕ
arrival m recv_unix_ms =
    let gap = recv_unix_ms - m.last_recv_ms in
    let old = m.last_interarrival_ms in
    let jitter = if old == 0 then 0 else if leb old gap then gap - old else old - gap in
    if m.last_recv_ms == 0
    then (old, 0)
    else (if leb m.last_recv_ms recv_unix_ms then (gap, jitter) else (0, 0))

unfoldable pub on_packet : UdpSequencedMetrics → ℕ → ℕ → UdpSequencedMetrics × UpdateResult
unfolding arrival
on_packet m seq recv_unix_ms =
    let (interarrival, jitter) = arrival m recv_unix_ms in
    let lost = if ltb (u32 (m.last_seq + 1)) seq then u32 (seq - m.last_seq - 1) else 0 in
    if not m.initialized
    then (
      record {
        initialized = true;
        last_seq = seq;
        last_recv_ms = recv_unix_ms;
        last_interarrival_ms = 0;
      },
      record default_update { accepted = true },
    )
    else (if seq == m.last_seq
        then (m, record default_update { duplicate = true })
        else (if ltb seq m.last_seq then (m, record default_update { reordered = true }) else (
          record m {
            last_seq = seq;
            last_recv_ms = recv_unix_ms;
            last_interarrival_ms = interarrival;
          },
          record default_update {
            accepted = true;
            estimated_lost_packets = lost;
            jitter_ms = jitter;
          },
        )))

-- What a session adds up over packets `(seq, time)`, the newest at the head: the tracker, the number
-- accepted, and the number estimated to be lost.
pub record Session : Type 0 where
  pub tracker : UdpSequencedMetrics
  pub accepted_total : ℕ
  pub lost_total : ℕ

unfoldable pub session : List (ℕ × ℕ) → Session
session [] = record { tracker = reset; accepted_total = 0; lost_total = 0 }
session ((seq, time) ∷ earlier) =
    let s = session earlier in
    let (tracker, r) = on_packet s.tracker seq time in
    record {
      tracker = tracker;
      accepted_total = s.accepted_total + (if r.accepted then 1 else 0);
      lost_total = s.lost_total + r.estimated_lost_packets;
    }
