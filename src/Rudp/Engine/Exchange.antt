-- ===== src/Rudp/Engine/Exchange.antt =====
-- A payload from `queue_reliable_payload` of one engine to `process_datagram` of its peer.
use knights.Base.{ℕ, ◌≡◌, List, [], ◌∷◌, ◌++◌, ◌+◌, ◌^◌, ◌%◌}
use knights.Rudp.Packet.{type_data}
use knights.Rudp.Retransmission.{new_entry}
use knights.Rudp.Retransmission
use knights.Rudp.Engine.{RudpEngine, make_packet}

-- What an accepted payload leaves behind.
abbrev Queued : RudpEngine → List ℕ → ℕ → ℕ → RudpEngine × List ℕ → Type 0
Queued e frame channel now (e', datagram) =
    let n = e.state.next_packet_number in
    (datagram ≡ make_packet e.config e.state type_data 0 channel n now frame)
    × (e'.state.next_packet_number ≡ (n + 1) % 2 ^ 32)
    × (e'.retransmission_queue.pending
        ≡ e.retransmission_queue.pending ++ new_entry n now datagram ∷ [])
