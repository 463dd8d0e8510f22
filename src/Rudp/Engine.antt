-- ===== src/Rudp/Engine.antt =====
-- core/src/net/rudp/rudp_engine.cpp, with RudpConfig and RudpPeerState of rudp_peer_state.hpp: the
-- engine for one peer. A method returns the engine that it leaves. The calls of runtime_metrics only
-- count, so they are left out. Times are uint64_t milliseconds.
pub mod Datagram
pub mod Send
pub mod Delivery
pub mod Queue
pub mod Run
pub mod Data
pub mod Wire
pub mod Exchange
use knights.Base.{
  ℕ, ◌+◌, ◌-◌, ◌^◌, ◌%◌, Bool, true, false, not, ◌&&◌, ◌||◌, Option, none, some, List, [], ◌∷◌, map,
  ltb, leb, ◌==◌, if◌then◌else◌, length, is_empty, set, min, bit_and, bit_or,
}
use knights.Base.Bits.{u8, u16, u32, u64}
use knights.Protocol.Bytes.{byte_at}
use knights.Rudp.AckWindow
use knights.Rudp.AckWindow.{AckWindow, AckObservation}
use knights.Rudp.Retransmission
use knights.Rudp.Retransmission.{RetransmissionQueue, PendingPacket}
use knights.Rudp.Rtt.{RttEstimator, default_rtt}
use knights.Rudp.Rtt
use knights.Rudp.Packet.{
  RudpHeader, default_header, rudp_header_bytes, type_hello, type_hello_ack, type_data, type_ping,
  type_close, flag_ack_only, flag_retransmit, encode_packet, decode_packet, looks_like_rudp,
}

-- `LifecycleState`
pub data LifecycleState : Type 0 where
  idle hello_sent hello_received established draining closed : LifecycleState

-- The texts that the engine passes to `set_fallback`. `unspecified` stands for a string that has
-- been moved from, whose content C++ leaves open; `no_reason` is the empty string.
pub data Reason : Type 0 where
  no_reason unspecified : Reason
  handshake_timeout idle_timeout invalid_packet connection_id_mismatch : Reason
  not_established peer_closed : Reason

pub record RudpConfig : Type 0 where
  pub handshake_timeout_ms : ℕ
  pub idle_timeout_ms : ℕ
  pub ack_delay_ms : ℕ
  pub rto_min_ms : ℕ
  pub rto_max_ms : ℕ
  pub max_inflight_packets : ℕ
  pub max_inflight_bytes : ℕ
  pub mtu_payload_bytes : ℕ

abbrev pub default_config : RudpConfig
default_config = record {
  handshake_timeout_ms = 1500;
  idle_timeout_ms = 10000;
  ack_delay_ms = 10;
  rto_min_ms = 50;
  rto_max_ms = 2000;
  max_inflight_packets = 256;
  max_inflight_bytes = 262144;
  mtu_payload_bytes = 1200;
}

pub record RudpPeerState : Type 0 where
  pub lifecycle : LifecycleState
  pub connection_id : ℕ
  pub next_packet_number : ℕ
  pub last_recv_unix_ms : ℕ
  pub last_send_unix_ms : ℕ
  pub last_ack_emit_unix_ms : ℕ
  pub ack_largest : ℕ
  pub ack_mask : ℕ
  pub fallback_required : Bool
  pub fallback_reason : Reason
  pub rtt : RttEstimator

abbrev pub default_state : RudpPeerState
default_state = record {
  lifecycle = idle;
  connection_id = 0;
  next_packet_number = 1;
  last_recv_unix_ms = 0;
  last_send_unix_ms = 0;
  last_ack_emit_unix_ms = 0;
  ack_largest = 0;
  ack_mask = 0;
  fallback_required = false;
  fallback_reason = no_reason;
  rtt = default_rtt;
}

pub record RudpEngine : Type 0 where
  pub config : RudpConfig
  pub state : RudpPeerState
  pub ack_window : AckWindow
  pub retransmission_queue : RetransmissionQueue

pub record ProcessResult : Type 0 where
  pub parsed : Bool
  pub consumed : Bool
  pub handshake_established : Bool
  pub fallback_required : Bool
  pub fallback_reason : Reason
  pub egress_datagrams : List (List ℕ)
  pub inner_frames : List (List ℕ)
  pub retransmit_count : ℕ

abbrev pub default_result : ProcessResult
default_result = record {
  parsed = false;
  consumed = false;
  handshake_established = false;
  fallback_required = false;
  fallback_reason = no_reason;
  egress_datagrams = [];
  inner_frames = [];
  retransmit_count = 0;
}

-- The constructor.
unfoldable pub new_engine : RudpConfig → RudpEngine
unfolding AckWindow.reset Retransmission.reset
new_engine config = record {
  config = config;
  state = default_state;
  ack_window = AckWindow.reset;
  retransmission_queue = Retransmission.reset;
}

unfoldable pub reset : RudpEngine → RudpEngine
unfolding AckWindow.reset Retransmission.reset
reset e = record e {
  state = default_state;
  ack_window = AckWindow.reset;
  retransmission_queue = Retransmission.reset;
}

pub now32 : ℕ → ℕ
now32 now_unix_ms = u32 (bit_and now_unix_ms 0xffff_ffff)

-- The header that `make_packet` fills in.
abbrev pub packet_header : RudpConfig → RudpPeerState → ℕ → ℕ → ℕ → ℕ → ℕ → ℕ → RudpHeader
packet_header config state packet_type flags channel packet_number now_unix_ms size =
    record default_header {
      packet_type = packet_type;
      flags = flags;
      channel = channel;
      connection_id = state.connection_id;
      packet_number = packet_number;
      ack_largest = state.ack_largest;
      ack_mask = state.ack_mask;
      ack_delay_ms = u16 (min config.ack_delay_ms 0xffff);
      timestamp_ms = now32 now_unix_ms;
      payload_length = u16 size;
    }

unfoldable pub make_packet : RudpConfig → RudpPeerState → ℕ → ℕ → ℕ → ℕ → ℕ → List ℕ → List ℕ
make_packet config state packet_type flags channel packet_number now_unix_ms payload =
    encode_packet
      (packet_header config state packet_type flags channel packet_number now_unix_ms
        (length payload))
      payload

-- `mark_fallback`, the lifecycle, and the reason, which is moved out of the state into the result.
unfoldable pub set_fallback : RudpPeerState → ProcessResult → Reason → RudpPeerState × ProcessResult
set_fallback state result reason = (
  record state { fallback_required = true; fallback_reason = unspecified; lifecycle = draining },
  record result { fallback_required = true; fallback_reason = reason },
)

unfoldable pub make_hello : RudpEngine → ℕ → ℕ → RudpEngine × List ℕ
make_hello e connection_id now_unix_ms =
    let state = record (e.state) {
      connection_id = connection_id;
      lifecycle = hello_sent;
      last_send_unix_ms = now_unix_ms;
    } in
    (record e { state = state }, make_packet e.config state type_hello 0 0 0 now_unix_ms [])

unfoldable pub make_close : RudpEngine → ℕ → RudpEngine × List ℕ
make_close e now_unix_ms =
    let state = record (e.state) { lifecycle = closed; last_send_unix_ms = now_unix_ms } in
    (record e { state = state }, make_packet e.config state type_close 0 0 0 now_unix_ms [])

abbrev pub is_established : LifecycleState → Bool
is_established established = true
is_established _ = false

abbrev pub is_hello_sent : LifecycleState → Bool
is_hello_sent hello_sent = true
is_hello_sent _ = false
