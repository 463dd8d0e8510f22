-- ===== src/Rudp/Packet.antt =====
-- core/include/server/core/net/rudp/rudp_packet.hpp: the outer header and its codec.
pub mod RoundTrip
use knights.Base.{
  ℕ, ◌+◌, ◌*◌, ◌^◌, ◌≤◌, ◌<◌, ◌≡◌, Bool, true, false, not, ◌&&◌, Option, none, some, List, [], ◌∷◌,
  ◌++◌, ltb, leb, ◌==◌, if◌then◌else◌, length, take, drop, bit_and, bit_or,
}
use knights.Base.Bits.{shl, shr, u16, u32}
use knights.Protocol.Bytes.{byte_at, read_be16, read_be32, write_be16, write_be32}

abbrev pub rudp_magic : ℕ
rudp_magic = 0x5255

abbrev pub rudp_header_bytes : ℕ
rudp_header_bytes = 34

-- `PacketType`. A received byte is cast to the enum, so the field keeps the byte itself.
abbrev pub type_hello : ℕ
type_hello = 1

abbrev pub type_hello_ack : ℕ
type_hello_ack = 2

abbrev pub type_data : ℕ
type_data = 3

abbrev pub type_ping : ℕ
type_ping = 4

abbrev pub type_close : ℕ
type_close = 5

-- `PacketFlags`
abbrev pub flag_ack_only : ℕ
flag_ack_only = 1

abbrev pub flag_retransmit : ℕ
flag_retransmit = 2

pub record RudpHeader : Type 0 where
  pub magic : ℕ
  pub version : ℕ
  pub packet_type : ℕ
  pub connection_id : ℕ
  pub packet_number : ℕ
  pub ack_largest : ℕ
  pub ack_mask : ℕ
  pub ack_delay_ms : ℕ
  pub channel : ℕ
  pub flags : ℕ
  pub timestamp_ms : ℕ
  pub payload_length : ℕ

-- The default member initialisers.
abbrev pub default_header : RudpHeader
default_header = record {
  magic = rudp_magic;
  version = 1;
  packet_type = type_data;
  connection_id = 0;
  packet_number = 0;
  ack_largest = 0;
  ack_mask = 0;
  ack_delay_ms = 0;
  channel = 0;
  flags = 0;
  timestamp_ms = 0;
  payload_length = 0;
}

-- The 34 bytes in the order of their offsets.
unfoldable pub encode_header : RudpHeader → List ℕ
unfolding write_be16 write_be32
encode_header h =
    write_be16 h.magic
    ++ (h.version ∷ h.packet_type ∷ [])
    ++ write_be32 h.connection_id
    ++ write_be32 h.packet_number
    ++ write_be32 h.ack_largest
    ++ write_be32 (bit_and (shr h.ack_mask 32) 0xffff_ffff)
    ++ write_be32 (bit_and h.ack_mask 0xffff_ffff)
    ++ write_be16 h.ack_delay_ms
    ++ (h.channel ∷ h.flags ∷ [])
    ++ write_be32 h.timestamp_ms
    ++ write_be16 h.payload_length

-- The header that `decode_packet` reads, with no regard to the size.
unfoldable pub decode_header : List ℕ → RudpHeader
unfolding read_be16 read_be32
decode_header d = record {
  magic = read_be16 d 0;
  version = byte_at d 2;
  packet_type = byte_at d 3;
  connection_id = read_be32 d 4;
  packet_number = read_be32 d 8;
  ack_largest = read_be32 d 12;
  ack_mask = bit_or (shl (read_be32 d 16) 32) (read_be32 d 20);
  ack_delay_ms = read_be16 d 24;
  channel = byte_at d 26;
  flags = byte_at d 27;
  timestamp_ms = read_be32 d 28;
  payload_length = read_be16 d 32;
}

-- `none` is a result with `ok` false.
unfoldable pub decode_packet : List ℕ → Option (RudpHeader × List ℕ)
decode_packet datagram =
    let header = decode_header datagram in
    if ltb (length datagram) rudp_header_bytes
    then none
    else (if not (length datagram == rudp_header_bytes + header.payload_length)
        then none
        else some (header, take header.payload_length (drop rudp_header_bytes datagram)))

unfoldable pub encode_packet : RudpHeader → List ℕ → List ℕ
unfolding encode_header
encode_packet header payload =
    encode_header (record header { payload_length = u16 (length payload) }) ++ payload

unfoldable pub looks_like_rudp : List ℕ → Bool
unfolding read_be16
looks_like_rudp datagram = leb 2 (length datagram) && read_be16 datagram 0 == rudp_magic
