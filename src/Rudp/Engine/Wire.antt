-- ===== src/Rudp/Engine/Wire.antt =====
-- What an engine puts on the wire, as its peer decodes it.
use knights.Base.{ℕ, ◌^◌, ◌<◌, ◌≡◌, ◌∙◌, ap, refl, some, List, set, length, arith, bit_or, min, ◌%◌}
use knights.Base.Bits.{u8, bit_and-mask}
use knights.Protocol.Bytes.{byte_at}
use knights.Rudp.Retransmission.{PendingPacket}
use knights.Rudp.Packet.{
  RudpHeader, type_data, flag_retransmit, encode_header, encode_packet, decode_packet,
}
use knights.Rudp.Packet.RoundTrip.{InRange, decode_packet-encode_packet, length-encode_packet}
use knights.Rudp.Engine.{RudpConfig, RudpPeerState, packet_header, make_packet, now32}
use knights.Rudp.Engine.Send.{retransmitted}

-- The fields of a state that go into a header fit their types.
pub record FitsWire (s : RudpPeerState) : Type 0 where
  pub connection_id : s.connection_id < 2 ^ 32
  pub next_packet_number : s.next_packet_number < 2 ^ 32
  pub ack_largest : s.ack_largest < 2 ^ 32
  pub ack_mask : s.ack_mask < 2 ^ 64

-- A data packet, written out: the header that `s` and the other values call for.
abbrev pub data_packet : RudpConfig → RudpPeerState → ℕ → ℕ → ℕ → ℕ → ℕ → RudpHeader
data_packet c s flags channel number now size = record {
  magic = 0x5255;
  version = 1;
  packet_type = 3;
  connection_id = s.connection_id;
  packet_number = number;
  ack_largest = s.ack_largest;
  ack_mask = s.ack_mask;
  ack_delay_ms = min c.ack_delay_ms 65535;
  channel = channel;
  flags = flags;
  timestamp_ms = now % 2 ^ 32;
  payload_length = size;
}

data_packet-InRange :
    (c : RudpConfig) (s : RudpPeerState) (flags channel n now size : ℕ)
    → FitsWire s
    → flags < 2 ^ 8
    → channel < 2 ^ 8
    → n < 2 ^ 32
    → size < 2 ^ 16
    → InRange (data_packet c s flags channel n now size)
data_packet-InRange c s flags channel n now size f fl ch hn small = record {
  magic = omega arith;
  version = omega arith;
  packet_type = omega arith;
  connection_id = f.connection_id;
  packet_number = hn;
  ack_largest = f.ack_largest;
  ack_mask = f.ack_mask;
  ack_delay_ms = omega arith;
  channel = ch;
  flags = fl;
  timestamp_ms = omega arith;
  payload_length = small;
}

now32_lem : (now : ℕ) → now32 now ≡ now % 2 ^ 32
unfolding now32
now32_lem now = omega (arith, bit_and-mask 32 now)

packet_header-data_packet :
    (c : RudpConfig) (s : RudpPeerState) (flags channel n now size : ℕ)
    → size < 2 ^ 16
    → packet_header c s type_data flags channel n now size
      ≡ data_packet c s flags channel n now size
packet_header-data_packet c s flags channel n now size small = ground (arith, now32_lem now)

pub make_packet-data_packet :
    (c : RudpConfig) (s : RudpPeerState) (flags channel n now : ℕ) (payload : List ℕ)
    → length payload < 2 ^ 16
    → make_packet c s type_data flags channel n now payload
      ≡ encode_packet (data_packet c s flags channel n now (length payload)) payload
unfolding make_packet
make_packet-data_packet c s flags channel n now payload small =
    ap (λ h. encode_packet h payload)
      (packet_header-data_packet c s flags channel n now (length payload) small)

pub decode_packet-make_packet :
    (c : RudpConfig) (s : RudpPeerState) (flags channel n now : ℕ) (payload : List ℕ)
    → FitsWire s
    → flags < 2 ^ 8
    → channel < 2 ^ 8
    → n < 2 ^ 32
    → length payload < 2 ^ 16
    → decode_packet (make_packet c s type_data flags channel n now payload)
      ≡ some (data_packet c s flags channel n now (length payload), payload)
decode_packet-make_packet c s flags channel n now payload f fl ch hn small =
    ap decode_packet (make_packet-data_packet c s flags channel n now payload small)
    ∙ decode_packet-encode_packet (data_packet c s flags channel n now (length payload)) payload
        (data_packet-InRange c s flags channel n now (length payload) f fl ch hn small) small

encode_packet_flags :
    (h : RudpHeader) (payload : List ℕ) (v : ℕ)
    → set (encode_packet h payload) 27 v ≡ encode_packet (record h { flags = v }) payload
unfolding encode_packet encode_header
encode_packet_flags h payload v = refl

flags-encode_packet :
    (h : RudpHeader) (payload : List ℕ) → byte_at (encode_packet h payload) 27 ≡ h.flags
unfolding encode_packet encode_header
flags-encode_packet h payload = refl

-- If a queued frame encodes a header whose fields have their C++ widths and a payload below 2 ^ 16
-- bytes, its retransmitted copy decodes to the same header and payload, with the retransmit flag
-- added.
pub decode_packet-retransmitted :
    (p : PendingPacket) (h : RudpHeader) (payload : List ℕ)
    → InRange h
    → length payload < 2 ^ 16
    → p.encoded_frame ≡ encode_packet h payload
    → decode_packet (retransmitted p)
      ≡ some (
        record h { payload_length = length payload; flags = u8 (bit_or h.flags flag_retransmit) },
        payload,
      )
decode_packet-retransmitted p h payload r fits e =
    ap decode_packet sent ∙ decode_packet-encode_packet _ payload flagged fits
  where
    flagged : InRange (record h { flags = u8 (bit_or h.flags flag_retransmit) })
    flagged = record {
      magic = r.magic;
      version = r.version;
      packet_type = r.packet_type;
      connection_id = r.connection_id;
      packet_number = r.packet_number;
      ack_largest = r.ack_largest;
      ack_mask = r.ack_mask;
      ack_delay_ms = r.ack_delay_ms;
      channel = r.channel;
      flags = omega arith;
      timestamp_ms = r.timestamp_ms;
      payload_length = r.payload_length;
    }

    sent :
        retransmitted p
        ≡ encode_packet (record h { flags = u8 (bit_or h.flags flag_retransmit) }) payload
    sent =
        unfold retransmitted in
        rw e (
          ground (
            arith,
            length-encode_packet h payload,
            flags-encode_packet h payload,
            encode_packet_flags h payload (u8 (bit_or h.flags flag_retransmit)),
          ))
