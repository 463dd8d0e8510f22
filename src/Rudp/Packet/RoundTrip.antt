-- ===== src/Rudp/Packet/RoundTrip.antt =====
-- What the codec guarantees.
use knights.Base.{
  ℕ, ◌+◌, ◌/◌, ◌%◌, ◌^◌, ◌<◌, ◌≡◌, ◌∙◌, ap, refl, some, List, [], ◌∷◌, ◌++◌, length, take, drop,
  bit_and, bit_or, arith,
}
use knights.Base.Bits.{shl, shr, u16, bit_or_low, bit_and-mask}
use knights.Protocol.Bytes.{byte_of, be32, be16-bytes, be32-bytes}
use knights.Rudp.Packet.{RudpHeader, encode_header, decode_header, encode_packet, decode_packet}

-- Every field fits its C++ type.
pub record InRange (h : RudpHeader) : Type 0 where
  pub magic : h.magic < 2 ^ 16
  pub version : h.version < 2 ^ 8
  pub packet_type : h.packet_type < 2 ^ 8
  pub connection_id : h.connection_id < 2 ^ 32
  pub packet_number : h.packet_number < 2 ^ 32
  pub ack_largest : h.ack_largest < 2 ^ 32
  pub ack_mask : h.ack_mask < 2 ^ 64
  pub ack_delay_ms : h.ack_delay_ms < 2 ^ 16
  pub channel : h.channel < 2 ^ 8
  pub flags : h.flags < 2 ^ 8
  pub timestamp_ms : h.timestamp_ms < 2 ^ 32
  pub payload_length : h.payload_length < 2 ^ 16

-- The two halves of the mask join to the mask.
mask-halves :
    (m : ℕ)
    → m < 2 ^ 64
    → let hi = bit_and (shr m 32) 0xffff_ffff in
      let lo = bit_and m 0xffff_ffff in
      bit_or
        (shl (be32 (byte_of hi 24) (byte_of hi 16) (byte_of hi 8) (byte_of hi 0)) 32)
        (be32 (byte_of lo 24) (byte_of lo 16) (byte_of lo 8) (byte_of lo 0))
      ≡ m
mask-halves m h =
    let hi : bit_and (shr m 32) 0xffff_ffff ≡ m / 2 ^ 32 =
      bit_and-mask 32 (shr m 32) ∙ omega arith in
    let lo : bit_and m 0xffff_ffff ≡ m % 2 ^ 32 = bit_and-mask 32 m in
    rw (hi, lo, be32-bytes (m / 2 ^ 32) (omega arith), be32-bytes (m % 2 ^ 32) (omega arith))
      (bit_or_low 32 (m / 2 ^ 32) (m % 2 ^ 32) (omega arith) ∙ omega arith)

decode_header-encode_header :
    (h : RudpHeader) (rest : List ℕ) → InRange h → decode_header (encode_header h ++ rest) ≡ h
unfolding decode_header encode_header
decode_header-encode_header h rest r = λ i. record {
  magic = be16-bytes h.magic r.magic i;
  version = h.version;
  packet_type = h.packet_type;
  connection_id = be32-bytes h.connection_id r.connection_id i;
  packet_number = be32-bytes h.packet_number r.packet_number i;
  ack_largest = be32-bytes h.ack_largest r.ack_largest i;
  ack_mask = mask-halves h.ack_mask r.ack_mask i;
  ack_delay_ms = be16-bytes h.ack_delay_ms r.ack_delay_ms i;
  channel = h.channel;
  flags = h.flags;
  timestamp_ms = be32-bytes h.timestamp_ms r.timestamp_ms i;
  payload_length = be16-bytes h.payload_length r.payload_length i;
}

length-encode_header :
    (h : RudpHeader) (rest : List ℕ) → length (encode_header h ++ rest) ≡ 34 + length rest
unfolding encode_header
length-encode_header h rest = omega arith

pub length-encode_packet :
    (h : RudpHeader) (payload : List ℕ) → length (encode_packet h payload) ≡ 34 + length payload
unfolding encode_packet
length-encode_packet h payload =
    length-encode_header (record h { payload_length = u16 (length payload) }) payload

drop-encode_header : (h : RudpHeader) (rest : List ℕ) → drop 34 (encode_header h ++ rest) ≡ rest
unfolding encode_header
drop-encode_header h rest = refl

take_all : (xs : List ℕ) → take (length xs) xs ≡ xs
take_all [] = refl
take_all (x ∷ xs) = ap (◌∷◌ x) (take_all xs)

-- `decode_packet` on a datagram of the right size.
decode_packet_sized :
    (d : List ℕ) (h : RudpHeader)
    → decode_header d ≡ h
    → length d ≡ 34 + h.payload_length
    → decode_packet d ≡ some (h, take h.payload_length (drop 34 d))
unfolding decode_packet
decode_packet_sized d h e size = rw e (ground arith)

-- For a header whose fields have their C++ widths and a payload below 2 ^ 16 bytes, decoding what was
-- encoded gives the header, with the length of the payload in it, and the payload.
pub decode_packet-encode_packet :
    (h : RudpHeader) (payload : List ℕ)
    → InRange h
    → length payload < 2 ^ 16
    → decode_packet (encode_packet h payload)
      ≡ some (record h { payload_length = length payload }, payload)
unfolding encode_packet
decode_packet-encode_packet h payload r fits =
    decode_packet_sized (encode_packet h payload) sized read size ∙ ap (λ p. some (sized, p)) rest
  where
    sized : RudpHeader
    sized = record h { payload_length = length payload }

    cut : u16 (length payload) ≡ length payload
    cut = omega arith

    in_range : InRange sized
    in_range = record {
      magic = r.magic;
      version = r.version;
      packet_type = r.packet_type;
      connection_id = r.connection_id;
      packet_number = r.packet_number;
      ack_largest = r.ack_largest;
      ack_mask = r.ack_mask;
      ack_delay_ms = r.ack_delay_ms;
      channel = r.channel;
      flags = r.flags;
      timestamp_ms = r.timestamp_ms;
      payload_length = fits;
    }

    body : encode_packet h payload ≡ encode_header sized ++ payload
    body = ap (λ n. encode_header (record h { payload_length = n }) ++ payload) cut

    read : decode_header (encode_packet h payload) ≡ sized
    read = ap decode_header body ∙ decode_header-encode_header sized payload in_range

    size : length (encode_packet h payload) ≡ 34 + length payload
    size = ap length body ∙ length-encode_header sized payload

    rest : take (length payload) (drop 34 (encode_packet h payload)) ≡ payload
    rest =
        ap (λ d. take (length payload) (drop 34 d)) body
        ∙ ap (take (length payload)) (drop-encode_header sized payload)
        ∙ take_all payload
