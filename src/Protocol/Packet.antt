-- ===== src/Protocol/Packet.antt =====
-- core/include/server/core/protocol/packet.hpp: the 14-byte header of a message, the validation of UTF-8 and
-- the strings with a length in front.
pub mod Strings
use knights.Base.{
  ℕ, zero, suc, ◌+◌, ◌<◌, ◌^◌, ◌≡◌, Bool, true, false, not, ◌&&◌, ◌||◌, Option, none, some, List,
  [], ◌∷◌, ◌++◌, ltb, leb, ◌==◌, if◌then◌else◌, length, take, drop, is_empty, bit_and, bit_or,
  arith,
}
use knights.Base.Bits.{shl, u16, u32}
use knights.Protocol.Bytes.{
  byte_at, read_be16, read_be32, write_be16, write_be32, be16-bytes, be32-bytes,
}

pub record PacketHeader : Type 0 where
  pub length : ℕ
  pub msg_id : ℕ
  pub flags : ℕ
  pub seq : ℕ
  pub utc_ts_ms32 : ℕ

unfoldable pub encode_header : PacketHeader → List ℕ
unfolding write_be16 write_be32
encode_header h =
    write_be16 h.length
    ++ write_be16 h.msg_id
    ++ write_be16 h.flags
    ++ write_be32 h.seq
    ++ write_be32 h.utc_ts_ms32

unfoldable pub decode_header : List ℕ → PacketHeader
unfolding read_be16 read_be32
decode_header in14 = record {
  length = read_be16 in14 0;
  msg_id = read_be16 in14 2;
  flags = read_be16 in14 4;
  seq = read_be32 in14 6;
  utc_ts_ms32 = read_be32 in14 10;
}

-- The fields have their C++ widths.
pub record InRange (h : PacketHeader) : Type 0 where
  pub length : h.length < 2 ^ 16
  pub msg_id : h.msg_id < 2 ^ 16
  pub flags : h.flags < 2 ^ 16
  pub seq : h.seq < 2 ^ 32
  pub utc_ts_ms32 : h.utc_ts_ms32 < 2 ^ 32

-- A header whose fields have their C++ widths is the same in every field when it is written and read
-- back, whatever bytes follow it.
pub decode_header-encode_header :
    (h : PacketHeader) (rest : List ℕ) → InRange h → decode_header (encode_header h ++ rest) ≡ h
unfolding decode_header encode_header
decode_header-encode_header h rest r = λ i. record {
  length = be16-bytes h.length r.length i;
  msg_id = be16-bytes h.msg_id r.msg_id i;
  flags = be16-bytes h.flags r.flags i;
  seq = be32-bytes h.seq r.seq i;
  utc_ts_ms32 = be32-bytes h.utc_ts_ms32 r.utc_ts_ms32 i;
}

-- What the first byte says: the number of bytes that follow, the first bits and the least codepoint. `none`
-- is a byte that starts nothing.
unfoldable pub lead : ℕ → Option (ℕ × ℕ × ℕ)
lead byte0 =
    if bit_and byte0 0xe0 == 0xc0
    then some (1, bit_and byte0 0x1f, 0x80)
    else (if bit_and byte0 0xf0 == 0xe0
        then some (2, bit_and byte0 0x0f, 0x800)
        else (if bit_and byte0 0xf8 == 0xf0 then some (3, bit_and byte0 0x07, 0x10000) else none))

-- The loop over the bytes that follow; `none` is a byte that continues nothing.
unfoldable pub follow_bytes : List ℕ → ℕ → Option ℕ
follow_bytes [] codepoint = some codepoint
follow_bytes (cont ∷ conts) codepoint =
    let rest = follow_bytes conts (bit_or (u32 (shl codepoint 6)) (bit_and cont 0x3f)) in
    if not (bit_and cont 0xc0 == 0x80) then none else rest

-- The checks behind that loop.
unfoldable pub is_scalar : ℕ → Option ℕ → Bool
is_scalar min_codepoint none = false
is_scalar min_codepoint (some codepoint) =
    if ltb codepoint min_codepoint
    then false
    else (if ltb 0x10ffff codepoint
        then false
        else not (leb 0xd800 codepoint && leb codepoint 0xdfff))

-- The rest of the text behind one codepoint, none where the function returns false.
unfoldable pub after_codepoint : Option (ℕ × ℕ × ℕ) → List ℕ → Option (List ℕ)
after_codepoint none rest = none
after_codepoint (some (follow, bits, min_codepoint)) rest =
    if ltb (length rest) follow
    then none
    else (if is_scalar min_codepoint (follow_bytes (take follow rest) bits)
        then some (drop follow rest)
        else none)

unfoldable pub next_codepoint : ℕ → List ℕ → Option (List ℕ)
next_codepoint byte0 rest = if ltb byte0 0x80 then some rest else after_codepoint (lead byte0) rest

-- The loop of `is_valid_utf8` on fuel; each round takes at least one byte.
unfoldable pub check_utf8 : ℕ → List ℕ → Bool
check_utf8 zero s = is_empty s
check_utf8 (suc fuel) [] = true
check_utf8 (suc fuel) (byte0 ∷ rest) = elim (next_codepoint byte0 rest) [
  | none ↦ false
  | some rest' ↦ check_utf8 fuel rest'
]

abbrev pub is_valid_utf8 : List ℕ → Bool
is_valid_utf8 s = check_utf8 (length s) s

-- What is added at the end of `out`.
unfoldable pub write_lp_utf8 : List ℕ → List ℕ → List ℕ
unfolding write_be16
write_lp_utf8 out str =
    let str' = if ltb 0xffff (length str) then take 0xffff str else str in
    out ++ write_be16 (length str') ++ str'

-- The string and the rest of the input; `none` is the answer false, with both as they were.
unfoldable pub read_lp_utf8 : List ℕ → Option (List ℕ × List ℕ)
unfolding read_be16
read_lp_utf8 input =
    let len = read_be16 input 0 in
    if ltb (length input) 2
    then none
    else (if ltb (length input) (2 + len)
        then none
        else (if not (is_valid_utf8 (take len (drop 2 input)))
            then none
            else some (take len (drop 2 input), drop (2 + len) input)))
