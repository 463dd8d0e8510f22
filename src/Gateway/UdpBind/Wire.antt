-- ===== src/Gateway/UdpBind/Wire.antt =====
-- The fields of a ticket on the wire: `make_udp_bind_res_frame` writes them between its code and its message, and a
-- bind request is these fields alone.
use knights.Base.{
  ℕ, ◌+◌, ◌*◌, ◌<◌, ◌^◌, ◌≡◌, ◌∙◌, ap, sym, refl, true, Option, some, List, [], ◌∷◌, ◌++◌, length,
  append-nil, bit_or, ltb, false, arith,
}
use knights.Base.Bits.{shl, bit_or_low}
use knights.Protocol.Bytes.{byte_of, byte_of-eq}
use knights.Protocol.Packet.{read_lp_utf8, write_lp_utf8, is_valid_utf8}
use knights.Protocol.Packet.Strings.{read_lp_utf8-write_lp_utf8}
use knights.Gateway.UdpBind.{UdpBindTicket}
use knights.Gateway.UdpBind.Request.{
  parse_session_id, parse_nonce, parse_expires, parse_token, read_be64, write_be64,
  parse_udp_bind_req,
}

join_bytes :
    (b0 b1 b2 b3 b4 b5 b6 b7 : ℕ)
    → b1 < 256
    → b2 < 256
    → b3 < 256
    → b4 < 256
    → b5 < 256
    → b6 < 256
    → b7 < 256
    → bit_or
        (bit_or
          (bit_or
            (bit_or
              (bit_or (bit_or (bit_or (shl b0 56) (shl b1 48)) (shl b2 40)) (shl b3 32))
              (shl b4 24))
            (shl b5 16))
          (shl b6 8))
        b7
      ≡ ((((((b0 * 256 + b1) * 256 + b2) * 256 + b3) * 256 + b4) * 256 + b5) * 256 + b6) * 256 + b7
join_bytes b0 b1 b2 b3 b4 b5 b6 b7 h1 h2 h3 h4 h5 h6 h7 =
    let q1 = b0 * 256 + b1 in
    let q2 = q1 * 256 + b2 in
    let q3 = q2 * 256 + b3 in
    let q4 = q3 * 256 + b4 in
    let q5 = q4 * 256 + b5 in
    let q6 = q5 * 256 + b6 in
    let s1 : bit_or (shl b0 56) (shl b1 48) ≡ shl q1 48 =
      bit_or_low 56 b0 (shl b1 48) (omega arith) ∙ omega arith in
    let s2 : bit_or (shl q1 48) (shl b2 40) ≡ shl q2 40 =
      bit_or_low 48 q1 (shl b2 40) (omega arith) ∙ omega arith in
    let s3 : bit_or (shl q2 40) (shl b3 32) ≡ shl q3 32 =
      bit_or_low 40 q2 (shl b3 32) (omega arith) ∙ omega arith in
    let s4 : bit_or (shl q3 32) (shl b4 24) ≡ shl q4 24 =
      bit_or_low 32 q3 (shl b4 24) (omega arith) ∙ omega arith in
    let s5 : bit_or (shl q4 24) (shl b5 16) ≡ shl q5 16 =
      bit_or_low 24 q4 (shl b5 16) (omega arith) ∙ omega arith in
    let s6 : bit_or (shl q5 16) (shl b6 8) ≡ shl q6 8 =
      bit_or_low 16 q5 (shl b6 8) (omega arith) ∙ omega arith in
    let s7 : bit_or (shl q6 8) b7 ≡ q6 * 256 + b7 = bit_or_low 8 q6 b7 h7 ∙ omega arith in
    rw (s1, s2, s3, s4, s5, s6) s7

byte_of-lt : (v k : ℕ) → byte_of v k < 256
byte_of-lt v k = omega (arith, byte_of-eq v k)

bytes_sum :
    (v : ℕ)
    → v < 2 ^ 64
    → ((((((byte_of v 56 * 256 + byte_of v 48) * 256 + byte_of v 40) * 256 + byte_of v 32) * 256
                    + byte_of v 24)
                  * 256
                + byte_of v 16)
              * 256
            + byte_of v 8)
          * 256
        + byte_of v 0
      ≡ v
bytes_sum v h = omega (
  arith,
  byte_of-eq v 56,
  byte_of-eq v 48,
  byte_of-eq v 40,
  byte_of-eq v 32,
  byte_of-eq v 24,
  byte_of-eq v 16,
  byte_of-eq v 8,
  byte_of-eq v 0,
)

long_enough : (n : ℕ) → ltb (8 + n) 8 ≡ false
long_enough n = ground arith

read_be64-bytes :
    (b0 b1 b2 b3 b4 b5 b6 b7 : ℕ) (rest : List ℕ)
    → read_be64 (b0 ∷ b1 ∷ b2 ∷ b3 ∷ b4 ∷ b5 ∷ b6 ∷ b7 ∷ rest)
      ≡ some (
        bit_or
            (bit_or
              (bit_or
                (bit_or
                  (bit_or (bit_or (bit_or (shl b0 56) (shl b1 48)) (shl b2 40)) (shl b3 32))
                  (shl b4 24))
                (shl b5 16))
              (shl b6 8))
            b7,
        rest,
      )
unfolding read_be64
read_be64-bytes b0 b1 b2 b3 b4 b5 b6 b7 rest =
    let enough : ltb (length (b0 ∷ b1 ∷ b2 ∷ b3 ∷ b4 ∷ b5 ∷ b6 ∷ b7 ∷ rest)) 8 ≡ false =
      ground (arith, long_enough (length rest)) in
    simp enough refl

read_be64-write_be64 :
    (v : ℕ) (rest : List ℕ) → v < 2 ^ 64 → read_be64 (write_be64 v ++ rest) ≡ some (v, rest)
unfolding write_be64
read_be64-write_be64 v rest h =
    let joined =
      join_bytes (byte_of v 56) (byte_of v 48) (byte_of v 40) (byte_of v 32) (byte_of v 24)
        (byte_of v 16) (byte_of v 8) (byte_of v 0) (byte_of-lt v 48) (byte_of-lt v 40)
        (byte_of-lt v 32) (byte_of-lt v 24) (byte_of-lt v 16) (byte_of-lt v 8) (byte_of-lt v 0) in
    let value : ℕ → Option (ℕ × List ℕ) = λ n. some (n, rest) in
    read_be64-bytes (byte_of v 56) (byte_of v 48) (byte_of v 40) (byte_of v 32) (byte_of v 24)
      (byte_of v 16) (byte_of v 8) (byte_of v 0) rest
    ∙ ap value (joined ∙ bytes_sum v h)

-- The fields of a ticket as `make_udp_bind_res_frame` writes them.
unfoldable pub ticket_fields : UdpBindTicket → List ℕ
ticket_fields t =
    write_lp_utf8 [] t.session_id
    ++ (write_be64 t.nonce ++ (write_be64 t.expires_unix_ms ++ write_lp_utf8 [] t.token))

-- A bind request that carries the fields of a ticket as the gateway writes them parses as that ticket, if its texts
-- are valid UTF-8 of fewer than 2 ^ 16 bytes and its numbers fit 64 bits.
pub parse_udp_bind_req-ticket_fields :
    (t : UdpBindTicket)
    → length t.session_id < 2 ^ 16
    → is_valid_utf8 t.session_id ≡ true
    → length t.token < 2 ^ 16
    → is_valid_utf8 t.token ≡ true
    → t.nonce < 2 ^ 64
    → t.expires_unix_ms < 2 ^ 64
    → parse_udp_bind_req (ticket_fields t) ≡ some t
unfolding parse_udp_bind_req ticket_fields
parse_udp_bind_req-ticket_fields t short valid short_token valid_token nonce expires =
    let last = write_lp_utf8 [] t.token in
    let third = write_be64 t.expires_unix_ms ++ last in
    let second = write_be64 t.nonce ++ third in
    let first = read_lp_utf8-write_lp_utf8 t.session_id second short valid in
    let then_nonce = read_be64-write_be64 t.nonce third nonce in
    let then_expires = read_be64-write_be64 t.expires_unix_ms last expires in
    let then_token : read_lp_utf8 last ≡ some (t.token, []) =
      ap read_lp_utf8 (sym (append-nil last))
      ∙ read_lp_utf8-write_lp_utf8 t.token [] short_token valid_token in
    ap parse_session_id first
    ∙ ap (parse_nonce t.session_id) then_nonce
    ∙ ap (parse_expires t.session_id t.nonce) then_expires
    ∙ ap (parse_token t.session_id t.nonce t.expires_unix_ms) then_token
