-- ===== src/Protocol/Bytes.antt =====
-- The big-endian helpers of core/include/server/core/protocol/packet.hpp. A buffer is a list of bytes,
-- each a number below 256; what a function writes at a pointer is the list that it returns.
use knights.Base.{
  ℕ, ◌+◌, ◌*◌, ◌%◌, ◌^◌, ◌<◌, ◌≡◌, List, [], ◌∷◌, ◌∙◌, ap, ap₂, get_or, bit_and, bit_or, arith,
}
use knights.Base.Bits.{shl, shr, u8, u16, u32, bit_or_low, bit_and-mask}

-- `(p[0] << 8) | p[1]`
abbrev pub be16 : ℕ → ℕ → ℕ
be16 b0 b1 = u16 (bit_or (shl b0 8) b1)

abbrev pub be32 : ℕ → ℕ → ℕ → ℕ → ℕ
be32 b0 b1 b2 b3 = bit_or (bit_or (bit_or (u32 (shl b0 24)) (u32 (shl b1 16))) (u32 (shl b2 8))) b3

-- The byte at an offset; no caller reads past the end.
abbrev pub byte_at : List ℕ → ℕ → ℕ
byte_at p i = get_or p i 0

unfoldable pub read_be16 : List ℕ → ℕ → ℕ
read_be16 p i = be16 (byte_at p i) (byte_at p (i + 1))

unfoldable pub read_be32 : List ℕ → ℕ → ℕ
read_be32 p i = be32 (byte_at p i) (byte_at p (i + 1)) (byte_at p (i + 2)) (byte_at p (i + 3))

-- `static_cast<uint8_t>((v >> k) & 0xFF)`
abbrev pub byte_of : ℕ → ℕ → ℕ
byte_of v k = u8 (bit_and (shr v k) 0xff)

unfoldable pub write_be16 : ℕ → List ℕ
write_be16 v = byte_of v 8 ∷ byte_of v 0 ∷ []

unfoldable pub write_be32 : ℕ → List ℕ
write_be32 v = byte_of v 24 ∷ byte_of v 16 ∷ byte_of v 8 ∷ byte_of v 0 ∷ []

pub byte_of-eq : (v k : ℕ) → byte_of v k ≡ shr v k % 256
byte_of-eq v k = omega (arith, bit_and-mask 8 (shr v k))

pub be16-sum : (b0 b1 : ℕ) → b0 < 256 → b1 < 256 → be16 b0 b1 ≡ b0 * 256 + b1
be16-sum b0 b1 h0 h1 = omega (arith, bit_or_low 8 b0 b1 h1)

pub be32-sum :
    (b0 b1 b2 b3 : ℕ)
    → b0 < 256
    → b1 < 256
    → b2 < 256
    → b3 < 256
    → be32 b0 b1 b2 b3 ≡ b0 * 16777216 + b1 * 65536 + b2 * 256 + b3
be32-sum b0 b1 b2 b3 h0 h1 h2 h3 = ap (λ t. bit_or t b3) upper ∙ bit_or_low 8 _ b3 h3 ∙ omega arith
  where
    top : u32 (shl b0 24) ≡ shl b0 24
    top = omega arith

    next : u32 (shl b1 16) ≡ shl b1 16
    next = omega arith

    third : u32 (shl b2 8) ≡ shl b2 8
    third = omega arith

    pair : bit_or (u32 (shl b0 24)) (u32 (shl b1 16)) ≡ shl (b0 * 256 + b1) 16
    pair = ap₂ bit_or top next ∙ bit_or_low 24 b0 (shl b1 16) (omega arith) ∙ omega arith

    upper :
        bit_or (bit_or (u32 (shl b0 24)) (u32 (shl b1 16))) (u32 (shl b2 8))
        ≡ shl (b0 * 65536 + b1 * 256 + b2) 8
    upper =
        ap₂ bit_or pair third ∙ bit_or_low 16 (b0 * 256 + b1) (shl b2 8) (omega arith) ∙ omega arith

-- Writing a 16-bit or a 32-bit number and reading its bytes back gives the number.
pub be16-bytes : (v : ℕ) → v < 2 ^ 16 → be16 (byte_of v 8) (byte_of v 0) ≡ v
be16-bytes v h =
    be16-sum (byte_of v 8) (byte_of v 0) (omega arith) (omega arith)
    ∙ omega (arith, byte_of-eq v 8, byte_of-eq v 0)

pub be32-bytes :
    (v : ℕ) → v < 2 ^ 32 → be32 (byte_of v 24) (byte_of v 16) (byte_of v 8) (byte_of v 0) ≡ v
be32-bytes v h =
    be32-sum (byte_of v 24) (byte_of v 16) (byte_of v 8) (byte_of v 0) (omega arith) (omega arith)
      (omega arith) (omega arith)
    ∙ omega (arith, byte_of-eq v 24, byte_of-eq v 16, byte_of-eq v 8, byte_of-eq v 0)
