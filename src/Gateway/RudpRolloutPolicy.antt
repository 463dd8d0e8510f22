-- ===== src/Gateway/RudpRolloutPolicy.antt =====
-- gateway/include/gateway/rudp_rollout_policy.hpp: which sessions and opcodes use RUDP. A text is the list of
-- its bytes, and the set of opcodes the list of its elements.
pub mod Allowlist
pub mod Canary
use knights.Base.{
  ℕ, zero, suc, ◌+◌, ◌-◌, ◌*◌, ◌%◌, ◌^◌, Bool, true, false, not, ◌&&◌, ◌||◌, Option, none, some,
  List, [], ◌∷◌, ◌++◌, ltb, leb, ◌==◌, if◌then◌else◌, is_empty, elem, length, bit_and, bit_xor,
}
use knights.Base.Bits.{shr, u8, u64}

abbrev pub is_ascii_space : ℕ → Bool
is_ascii_space c = c == 32 || (c == 9 || (c == 13 || c == 10))

-- The loops of `trim_ascii`.
abbrev pub trim_front : List ℕ → List ℕ
trim_front [] = []
trim_front (c ∷ cs) = let rest = trim_front cs in if is_ascii_space c then rest else c ∷ cs

abbrev pub trim_back : List ℕ → List ℕ
trim_back [] = []
trim_back (c ∷ cs) =
    let rest = trim_back cs in if is_empty rest && is_ascii_space c then [] else c ∷ rest

unfoldable pub trim_ascii : List ℕ → List ℕ
trim_ascii value = trim_back (trim_front value)

-- The value of a digit in a base of at most 16, in either case.
abbrev pub digit_of : ℕ → ℕ → Option ℕ
digit_of base c =
    if leb 48 c && (leb c 57 && ltb (c - 48) base)
    then some (c - 48)
    else (if leb 97 c && ltb (c - 97 + 10) base
        then some (c - 97 + 10)
        else (if leb 65 c && (leb c 90 && ltb (c - 65 + 10) base)
            then some (c - 65 + 10)
            else none))

abbrev pub add_digit : ℕ → ℕ → Option ℕ → Option ℕ
add_digit base value none = none
add_digit base value (some d) = some (value * base + d)

abbrev pub number_of : ℕ → Option ℕ → List ℕ → Option ℕ
number_of base value [] = value
number_of base none (c ∷ cs) = none
number_of base (some v) (c ∷ cs) = number_of base (add_digit base v (digit_of base c)) cs

abbrev pub below : ℕ → Option ℕ → Option ℕ
below bound none = none
below bound (some v) = if ltb v bound then some v else none

-- `std::from_chars` on a whole text that is not empty, for an `unsigned int`.
unfoldable pub from_chars : ℕ → List ℕ → Option ℕ
from_chars base text = below (2 ^ 32) (number_of base (some 0) text)

-- The text after `0x`, where it is not empty.
abbrev pub hex_part : List ℕ → Option (List ℕ)
hex_part [] = none
hex_part (a ∷ []) = none
hex_part (a ∷ b ∷ []) = none
hex_part (a ∷ b ∷ c ∷ cs) = if a == 48 && (b == 120 || b == 88) then some (c ∷ cs) else none

abbrev pub number_in : List ℕ → Option (List ℕ) → Option ℕ
number_in token none = from_chars 10 token
number_in token (some rest) = from_chars 16 rest

unfoldable pub parse_u16_token : List ℕ → Option ℕ
parse_u16_token token =
    let trimmed = trim_ascii token in
    if is_empty trimmed then none else below (2 ^ 16) (number_in trimmed (hex_part trimmed))

-- One round of the loops of `fnv1a64`.
abbrev pub fnv_step : ℕ → ℕ → ℕ
fnv_step hash byte = u64 (bit_xor hash byte * 1099511628211)

abbrev pub fnv_text : ℕ → List ℕ → ℕ
fnv_text hash [] = hash
fnv_text hash (c ∷ cs) = fnv_text (fnv_step hash (u8 c)) cs

abbrev pub fnv_nonce : ℕ → ℕ → ℕ → ℕ
fnv_nonce zero hash nonce = hash
fnv_nonce (suc n) hash nonce = fnv_nonce n (fnv_step hash (u8 (bit_and nonce 0xff))) (shr nonce 8)

unfoldable pub fnv1a64 : List ℕ → ℕ → ℕ
fnv1a64 session_id nonce = fnv_nonce 8 (fnv_text 1469598103934665603 session_id) nonce

abbrev pub insert : Option ℕ → List ℕ → List ℕ
insert none set = set
insert (some opcode) set = if elem opcode set then set else opcode ∷ set

-- The part before the first comma, and the part behind it if there is a comma.
abbrev pub cut : List ℕ → List ℕ × Option (List ℕ)
cut [] = ([], none)
cut (c ∷ cs) = let (token, rest) = cut cs in if c == 44 then ([], some cs) else (c ∷ token, rest)

-- The loop over the tokens, with fuel.
unfoldable pub allowlist_from : ℕ → List ℕ → Option (List ℕ) → List ℕ
allowlist_from fuel out none = out
allowlist_from zero out (some csv) = out
allowlist_from (suc fuel) out (some csv) =
    let (token, rest) = cut csv in allowlist_from fuel (insert (parse_u16_token token) out) rest

-- A text has at most one token more than it has bytes.
unfoldable pub parse_rudp_opcode_allowlist : List ℕ → List ℕ
parse_rudp_opcode_allowlist csv = allowlist_from (suc (length csv)) [] (some csv)

pub record RudpRolloutPolicy : Type 0 where
  pub enabled : Bool
  pub canary_percent : ℕ
  pub opcode_allowlist : List ℕ

unfoldable pub session_selected : RudpRolloutPolicy → List ℕ → ℕ → Bool
session_selected p session_id nonce =
    if not p.enabled || p.canary_percent == 0
    then false
    else (if leb 100 p.canary_percent
        then true
        else ltb (fnv1a64 session_id nonce % 100) p.canary_percent)

unfoldable pub opcode_allowed : RudpRolloutPolicy → ℕ → Bool
opcode_allowed p opcode = not (is_empty p.opcode_allowlist) && elem opcode p.opcode_allowlist
