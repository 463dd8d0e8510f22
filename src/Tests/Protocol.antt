-- ===== src/Tests/Protocol.antt =====
-- The wire protocol at concrete inputs.
use knights.Base.{ℕ, ◌≡◌, true, some, List, [], ◌∷◌, ◌++◌, arith, refl}
use knights.Protocol.Packet.{
  is_valid_utf8, write_lp_utf8, read_lp_utf8, check_utf8, next_codepoint, after_codepoint, lead,
  follow_bytes, is_scalar,
}
use knights.Protocol.Packet.Strings.{read_lp_utf8-write_lp_utf8}

-- A letter and the euro sign.
abbrev euro : List ℕ
euro = 65 ∷ 226 ∷ 130 ∷ 172 ∷ []

euro-valid : is_valid_utf8 euro ≡ true
unfolding check_utf8 next_codepoint after_codepoint lead follow_bytes is_scalar
euro-valid = refl

read_lp_utf8-write_lp_utf8_example :
    read_lp_utf8 (write_lp_utf8 [] euro ++ 9 ∷ []) ≡ some (euro, 9 ∷ [])
read_lp_utf8-write_lp_utf8_example =
    read_lp_utf8-write_lp_utf8 euro (9 ∷ []) (omega arith) euro-valid
