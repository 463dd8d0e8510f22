-- ===== src/Security/AdminCommandAuth.antt =====
-- The signed administrator commands of core/src/security/admin_command_auth.cpp and its header. Texts are lists
-- of bytes, and a map of fields is a list of pairs with one entry a key, in the order in which the map is gone
-- through. `HMAC` is a parameter that answers `none` for a null pointer. Times are milliseconds on 64 bits.
pub mod Numbers
pub mod Signing
pub mod Replay
pub mod Canonical
use knights.Base.{
  ℕ, zero, suc, ◌+◌, ◌-◌, ◌*◌, ◌/◌, ◌%◌, ◌^◌, ◌≡◌, Bool, true, false, not, ◌&&◌, ◌||◌, Option, none,
  some, List, [], ◌∷◌, ◌++◌, ltb, leb, ◌==◌, if◌then◌else◌, is_empty, length, get_or, bit_and,
}
use knights.Base.Bits.{shr, u8, u64}
use knights.Base.Texts.{same_text}
use knights.Base.Maps.{find, put, erase, is_some}

abbrev pub Fields : Type 0
Fields = List (List ℕ × List ℕ)

pub data VerifyResult : Type 0 where
  ok missing_field invalid_issued_at expired future signature_mismatch replay
        secret_not_configured :
      VerifyResult

pub record VerifyOptions : Type 0 where
  pub ttl_ms : ℕ
  pub future_skew_ms : ℕ

abbrev pub default_options : VerifyOptions
default_options = record { ttl_ms = 60000; future_skew_ms = 5000 }

pub record Verifier : Type 0 where
  pub secret : List ℕ
  pub options : VerifyOptions
  pub seen_nonces : List (List ℕ × ℕ)

-- "issued_at", "nonce" and "signature"
abbrev pub issued_at : List ℕ
issued_at = 105 ∷ 115 ∷ 115 ∷ 117 ∷ 101 ∷ 100 ∷ 95 ∷ 97 ∷ 116 ∷ []

abbrev pub nonce : List ℕ
nonce = 110 ∷ 111 ∷ 110 ∷ 99 ∷ 101 ∷ []

abbrev pub signature : List ℕ
signature = 115 ∷ 105 ∷ 103 ∷ 110 ∷ 97 ∷ 116 ∷ 117 ∷ 114 ∷ 101 ∷ []

-- `std::string` in the order of its bytes.
abbrev pub before : List ℕ → List ℕ → Bool
before xs [] = false
before [] (y ∷ ys) = true
before (x ∷ xs) (y ∷ ys) = let rest = before xs ys in if x == y then rest else ltb x y

-- `std::sort` by the keys, by insertion.
abbrev pub insert : List ℕ × List ℕ → Fields → Fields
insert f [] = f ∷ []
insert f (g ∷ gs) = let rest = insert f gs in if before g.0 f.0 then g ∷ rest else f ∷ g ∷ gs

abbrev pub sort : Fields → Fields
sort [] = []
sort (f ∷ fs) = insert f (sort fs)

-- The loop that writes the entries: `key=value`, with line breaks between them.
abbrev pub lines : Fields → List ℕ
lines [] = []
lines ((k, x) ∷ fs) =
    let rest = lines fs in k ++ (61 ∷ (x ++ (if is_empty fs then [] else 10 ∷ rest)))

unfoldable pub to_kv_payload : Fields → List ℕ
to_kv_payload fields = lines (sort fields)

unfoldable pub canonical_signing_data : Fields → List ℕ
canonical_signing_data fields = lines (sort (erase signature fields))

-- The loop of `parse_u64` from a value on.
abbrev pub digits_from : ℕ → List ℕ → Option ℕ
digits_from value [] = some value
digits_from value (c ∷ cs) =
    let digit = c - 48 in
    let rest = digits_from (u64 (value * 10 + digit)) cs in
    if ltb c 48 || ltb 57 c
    then none
    else (if ltb ((2 ^ 64 - 1 - digit) / 10) value then none else rest)

unfoldable pub parse_u64 : List ℕ → Option ℕ
parse_u64 text = if is_empty text then none else digits_from 0 text

-- `CRYPTO_memcmp` of texts of one length tells whether they are the same.
unfoldable pub signatures_equal : List ℕ → List ℕ → Bool
signatures_equal l r =
    if not (length l == length r) then false else if is_empty l then true else same_text l r

-- "0123456789abcdef"
abbrev pub hex_digits : List ℕ
hex_digits = 48 ∷ 49 ∷ 50 ∷ 51 ∷ 52 ∷ 53 ∷ 54 ∷ 55 ∷ 56 ∷ 57 ∷ 97 ∷ 98 ∷ 99 ∷ 100 ∷ 101 ∷ 102 ∷ []

abbrev pub to_hex : List ℕ → List ℕ
to_hex [] = []
to_hex (b ∷ bs) =
    get_or hex_digits (bit_and (shr b 4) 0x0f) 0 ∷ get_or hex_digits (bit_and b 0x0f) 0 ∷ to_hex bs

-- The bytes of a random number, the lowest first.
abbrev pub random_bytes : ℕ → ℕ → List ℕ
random_bytes zero value = []
random_bytes (suc n) value = u8 (bit_and value 0xff) ∷ random_bytes n (shr value 8)

-- From two numbers of the random generator.
unfoldable pub make_nonce : ℕ → ℕ → List ℕ
make_nonce first second = to_hex (random_bytes 8 first ++ random_bytes 8 second)

-- `std::to_string` of a 64-bit number, on fuel: a number has no more digits than its own size and one.
abbrev pub decimal : ℕ → ℕ → List ℕ
decimal zero n = []
decimal (suc fuel) n =
    let upper = decimal fuel (n / 10) in (if ltb n 10 then [] else upper) ++ ((48 + n % 10) ∷ [])

abbrev pub to_string : ℕ → List ℕ
to_string n = decimal 20 n

-- A field that is there and not empty.
abbrev pub non_empty : Option (List ℕ) → Option (List ℕ)
non_empty none = none
non_empty (some xs) = if is_empty xs then none else some xs

abbrev pub all_three :
    Option (List ℕ) → Option (List ℕ) → Option (List ℕ) → Option (List ℕ × List ℕ × List ℕ)
all_three none y z = none
all_three (some x) none z = none
all_three (some x) (some y) none = none
all_three (some x) (some y) (some z) = some (x, y, z)

-- The texts of the time, the nonce and the signature, where all three are there and not empty.
unfoldable pub signed_fields : Fields → Option (List ℕ × List ℕ × List ℕ)
signed_fields fields =
    all_three (non_empty (find issued_at fields)) (non_empty (find nonce fields))
      (non_empty (find signature fields))

abbrev pub is_late : VerifyOptions → ℕ → ℕ → Bool
is_late options now issued = ltb (u64 (issued + options.ttl_ms)) now

-- The loop that forgets the nonces whose time has passed.
abbrev pub forget : VerifyOptions → ℕ → List (List ℕ × ℕ) → List (List ℕ × ℕ)
forget options now [] = []
forget options now ((n, issued) ∷ ns) =
    let rest = forget options now ns in
    if is_late options now issued then rest else (n, issued) ∷ rest

-- The end of `verify`, with the lock taken.
unfoldable pub check_nonce : Verifier → ℕ → List ℕ → ℕ → Verifier × VerifyResult
check_nonce v issued once now =
    let seen = forget v.options now v.seen_nonces in
    if is_some (find once seen)
    then (record v { seen_nonces = seen }, replay)
    else (record v { seen_nonces = (once, issued) ∷ seen }, ok)

module _ (hmac : List ℕ → List ℕ → Option (List ℕ)) where
  abbrev pub hex_of : Option (List ℕ) → List ℕ
  hex_of none = []
  hex_of (some digest) = to_hex digest

  unfoldable pub sign_fields : Fields → List ℕ → List ℕ
  sign_fields fields secret =
      if is_empty secret
      then []
      else (let text = canonical_signing_data fields in
          if is_empty text then [] else hex_of (hmac secret text))

  -- The fields that it leaves and its answer; `first` and `second` are the random numbers.
  unfoldable pub append_signature_fields : Fields → List ℕ → ℕ → List ℕ → ℕ → ℕ → Fields × Bool
  append_signature_fields fields secret issued once first second =
      if is_empty secret
      then (fields, false)
      else (let once' = if is_empty once then make_nonce first second else once in
          let fields' =
            erase signature (put nonce once' (put issued_at (to_string issued) fields)) in
          let sign = sign_fields fields' secret in
          if is_empty sign then (fields', false) else (put signature sign fields', true))

  unfoldable pub check_time :
      Verifier → Fields → ℕ → Option ℕ → List ℕ → List ℕ → Verifier × VerifyResult
  check_time v fields now none once sign = (v, invalid_issued_at)
  check_time v fields now (some issued) once sign =
      let expected = sign_fields fields v.secret in
      if ltb (u64 (now + v.options.future_skew_ms)) issued
      then (v, future)
      else (if is_late v.options now issued
          then (v, expired)
          else (if is_empty expected || not (signatures_equal expected sign)
              then (v, signature_mismatch)
              else check_nonce v issued once now))

  unfoldable pub check_fields :
      Verifier → Fields → ℕ → Option (List ℕ × List ℕ × List ℕ) → Verifier × VerifyResult
  check_fields v fields now none = (v, missing_field)
  check_fields v fields now (some (time, once, sign)) =
      check_time v fields now (parse_u64 time) once sign

  unfoldable pub verify : Verifier → Fields → ℕ → Verifier × VerifyResult
  verify v fields now =
      if is_empty v.secret
      then (v, secret_not_configured)
      else check_fields v fields now (signed_fields fields)
