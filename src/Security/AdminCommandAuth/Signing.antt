-- ===== src/Security/AdminCommandAuth/Signing.antt =====
-- Commands that `append_signature_fields` signs are accepted by `verify`.
use knights.Base.{
  ℕ, ◌+◌, ◌≤◌, ◌<◌, ◌^◌, ◌≡◌, ◌∙◌, refl, true, false, Option, none, some, List, [], ◌∷◌, ◌++◌, ltb,
  if◌then◌else◌, is_empty, arith, ap,
}
use knights.Base.Bits.{u64}
use knights.Base.Texts.{same_text_refl}
use knights.Base.Maps.{find, put, erase, erase-put, find-put, find-put_other, find-erase}
use knights.Security.AdminCommandAuth.{
  Fields, Verifier, ok, is_late, forget, check_nonce, check_time, check_fields, verify,
  signed_fields, parse_u64, sign_fields, signatures_equal, sort, insert, lines,
  canonical_signing_data, issued_at, nonce, signature, to_string, append_signature_fields,
  make_nonce, hex_of, non_empty,
}
use knights.Security.AdminCommandAuth.Canonical.{some_line}
use knights.Security.AdminCommandAuth.Numbers.{parse_u64-to_string, is_empty-to_string}

is_empty-insert : (f : List ℕ × List ℕ) (fs : Fields) → is_empty (insert f fs) ≡ false
is_empty-insert f [] = refl
is_empty-insert f (g ∷ gs) = ground arith

is_empty-lines : (fs : Fields) → is_empty (lines fs) ≡ is_empty fs
is_empty-lines [] = refl
is_empty-lines ((k, x) ∷ fs) = some_line k (x ++ (if is_empty fs then [] else 10 ∷ lines fs))

is_empty-sort : (fs : Fields) → is_empty (sort fs) ≡ is_empty fs
is_empty-sort [] = refl
is_empty-sort (f ∷ fs) = is_empty-insert f (sort fs)

-- The fields that are signed.
unfoldable to_sign : Fields → ℕ → List ℕ → Fields
to_sign fields issued once =
    erase signature (put nonce once (put issued_at (to_string issued) fields))

is_empty-find : (key value : List ℕ) (fs : Fields) → find key fs ≡ some value → is_empty fs ≡ false
is_empty-find key value [] h = ground arith
is_empty-find key value (f ∷ fs) h = refl

find-issued_at :
    (fields : Fields) (issued : ℕ) (once : List ℕ)
    → find issued_at (to_sign fields issued once) ≡ some (to_string issued)
unfolding to_sign
find-issued_at fields issued once =
    let start = put issued_at (to_string issued) fields in
    find-erase signature issued_at (put nonce once start) refl
    ∙ find-put_other nonce once issued_at start refl
    ∙ find-put issued_at (to_string issued) fields

find-nonce :
    (fields : Fields) (issued : ℕ) (once : List ℕ)
    → find nonce (to_sign fields issued once) ≡ some once
unfolding to_sign
find-nonce fields issued once =
    let start = put issued_at (to_string issued) fields in
    find-erase signature nonce (put nonce once start) refl ∙ find-put nonce once start

non_empty-some : (xs : List ℕ) → is_empty xs ≡ false → non_empty (some xs) ≡ some xs
non_empty-some xs h = ground arith

signed_fields-put :
    (fields : Fields) (issued : ℕ) (once sign : List ℕ)
    → is_empty once ≡ false
    → is_empty sign ≡ false
    → signed_fields (put signature sign (to_sign fields issued once))
      ≡ some (to_string issued, once, sign)
unfolding signed_fields
signed_fields-put fields issued once sign h k =
    let fs = to_sign fields issued once in
    let time : non_empty (find issued_at (put signature sign fs)) ≡ some (to_string issued) =
      ap non_empty
        (find-put_other signature sign issued_at fs refl ∙ find-issued_at fields issued once)
      ∙ non_empty-some (to_string issued) (is_empty-to_string issued) in
    let used : non_empty (find nonce (put signature sign fs)) ≡ some once =
      ap non_empty (find-put_other signature sign nonce fs refl ∙ find-nonce fields issued once)
      ∙ non_empty-some once h in
    let last : non_empty (find signature (put signature sign fs)) ≡ some sign =
      ap non_empty (find-put signature sign fs) ∙ non_empty-some sign k in
    rw (time, used, last) refl

signatures_equal_refl : (xs : List ℕ) → signatures_equal xs xs ≡ true
unfolding signatures_equal
signatures_equal_refl xs = ground (arith, same_text_refl xs)

-- The nonce that is sent: the one that is given, or 16 random bytes.
unfoldable pub chosen : List ℕ → ℕ → ℕ → List ℕ
chosen once first second = if is_empty once then make_nonce first second else once

is_empty-chosen : (once : List ℕ) (first second : ℕ) → is_empty (chosen once first second) ≡ false
unfolding make_nonce chosen
is_empty-chosen [] first second = refl
is_empty-chosen (x ∷ xs) first second = refl

module _ (hmac : List ℕ → List ℕ → Option (List ℕ)) where
  sign_fields-put :
      (value : List ℕ) (fs : Fields) (secret : List ℕ)
      → sign_fields hmac (put signature value fs) secret ≡ sign_fields hmac fs secret
  unfolding sign_fields canonical_signing_data
  sign_fields-put value fs secret = rw (erase-put signature value fs) refl

  is_empty-sign_fields :
      (fs : Fields) (secret : List ℕ)
      → ((key text : List ℕ) → is_empty (hex_of hmac (hmac key text)) ≡ false)
      → is_empty secret ≡ false
      → is_empty (erase signature fs) ≡ false
      → is_empty (sign_fields hmac fs secret) ≡ false
  unfolding sign_fields canonical_signing_data
  is_empty-sign_fields fs secret digest some_secret some_field =
      let entries = erase signature fs in
      let some_text = is_empty-lines (sort entries) ∙ is_empty-sort entries ∙ some_field in
      rw (some_secret, some_text) (digest secret (lines (sort entries)))

  verify_accepts :
      (v : Verifier) (fields : Fields) (now issued : ℕ) (time once sign : List ℕ)
      → is_empty v.secret ≡ false
      → signed_fields fields ≡ some (time, once, sign)
      → parse_u64 time ≡ some issued
      → ltb (u64 (now + v.options.future_skew_ms)) issued ≡ false
      → is_late v.options now issued ≡ false
      → is_empty sign ≡ false
      → sign_fields hmac fields v.secret ≡ sign
      → find once (forget v.options now v.seen_nonces) ≡ none
      → (verify hmac v fields now).1 ≡ ok
  unfolding verify check_fields check_time check_nonce
  verify_accepts v fields now issued time once sign some_secret signed value past window some_sign
        same fresh =
      rw
        (
          some_secret,
          signed,
          value,
          past,
          window,
          same,
          some_sign,
          signatures_equal_refl sign,
          fresh,
        )
        refl

  append_signature_fields-sent :
      (fields : Fields) (secret : List ℕ) (issued : ℕ) (once : List ℕ) (first second : ℕ)
      → is_empty secret ≡ false
      → is_empty (sign_fields hmac (to_sign fields issued (chosen once first second)) secret)
        ≡ false
      → append_signature_fields hmac fields secret issued once first second ≡ (
          let fs = to_sign fields issued (chosen once first second) in
          (put signature (sign_fields hmac fs secret) fs, true))
  unfolding append_signature_fields to_sign chosen
  append_signature_fields-sent fields secret issued once first second h k = rw (h, k) refl

  -- For a secret that is not empty and an HMAC that always gives a digest, the fields that
  -- `append_signature_fields` leaves, at a time below 2 ^ 64, are accepted by each verifier of the same secret
  -- that checks them within its time window and does not remember their nonce.
  pub verify-append_signature_fields :
      (v : Verifier) (fields : Fields) (issued : ℕ) (once : List ℕ) (first second now : ℕ)
      → ((key text : List ℕ) → is_empty (hex_of hmac (hmac key text)) ≡ false)
      → is_empty v.secret ≡ false
      → issued < 2 ^ 64
      → issued ≤ u64 (now + v.options.future_skew_ms)
      → now ≤ u64 (issued + v.options.ttl_ms)
      → find (chosen once first second) (forget v.options now v.seen_nonces) ≡ none
      → let sent = append_signature_fields hmac fields v.secret issued once first second in
        (sent.1 ≡ true) × ((verify hmac v sent.0 now).1 ≡ ok)
  verify-append_signature_fields v fields issued once first second now digest some_secret small past
        window fresh =
      let once' = chosen once first second in
      let fs = to_sign fields issued once' in
      let some_sign = is_empty-sign_fields fs v.secret digest some_secret (
        is_empty-find issued_at (to_string issued) (erase signature fs)
          (find-erase signature issued_at fs refl ∙ find-issued_at fields issued once')) in
      let sent =
        append_signature_fields-sent fields v.secret issued once first second some_secret
          some_sign in
      let sign = sign_fields hmac fs v.secret in
      let accepted =
        verify_accepts v (put signature sign fs) now issued (to_string issued) once' sign
          some_secret
          (signed_fields-put fields issued once' sign (is_empty-chosen once first second) some_sign)
          (parse_u64-to_string issued small) (ground (arith, past)) (ground (arith, window))
          some_sign (sign_fields-put sign fs v.secret) fresh in
      (ap (λ r. r.1) sent, ap (λ r. (verify hmac v r.0 now).1) sent ∙ accepted)
