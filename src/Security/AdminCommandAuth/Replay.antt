-- ===== src/Security/AdminCommandAuth/Replay.antt =====
-- Signed commands over the calls of one verifier: none is accepted twice.
use knights.Base.{
  ℕ, ◌+◌, ◌≤◌, ◌≡◌, refl, Bool, true, false, ◌&&◌, ◌||◌, Option, none, some, List, [], ◌∷◌, leb,
  ◌==◌, if◌then◌else◌, is_empty, arith, Bool-cases, inl, inr, ap,
}
use knights.Base.Texts.{same_text, same_text-eq}
use knights.Base.Maps.{find}
use knights.Security.AdminCommandAuth.{
  Fields, VerifyResult, VerifyOptions, Verifier, ok, missing_field, invalid_issued_at, expired,
  future, signature_mismatch, replay, secret_not_configured, is_late, forget, check_nonce,
  check_time, check_fields, verify, signed_fields, parse_u64,
}

abbrev pub is_ok : VerifyResult → Bool
is_ok ok = true
is_ok missing_field = false
is_ok invalid_issued_at = false
is_ok expired = false
is_ok future = false
is_ok signature_mismatch = false
is_ok replay = false
is_ok secret_not_configured = false

abbrev pub is_number : ℕ → Option ℕ → Bool
is_number n none = false
is_number n (some m) = m == n

-- Whether the fields carry the nonce `once` and a time that reads as `issued`.
abbrev pub carries_in : List ℕ → ℕ → Option (List ℕ × List ℕ × List ℕ) → Bool
carries_in once issued none = false
carries_in once issued (some (time, once', sign)) =
    same_text once' once && is_number issued (parse_u64 time)

abbrev pub carries : List ℕ → ℕ → Fields → Bool
carries once issued fields = carries_in once issued (signed_fields fields)

-- The times of the calls do not go back.
abbrev pub in_order : ℕ → List (Fields × ℕ) → Bool
in_order from [] = true
in_order from ((fields, now) ∷ cs) = let rest = in_order now cs in leb from now && rest

-- The nonce can not be accepted with this time again: its time has passed, or it is remembered.
abbrev Spent : List ℕ → ℕ → Verifier → ℕ → Type 0
Spent once issued v now =
    (is_late v.options now issued || is_number issued (find once v.seen_nonces)) ≡ true

find-forget :
    (options : VerifyOptions) (once : List ℕ) (issued now : ℕ) (ns : List (List ℕ × ℕ))
    → is_late options now issued ≡ false
    → is_number issued (find once ns) ≡ true
    → is_number issued (find once (forget options now ns)) ≡ true
find-forget options once issued now [] h k = k
find-forget options once issued now ((n, i) ∷ ns) h k =
    ground (arith, find-forget options once issued now ns)

module _ (hmac : List ℕ → List ℕ → Option (List ℕ)) where
  -- How many of the calls are accepted that carry this nonce and this time.
  abbrev pub times_accepted : List ℕ → ℕ → Verifier → List (Fields × ℕ) → ℕ
  times_accepted once issued v [] = 0
  times_accepted once issued v ((fields, now) ∷ cs) =
      let (v', result) = verify hmac v fields now in
      let rest = times_accepted once issued v' cs in
      if is_ok result && carries once issued fields then rest + 1 else rest

  -- What a call leaves of a spent nonce, and its answer.
  abbrev Kept : List ℕ → ℕ → ℕ → Verifier → Verifier × VerifyResult → Bool → Type 0
  Kept once issued now v out carried =
      (Spent once issued v now → Spent once issued out.0 now)
      × (Spent once issued v now → is_ok out.1 && carried ≡ false)
      × (is_ok out.1 && carried ≡ true → Spent once issued out.0 now)
      × (out.0.options ≡ v.options)

  refused-Kept :
      (once : List ℕ) (issued : ℕ) (v : Verifier) (now : ℕ) (r : VerifyResult) (carried : Bool)
      → is_ok r ≡ false
      → Kept once issued now v (v, r) carried
  refused-Kept once issued v now r carried h = (λ k. k, λ k. ground arith, λ k. ground arith, refl)

  nonce-Kept :
      (once : List ℕ) (issued : ℕ) (v : Verifier) (now issued' : ℕ) (once' : List ℕ)
      → is_late v.options now issued' ≡ false
      → Kept once issued now v
          (check_nonce v issued' once' now)
          (same_text once' once && (issued' == issued))
  unfolding check_nonce
  nonce-Kept once issued v now issued' once' h =
      let kept = find-forget v.options once issued now v.seen_nonces in
      let seen = forget v.options now v.seen_nonces in
      let same : (same_text once' once ≡ true → find once' seen ≡ find once seen) =
        λ e. ap (λ t. find t seen) (same_text-eq once' once e) in
      (
        ground (arith, kept, same),
        ground (arith, kept, same),
        ground (arith, kept, same),
        ground arith,
      )

  time-Kept :
      (once : List ℕ) (issued : ℕ) (v : Verifier) (fields : Fields) (now : ℕ) (time : Option ℕ)
      (once' sign : List ℕ)
      → Kept once issued now v
          (check_time hmac v fields now time once' sign)
          (same_text once' once && is_number issued time)
  unfolding check_time
  time-Kept once issued v fields now none once' sign =
      refused-Kept once issued v now invalid_issued_at (same_text once' once && false) refl
  time-Kept once issued v fields now (some i) once' sign = ground (
    arith,
    refused-Kept once issued v now future (same_text once' once && (i == issued)) refl,
    refused-Kept once issued v now expired (same_text once' once && (i == issued)) refl,
    refused-Kept once issued v now signature_mismatch (same_text once' once && (i == issued)) refl,
    nonce-Kept once issued v now i once',
  )

  fields-Kept :
      (once : List ℕ) (issued : ℕ) (v : Verifier) (fields : Fields) (now : ℕ)
      (signed : Option (List ℕ × List ℕ × List ℕ))
      → Kept once issued now v
          (check_fields hmac v fields now signed)
          (carries_in once issued signed)
  unfolding check_fields
  fields-Kept once issued v fields now none =
      refused-Kept once issued v now missing_field false refl
  fields-Kept once issued v fields now (some (time, once', sign)) =
      time-Kept once issued v fields now (parse_u64 time) once' sign

  verify-Kept :
      (once : List ℕ) (issued : ℕ) (v : Verifier) (fields : Fields) (now : ℕ)
      → Kept once issued now v (verify hmac v fields now) (carries once issued fields)
  unfolding verify
  verify-Kept once issued v fields now = elim (Bool-cases (is_empty v.secret)) [
    | inl e ↦
        rw e
          (refused-Kept once issued v now secret_not_configured (carries once issued fields) refl)
    | inr e ↦ rw e (fields-Kept once issued v fields now (signed_fields fields))
  ]

  Spent-later :
      (once : List ℕ) (issued : ℕ) (v : Verifier) (now later : ℕ)
      → Spent once issued v now
      → now ≤ later
      → Spent once issued v later
  Spent-later once issued v now later h k = ground arith

  Spent-never :
      (once : List ℕ) (issued : ℕ) (v : Verifier) (from : ℕ) (calls : List (Fields × ℕ))
      → Spent once issued v from
      → in_order from calls ≡ true
      → times_accepted once issued v calls ≡ 0
  Spent-never once issued v from [] h k = refl
  Spent-never once issued v from ((fields, now) ∷ cs) h k =
      let (kept, refused, fresh, same) = verify-Kept once issued v fields now in
      let v' = (verify hmac v fields now).0 in
      let spent = Spent-later once issued v from now h (ground arith) in
      ground (arith, refused spent, Spent-never once issued v' now cs (kept spent))

  -- Of the calls on a verifier whose times do not go back, at most one is accepted with a given nonce and a
  -- given time of issue.
  pub times_accepted-le :
      (once : List ℕ) (issued : ℕ) (v : Verifier) (from : ℕ) (calls : List (Fields × ℕ))
      → in_order from calls ≡ true
      → times_accepted once issued v calls ≤ 1
  times_accepted-le once issued v from [] k = omega arith
  times_accepted-le once issued v from ((fields, now) ∷ cs) k =
      let (kept, refused, fresh, same) = verify-Kept once issued v fields now in
      let v' = (verify hmac v fields now).0 in
      ground
        (arith, fresh, Spent-never once issued v' now cs, times_accepted-le once issued v' now cs)
