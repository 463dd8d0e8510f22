-- ===== src/Protocol/Packet/Strings.antt =====
-- Texts: the fuel of the validation, and strings that are written and read back.
use knights.Base.{
  ℕ, zero, suc, ◌+◌, ◌<◌, ◌≤◌, ◌^◌, ◌≡◌, ◌∙◌, ap, sym, refl, true, false, Option, none, some, List,
  [], ◌∷◌, ◌++◌, ltb, if◌then◌else◌, length, take, drop, arith, length-append, length-drop,
  take-length_append, drop-length_append, Option-cases, Bool-cases, inl, inr,
}
use knights.Protocol.Bytes.{byte_of, write_be16, read_be16, be16-bytes}
use knights.Protocol.Packet.{
  check_utf8, next_codepoint, after_codepoint, lead, is_valid_utf8, write_lp_utf8, read_lp_utf8,
}

after_codepoint_shrinks :
    (o : Option (ℕ × ℕ × ℕ)) (rest r : List ℕ)
    → after_codepoint o rest ≡ some r
    → length r ≤ length rest
unfolding after_codepoint
after_codepoint_shrinks none rest r h = absurd (ground arith)
after_codepoint_shrinks (some (follow, bits, least)) rest r h =
    ground (arith, length-drop follow rest)

next_codepoint_shrinks :
    (b : ℕ) (rest r : List ℕ) → next_codepoint b rest ≡ some r → length r ≤ length rest
unfolding next_codepoint
next_codepoint_shrinks b rest r h = ground (arith, after_codepoint_shrinks (lead b) rest r)

check_utf8_same :
    (f g : ℕ) (s : List ℕ) → length s ≤ f → length s ≤ g → check_utf8 f s ≡ check_utf8 g s
unfolding check_utf8
check_utf8_same zero zero s hf hg = refl
check_utf8_same zero (suc g) [] hf hg = refl
check_utf8_same zero (suc g) (b ∷ s) hf hg = absurd (omega arith)
check_utf8_same (suc f) zero [] hf hg = refl
check_utf8_same (suc f) zero (b ∷ s) hf hg = absurd (omega arith)
check_utf8_same (suc f) (suc g) [] hf hg = refl
check_utf8_same (suc f) (suc g) (b ∷ s) hf hg = elim (Option-cases (next_codepoint b s)) [
  | inl e ↦ rw (e, check_utf8) refl
  | inr (r, e) ↦
      let small = next_codepoint_shrinks b s r e in
      rw (e, check_utf8) (check_utf8_same f g r (omega (arith, small)) (omega (arith, small)))
]

-- The validation of UTF-8 ends within as many rounds as the text has bytes: with any greater fuel its
-- answer is the same.
check_utf8_lem : (fuel : ℕ) (s : List ℕ) → length s ≤ fuel → check_utf8 fuel s ≡ is_valid_utf8 s
check_utf8_lem fuel s h = check_utf8_same fuel (length s) s h (omega arith)

-- Reading behind the two bytes of the length.
read_lp_utf8_bytes :
    (b0 b1 : ℕ) (s rest : List ℕ)
    → read_be16 (b0 ∷ b1 ∷ (s ++ rest)) 0 ≡ length s
    → is_valid_utf8 s ≡ true
    → read_lp_utf8 (b0 ∷ b1 ∷ (s ++ rest)) ≡ some (s, rest)
unfolding read_lp_utf8
read_lp_utf8_bytes b0 b1 s rest len valid =
    let two : 2 + length s ≡ length (b0 ∷ b1 ∷ s) = omega arith in
    let behind : drop (2 + length s) (b0 ∷ b1 ∷ (s ++ rest)) ≡ rest =
      ap (λ n. drop n (b0 ∷ b1 ∷ (s ++ rest))) two ∙ drop-length_append s rest in
    let front = take-length_append s rest in
    rw len (rw front (rw behind (ground (arith, valid, length-append s rest))))

short : (n : ℕ) → n < 2 ^ 16 → ltb 0xffff n ≡ false
short n h = ground arith

write_lp_utf8_bytes :
    (s : List ℕ)
    → length s < 2 ^ 16
    → write_lp_utf8 [] s ≡ byte_of (length s) 8 ∷ byte_of (length s) 0 ∷ s
unfolding write_lp_utf8 write_be16
write_lp_utf8_bytes s small =
    ap (λ b. let s' = if b then take 0xffff s else s in write_be16 (length s') ++ s')
      (short (length s) small)

-- A valid text of fewer than 2 ^ 16 bytes that is written with its length and read back is the same, and
-- the bytes behind it are left.
pub read_lp_utf8-write_lp_utf8 :
    (s rest : List ℕ)
    → length s < 2 ^ 16
    → is_valid_utf8 s ≡ true
    → read_lp_utf8 (write_lp_utf8 [] s ++ rest) ≡ some (s, rest)
unfolding read_be16
read_lp_utf8-write_lp_utf8 s rest small valid =
    ap (λ x. read_lp_utf8 (x ++ rest)) (write_lp_utf8_bytes s small)
    ∙ read_lp_utf8_bytes (byte_of (length s) 8) (byte_of (length s) 0) s rest
        (be16-bytes (length s) small) valid

take_within : (n : ℕ) (s t : List ℕ) → n ≤ length s → take n (s ++ t) ≡ take n s
take_within zero s t h = refl
take_within (suc n) [] t h = absurd (omega arith)
take_within (suc n) (x ∷ s) t h = ap (◌∷◌ x) (take_within n s t (omega arith))

drop_within : (n : ℕ) (s t : List ℕ) → n ≤ length s → drop n (s ++ t) ≡ drop n s ++ t
drop_within zero s t h = refl
drop_within (suc n) [] t h = absurd (omega arith)
drop_within (suc n) (x ∷ s) t h = drop_within n s t (omega arith)

after_codepoint_within :
    (o : Option (ℕ × ℕ × ℕ)) (s t r : List ℕ)
    → after_codepoint o s ≡ some r
    → after_codepoint o (s ++ t) ≡ some (r ++ t)
unfolding after_codepoint
after_codepoint_within none s t r h = absurd (ground arith)
after_codepoint_within (some (follow, bits, least)) s t r h =
    let inside : follow ≤ length s = ground arith in
    let rest : drop follow s ≡ r = ground arith in
    ground (arith, take_within follow s t inside, drop_within follow s t inside, length-append s t)

next_codepoint_within :
    (b : ℕ) (s t r : List ℕ)
    → next_codepoint b s ≡ some r
    → next_codepoint b (s ++ t) ≡ some (r ++ t)
unfolding next_codepoint
next_codepoint_within b s t r h = elim (Bool-cases (ltb b 0x80)) [
  | inl e ↦ let same : s ≡ r = ground arith in rw e (ap (λ x. some (x ++ t)) same)
  | inr e ↦
      let inner : after_codepoint (lead b) s ≡ some r = ground arith in
      rw e (after_codepoint_within (lead b) s t r inner)
]

check_next :
    (f b : ℕ) (s r : List ℕ)
    → next_codepoint b s ≡ some r
    → check_utf8 (suc f) (b ∷ s) ≡ check_utf8 f r
unfolding check_utf8
check_next f b s r e = rw (e, check_utf8) refl

check_none : (f b : ℕ) (s : List ℕ) → next_codepoint b s ≡ none → check_utf8 (suc f) (b ∷ s) ≡ false
unfolding check_utf8
check_none f b s e = rw (e, check_utf8) refl

valid_step :
    (b : ℕ) (s r : List ℕ) → next_codepoint b s ≡ some r → is_valid_utf8 (b ∷ s) ≡ is_valid_utf8 r
valid_step b s r e =
    check_next (length s) b s r e ∙ (check_utf8_lem (length s) r (next_codepoint_shrinks b s r e))

valid_stop : (b : ℕ) (s : List ℕ) → next_codepoint b s ≡ none → is_valid_utf8 (b ∷ s) ≡ false
valid_stop b s e = check_none (length s) b s e

append_valid :
    (f : ℕ) (s t : List ℕ)
    → length s ≤ f
    → is_valid_utf8 s ≡ true
    → is_valid_utf8 t ≡ true
    → is_valid_utf8 (s ++ t) ≡ true
append_valid f [] t h v w = w
append_valid zero (b ∷ s) t h v w = absurd (omega arith)
append_valid (suc f) (b ∷ s) t h v w = elim (Option-cases (next_codepoint b s)) [
  | inl e ↦ let wrong = sym v ∙ valid_stop b s e in absurd (ground (arith, wrong))
  | inr (r, e) ↦
      let small = next_codepoint_shrinks b s r e in
      valid_step b (s ++ t) (r ++ t) (next_codepoint_within b s t r e)
      ∙ append_valid f r t (omega (arith, small)) (sym (valid_step b s r e) ∙ v) w
]

-- Valid texts joined are a valid text.
pub is_valid_utf8-append :
    (s t : List ℕ) → is_valid_utf8 s ≡ true → is_valid_utf8 t ≡ true → is_valid_utf8 (s ++ t) ≡ true
is_valid_utf8-append s t v w = append_valid (length s) s t (omega arith) v w
