-- ===== src/State/InstanceRegistry/Tokens.antt =====
-- Tokens: what trimming and lowering leave, and when a field matches its filters.
use knights.Base.{
  ℕ, suc, ◌≡◌, ◌∙◌, ap, ap₂, sym, refl, true, false, not, ◌&&◌, ◌||◌, List, [], ◌∷◌, if◌then◌else◌,
  is_empty, length, ◌≤◌, arith, Bool-cases, inl, inr,
}
use knights.Base.Texts.{same_text}
use knights.State.InstanceRegistry.{
  is_space, to_lower, lower, trim_begin, trim_end, normalize_token, normalize_token_set,
  matches_field, has_text,
}

is_space-to_lower : (c : ℕ) → is_space (to_lower c) ≡ is_space c
is_space-to_lower c = ground arith

to_lower-to_lower : (c : ℕ) → to_lower (to_lower c) ≡ to_lower c
to_lower-to_lower c = ground arith

lower-lower : (cs : List ℕ) → lower (lower cs) ≡ lower cs
lower-lower [] = refl
lower-lower (c ∷ cs) = ap₂ ◌∷◌ (to_lower-to_lower c) (lower-lower cs)

is_empty-lower : (cs : List ℕ) → is_empty (lower cs) ≡ is_empty cs
is_empty-lower [] = refl
is_empty-lower (c ∷ cs) = refl

trim_begin-lower : (cs : List ℕ) → trim_begin (lower cs) ≡ lower (trim_begin cs)
unfolding trim_begin
trim_begin-lower [] = refl
trim_begin-lower (c ∷ cs) = elim (Bool-cases (is_space c)) [
  | inl e ↦ let e' = is_space-to_lower c ∙ e in rw e (rw e' (trim_begin-lower cs))
  | inr e ↦ let e' = is_space-to_lower c ∙ e in rw e (rw e' refl)
]

trim_end-lower : (cs : List ℕ) → trim_end (lower cs) ≡ lower (trim_end cs)
unfolding trim_end
trim_end-lower [] = refl
trim_end-lower (c ∷ cs) =
    let same = ap is_empty (trim_end-lower cs) ∙ is_empty-lower (trim_end cs) in
    ground (arith, is_space-to_lower c, trim_end-lower cs, same)

trim_begin_again : (cs : List ℕ) → trim_begin (trim_begin cs) ≡ trim_begin cs
unfolding trim_begin
trim_begin_again [] = refl
trim_begin_again (c ∷ cs) = elim (Bool-cases (is_space c)) [
  | inl e ↦ rw e (trim_begin_again cs)
  | inr e ↦ rw e (rw e refl)
]

trim_end_again : (cs : List ℕ) → trim_end (trim_end cs) ≡ trim_end cs
unfolding trim_end
trim_end_again [] = refl
trim_end_again (c ∷ cs) = elim (Bool-cases (is_empty (trim_end cs) && is_space c)) [
  | inl e ↦ rw e refl
  | inr e ↦ rw e (rw (trim_end_again cs) (rw e refl))
]

length-trim_begin : (cs : List ℕ) → length (trim_begin cs) ≤ length cs
unfolding trim_begin
length-trim_begin [] = omega arith
length-trim_begin (c ∷ cs) = ground (arith, length-trim_begin cs)

-- A text that starts with no space keeps its start when its end is trimmed.
trim_begin-trim_end : (cs : List ℕ) → trim_begin cs ≡ cs → trim_begin (trim_end cs) ≡ trim_end cs
unfolding trim_begin trim_end
trim_begin-trim_end [] h = refl
trim_begin-trim_end (c ∷ cs) h = elim (Bool-cases (is_space c)) [
  | inl e ↦
      let longer : length (if is_space c then trim_begin cs else c ∷ cs) ≡ suc (length cs) =
        ap length h in
      absurd (ground (arith, length-trim_begin cs, longer))
  | inr e ↦
      let kept : trim_end (c ∷ cs) ≡ c ∷ trim_end cs = ground (arith) in
      let starts : trim_begin (c ∷ trim_end cs) ≡ c ∷ trim_end cs = rw e refl in
      ap trim_begin kept ∙ starts ∙ sym kept
]

-- `normalize_token` is done in one go: normalizing a token again changes nothing.
pub normalize_token-normalize_token :
    (value : List ℕ) → normalize_token (normalize_token value) ≡ normalize_token value
unfolding normalize_token
normalize_token-normalize_token value =
    let cs = trim_begin value in
    ap (λ x. lower (trim_end x))
      (trim_begin-lower (trim_end cs) ∙ ap lower (trim_begin-trim_end cs (trim_begin_again value)))
    ∙ ap lower (trim_end-lower (trim_end cs) ∙ ap lower (trim_end_again cs))
    ∙ lower-lower (trim_end cs)

-- The filters of a field, each normalized.
abbrev pub normalized : List (List ℕ) → List (List ℕ)
normalized [] = []
normalized (value ∷ values) = normalize_token value ∷ normalized values

same_text_empty : (s t : List ℕ) → is_empty t ≡ true → same_text s t ≡ is_empty s
same_text_empty [] [] h = refl
same_text_empty (x ∷ s) [] h = refl
same_text_empty s (y ∷ t) h = absurd (ground arith)

same_text_differ : (s t : List ℕ) → is_empty s ≡ true → is_empty t ≡ false → same_text s t ≡ false
same_text_differ [] [] h h' = absurd (ground arith)
same_text_differ [] (y ∷ t) h h' = refl
same_text_differ (x ∷ s) t h h' = absurd (ground arith)

has_text_none :
    (s : List ℕ) (texts : List (List ℕ)) → is_empty texts ≡ true → has_text s texts ≡ false
has_text_none s [] h = refl
has_text_none s (t ∷ texts) h = absurd (ground arith)

has_text-set :
    (token : List ℕ) (values : List (List ℕ))
    → has_text token (normalize_token_set values)
      ≡ (not (is_empty token) && has_text token (normalized values))
unfolding normalize_token_set
has_text-set token [] = ground arith
has_text-set token (value ∷ values) = ground (
  arith,
  has_text-set token values,
  same_text_empty token (normalize_token value),
  same_text_differ token (normalize_token value),
)

-- A field matches an empty list of filters. It matches other filters exactly when it is not empty after
-- trimming and lowering and equals one of them up to trimming and lowering.
pub matches_field_lem :
    (value : List ℕ) (filters : List (List ℕ))
    → (matches_field value filters ≡ (
        is_empty filters
        || (not (is_empty (normalize_token value))
            && has_text (normalize_token value) (normalized filters))))
unfolding matches_field
matches_field_lem value filters =
    let token = normalize_token value in
    ground (arith, has_text-set token filters, has_text_none token (normalize_token_set filters))
