-- ===== src/Security/AdminCommandAuth/Canonical.antt =====
-- What the text that is signed says of the fields.
use knights.Base.{
  ℕ, ◌≡◌, ◌∙◌, refl, sym, Bool, true, false, ◌&&◌, List, [], ◌∷◌, ◌++◌, if◌then◌else◌, is_empty,
  arith, not, Bool-cases, inl, inr, ap, ap₂, elem, append_assoc,
}
use knights.Base.Texts.{same_text, same_text-eq, apart}
use knights.Base.Maps.{find, erase, find-erase}
use knights.Security.AdminCommandAuth.{
  Fields, sort, insert, lines, before, canonical_signing_data, signature,
}

-- Keys without `=`, values without line breaks.
abbrev pub plain : Fields → Bool
plain [] = true
plain ((k, x) ∷ fs) = let rest = plain fs in not (elem 61 k) && (not (elem 10 x) && rest)

plain-erase : (key : List ℕ) (fs : Fields) → plain fs ≡ true → plain (erase key fs) ≡ true
plain-erase key [] h = refl
plain-erase key ((k, x) ∷ fs) h = ground (arith, plain-erase key fs)

plain-insert : (f : List ℕ × List ℕ) (fs : Fields) → plain (insert f fs) ≡ plain (f ∷ fs)
plain-insert f [] = refl
plain-insert f (g ∷ gs) = ground (arith, plain-insert f gs)

plain-sort : (fs : Fields) → plain (sort fs) ≡ plain fs
plain-sort [] = refl
plain-sort (f ∷ fs) = ground (arith, plain-insert f (sort fs), plain-sort fs)

before_irrefl : (xs : List ℕ) → before xs xs ≡ false
before_irrefl [] = refl
before_irrefl (x ∷ xs) = ground (arith, before_irrefl xs)

before-same_text : (xs ys : List ℕ) → before xs ys ≡ true → same_text xs ys ≡ false
before-same_text xs ys h = elim (Bool-cases (same_text xs ys)) [
  | inl e ↦
      let p : before xs xs ≡ before xs ys = ap (before xs) (same_text-eq xs ys e) in
      ground (arith, p, before_irrefl xs)
  | inr e ↦ e
]

find-insert :
    (key : List ℕ) (f : List ℕ × List ℕ) (fs : Fields) → find key (insert f fs) ≡ find key (f ∷ fs)
find-insert key f [] = refl
find-insert key f (g ∷ gs) =
    ground
      (arith, find-insert key f gs, before-same_text g.0 f.0, apart g.0 f.0 key, apart f.0 g.0 key)

find-sort : (key : List ℕ) (fs : Fields) → find key (sort fs) ≡ find key fs
find-sort key [] = refl
find-sort key (f ∷ fs) = find-insert key f (sort fs) ∙ ground (arith, find-sort key fs)

-- The lines with a break behind each.
ended : Fields → List ℕ
ended [] = []
ended ((k, x) ∷ fs) = k ++ (61 ∷ (x ++ (10 ∷ ended fs)))

lines-ended : (k x : List ℕ) (fs : Fields) → lines ((k, x) ∷ fs) ++ (10 ∷ []) ≡ ended ((k, x) ∷ fs)
unfolding ended
lines-ended k x [] =
    append_assoc k (61 ∷ (x ++ [])) (10 ∷ [])
    ∙ ap (λ t. k ++ (61 ∷ t)) (append_assoc x [] (10 ∷ []))
lines-ended k x ((k', x') ∷ fs) =
    append_assoc k (61 ∷ (x ++ (10 ∷ lines ((k', x') ∷ fs)))) (10 ∷ [])
    ∙ ap (λ t. k ++ (61 ∷ t))
        (append_assoc x (10 ∷ lines ((k', x') ∷ fs)) (10 ∷ [])
          ∙ ap (λ t. x ++ (10 ∷ t)) (lines-ended k' x' fs))

-- A text is split in one way at a byte that the first parts do not have.
split_once :
    (c : ℕ) (xs ys us vs : List ℕ)
    → elem c xs ≡ false
    → elem c ys ≡ false
    → xs ++ (c ∷ us) ≡ ys ++ (c ∷ vs)
    → (xs ≡ ys) × (us ≡ vs)
split_once c [] [] us vs h k e = (refl, cc)
split_once c [] (y ∷ ys) us vs h k e = let same : c ≡ y = cc in ground arith
split_once c (x ∷ xs) [] us vs h k e = let same : c ≡ x = sym cc in ground arith
split_once c (x ∷ xs) (y ∷ ys) us vs h k e =
    let (p, q) = split_once c xs ys us vs (ground arith) (ground arith) cc in
    let head : x ≡ y = cc in (ap₂ ◌∷◌ head p, q)

pub some_line : (k rest : List ℕ) → is_empty (k ++ (61 ∷ rest)) ≡ false
some_line [] rest = refl
some_line (x ∷ k) rest = refl

ended_once : (fs gs : Fields) → plain fs ≡ true → plain gs ≡ true → ended fs ≡ ended gs → fs ≡ gs
unfolding ended
ended_once [] [] h k e = refl
ended_once [] ((l, y) ∷ gs) h k e =
    let empty = ap is_empty e in ground (arith, some_line l (y ++ (10 ∷ ended gs)))
ended_once ((k, x) ∷ fs) [] h p e =
    let empty = ap is_empty e in ground (arith, some_line k (x ++ (10 ∷ ended fs)))
ended_once ((k, x) ∷ fs) ((l, y) ∷ gs) h p e =
    let (same_key, rest) =
      split_once 61 k l (x ++ (10 ∷ ended fs)) (y ++ (10 ∷ ended gs)) (ground arith) (ground arith)
        e in
    let (same_value, more) =
      split_once 10 x y (ended fs) (ended gs) (ground arith) (ground arith) rest in
    ap₂ ◌∷◌ (ap₂ (λ a b. (a, b)) same_key same_value)
      (ended_once fs gs (ground arith) (ground arith) more)

lines_once : (fs gs : Fields) → plain fs ≡ true → plain gs ≡ true → lines fs ≡ lines gs → fs ≡ gs
lines_once [] [] h k e = refl
lines_once [] ((l, y) ∷ gs) h k e =
    let empty = ap is_empty e in
    ground (arith, some_line l (y ++ (if is_empty gs then [] else 10 ∷ lines gs)))
lines_once ((k, x) ∷ fs) [] h p e =
    let empty = ap is_empty e in
    ground (arith, some_line k (x ++ (if is_empty fs then [] else 10 ∷ lines fs)))
lines_once ((k, x) ∷ fs) ((l, y) ∷ gs) h p e =
    ended_once ((k, x) ∷ fs) ((l, y) ∷ gs) h p
      (sym (lines-ended k x fs) ∙ ap (λ t. t ++ (10 ∷ [])) e ∙ lines-ended l y gs)

plain-signed : (fs : Fields) → plain fs ≡ true → plain (sort (erase signature fs)) ≡ true
plain-signed fs h = plain-sort (erase signature fs) ∙ plain-erase signature fs h

-- Two maps whose keys have no `=` and whose values have no line break are signed as one text only if they hold
-- the same value, or none, under every key but `signature`.
pub canonical_signing_data-find :
    (fs gs : Fields) (key : List ℕ)
    → plain fs ≡ true
    → plain gs ≡ true
    → same_text signature key ≡ false
    → canonical_signing_data fs ≡ canonical_signing_data gs
    → find key fs ≡ find key gs
unfolding canonical_signing_data
canonical_signing_data-find fs gs key h k other e =
    let same =
      lines_once (sort (erase signature fs)) (sort (erase signature gs)) (plain-signed fs h)
        (plain-signed gs k) e in
    sym (find-sort key (erase signature fs) ∙ find-erase signature key fs other)
    ∙ ap (find key) same
    ∙ (find-sort key (erase signature gs) ∙ find-erase signature key gs other)
