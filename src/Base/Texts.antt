-- ===== src/Base/Texts.antt =====
-- Texts as lists of bytes, and their equality as a test.
use Prim.Native.Nat.{ℕ}
use mathlib.Core.Path.{◌≡◌, refl, ap, ap₂}
use mathlib.Core.Bool.{Bool, true, false}
use mathlib.Core.List.{List, [], ◌∷◌}
use native.Mathlib.Omega.{arith}
use knights.Base.Tests.{◌==◌, if◌then◌else◌}

abbrev pub same_text : List ℕ → List ℕ → Bool
same_text [] [] = true
same_text [] (y ∷ ys) = false
same_text (x ∷ xs) [] = false
same_text (x ∷ xs) (y ∷ ys) = let rest = same_text xs ys in if x == y then rest else false

pub same_text-eq : (xs ys : List ℕ) → same_text xs ys ≡ true → xs ≡ ys
same_text-eq [] [] h = refl
same_text-eq [] (y ∷ ys) h = ground arith
same_text-eq (x ∷ xs) [] h = ground arith
same_text-eq (x ∷ xs) (y ∷ ys) h =
    let tail_same : same_text xs ys ≡ true = ground arith in
    let head_same : x ≡ y = ground arith in ap₂ ◌∷◌ head_same (same_text-eq xs ys tail_same)

pub same_text_refl : (xs : List ℕ) → same_text xs xs ≡ true
same_text_refl [] = refl
same_text_refl (x ∷ xs) = ground (arith, same_text_refl xs)

pub same_text_trade : (s t u : List ℕ) → same_text s t ≡ true → same_text s u ≡ same_text t u
same_text_trade s t u h = ap (λ x. same_text x u) (same_text-eq s t h)

pub same_text_sym : (s t : List ℕ) → same_text s t ≡ same_text t s
same_text_sym [] [] = refl
same_text_sym [] (y ∷ t) = refl
same_text_sym (x ∷ s) [] = refl
same_text_sym (x ∷ s) (y ∷ t) = ground (arith, same_text_sym s t)

-- A third text tells two texts apart or does not.
abbrev pub Apart : List ℕ → List ℕ → List ℕ → Type 0
Apart s t u =
    (same_text s t ≡ true → same_text s u ≡ same_text t u)
    × (same_text s u ≡ true → same_text s t ≡ same_text u t)
    × (same_text u t ≡ same_text t u)

pub apart : (s t u : List ℕ) → Apart s t u
apart s t u = (same_text_trade s t u, same_text_trade s u t, same_text_sym u t)
