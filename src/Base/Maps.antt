-- ===== src/Base/Maps.antt =====
-- Maps with texts as keys: lists of pairs, of which the first with a key counts.
use Prim.Native.Nat.{ℕ}
use mathlib.Core.Path.{◌≡◌, refl}
use mathlib.Core.Bool.{Bool, true, false}
use mathlib.Core.Option.{Option, none, some}
use mathlib.Core.List.{List, [], ◌∷◌}
use native.Mathlib.Omega.{arith}
use knights.Base.Tests.{if◌then◌else◌}
use knights.Base.Texts.{same_text, same_text_refl, apart}

module _ {A : Type 0} where
  abbrev pub is_some : Option A → Bool
  is_some none = false
  is_some (some x) = true

  abbrev pub find : List ℕ → List (List ℕ × A) → Option A
  find key [] = none
  find key ((k, x) ∷ es) = let rest = find key es in if same_text k key then some x else rest

  -- `entries[key] = value`
  abbrev pub put : List ℕ → A → List (List ℕ × A) → List (List ℕ × A)
  put key value [] = (key, value) ∷ []
  put key value ((k, x) ∷ es) =
      let rest = put key value es in if same_text k key then (k, value) ∷ es else (k, x) ∷ rest

  abbrev pub erase : List ℕ → List (List ℕ × A) → List (List ℕ × A)
  erase key [] = []
  erase key ((k, x) ∷ es) =
      let rest = erase key es in if same_text k key then rest else (k, x) ∷ rest

  pub erase-put :
      (key : List ℕ) (value : A) (es : List (List ℕ × A))
      → erase key (put key value es) ≡ erase key es
  erase-put key value [] = ground (arith, same_text_refl key)
  erase-put key value ((k, x) ∷ es) = ground (arith, erase-put key value es, same_text_refl key)

  pub find-put :
      (key : List ℕ) (value : A) (es : List (List ℕ × A)) → find key (put key value es) ≡ some value
  find-put key value [] = ground (arith, same_text_refl key)
  find-put key value ((k, x) ∷ es) = ground (arith, find-put key value es)

  pub find-put_other :
      (key : List ℕ) (value : A) (other : List ℕ) (es : List (List ℕ × A))
      → same_text key other ≡ false
      → find other (put key value es) ≡ find other es
  find-put_other key value other [] h = ground arith
  find-put_other key value other ((k, x) ∷ es) h =
      ground (arith, find-put_other key value other es h, apart k key other)

  pub find-erase :
      (key other : List ℕ) (es : List (List ℕ × A))
      → same_text key other ≡ false
      → find other (erase key es) ≡ find other es
  find-erase key other [] h = refl
  find-erase key other ((k, x) ∷ es) h =
      ground (arith, find-erase key other es h, apart k key other)

  pub find-erase_same : (key : List ℕ) (es : List (List ℕ × A)) → find key (erase key es) ≡ none
  find-erase_same key [] = refl
  find-erase_same key ((k, x) ∷ es) = ground (arith, find-erase_same key es)
