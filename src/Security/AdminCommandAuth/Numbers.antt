-- ===== src/Security/AdminCommandAuth/Numbers.antt =====
-- The decimal texts of the times.
use knights.Base.{
  ℕ, zero, suc, ◌+◌, ◌-◌, ◌*◌, ◌/◌, ◌%◌, ◌^◌, ◌≤◌, ◌<◌, ◌≡◌, refl, Bool, true, false, ◌&&◌, ◌||◌,
  none, some, List, [], ◌∷◌, ◌++◌, ltb, leb, if◌then◌else◌, is_empty, arith, not, Bool-cases, inl,
  inr,
}
use knights.Base.Bits.{u64}
use knights.Security.AdminCommandAuth.{digits_from, parse_u64, decimal, to_string}

abbrev pub all_digits : List ℕ → Bool
all_digits [] = true
all_digits (c ∷ cs) = let rest = all_digits cs in leb 48 c && (leb c 57 && rest)

-- The number that digits write after a value, with no bound.
abbrev pub number_from : ℕ → List ℕ → ℕ
number_from value [] = value
number_from value (c ∷ cs) = number_from (value * 10 + (c - 48)) cs

number_from-le : (value : ℕ) (cs : List ℕ) → value ≤ number_from value cs
number_from-le value [] = omega arith
number_from-le value (c ∷ cs) = omega (arith, number_from-le (value * 10 + (c - 48)) cs)

digits_from-number_from :
    (value : ℕ) (cs : List ℕ)
    → value < 2 ^ 64
    → digits_from value cs ≡ (
        if all_digits cs && ltb (number_from value cs) (2 ^ 64)
        then some (number_from value cs)
        else none)
digits_from-number_from value [] h = ground arith
digits_from-number_from value (c ∷ cs) h =
    let value' = value * 10 + (c - 48) in
    elim (Bool-cases (ltb c 48 || ltb 57 c)) [
      | inl e ↦ ground arith
      | inr e ↦ elim (Bool-cases (ltb ((2 ^ 64 - 1 - (c - 48)) / 10) value)) [
        | inl f ↦
            let large : 2 ^ 64 ≤ value' = ground arith in ground (arith, number_from-le value' cs)
        | inr f ↦
            let small : value' < 2 ^ 64 = ground arith in
            let kept : u64 value' ≡ value' = omega arith in
            ground (arith, digits_from-number_from value' cs small)
      ]
    ]

-- `parse_u64` reads a text exactly when it is not empty, all digits, and writes a number below 2 ^ 64.
pub parse_u64-number_from :
    (text : List ℕ)
    → parse_u64 text ≡ (
        if not (is_empty text) && (all_digits text && ltb (number_from 0 text) (2 ^ 64))
        then some (number_from 0 text)
        else none)
unfolding parse_u64
parse_u64-number_from [] = refl
parse_u64-number_from (c ∷ cs) = digits_from-number_from 0 (c ∷ cs) (omega arith)

all_digits-append : (cs ds : List ℕ) → all_digits (cs ++ ds) ≡ all_digits cs && all_digits ds
all_digits-append [] ds = refl
all_digits-append (c ∷ cs) ds = ground (arith, all_digits-append cs ds)

number_from-append :
    (v : ℕ) (cs ds : List ℕ) → number_from v (cs ++ ds) ≡ number_from (number_from v cs) ds
number_from-append v [] ds = refl
number_from-append v (c ∷ cs) ds = number_from-append (v * 10 + (c - 48)) cs ds

all_digits-decimal : (fuel n : ℕ) → all_digits (decimal fuel n) ≡ true
all_digits-decimal zero n = refl
all_digits-decimal (suc fuel) n = ground (
  arith,
  all_digits-decimal fuel (n / 10),
  all_digits-append (decimal fuel (n / 10)) ((48 + n % 10) ∷ []),
)

pow_ten : (k : ℕ) → 10 ^ suc k ≡ 10 * 10 ^ k
pow_ten k = omega arith

number_from-decimal : (fuel n : ℕ) → n < 10 ^ fuel → number_from 0 (decimal fuel n) ≡ n
number_from-decimal zero n h = ground arith
number_from-decimal (suc fuel) n h =
    let upper = decimal fuel (n / 10) in
    let fits : n / 10 < 10 ^ fuel = omega (arith, pow_ten fuel) in
    ground (
      arith,
      number_from-append 0 upper ((48 + n % 10) ∷ []),
      number_from-decimal fuel (n / 10) fits,
    )

is_empty-append_one : (cs : List ℕ) (c : ℕ) → is_empty (cs ++ (c ∷ [])) ≡ false
is_empty-append_one [] c = refl
is_empty-append_one (x ∷ cs) c = refl

pub is_empty-to_string : (n : ℕ) → is_empty (to_string n) ≡ false
is_empty-to_string n =
    is_empty-append_one (if ltb n 10 then [] else decimal 19 (n / 10)) (48 + n % 10)

parse_u64-digits :
    (text : List ℕ) (n : ℕ)
    → is_empty text ≡ false
    → all_digits text ≡ true
    → number_from 0 text ≡ n
    → n < 2 ^ 64
    → parse_u64 text ≡ some n
parse_u64-digits text n some_digit digits value small = ground (arith, parse_u64-number_from text)

-- `parse_u64` reads back what `std::to_string` writes of a number below 2 ^ 64.
pub parse_u64-to_string : (n : ℕ) → n < 2 ^ 64 → parse_u64 (to_string n) ≡ some n
parse_u64-to_string n h =
    parse_u64-digits (to_string n) n (is_empty-to_string n) (all_digits-decimal 20 n)
      (number_from-decimal 20 n (omega arith)) h
