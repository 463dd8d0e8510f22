-- ===== src/Base/Bits.antt =====
-- Single bits of a native number: `test_bit` reads one, and the laws say what `&`, `|`, a shift
-- and a remainder by a power of two do to each. Words are numbers below `2 ^ w`.
use Prim.Native.Nat.{
  ℕ, zero, suc, ◌+◌, ◌-◌, ◌*◌, ◌/◌, ◌%◌, ◌^◌, ◌≤◌, ◌<◌, min, max, bit_and, bit_or, digits,
  bit_and-bitwise, bit_or-bitwise,
}
use mathlib.Core.Path.{◌≡◌, refl, ap, ◌∙◌}
use native.Mathlib.Omega.{arith}
use native.Mathlib.Nat.{pow-suc, one-le-pow, div-add-mod, add-mul-mod_self_left, mod-eq_of_lt}
use knights.Base.Tests.{◌==◌, ltb, if◌then◌else◌}

-- `x << k` before it is cut to a word, and `x >> k`.
abbrev pub shl : ℕ → ℕ → ℕ
shl x k = x * 2 ^ k

abbrev pub shr : ℕ → ℕ → ℕ
shr x k = x / 2 ^ k

abbrev pub u8 : ℕ → ℕ
u8 n = n % 2 ^ 8

abbrev pub u16 : ℕ → ℕ
u16 n = n % 2 ^ 16

abbrev pub u32 : ℕ → ℕ
u32 n = n % 2 ^ 32

abbrev pub u64 : ℕ → ℕ
u64 n = n % 2 ^ 64

-- Bit `k` of `a`, as 0 or 1.
pub test_bit : ℕ → ℕ → ℕ
test_bit a zero = a % 2
test_bit a (suc k) = test_bit (a / 2) k

-- One step of the library's digit recursion, its fuel dropped.
module _ (z : ℕ → ℕ) (f : ℕ → ℕ → ℕ) where
  fuel_irrelevant : (m n a b : ℕ) → a ≤ m → a ≤ n → digits z f m a b ≡ digits z f n a b
  fuel_irrelevant zero zero a b p q = refl
  fuel_irrelevant (suc m) (suc n) zero b p q = refl
  fuel_irrelevant (suc m) (suc n) (suc a) b p q =
      rw (fuel_irrelevant m n (suc a / 2) (b / 2) (omega arith) (omega arith))
  fuel_irrelevant zero (suc n) zero b p q = refl
  fuel_irrelevant zero (suc n) (suc a) b p q = elim p [ ]
  fuel_irrelevant (suc m) zero zero b p q = refl
  fuel_irrelevant (suc m) zero (suc a) b p q = elim q [ ]

bit_or_lowest : (a b : ℕ) → bit_or a b ≡ 2 * bit_or (a / 2) (b / 2) + max (a % 2) (b % 2)
bit_or_lowest zero b = omega (arith, bit_or-bitwise 0 b, bit_or-bitwise 0 (b / 2))
bit_or_lowest (suc a) b =
    let h : suc a / 2 ≤ a = omega arith in
    omega (
      arith,
      bit_or-bitwise (suc a) b,
      bit_or-bitwise (suc a / 2) (b / 2),
      fuel_irrelevant (λ y. y) max a (suc a / 2) (suc a / 2) (b / 2) h (omega arith),
    )

bit_and_lowest : (a b : ℕ) → bit_and a b ≡ 2 * bit_and (a / 2) (b / 2) + min (a % 2) (b % 2)
bit_and_lowest zero b = omega (arith, bit_and-bitwise 0 b, bit_and-bitwise 0 (b / 2))
bit_and_lowest (suc a) b =
    let h : suc a / 2 ≤ a = omega arith in
    omega (
      arith,
      bit_and-bitwise (suc a) b,
      bit_and-bitwise (suc a / 2) (b / 2),
      fuel_irrelevant (λ y. 0) min a (suc a / 2) (suc a / 2) (b / 2) h (omega arith),
    )

pub test_bit-le-one : (a k : ℕ) → test_bit a k ≤ 1
unfolding test_bit
test_bit-le-one a zero = omega arith
test_bit-le-one a (suc k) = test_bit-le-one (a / 2) k

pub test_bit-zero : (k : ℕ) → test_bit 0 k ≡ 0
unfolding test_bit
test_bit-zero zero = refl
test_bit-zero (suc k) = test_bit-zero k

pub test_bit-bit_or : (a b k : ℕ) → test_bit (bit_or a b) k ≡ max (test_bit a k) (test_bit b k)
unfolding test_bit
test_bit-bit_or a b zero = omega (arith, bit_or_lowest a b)
test_bit-bit_or a b (suc k) =
    ap (λ t. test_bit t k) (omega (arith, bit_or_lowest a b)) ∙ test_bit-bit_or (a / 2) (b / 2) k

pow_double : (k : ℕ) → 2 ^ suc k ≡ 2 * 2 ^ k
pow_double k = omega (arith, pow-suc 2 k)

shl_double : (a k : ℕ) → a * 2 ^ suc k ≡ 2 * (a * 2 ^ k)
shl_double a k = omega (arith, ap (λ (t : ℕ). a * t) (pow-suc 2 k))

half-shl : (a d : ℕ) → shl a (suc d) / 2 ≡ shl a d
half-shl a d = omega (arith, shl_double a d)

pub shl-zero : (a : ℕ) → shl a 0 ≡ a
shl-zero a = omega arith

bit_and-zero_below : (n a : ℕ) → a ≤ n → bit_and a 0 ≡ 0
bit_and-zero_below n zero h = omega (arith, bit_and-bitwise 0 0)
bit_and-zero_below zero (suc a) h = elim h [ ]
bit_and-zero_below (suc n) (suc a) h =
    let below : suc a / 2 ≤ n = omega arith in
    omega (arith, bit_and_lowest (suc a) 0, bit_and-zero_below n (suc a / 2) below)

bit_and-zero : (a : ℕ) → bit_and a 0 ≡ 0
bit_and-zero a = bit_and-zero_below a a (omega arith)

-- A left shift by `d` moves bit `k` to bit `k + d` and fills with zeros.
pub test_bit-shl : (a d k : ℕ) → test_bit (shl a d) k ≡ (if ltb k d then 0 else test_bit a (k - d))
unfolding test_bit
test_bit-shl a zero k = ground (
  arith,
  ap (λ t. test_bit t k) (shl-zero a),
  ap (test_bit a) (let e : k - 0 ≡ k = omega arith in e),
)
test_bit-shl a (suc d) zero = ground (arith, shl_double a d)
test_bit-shl a (suc d) (suc k) =
    let e : suc k - suc d ≡ k - d = omega arith in
    rw (half-shl a d) (ground (arith, test_bit-shl a d k, ap (test_bit a) e))

-- A word keeps its low bits only.
mod_double : (a p : ℕ) → a % (2 * p) ≡ 2 * (a / 2 % p) + a % 2
mod_double a zero = omega arith
mod_double a (suc p) =
    let split : a ≡ 2 * (a / 2 % suc p) + a % 2 + 2 * suc p * (a / 2 / suc p) =
      omega (arith, div-add-mod (a / 2) (suc p)) in
    ap (λ t. t % (2 * suc p)) split
    ∙ add-mul-mod_self_left (2 * (a / 2 % suc p) + a % 2) (2 * suc p) (a / 2 / suc p)
    ∙ mod-eq_of_lt (omega arith)

half-mod : (a w : ℕ) → a % 2 ^ suc w / 2 ≡ a / 2 % 2 ^ w
half-mod a w =
    let e : a % 2 ^ suc w ≡ a % (2 * 2 ^ w) = ap (λ t. a % t) (pow_double w) in
    omega (arith, mod_double a (2 ^ w))

low-mod : (a w : ℕ) → a % 2 ^ suc w % 2 ≡ a % 2
low-mod a w =
    let e : a % 2 ^ suc w ≡ a % (2 * 2 ^ w) = ap (λ t. a % t) (pow_double w) in
    omega (arith, mod_double a (2 ^ w))

pub test_bit-mod : (a w k : ℕ) → test_bit (a % 2 ^ w) k ≡ (if ltb k w then test_bit a k else 0)
unfolding test_bit
test_bit-mod a zero k =
    ground
      (arith, ap (λ t. test_bit t k) (let e : a % 2 ^ 0 ≡ 0 = omega arith in e), test_bit-zero k)
test_bit-mod a (suc w) zero = ground (arith, low-mod a w)
test_bit-mod a (suc w) (suc k) = rw (half-mod a w) (ground (arith, test_bit-mod (a / 2) w k))

-- The single bit `1 << j`.
pub test_bit-one : (j k : ℕ) → test_bit (shl 1 j) k ≡ (if j == k then 1 else 0)
unfolding test_bit
test_bit-one zero zero = refl
test_bit-one zero (suc k) = ground (arith, test_bit-zero k)
test_bit-one (suc j) zero = ground (arith, shl_double 1 j)
test_bit-one (suc j) (suc k) = rw (half-shl 1 j) (ground (arith, test_bit-one j k))

-- `a & (1 << k)` is that bit of `a`, in its place.
pub bit_and-one : (a k : ℕ) → bit_and a (shl 1 k) ≡ test_bit a k * 2 ^ k
unfolding test_bit
bit_and-one a zero = omega (arith, bit_and_lowest a 1, bit_and-zero (a / 2))
bit_and-one a (suc k) =
    let half : bit_and (a / 2) (shl 1 (suc k) / 2) ≡ bit_and (a / 2) (shl 1 k) =
      ap (bit_and (a / 2)) (half-shl 1 k) in
    omega (
      arith,
      bit_and_lowest a (shl 1 (suc k)),
      shl_double 1 k,
      shl_double (test_bit (a / 2) k) k,
      half,
      bit_and-one (a / 2) k,
    )

bit_or-zero_below : (n a : ℕ) → a ≤ n → bit_or a 0 ≡ a
bit_or-zero_below n zero h = omega (arith, bit_or-bitwise 0 0)
bit_or-zero_below zero (suc a) h = elim h [ ]
bit_or-zero_below (suc n) (suc a) h =
    let below : suc a / 2 ≤ n = omega arith in
    omega (arith, bit_or_lowest (suc a) 0, bit_or-zero_below n (suc a / 2) below)

pub bit_or-zero : (a : ℕ) → bit_or a 0 ≡ a
bit_or-zero a = bit_or-zero_below a a (omega arith)

-- `(q << k) | r` is a sum when `r` fits the low `k` bits.
pub bit_or_low : (k q r : ℕ) → r < 2 ^ k → bit_or (shl q k) r ≡ shl q k + r
bit_or_low zero q r h =
    let e : r ≡ 0 = omega arith in ap (bit_or (shl q 0)) e ∙ bit_or-zero (shl q 0) ∙ omega arith
bit_or_low (suc k) q r h =
    let below : r / 2 < 2 ^ k = omega (arith, pow_double k) in
    let half : bit_or (shl q (suc k) / 2) (r / 2) ≡ bit_or (shl q k) (r / 2) =
      ap (λ t. bit_or t (r / 2)) (half-shl q k) in
    omega
      (arith, bit_or_lowest (shl q (suc k)) r, shl_double q k, half, bit_or_low k q (r / 2) below)

-- A mask of `k` low bits is the remainder by `2 ^ k`.
pub bit_and-mask : (k a : ℕ) → bit_and a (2 ^ k - 1) ≡ a % 2 ^ k
bit_and-mask zero a = bit_and-zero a ∙ omega arith
bit_and-mask (suc k) a =
    let half : (2 ^ suc k - 1) / 2 ≡ 2 ^ k - 1 = omega (arith, pow_double k) in
    let odd : (2 ^ suc k - 1) % 2 ≡ 1 = omega (arith, pow_double k, one-le-pow k 2) in
    let above : bit_and (a / 2) ((2 ^ suc k - 1) / 2) ≡ bit_and (a / 2) (2 ^ k - 1) =
      ap (bit_and (a / 2)) half in
    omega
      (arith, bit_and_lowest a (2 ^ suc k - 1), bit_and-mask k (a / 2), half-mod a k, low-mod a k)
