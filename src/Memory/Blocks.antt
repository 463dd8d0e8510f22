-- ===== src/Memory/Blocks.antt =====
-- The blocks of a pool: where they lie, and that they are distinct.
use knights.Base.{
  ℕ, zero, suc, ◌+◌, ◌-◌, ◌*◌, ◌%◌, ◌≤◌, ◌<◌, ◌≡◌, ap, refl, List, [], ◌∷◌, length, ◌==◌,
  if◌then◌else◌, arith,
}
use native.Mathlib.Nat.{mul-mod_left, suc-mul, mul_comm, le-add_right}
use knights.Memory.{blocks}

-- How often an address stands in a list.
abbrev pub count : ℕ → List ℕ → ℕ
count a [] = 0
count a (x ∷ xs) = let rest = count a xs in if x == a then rest + 1 else rest

pub length-blocks : (chunk size n : ℕ) → length (blocks chunk size n) ≡ n
unfolding blocks
length-blocks chunk size zero = refl
length-blocks chunk size (suc n) = ap suc (length-blocks chunk size n)

count-blocks_above :
    (chunk size n a : ℕ) → chunk + n * size ≤ a → 0 < size → count a (blocks chunk size n) ≡ 0
unfolding blocks
count-blocks_above chunk size zero a h pos = refl
count-blocks_above chunk size (suc n) a h pos =
    ground (arith, suc-mul n size, count-blocks_above chunk size n a)

pub count-blocks-le-one : (chunk size n a : ℕ) → 0 < size → count a (blocks chunk size n) ≤ 1
unfolding blocks
count-blocks-le-one chunk size zero a pos = omega arith
count-blocks-le-one chunk size (suc n) a pos =
    ground (arith, count-blocks_above chunk size n a, count-blocks-le-one chunk size n a pos)

-- Every block starts inside the chunk, at a multiple of the block size.
pub blocks_lie :
    (chunk size n a : ℕ)
    → 0 < size
    → 0 < count a (blocks chunk size n)
    → (chunk ≤ a) × (a < chunk + size * n) × ((a - chunk) % size ≡ 0)
unfolding blocks
blocks_lie chunk size zero a pos h = absurd (omega arith)
blocks_lie chunk size (suc n) a pos h = ground (
  arith,
  mul_comm size (suc n),
  mul_comm size n,
  suc-mul n size,
  mul-mod_left n size,
  blocks_lie chunk size n a,
  le-add_right chunk (n * size),
)
