-- ===== src/Memory/Client.antt =====
-- Clients of a pool that give back only what they hold.
use knights.Base.{
  List-cases, ℕ, ◌+◌, ◌-◌, ◌*◌, ◌%◌, ◌^◌, ◌≤◌, ◌<◌, ◌≡◌, ◌∙◌, ap, sym, refl, Option, none, some,
  List, [], ◌∷◌, length, ◌==◌, if◌then◌else◌, arith, subst, dec_lt,
}
use knights.Memory.{MemoryPool, blocks, new_pool, acquire, take_top, release}
use knights.Memory.Blocks.{count, length-blocks, count-blocks-le-one, blocks_lie}

-- A pool and the blocks that its clients hold.
pub record Lending : Type 0 where
  pub pool : MemoryPool
  pub held : List ℕ

abbrev pub with_block : Option ℕ → List ℕ → List ℕ
with_block none held = held
with_block (some b) held = b ∷ held

abbrev pub remove : ℕ → List ℕ → List ℕ
remove a [] = []
remove a (x ∷ xs) = let rest = remove a xs in if x == a then xs else x ∷ rest

-- `returns a` is a call only if the block `a` is held.
pub data Call : Type 0 where
  acquires : Call
  returns : ℕ → Call

unfoldable pub step : Lending → Call → Lending
step l acquires =
    let (pool, o) = acquire l.pool in record { pool = pool; held = with_block o l.held }
step l (returns a) =
    if count a l.held == 0
    then l
    else record { pool = release l.pool (some a); held = remove a l.held }

-- The state after a history, the newest call at the head.
unfoldable pub after : MemoryPool → List Call → Lending
after pool [] = record { pool = pool; held = [] }
after pool (c ∷ cs) = step (after pool cs) c

count-remove :
    (a b : ℕ) (xs : List ℕ)
    → 0 < count b xs
    → count a (remove b xs) + (if b == a then 1 else 0) ≡ count a xs
count-remove a b [] h = absurd (omega arith)
count-remove a b (x ∷ xs) h = ground (arith, count-remove a b xs)

length-remove : (b : ℕ) (xs : List ℕ) → 0 < count b xs → length (remove b xs) + 1 ≡ length xs
length-remove b [] h = absurd (omega arith)
length-remove b (x ∷ xs) h = ground (arith, length-remove b xs)

-- Every block of the pool is either held or free, and no other address is.
pub record Balanced (chunk size n : ℕ) (l : Lending) : Type 0 where
  pub chunk_eq : l.pool.chunk ≡ chunk
  pub size_eq : l.pool.block_size ≡ size
  pub bytes_eq : l.pool.chunk_size ≡ size * n
  pub count_eq : l.pool.block_count ≡ n
  pub each : (a : ℕ) → count a l.held + count a l.pool.free_list ≡ count a (blocks chunk size n)
  pub total : length l.held + length l.pool.free_list ≡ n

abbrev full_pool : ℕ → ℕ → ℕ → MemoryPool
full_pool chunk size n = record {
  chunk = chunk;
  chunk_size = size * n;
  block_size = size;
  block_count = n;
  free_list = blocks chunk size n;
}

abbrev returned : Lending → ℕ → Lending
returned l a = record {
  pool = record l.pool { free_list = a ∷ l.pool.free_list };
  held = remove a l.held;
}

-- What `acquire` may answer while the clients hold `held`.
abbrev pub IsFresh : ℕ → ℕ → ℕ → List ℕ → Option ℕ → Type 0
IsFresh chunk size n held none = length held ≡ n
IsFresh chunk size n held (some a) =
    (count a held ≡ 0) × (chunk ≤ a) × (a < chunk + size * n) × ((a - chunk) % size ≡ 0)

module _ (chunk size n : ℕ) (some_size : 0 < size) (some_blocks : 0 < n)
    (fits : size * n < 2 ^ 64) where
  new_pool_lem : new_pool chunk size n ≡ full_pool chunk size n
  unfolding new_pool blocks
  new_pool_lem = ground arith

  new_pool-Balanced : Balanced chunk size n (record { pool = new_pool chunk size n; held = [] })
  new_pool-Balanced = rw new_pool_lem (record {
    chunk_eq = refl;
    size_eq = refl;
    bytes_eq = refl;
    count_eq = refl;
    each = λ a. omega arith;
    total = ground (arith, length-blocks chunk size n);
  })

  acquire-Balanced :
      (l : Lending) → Balanced chunk size n l → Balanced chunk size n (step l acquires)
  unfolding step acquire take_top
  acquire-Balanced l b = record {
    chunk_eq = ground arith;
    size_eq = ground arith;
    bytes_eq = ground arith;
    count_eq = ground arith;
    each = λ a. ground (arith, b.each a, List-cases l.pool.free_list);
    total = ground (arith, b.total, List-cases l.pool.free_list);
  }

  returned_fits :
      (l : Lending) (a : ℕ)
      → Balanced chunk size n l
      → 0 < count a l.held
      → length l.pool.free_list < n
  returned_fits l a b h = ground (arith, b.total, length-remove a l.held)

  returned_lies :
      (l : Lending) (a : ℕ)
      → Balanced chunk size n l
      → 0 < count a l.held
      → (chunk ≤ a) × (a < chunk + size * n) × ((a - chunk) % size ≡ 0)
  returned_lies l a b h = blocks_lie chunk size n a some_size (ground (arith, b.each a))

  release_lem :
      (l : Lending) (a : ℕ)
      → Balanced chunk size n l
      → 0 < count a l.held
      → release l.pool (some a) ≡ (record l.pool { free_list = a ∷ l.pool.free_list })
  unfolding release
  release_lem l a b h = ground (
    arith,
    returned_fits l a b h,
    returned_lies l a b h,
    b.chunk_eq,
    b.size_eq,
    b.bytes_eq,
    b.count_eq,
  )

  returned-Balanced :
      (l : Lending) (a : ℕ)
      → Balanced chunk size n l
      → 0 < count a l.held
      → Balanced chunk size n (returned l a)
  returned-Balanced l a b h = record {
    chunk_eq = b.chunk_eq;
    size_eq = b.size_eq;
    bytes_eq = b.bytes_eq;
    count_eq = b.count_eq;
    each = λ a'. ground (arith, b.each a', count-remove a' a l.held h);
    total = ground (arith, b.total, length-remove a l.held h);
  }

  return-Balanced :
      (l : Lending) (a : ℕ) → Balanced chunk size n l → Balanced chunk size n (step l (returns a))
  unfolding step
  return-Balanced l a b = elim (dec_lt 0 (count a l.held)) [
    | yes h ↦
        let e : step l (returns a) ≡ returned l a = ground (arith, release_lem l a b h) in
        subst (Balanced chunk size n) (sym e) (returned-Balanced l a b h)
    | no h ↦
        let e : step l (returns a) ≡ l = ground arith in subst (Balanced chunk size n) (sym e) b
  ]

  -- However the clients of a new pool acquire blocks and give back blocks that they hold, each block of
  -- the pool is either held once or free once, and every other address is neither held nor free.
  pub after-Balanced : (cs : List Call) → Balanced chunk size n (after (new_pool chunk size n) cs)
  unfolding after
  after-Balanced [] = new_pool-Balanced
  after-Balanced (acquires ∷ cs) =
      acquire-Balanced (after (new_pool chunk size n) cs) (after-Balanced cs)
  after-Balanced (returns a ∷ cs) =
      return-Balanced (after (new_pool chunk size n) cs) a (after-Balanced cs)

  take_top-IsFresh :
      (l : Lending) (free : List ℕ)
      → l.pool.free_list ≡ free
      → Balanced chunk size n l
      → IsFresh chunk size n l.held (take_top l.pool free).1
  unfolding take_top
  take_top-IsFresh l [] e b = ground (arith, b.total)
  take_top-IsFresh l (a ∷ free) e b =
      let held : count a l.held + count a (a ∷ free) ≡ count a (blocks chunk size n) =
        ap (λ xs. count a l.held + count a xs) (sym e) ∙ b.each a in
      let once = count-blocks-le-one chunk size n a some_size in
      let (low, high, aligned) = blocks_lie chunk size n a some_size (ground (arith, held)) in
      (ground (arith, held, once), low, high, aligned)

  acquire-IsFresh :
      (l : Lending) → Balanced chunk size n l → IsFresh chunk size n l.held (acquire l.pool).1
  unfolding acquire
  acquire-IsFresh l b = take_top-IsFresh l l.pool.free_list refl b

  -- A new pool of `n` blocks with some bytes each, the whole chunk below `2 ^ 64` bytes. After any history
  -- of clients that acquire blocks and give back blocks that they hold, `acquire` returns null only when
  -- the clients hold `n` blocks. Otherwise it returns a block that no client holds, which starts inside
  -- the chunk at a multiple of the block size.
  pub after-acquire-IsFresh :
      (cs : List Call)
      → IsFresh chunk size n
          (after (new_pool chunk size n) cs).held
          (acquire (after (new_pool chunk size n) cs).pool).1
  after-acquire-IsFresh cs = acquire-IsFresh (after (new_pool chunk size n) cs) (after-Balanced cs)
