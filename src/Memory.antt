-- ===== src/Memory.antt =====
-- `MemoryPool` of core/src/memory/memory_pool.cpp. An address is a number; `none` is a null pointer.
-- The mutex makes each call one step; the metrics calls are left out.
pub mod Blocks
pub mod Client
use knights.Base.{
  ℕ, zero, suc, ◌+◌, ◌-◌, ◌*◌, ◌%◌, Bool, true, false, not, ◌||◌, Option, none, some, List, [], ◌∷◌,
  ltb, leb, ◌==◌, if◌then◌else◌, length,
}
use knights.Base.Bits.{u64}

-- `chunk` is where the bytes of `memoryChunk_` start; the head of `free_list` is the stack's top.
pub record MemoryPool : Type 0 where
  pub chunk : ℕ
  pub chunk_size : ℕ
  pub block_size : ℕ
  pub block_count : ℕ
  pub free_list : List ℕ

-- The loop of the constructor, after `n` rounds.
pub blocks : ℕ → ℕ → ℕ → List ℕ
blocks chunk block_size zero = []
blocks chunk block_size (suc i) = (chunk + i * block_size) ∷ blocks chunk block_size i

-- The constructor; `chunk` is the address that the allocator gives.
unfoldable pub new_pool : ℕ → ℕ → ℕ → MemoryPool
unfolding blocks
new_pool chunk block_size block_count =
    if block_size == 0 || block_count == 0
    then record {
      chunk = chunk;
      chunk_size = 0;
      block_size = block_size;
      block_count = 0;
      free_list = [];
    }
    else record {
      chunk = chunk;
      chunk_size = u64 (block_size * block_count);
      block_size = block_size;
      block_count = block_count;
      free_list = blocks chunk block_size block_count;
    }

take_top : MemoryPool → List ℕ → MemoryPool × Option ℕ
take_top p [] = (p, none)
take_top p (top ∷ rest) = (record p { free_list = rest }, some top)

unfoldable pub acquire : MemoryPool → MemoryPool × Option ℕ
unfolding take_top
acquire p = take_top p p.free_list

-- The pointer is the start of a block of this pool.
abbrev pub is_block : MemoryPool → ℕ → Bool
is_block p ptr =
    if ltb ptr p.chunk || leb (p.chunk + p.chunk_size) ptr
    then false
    else (ptr - p.chunk) % p.block_size == 0

unfoldable pub release : MemoryPool → Option ℕ → MemoryPool
release p none = p
release p (some ptr) =
    if p.chunk_size == 0 || (p.block_size == 0 || p.block_count == 0)
    then p
    else (if not (is_block p ptr)
        then p
        else (if leb p.block_count (length p.free_list)
            then p
            else record p { free_list = ptr ∷ p.free_list }))
