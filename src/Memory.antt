-- ===== src/Memory.antt =====
-- src/memory.c and include/memory.h: the fixed-size block pool with its free list inside the free
-- blocks.
pub mod Link
pub mod Chain
pub mod Alloc
pub mod Free
pub mod Locate
pub mod Client
use mini_rtos_sim.Base.{
  ltb, leb, ◌==◌, if◌then◌else◌, minus_one, pred_ℤ, suc_ℤ, ℤ, set, pos, negsuc, ℕ, zero, suc, ◌+◌,
  ◌-◌, ◌*◌, ◌/◌, ◌%◌, ◌^◌, not, ◌&&◌, Option, none, some,
}

abbrev pub pool_block_size : ℕ
pool_block_size = 32

abbrev pub pool_block_count : ℕ
pool_block_count = 16

abbrev pub pool_end_of_list : ℤ
pool_end_of_list = minus_one

-- The bytes of an `int` on a little-endian host, and back.
abbrev pub word_of : ℤ → ℕ
word_of (pos n) = n % 2 ^ 32
word_of (negsuc n) = 2 ^ 32 - 1 - n % 2 ^ 32

-- The conversion of an unsigned value to `int`, reduced modulo 2^32.
abbrev pub int_of : ℕ → ℤ
int_of n = let w = n % 2 ^ 32 in if ltb w (2 ^ 31) then pos w else negsuc (2 ^ 32 - 1 - w)

abbrev pub byte : ℕ → ℕ → ℕ
byte w zero = w % 256
byte w (suc j) = byte (w / 256) j

abbrev pub word_from : (ℕ → ℕ) → ℕ
word_from b = b 0 + 256 * (b 1 + 256 * (b 2 + 256 * b 3))

-- `storage i j` is the byte `j` of block `i`; `allocated i` is the bitmap's entry.
pub record Pool : Type 0 where
  pub storage : ℕ → ℕ → ℕ
  pub allocated : ℕ → ℕ
  pub free_list_head : ℤ
  pub available_blocks : ℤ

unfoldable pub read_next_link : ℕ → (ℕ → ℕ → ℕ) → ℤ
read_next_link idx storage = int_of (word_from (storage idx))

unfoldable pub write_next_link : ℕ → ℤ → (ℕ → ℕ → ℕ) → ℕ → ℕ → ℕ
write_next_link idx next storage i j =
    if (i == idx) && ltb j 4 then byte (word_of next) j else storage i j

unfoldable pub init_loop : ℕ → ℕ → Pool → Pool
init_loop zero i pool = pool
init_loop (suc rounds) i pool =
    let next = if ltb (suc i) pool_block_count then pos (suc i) else pool_end_of_list in
    init_loop rounds (suc i) (record pool {
      storage = write_next_link i next pool.storage;
      allocated = set pool.allocated i 0;
    })

unfoldable pub memory_init : Pool → Pool
unfolding init_loop
memory_init pool = record (init_loop pool_block_count 0 pool) {
  free_list_head = pos 0;
  available_blocks = pos pool_block_count;
}

-- The code behind the test of `memory_alloc`, for the head `idx` of the free list.
unfoldable pub take_head : ℕ → Pool → Pool
take_head idx pool = record pool {
  free_list_head = read_next_link idx pool.storage;
  allocated = set pool.allocated idx 1;
  available_blocks = pred_ℤ pool.available_blocks;
}

-- The head that `memory_alloc` finds: `none` for the end of the list. A head below -1 would be an
-- access outside the pool, which the invariant rules out.
abbrev pub head_block : ℤ → Option ℕ
head_block (pos i) = some i
head_block (negsuc n) = none

-- `base` is the address of `g_pool_storage`; pointers are addresses, NULL is 0.
module _ (base : ℕ) where
  abbrev pub block_address : ℕ → ℕ
  block_address i = base + pool_block_size * i

  unfoldable pub memory_alloc : Pool → ℕ × Pool
  unfolding take_head
  memory_alloc pool = elim (head_block pool.free_list_head) [
    | none ↦ (0, pool)
    | some idx ↦ (block_address idx, take_head idx pool)
  ]

  -- `none` for -1.
  unfoldable pub block_index : ℕ → Option ℕ
  block_index ptr =
      let offset = ptr - base in
      if ltb ptr base
      then none
      else if not (offset % pool_block_size == 0)
      then none
      else elim (int_of (offset / pool_block_size)) [
        | negsuc n ↦ none
        | pos idx ↦ if leb pool_block_count idx then none else some idx
      ]

  unfoldable pub put_back : ℕ → Pool → Pool
  put_back idx pool = record {
    storage = write_next_link idx pool.free_list_head pool.storage;
    free_list_head = pos idx;
    allocated = set pool.allocated idx 0;
    available_blocks = suc_ℤ pool.available_blocks;
  }

  unfoldable pub memory_free : ℕ → Pool → Pool
  unfolding put_back
  memory_free ptr pool = if ptr == 0 then pool else elim (block_index ptr) [
    | none ↦ pool
    | some idx ↦ if pool.allocated idx == 0 then pool else put_back idx pool
  ]

unfoldable pub memory_available_blocks : Pool → ℤ
memory_available_blocks pool = pool.available_blocks
