-- ===== src/Memory/Locate.antt =====
-- `block_index`: which addresses name a block.
use mini_rtos_sim.Base.{ℕ, ◌+◌, ◌-◌, ◌*◌, ◌/◌, ◌%◌, ◌^◌, ◌<◌, ◌≡◌, some, arith}
use mini_rtos_sim.Memory.{pool_block_size, pool_block_count, block_address, block_index}

module _ (base : ℕ) where
  -- The start of each block is recognised as that block.
  pub block_index-block_address :
      (i : ℕ) → i < pool_block_count → block_index base (block_address base i) ≡ some i
  unfolding block_index
  block_index-block_address i h =
      let offset : base + pool_block_size * i - base ≡ 32 * i = omega arith in
      let index : (32 * i) / 32 ≡ i = omega arith in rw (offset, index) (ground arith)

  -- An address less than 64 GiB behind the start of the pool that `block_index` accepts is the
  -- start of the block of the pool that it answers.
  pub block_index_exact :
      (ptr i : ℕ)
      → ptr < base + 2 ^ 36
      → block_index base ptr ≡ some i
      → (ptr ≡ block_address base i) × (i < pool_block_count)
  unfolding block_index
  block_index_exact ptr i h e = (ground arith, ground arith)

  -- `block_index` takes an address that lies a multiple of 2^37 bytes behind the start of a
  -- block of the pool for that block, since the quotient is cast to `int` before it is tested.
  pub block_index_wraps :
      (i n : ℕ)
      → i < pool_block_count
      → block_index base (block_address base i + n * 2 ^ 37) ≡ some i
  unfolding block_index
  block_index_wraps i n h =
      let offset : base + pool_block_size * i + n * 2 ^ 37 - base ≡ 32 * i + n * 2 ^ 37 =
        omega arith in
      let index : (32 * i + n * 2 ^ 37) / 32 % 2 ^ 32 ≡ i = omega arith in
      ground (arith, offset, index)

  -- What is answered is always a block of the pool.
  pub block_index-lt : (ptr i : ℕ) → block_index base ptr ≡ some i → i < pool_block_count
  unfolding block_index
  block_index-lt ptr i e = ground arith
