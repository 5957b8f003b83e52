-- ===== src/Tests/Blocks.antt =====
-- The block pool at concrete inputs.
use mini_rtos_sim.Base.{range, ℕ, ◌+◌, ◌*◌, ◌^◌, ◌≡◌, ◌≢◌, some, ◌∷◌, arith}
use mini_rtos_sim.Tests.Worlds.{zero_pool, fresh_pool}
use mini_rtos_sim.Memory.{Pool, block_address, block_index, memory_alloc, memory_free}
use mini_rtos_sim.Memory.Chain.{FreeList, memory_init-FreeList}
use mini_rtos_sim.Memory.Locate.{block_index_wraps}
use mini_rtos_sim.Memory.Alloc.{alloc_head}
use mini_rtos_sim.Memory.Free.{free_live}
use mini_rtos_sim.Memory.Client.{
  IsPool, Reach, allocates, frees, here, next, Allocated, Reach-IsPool, memory_alloc_safe,
}

-- An allocation, and a free of an address that is no block.
abbrev used : Pool
used = memory_free 1000 7 (memory_alloc 1000 fresh_pool).1

use_of : Reach 1000 fresh_pool used
use_of = next (next here allocates) (frees 7)

Reach-IsPool_example : IsPool 1000 used
Reach-IsPool_example = Reach-IsPool 1000 zero_pool use_of

memory_alloc_safe_example : Allocated 1000 used (memory_alloc 1000 used)
memory_alloc_safe_example = memory_alloc_safe 1000 zero_pool use_of

abbrev first_taken : Pool
first_taken = (memory_alloc 1000 fresh_pool).1

first_live : first_taken.allocated 0 ≢ 0
first_live =
    let e = (alloc_head 1000 fresh_pool 0 (range 1 15) (memory_init-FreeList zero_pool)).2 in
    omega (arith, e)

free_live_example :
    let pool' = memory_free 1000 (block_address 1000 0) first_taken in
    FreeList pool' (0 ∷ range 1 15)
    × ((j : ℕ) → j ≢ 0 → (b : ℕ) → pool'.storage j b ≡ first_taken.storage j b)
    × ((j : ℕ) → j ≢ 0 → pool'.allocated j ≡ first_taken.allocated j)
    × ((memory_alloc 1000 pool').0 ≡ block_address 1000 0)
free_live_example =
    free_live 1000 first_taken 0 (range 1 15) (omega arith) (omega arith) first_live
      (alloc_head 1000 fresh_pool 0 (range 1 15) (memory_init-FreeList zero_pool)).3

block_index_wraps_example : block_index 1000 (block_address 1000 2 + 1 * 2 ^ 37) ≡ some 2
block_index_wraps_example = block_index_wraps 1000 2 1 (omega arith)
