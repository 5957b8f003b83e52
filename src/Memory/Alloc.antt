-- ===== src/Memory/Alloc.antt =====
-- `memory_alloc` and `memory_free` against the list of free blocks.
use mini_rtos_sim.Base.{==_refl, pred_ℤ_pos, length, ℕ, ◌≡◌, refl, List, [], ◌∷◌, arith}
use mini_rtos_sim.Memory.{Pool, block_address, take_head, memory_alloc}
use mini_rtos_sim.Memory.Chain.{FreeList}

module _ (base : ℕ) (pool : Pool) where
  -- With no free block, `memory_alloc` returns NULL and changes nothing.
  pub alloc_exhausted : FreeList pool [] → memory_alloc base pool ≡ (0, pool)
  unfolding memory_alloc
  alloc_exhausted f = ground (arith, f.chain)

  alloc-eq :
      (i : ℕ) (xs : List ℕ)
      → FreeList pool (i ∷ xs)
      → memory_alloc base pool ≡ (block_address base i, take_head i pool)
  unfolding memory_alloc
  alloc-eq i xs f = ground (arith, f.chain.0)

  -- In a pool whose free list is the block `i` followed by `xs`, `memory_alloc` returns the
  -- address of `i`, which was free and is now marked as allocated; the free list is `xs` then,
  -- and no byte of the pool has changed.
  pub alloc_head :
      (i : ℕ) (xs : List ℕ)
      → FreeList pool (i ∷ xs)
      → let (ptr, pool') = memory_alloc base pool in
        (ptr ≡ block_address base i)
        × (pool.allocated i ≡ 0)
        × (pool'.allocated i ≡ 1)
        × FreeList pool' xs
        × (pool'.storage ≡ pool.storage)
  alloc_head i xs f = rw (alloc-eq i xs f) (
    refl,
    ground (arith, f.exact i, ==_refl i),
    unfold take_head in (ground (arith, ==_refl i)),
    unfold take_head in
        (record {
          chain = f.chain.2;
          distinct = f.distinct.1;
          exact = λ j. ground (arith, f.exact j, f.distinct.0, f.chain.1);
          counted = rw f.counted (pred_ℤ_pos (length xs));
        }),
    unfold take_head in refl,
  )
