-- ===== src/Memory/Free.antt =====
-- `memory_free`: which calls it refuses, and what it does to the free list otherwise.
use mini_rtos_sim.Base.{
  ◌==◌, suc_ℤ-pos, length, has, ℕ, ◌<◌, ◌≡◌, refl, ap, ◌≢◌, ◌⊎◌, inl, inr, false, none, some, List,
  ◌∷◌, arith,
}
use mini_rtos_sim.Memory.{
  Pool, pool_block_count, block_address, write_next_link, put_back, block_index, memory_alloc,
  memory_free,
}
use mini_rtos_sim.Memory.Link.{read-write_self, read-write_ne}
use mini_rtos_sim.Memory.Chain.{Chain-IsLink, Chain-frame, FreeList}
use mini_rtos_sim.Memory.Locate.{block_index-block_address}
use mini_rtos_sim.Memory.Alloc.{alloc_head}

module _ (base : ℕ) (pool : Pool) where
  -- `memory_free` changes nothing for NULL, for an address that is no block, and for a block that
  -- is free already.
  pub free_refused :
      (ptr : ℕ)
      → (ptr ≡ 0)
        ⊎ (block_index base ptr ≡ none)
        ⊎ ((i : ℕ) × (block_index base ptr ≡ some i) × (pool.allocated i ≡ 0))
      → memory_free base ptr pool ≡ pool
  unfolding memory_free
  free_refused ptr (inl e) = ground (arith, e)
  free_refused ptr (inr (inl e)) = ground (arith, e)
  free_refused ptr (inr (inr (i, e, z))) = ground (arith, e, z)

  free-eq :
      (i : ℕ)
      → 0 < base
      → i < pool_block_count
      → pool.allocated i ≢ 0
      → memory_free base (block_address base i) pool ≡ put_back base i pool
  unfolding memory_free
  free-eq i b h live =
      let e : (block_address base i == 0) ≡ false = ground arith in
      rw (e, block_index-block_address base i h) (ground arith)

  pub free_by_index :
      (ptr i : ℕ)
      → ptr ≢ 0
      → block_index base ptr ≡ some i
      → pool.allocated i ≢ 0
      → memory_free base ptr pool ≡ put_back base i pool
  unfolding memory_free
  free_by_index ptr i nz e live = ground (arith, e)

  pub put_back-FreeList :
      (i : ℕ) (xs : List ℕ)
      → i < pool_block_count
      → pool.allocated i ≢ 0
      → FreeList pool xs
      → FreeList (put_back base i pool) (i ∷ xs)
  unfolding put_back
  put_back-FreeList i xs h live f =
      let off : has i xs ≡ false = ground (arith, f.exact i) in
      let link = Chain-IsLink pool.storage pool.free_list_head xs f.chain in
      record {
        chain = (
          refl,
          h,
          rw (read-write_self i pool.free_list_head pool.storage link) (
              Chain-frame pool.storage (write_next_link i pool.free_list_head pool.storage)
                pool.free_list_head xs
                (λ j m.
                  read-write_ne i j pool.free_list_head pool.storage
                    (λ e. cc (m, off, ap (λ x. has x xs) e)))
                f.chain),
        );
        distinct = (off, f.distinct);
        exact = λ j. ground (arith, f.exact j);
        counted = rw f.counted (suc_ℤ-pos (length xs));
      }

  -- In a pool whose free list is `xs`, with the pool not at NULL, freeing an allocated block
  -- puts it at the head of the free list, where the next allocation takes it from; the other
  -- blocks keep their bytes and their marks.
  pub free_live :
      (i : ℕ) (xs : List ℕ)
      → 0 < base
      → i < pool_block_count
      → pool.allocated i ≢ 0
      → FreeList pool xs
      → let pool' = memory_free base (block_address base i) pool in
        FreeList pool' (i ∷ xs)
        × ((j : ℕ) → j ≢ i → (b : ℕ) → pool'.storage j b ≡ pool.storage j b)
        × ((j : ℕ) → j ≢ i → pool'.allocated j ≡ pool.allocated j)
        × ((memory_alloc base pool').0 ≡ block_address base i)
  free_live i xs b h live f =
      let f' = put_back-FreeList i xs h live f in
      rw (free-eq i b h live) (
        f',
        (λ j ne b. unfold put_back write_next_link in ground arith),
        (λ j ne. unfold put_back in ground arith),
        (alloc_head base (put_back base i pool) i xs f').0,
      )
