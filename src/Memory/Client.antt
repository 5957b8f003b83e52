-- ===== src/Memory/Client.antt =====
-- Any use of the pool: allocations, frees of any address at all, and writes to live blocks.
use mini_rtos_sim.Base.{
  ◌==◌, ==_ne, Bool-cases, Option-cases, set, ℕ, ◌<◌, ◌≡◌, sym, subst, ◌≢◌, inl, inr, List, [], ◌∷◌,
  arith,
}
use mini_rtos_sim.Memory.{
  Pool, pool_block_count, block_address, read_next_link, block_index, memory_init, memory_alloc,
  memory_free,
}
use mini_rtos_sim.Memory.Chain.{Chain-frame, FreeList, all_blocks, memory_init-FreeList}
use mini_rtos_sim.Memory.Locate.{block_index-lt}
use mini_rtos_sim.Memory.Alloc.{alloc_exhausted, alloc_head}
use mini_rtos_sim.Memory.Free.{free_refused, free_by_index, put_back-FreeList}

-- The client writes the byte `v` at offset `j` of block `i`.
abbrev pub write_byte : ℕ → ℕ → ℕ → Pool → Pool
write_byte i j v pool = record pool { storage = set pool.storage i (set (pool.storage i) j v) }

module _ (base : ℕ) where
  -- A free list for each history: what the module promises of a pool.
  abbrev pub IsPool : Pool → Type 0
  IsPool pool = (xs : List ℕ) × FreeList pool xs

  pub data Use (pool : Pool) : Pool → Type 0 where
    allocates : Use pool (memory_alloc base pool).1
    frees : (ptr : ℕ) → Use pool (memory_free base ptr pool)
    writes : (i j v : ℕ) → pool.allocated i ≢ 0 → Use pool (write_byte i j v pool)

  pub data Reach (pool : Pool) : Pool → Type 0 where
    here : Reach pool pool
    next : {p q : Pool} → Reach pool p → Use p q → Reach pool q

  pub alloc-IsPool :
      (pool : Pool) (xs : List ℕ) → FreeList pool xs → IsPool (memory_alloc base pool).1
  alloc-IsPool pool [] f = rw (alloc_exhausted base pool f) ([], f)
  alloc-IsPool pool (i ∷ xs) f = (xs, (alloc_head base pool i xs f).3)

  pub free-IsPool : (pool : Pool) (ptr : ℕ) → IsPool pool → IsPool (memory_free base ptr pool)
  free-IsPool pool ptr (xs, f) = elim (Bool-cases (ptr == 0)) [
    | inl null ↦ rw (free_refused base pool ptr (inl (ground arith))) (xs, f)
    | inr nz ↦ elim (Option-cases (block_index base ptr)) [
      | inl e ↦ rw (free_refused base pool ptr (inr (inl e))) (xs, f)
      | inr (i, e) ↦ elim (Bool-cases (pool.allocated i == 0)) [
        | inl z ↦ rw (free_refused base pool ptr (inr (inr (i, e, ground arith)))) (xs, f)
        | inr live ↦ rw (free_by_index base pool ptr i (ground arith) e (ground arith)) (
          i ∷ xs,
          put_back-FreeList base pool i xs (block_index-lt base ptr i e) (ground arith) f,
        )
      ]
    ]
  ]

  write-FreeList :
      (pool : Pool) (i j v : ℕ) (xs : List ℕ)
      → pool.allocated i ≢ 0
      → FreeList pool xs
      → FreeList (write_byte i j v pool) xs
  write-FreeList pool i j v xs live f = record {
    chain =
        Chain-frame pool.storage (write_byte i j v pool).storage pool.free_list_head xs
          (λ k m.
            let ne : k ≢ i = λ e. ground (arith, f.exact k, e) in
            unfold read_next_link in rw (==_ne k i ne))
          f.chain;
    distinct = f.distinct;
    exact = f.exact;
    counted = f.counted;
  }

  Use-IsPool : {p q : Pool} → IsPool p → Use p q → IsPool q
  Use-IsPool {p} (xs, f) allocates = alloc-IsPool p xs f
  Use-IsPool {p} h (frees ptr) = free-IsPool p ptr h
  Use-IsPool {p} (xs, f) (writes i j v live) = (xs, write-FreeList p i j v xs live f)

  -- However a pool is used from `memory_init` on, also with frees of addresses that are no live
  -- blocks, its free list stays intact: its blocks are linked without repetition to the end, they
  -- are just the blocks that the bitmap has as free, and the counter is their number.
  pub Reach-IsPool : (start : Pool) {pool : Pool} → Reach (memory_init start) pool → IsPool pool
  Reach-IsPool start here = (all_blocks, memory_init-FreeList start)
  Reach-IsPool start (next r u) = Use-IsPool (Reach-IsPool start r) u

  -- What an allocation gives.
  pub data Allocated (pool : Pool) : ℕ × Pool → Type 0 where
    exhausted : ((i : ℕ) → i < pool_block_count → pool.allocated i ≢ 0) → Allocated pool (0, pool)
    block :
        {pool' : Pool} (i : ℕ)
        → i < pool_block_count
        → pool.allocated i ≡ 0
        → pool'.allocated i ≡ 1
        → pool'.storage ≡ pool.storage
        → Allocated pool (block_address base i, pool')

  alloc-Allocated :
      (pool : Pool) (xs : List ℕ) → FreeList pool xs → Allocated pool (memory_alloc base pool)
  alloc-Allocated pool [] f =
      rw (alloc_exhausted base pool f) (exhausted λ i h e. ground (arith, f.exact i))
  alloc-Allocated pool (i ∷ xs) f =
      let a = alloc_head base pool i xs f in
      subst (λ p. Allocated pool (p, (memory_alloc base pool).1)) (sym a.0)
        (block i f.chain.1 a.1 a.2 a.4)

  -- After any use of the pool, `memory_alloc` returns a block of the pool that was not allocated,
  -- and marks it; it returns NULL, with no change, only if every block is allocated.
  pub memory_alloc_safe :
      (start : Pool) {pool : Pool}
      → Reach (memory_init start) pool
      → Allocated pool (memory_alloc base pool)
  memory_alloc_safe start {pool} r = let (xs, f) = Reach-IsPool start r in alloc-Allocated pool xs f
