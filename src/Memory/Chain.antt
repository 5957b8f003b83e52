-- ===== src/Memory/Chain.antt =====
-- The free list inside the storage, and the pool's invariant.
use mini_rtos_sim.Base.{
  ltb, leb, ◌==◌, if◌then◌else◌, ==_refl, Bool-cases, ℤ, set, length, has, Distinct, range,
  has-range, range-Distinct, pos, ℕ, zero, suc, ◌+◌, ◌≤◌, ◌<◌, ◌≡◌, refl, ◌∙◌, inl, inr, true, ◌&&◌,
  List, [], ◌∷◌, arith,
}
use mini_rtos_sim.Memory.{
  Pool, pool_block_count, pool_end_of_list, read_next_link, write_next_link, init_loop, memory_init,
}
use mini_rtos_sim.Memory.Link.{IsLink, read-write_self, read-write_ne}

-- From `head` the links lead through the blocks `xs` to the end of the list.
abbrev pub Chain : (ℕ → ℕ → ℕ) → ℤ → List ℕ → Type 0
Chain storage head [] = head ≡ pool_end_of_list
Chain storage head (i ∷ xs) =
    (head ≡ pos i) × (i < pool_block_count) × Chain storage (read_next_link i storage) xs

pub Chain-IsLink :
    (storage : ℕ → ℕ → ℕ) (head : ℤ) (xs : List ℕ) → Chain storage head xs → IsLink head
Chain-IsLink storage head [] c = inl c
Chain-IsLink storage head (i ∷ xs) c = inr (i, c.0, c.1)

-- A write to a block that is not on the list leaves the list alone.
pub Chain-frame :
    (s t : ℕ → ℕ → ℕ) (head : ℤ) (xs : List ℕ)
    → ((i : ℕ) → has i xs ≡ true → read_next_link i t ≡ read_next_link i s)
    → Chain s head xs
    → Chain t head xs
Chain-frame s t head [] same c = c
Chain-frame s t head (i ∷ xs) same c = (
  c.0,
  c.1,
  rw (same i (rw ==_refl))
      (Chain-frame s t (read_next_link i s) xs (λ j h. same j (ground arith)) c.2),
)

-- The list `xs` is the free list of the pool: its blocks are linked in this order, each stands on
-- it once, they are just the blocks whose bitmap entry is 0, and the counter says how many.
pub record FreeList (pool : Pool) (xs : List ℕ) : Type 0 where
  pub chain : Chain pool.storage pool.free_list_head xs
  pub distinct : Distinct xs
  pub exact : (i : ℕ) → has i xs ≡ (ltb i pool_block_count && (pool.allocated i == 0))
  pub counted : pool.available_blocks ≡ pos (length xs)

abbrev pub all_blocks : List ℕ
all_blocks = range 0 pool_block_count

-- The block `i` as a link, or the end of the list behind the last block.
abbrev link_to : ℕ → ℤ
link_to i = if ltb i pool_block_count then pos i else pool_end_of_list

link_to-IsLink : (i : ℕ) → IsLink (link_to i)
link_to-IsLink i = elim (Bool-cases (ltb i pool_block_count)) [
  | inl e ↦ rw e (inr (i, refl, ground arith))
  | inr e ↦ rw e (inl refl)
]

init_before :
    (n i j : ℕ) (pool : Pool)
    → j < i
    → (read_next_link j (init_loop n i pool).storage ≡ read_next_link j pool.storage)
unfolding init_loop
init_before zero i j pool h = refl
init_before (suc n) i j pool h =
    init_before n (suc i) j _ (omega arith)
    ∙ read-write_ne i j (link_to (suc i)) pool.storage (omega arith)

init_link :
    (n i j : ℕ) (pool : Pool)
    → i ≤ j
    → j < i + n
    → read_next_link j (init_loop n i pool).storage ≡ link_to (suc j)
unfolding init_loop
init_link zero i j pool p q = absurd (omega arith)
init_link (suc n) i j pool p q = elim (Bool-cases (i == j)) [
  | inl e ↦
      let e' : i ≡ j = ground arith in
      rw (← e') (
        init_before n (suc i) i _ (omega arith)
        ∙ read-write_self i (link_to (suc i)) pool.storage (link_to-IsLink (suc i)))
  | inr e ↦ init_link n (suc i) j _ (ground arith) (omega arith)
]

init_allocated :
    (n i j : ℕ) (pool : Pool)
    → (init_loop n i pool).allocated j ≡ (if leb i j && ltb j (i + n) then 0 else pool.allocated j)
unfolding init_loop
init_allocated zero i j pool = ground arith
init_allocated (suc n) i j pool =
    let next = link_to (suc i) in
    ground (
      arith,
      init_allocated n (suc i) j (record pool {
        storage = write_next_link i next pool.storage;
        allocated = set pool.allocated i 0;
      }),
    )

Chain-range :
    (n i : ℕ) (storage : ℕ → ℕ → ℕ)
    → i + n ≡ pool_block_count
    → ((j : ℕ) → i ≤ j → j < pool_block_count → read_next_link j storage ≡ link_to (suc j))
    → Chain storage (link_to i) (range i n)
Chain-range zero i storage h links = ground arith
Chain-range (suc n) i storage h links = (
  ground arith,
  omega arith,
  rw (links i (omega arith) (omega arith))
      (Chain-range n (suc i) storage (omega arith) λ j p q. links j (omega arith) q),
)

-- After `memory_init`, whatever the pool was before, all blocks are free, in the order of their
-- numbers.
pub memory_init-FreeList : (pool : Pool) → FreeList (memory_init pool) all_blocks
unfolding memory_init
memory_init-FreeList pool =
    let p = init_loop pool_block_count 0 pool in
    record {
      chain =
          Chain-range pool_block_count 0 p.storage refl
            λ j a b. init_link pool_block_count 0 j pool a b;
      distinct = range-Distinct 0 pool_block_count;
      exact = λ i.
          ground (arith, has-range 0 pool_block_count i, init_allocated pool_block_count 0 i pool);
      counted = refl;
    }
