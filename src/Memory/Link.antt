-- ===== src/Memory/Link.antt =====
-- The link inside a free block: its bytes, written and read back.
use mini_rtos_sim.Base.{
  ==_refl, ==_ne, pos_part, neg_part, minus_one, ℤ, pos, negsuc, ℕ, ◌^◌, ◌≤◌, ◌<◌, ◌≡◌, sym, ◌≢◌,
  ◌⊎◌, inl, inr, arith,
}
use mini_rtos_sim.Memory.{
  pool_block_count, word_of, int_of, byte, word_from, read_next_link, write_next_link,
}

-- The links are -1 and the block numbers.
abbrev pub IsLink : ℤ → Type 0
IsLink a = (a ≡ minus_one) ⊎ ((i : ℕ) × (a ≡ pos i) × (i < pool_block_count))

word_from_bytes : (w : ℕ) → w < 2 ^ 32 → word_from (byte w) ≡ w
word_from_bytes w h = omega arith

word_of-lt : (a : ℤ) → word_of a < 2 ^ 32
word_of-lt (pos n) = omega arith
word_of-lt (negsuc n) = omega arith

-- An `int` in its range survives the way through its bytes.
int_of-word_of : (a : ℤ) → pos_part a < 2 ^ 31 → neg_part a ≤ 2 ^ 31 → int_of (word_of a) ≡ a
int_of-word_of (pos n) h k = ground arith
int_of-word_of (negsuc n) h k = ground arith

link_range : (a : ℤ) → IsLink a → (pos_part a < 2 ^ 31) × (neg_part a ≤ 2 ^ 31)
link_range a (inl e) = rw e (omega arith)
link_range a (inr (i, e, h)) = rw e (omega arith)

pub read-write_self :
    (i : ℕ) (next : ℤ) (storage : ℕ → ℕ → ℕ)
    → IsLink next
    → read_next_link i (write_next_link i next storage) ≡ next
unfolding read_next_link write_next_link
read-write_self i next storage l =
    let written : word_from (write_next_link i next storage i) ≡ word_from (byte (word_of next)) =
      simp ==_refl in
    let r = link_range next l in
    rw (written, word_from_bytes (word_of next) (word_of-lt next)) (int_of-word_of next r.0 r.1)

pub read-write_ne :
    (i j : ℕ) (next : ℤ) (storage : ℕ → ℕ → ℕ)
    → i ≢ j
    → read_next_link j (write_next_link i next storage) ≡ read_next_link j storage
unfolding read_next_link write_next_link
read-write_ne i j next storage h = rw (==_ne j i (λ e. h (sym e)))
