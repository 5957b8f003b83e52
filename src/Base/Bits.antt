-- ===== src/Base/Bits.antt =====
-- Conjunctions and disjunctions of bit masks, digit by digit.
use Prim.Native.Nat.{
  ℕ, zero, suc, ◌+◌, ◌-◌, ◌*◌, ◌/◌, ◌%◌, ◌^◌, ◌≤◌, ◌<◌, min, max, bit_and, bit_or, digits,
  bit_and-bitwise, bit_or-bitwise,
}
use mathlib.Core.Path.{◌≡◌, refl, sym, ap, ◌∙◌}
use native.Mathlib.Omega.{arith}

-- Any number of rounds from the first operand on gives the same.
rounds_enough :
    (z : ℕ → ℕ) (f : ℕ → ℕ → ℕ) (a n m b : ℕ) → a ≤ n → a ≤ m → digits z f n a b ≡ digits z f m a b
rounds_enough z f zero zero zero b p q = refl
rounds_enough z f zero zero (suc m) b p q = refl
rounds_enough z f zero (suc n) zero b p q = refl
rounds_enough z f zero (suc n) (suc m) b p q = refl
rounds_enough z f (suc a) zero m b p q = absurd (omega arith)
rounds_enough z f (suc a) (suc n) zero b p q = absurd (omega arith)
rounds_enough z f (suc a) (suc n) (suc m) b p q =
    ap (λ x. x * 2 + f (suc a % 2) (b % 2))
      (rounds_enough z f (suc a / 2) n m (b / 2) (omega arith) (omega arith))

and_zero : (b : ℕ) → bit_and 0 b ≡ 0
and_zero b = bit_and-bitwise 0 b

-- The last digit apart.
pub and_halves : (a b : ℕ) → bit_and a b ≡ bit_and (a / 2) (b / 2) * 2 + min (a % 2) (b % 2)
and_halves zero b = omega (arith, and_zero b, and_zero (b / 2))
and_halves (suc a) b =
    let h = suc a / 2 in
    omega (
      arith,
      bit_and-bitwise (suc a) b,
      bit_and-bitwise h (b / 2),
      rounds_enough (λ x. zero) min h a h (b / 2) (omega arith) (omega arith),
    )

halves-and :
    (a b : ℕ)
    → (bit_and a b / 2 ≡ bit_and (a / 2) (b / 2)) × (bit_and a b % 2 ≡ min (a % 2) (b % 2))
halves-and a b = (omega (arith, and_halves a b), omega (arith, and_halves a b))

no_bits : (n f : ℕ) → f ≤ n → bit_and f 0 ≡ 0
no_bits n zero h = and_zero 0
no_bits zero (suc f) h = absurd (omega arith)
no_bits (suc n) (suc f) h = omega (arith, and_halves (suc f) 0, no_bits n (suc f / 2) (omega arith))

-- Bits that are all set in a part of the flags are all set in the flags.
within : (n f c m : ℕ) → m ≤ n → bit_and (bit_and f c) m ≡ m → bit_and f m ≡ m
within n f c zero h e = no_bits f f (omega arith)
within zero f c (suc m) h e = absurd (omega arith)
within (suc n) f c (suc m) h e =
    let (q, r) = halves-and f c in
    let rest : bit_and (bit_and (f / 2) (c / 2)) (suc m / 2) ≡ suc m / 2 =
      ap (λ x. bit_and x (suc m / 2)) (sym q) ∙ omega (arith, and_halves (bit_and f c) (suc m)) in
    omega (
      arith,
      and_halves f (suc m),
      and_halves (bit_and f c) (suc m),
      r,
      within n (f / 2) (c / 2) (suc m / 2) (omega arith) rest,
    )

pub and_within : (f c m : ℕ) → bit_and (bit_and f c) m ≡ m → bit_and f m ≡ m
and_within f c m e = within m f c m (omega arith) e

-- Bits that have been cleared are not set.
pub and_cleared : (k f m : ℕ) → m < 2 ^ k → bit_and (bit_and f (2 ^ k - 1 - m)) m ≡ 0
and_cleared zero f m h =
    let none_left : m ≡ 0 = omega arith in
    rw none_left (no_bits (bit_and f (2 ^ 0 - 1 - 0)) (bit_and f (2 ^ 0 - 1 - 0)) (omega arith))
and_cleared (suc k) f m h =
    let p : 2 ^ suc k ≡ 2 * 2 ^ k = omega arith in
    let c = 2 ^ suc k - 1 - m in
    let upper : c / 2 ≡ 2 ^ k - 1 - m / 2 = omega arith in
    let lower : c % 2 ≡ 1 - m % 2 = omega arith in
    let (q, r) = halves-and f c in
    let rest : bit_and (bit_and f c / 2) (m / 2) ≡ 0 =
      ap (λ x. bit_and x (m / 2)) (q ∙ ap (bit_and (f / 2)) upper)
      ∙ and_cleared k (f / 2) (m / 2) (omega arith) in
    omega (arith, and_halves (bit_and f c) m, r, lower, rest)

or_zero : (b : ℕ) → bit_or 0 b ≡ b
or_zero b = bit_or-bitwise 0 b

or_halves : (a b : ℕ) → bit_or a b ≡ bit_or (a / 2) (b / 2) * 2 + max (a % 2) (b % 2)
or_halves zero b = omega (arith, or_zero b, or_zero (b / 2))
or_halves (suc a) b =
    let h = suc a / 2 in
    omega (
      arith,
      bit_or-bitwise (suc a) b,
      bit_or-bitwise h (b / 2),
      rounds_enough (λ x. x) max h a h (b / 2) (omega arith) (omega arith),
    )

raised : (n f m : ℕ) → m ≤ n → bit_and (bit_or f m) m ≡ m
raised n f zero h = no_bits (bit_or f 0) (bit_or f 0) (omega arith)
raised zero f (suc m) h = absurd (omega arith)
raised (suc n) f (suc m) h =
    let halves : bit_or f (suc m) / 2 ≡ bit_or (f / 2) (suc m / 2) =
      omega (arith, or_halves f (suc m)) in
    let last : bit_or f (suc m) % 2 ≡ max (f % 2) (suc m % 2) =
      omega (arith, or_halves f (suc m)) in
    let rest : bit_and (bit_or f (suc m) / 2) (suc m / 2) ≡ suc m / 2 =
      ap (λ x. bit_and x (suc m / 2)) halves ∙ raised n (f / 2) (suc m / 2) (omega arith) in
    omega (arith, and_halves (bit_or f (suc m)) (suc m), last, rest)

-- Bits that have been set are set.
pub and_or : (f m : ℕ) → bit_and (bit_or f m) m ≡ m
and_or f m = raised m f m (omega arith)
