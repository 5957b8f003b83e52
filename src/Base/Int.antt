-- ===== src/Base/Int.antt =====
-- C's `int`, over the native numbers. Sums and orders go through the two parts of an integer.
use Prim.Native.Nat.{ℕ, suc, ◌+◌, ◌-◌, ◌≤◌, ◌<◌}
use mathlib.Core.Path.{◌≡◌, refl}
use mathlib.Core.Bool.{Bool, true}
use native.Mathlib.Omega.{arith}
use mini_rtos_sim.Base.Tests.{ltb, ◌==◌, if◌then◌else◌}

-- `negsuc n` is -(n + 1).
pub data ℤ : Type 0 where
  pos : ℕ → ℤ
  negsuc : ℕ → ℤ

abbrev pub pos_part : ℤ → ℕ
pos_part (pos n) = n
pos_part (negsuc n) = 0

abbrev pub neg_part : ℤ → ℕ
neg_part (pos n) = 0
neg_part (negsuc n) = suc n

abbrev pub minus_one : ℤ
minus_one = negsuc 0

infix 50 ◌≤ℤ◌ ◌<ℤ◌
abbrev pub ◌≤ℤ◌ : ℤ → ℤ → Type 0
a ≤ℤ b = pos_part a + neg_part b ≤ pos_part b + neg_part a

abbrev pub ◌<ℤ◌ : ℤ → ℤ → Type 0
a <ℤ b = pos_part a + neg_part b < pos_part b + neg_part a

abbrev pub ltb_ℤ : ℤ → ℤ → Bool
ltb_ℤ a b = ltb (pos_part a + neg_part b) (pos_part b + neg_part a)

abbrev pub eqb_ℤ : ℤ → ℤ → Bool
eqb_ℤ a b = pos_part a + neg_part b == pos_part b + neg_part a

-- `x - 1` and `x + 1`, away from the ends of `int`.
unfoldable pub pred_ℤ : ℤ → ℤ
pred_ℤ (pos n) = if n == 0 then minus_one else pos (n - 1)
pred_ℤ (negsuc n) = negsuc (suc n)

unfoldable pub suc_ℤ : ℤ → ℤ
suc_ℤ (pos n) = pos (suc n)
suc_ℤ (negsuc n) = if n == 0 then pos 0 else negsuc (n - 1)

-- `x++` of a 32-bit `int`: from `INT_MAX` it wraps round to `INT_MIN`.
unfoldable pub inc_int : ℤ → ℤ
unfolding suc_ℤ
inc_int x = if eqb_ℤ x (pos 2147483647) then negsuc 2147483647 else suc_ℤ x

pub inc_int_nonneg :
    (a : ℤ)
    → pos 0 ≤ℤ a
    → suc (pos_part a) < 2147483648
    → (pos 0 ≤ℤ inc_int a) × (pos_part (inc_int a) ≡ suc (pos_part a))
unfolding inc_int
inc_int_nonneg (pos n) h p = (ground arith, ground arith)
inc_int_nonneg (negsuc n) h p = absurd (omega arith)

pub inc_int-pos : (n : ℕ) → suc n < 2147483648 → inc_int (pos n) ≡ pos (suc n)
unfolding inc_int suc_ℤ
inc_int-pos n h = ground arith

pub pred-suc : (a : ℤ) → pred_ℤ (suc_ℤ a) ≡ a
unfolding pred_ℤ suc_ℤ
pred-suc (pos n) = ground arith
pred-suc (negsuc n) = ground arith

pub eqb→eq : (a b : ℤ) → eqb_ℤ a b ≡ true → a ≡ b
eqb→eq (pos a) b h = ground arith
eqb→eq (negsuc a) b h = ground arith

pub eqb_refl : (a : ℤ) → eqb_ℤ a a ≡ true
eqb_refl a = ground arith

pub suc-pred : (a : ℤ) → suc_ℤ (pred_ℤ a) ≡ a
unfolding suc_ℤ pred_ℤ
suc-pred (pos n) = ground arith
suc-pred (negsuc n) = ground arith

pub suc_ℤ_nonneg :
    (a : ℤ) → pos 0 ≤ℤ a → (pos 0 ≤ℤ suc_ℤ a) × (pos_part (suc_ℤ a) ≡ suc (pos_part a))
unfolding suc_ℤ
suc_ℤ_nonneg (pos n) h = (omega arith, refl)
suc_ℤ_nonneg (negsuc n) h = absurd (omega arith)

pub suc_ℤ_pos : (a : ℤ) → pos 0 <ℤ suc_ℤ a → (pos 0 ≤ℤ a) × (pos_part (suc_ℤ a) ≡ suc (pos_part a))
unfolding suc_ℤ
suc_ℤ_pos (pos n) h = (omega arith, refl)
suc_ℤ_pos (negsuc n) h = absurd (ground arith)

-- Down by one, as long as the value is positive.
pub pred_ℤ_pos : (n : ℕ) → pred_ℤ (pos (suc n)) ≡ pos n
unfolding pred_ℤ
pred_ℤ_pos n = ground arith

pub suc_ℤ-pos : (n : ℕ) → suc_ℤ (pos n) ≡ pos (suc n)
unfolding suc_ℤ
suc_ℤ-pos n = refl
