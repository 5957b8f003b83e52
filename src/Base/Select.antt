-- ===== src/Base/Select.antt =====
-- The indices of a list that pass a test.
use Prim.Native.Nat.{ℕ}
use mathlib.Core.Path.{◌≡◌, refl}
use mathlib.Core.Logic.{inl, inr}
use mathlib.Core.Bool.{Bool, true, false, ◌&&◌}
use mathlib.Core.List.{List, [], ◌∷◌, ◌++◌}
use native.Mathlib.Omega.{arith}
use mini_rtos_sim.Base.Tests.{◌==◌, if◌then◌else◌, Bool-cases, ==_iff, ==_refl}
use mini_rtos_sim.Base.Lists.{has, erase, Distinct}

abbrev pub select : (ℕ → Bool) → List ℕ → List ℕ
select f [] = []
select f (x ∷ xs) = if f x then x ∷ select f xs else select f xs

pub has-select : (f : ℕ → Bool) (x : ℕ) (xs : List ℕ) → has x (select f xs) ≡ (f x && has x xs)
has-select f x [] = ground arith
has-select f x (y ∷ ys) = elim (Bool-cases (y == x)) [
  | inl e ↦
      let same : y ≡ x = (==_iff y x).0 e in rw same (ground (arith, has-select f x ys, ==_refl x))
  | inr e ↦ ground (arith, e, has-select f x ys)
]

pub select-append :
    (f : ℕ → Bool) (xs ys : List ℕ) → select f (xs ++ ys) ≡ select f xs ++ select f ys
select-append f [] ys = refl
select-append f (x ∷ xs) ys = ground (arith, select-append f xs ys)

pub select-erase_out :
    (f : ℕ → Bool) (x : ℕ) (xs : List ℕ) → f x ≡ false → select f (erase x xs) ≡ select f xs
select-erase_out f x [] h = refl
select-erase_out f x (y ∷ ys) h = elim (Bool-cases (y == x)) [
  | inl e ↦ let same : y ≡ x = (==_iff y x).0 e in rw (same, ==_refl x, h) refl
  | inr e ↦ ground (arith, e, select-erase_out f x ys h)
]

pub select-erase_in :
    (f : ℕ → Bool) (x : ℕ) (xs : List ℕ)
    → f x ≡ true
    → select f (erase x xs) ≡ erase x (select f xs)
select-erase_in f x [] h = refl
select-erase_in f x (y ∷ ys) h = elim (Bool-cases (y == x)) [
  | inl e ↦ let same : y ≡ x = (==_iff y x).0 e in rw (same, ==_refl x, h) (rw (==_refl x) refl)
  | inr e ↦ ground (arith, e, select-erase_in f x ys h)
]

pub select-Distinct : (f : ℕ → Bool) (xs : List ℕ) → Distinct xs → Distinct (select f xs)
select-Distinct f [] d = tt
select-Distinct f (x ∷ xs) d = elim (Bool-cases (f x)) [
  | inl e ↦ rw e (ground (arith, has-select f x xs, d.0), select-Distinct f xs d.1)
  | inr e ↦ rw e (select-Distinct f xs d.1)
]
