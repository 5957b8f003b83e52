-- ===== src/Base/Array.antt =====
-- A C array as the function from an index to what stands there. That no access leaves the array
-- is proved of each program part by its invariant.
use Prim.Native.Nat.{ℕ, zero, suc, ◌+◌, ◌≤◌, ◌<◌}
use mathlib.Core.Path.{◌≡◌, refl, ap, ap₂, ◌∙◌}
use mathlib.Core.List.{List, [], ◌∷◌, ◌++◌}
use native.Mathlib.Omega.{arith}
use mathlib.Core.Logic.{inl, inr}
use mini_rtos_sim.Base.Tests.{◌==◌, if◌then◌else◌, Bool-cases}

-- `a[i] = v`
abbrev pub set {ℓ} : {A : Type ℓ} → (ℕ → A) → ℕ → A → ℕ → A
set a i v j = if j == i then v else a j

module _ {ℓ} {A : Type ℓ} where
  abbrev pub length : List A → ℕ
  length [] = 0
  length (x ∷ xs) = suc (length xs)

  -- The `n` elements from index `i` on.
  abbrev pub window : (ℕ → A) → ℕ → ℕ → List A
  window a i zero = []
  window a i (suc n) = a i ∷ window a (suc i) n

  pub length-append : (xs ys : List A) → length (xs ++ ys) ≡ length xs + length ys
  length-append [] ys = omega arith
  length-append (x ∷ xs) ys = omega (arith, length-append xs ys)

  pub length-window : (a : ℕ → A) (i n : ℕ) → length (window a i n) ≡ n
  length-window a i zero = refl
  length-window a i (suc n) = ap suc (length-window a (suc i) n)

  pub window-end : (a : ℕ → A) (i n : ℕ) → window a i (suc n) ≡ window a i n ++ (a (i + n) ∷ [])
  window-end a i zero = ap (λ j. a j ∷ []) (omega arith)
  window-end a i (suc n) =
      ap (λ xs. a i ∷ xs) (window-end a (suc i) n)
      ∙ ap (λ j. window a i (suc n) ++ (a j ∷ [])) (omega arith)

  -- Windows are equal where the arrays agree on them.
  pub window_cong :
      (a b : ℕ → A) (i n : ℕ)
      → ((j : ℕ) → i ≤ j → j < i + n → a j ≡ b j)
      → window a i n ≡ window b i n
  window_cong a b i zero h = refl
  window_cong a b i (suc n) h =
      ap₂ ◌∷◌ (h i (omega arith) (omega arith))
        (window_cong a b (suc i) n λ j p q. h j (omega arith) (omega arith))

  -- A write just past a window extends it.
  pub window-set_end :
      (a : ℕ → A) (i n e : ℕ) (v : A)
      → e ≡ i + n
      → window (set a e v) i (suc n) ≡ window a i n ++ (v ∷ [])
  window-set_end a i zero e v h = ground arith
  window-set_end a i (suc n) e v h =
      ap₂ ◌∷◌ (ground arith) (window-set_end a (suc i) n e v (omega arith))

-- What holds of every element holds after a write of one that has it.
pub set_each {ℓ κ} :
    {A : Type ℓ} (P : A → Type κ) (a : ℕ → A) (i : ℕ) (v : A)
    → ((j : ℕ) → P (a j))
    → P v
    → (j : ℕ) → P (set a i v j)
set_each P a i v all h j = elim (Bool-cases (j == i)) [ inl e ↦ rw e h | inr e ↦ rw e (all j) ]
