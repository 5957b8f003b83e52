-- ===== src/Base/Lists.antt =====
-- Lists of indices: membership as a test, the first occurrence removed, no duplicates.
use Prim.Native.Nat.{◌+◌, ℕ, zero, suc, ◌≤◌, ◌<◌}
use mathlib.Core.Path.{◌≡◌, refl, sym, ◌∙◌}
use mathlib.Core.Logic.{◌≢◌, inl, inr}
use mathlib.Core.Bool.{Bool, true, false, ◌||◌, ◌&&◌}
use mathlib.Core.List.{List, [], ◌∷◌, ◌++◌}
use native.Mathlib.Omega.{arith}
use mini_rtos_sim.Base.Tests.{◌==◌, if◌then◌else◌, Bool-cases, ltb, leb, ==_iff, ==_refl}
use mini_rtos_sim.Base.Array.{length}

abbrev pub All {ℓ κ} : {A : Type ℓ} → (A → Type κ) → List A → Type κ
All P [] = Unit
All P (x ∷ xs) = P x × All P xs

abbrev pub has : ℕ → List ℕ → Bool
has x [] = false
has x (y ∷ ys) = (y == x) || has x ys

abbrev pub erase : ℕ → List ℕ → List ℕ
erase x [] = []
erase x (y ∷ ys) = if y == x then ys else y ∷ erase x ys

-- Each index stands once.
abbrev pub Distinct : List ℕ → Type 0
Distinct [] = Unit
Distinct (x ∷ xs) = (has x xs ≡ false) × Distinct xs

pub has-append : (x : ℕ) (xs ys : List ℕ) → has x (xs ++ ys) ≡ (has x xs || has x ys)
has-append x [] ys = refl
has-append x (z ∷ xs) ys = ground (arith, has-append x xs ys)

pub has-erase_ne : (x y : ℕ) (xs : List ℕ) → x ≢ y → has x (erase y xs) ≡ has x xs
has-erase_ne x y [] h = refl
has-erase_ne x y (z ∷ xs) h = ground (arith, has-erase_ne x y xs h)

pub has-erase_self : (x : ℕ) (xs : List ℕ) → Distinct xs → has x (erase x xs) ≡ false
has-erase_self x [] d = refl
has-erase_self x (z ∷ xs) d = elim (Bool-cases (z == x)) [
  | inl e ↦ rw e (rw ((==_iff z x).0 e) at d.0)
  | inr e ↦ rw e (rw e (has-erase_self x xs d.1))
]

pub erase-Distinct : (x : ℕ) (xs : List ℕ) → Distinct xs → Distinct (erase x xs)
erase-Distinct x [] d = tt
erase-Distinct x (z ∷ xs) d = elim (Bool-cases (z == x)) [
  | inl e ↦ rw e d.1
  | inr e ↦ rw e (has-erase_ne z x xs (ground arith) ∙ d.0, erase-Distinct x xs d.1)
]

pub append-Distinct :
    (x : ℕ) (xs : List ℕ) → Distinct xs → has x xs ≡ false → Distinct (xs ++ (x ∷ []))
append-Distinct x [] d h = (refl, tt)
append-Distinct x (z ∷ xs) d h =
    (ground (arith, has-append z xs (x ∷ [])), append-Distinct x xs d.1 (ground arith))

pub erase_absent : (x : ℕ) (xs : List ℕ) → has x xs ≡ false → erase x xs ≡ xs
erase_absent x [] h = refl
erase_absent x (z ∷ xs) h = ground (arith, erase_absent x xs)

pub length-erase : (x : ℕ) (xs : List ℕ) → has x xs ≡ true → suc (length (erase x xs)) ≡ length xs
length-erase x [] h = ground arith
length-erase x (z ∷ xs) h = ground (arith, length-erase x xs)

module _ {ℓ} (P : ℕ → Type ℓ) where
  pub All-erase : (x : ℕ) (xs : List ℕ) → All P xs → All P (erase x xs)
  All-erase x [] h = h
  All-erase x (z ∷ xs) h = elim (Bool-cases (z == x)) [
    | inl e ↦ rw e h.1
    | inr e ↦ rw e (h.0, All-erase x xs h.1)
  ]

  pub All-append : (xs ys : List ℕ) → All P xs → All P ys → All P (xs ++ ys)
  All-append [] ys h k = k
  All-append (x ∷ xs) ys h k = (h.0, All-append xs ys h.1 k)

  pub All-has : (x : ℕ) (xs : List ℕ) → All P xs → has x xs ≡ true → P x
  All-has x [] h e = absurd (ground arith)
  All-has x (z ∷ xs) h e = elim (Bool-cases (z == x)) [
    | inl q ↦ rw ((==_iff z x).0 q) at h.0
    | inr q ↦ All-has x xs h.1 (rw q at e)
  ]

  -- A predicate may be shown element by element, each with its membership.
  pub All-of_has : (xs : List ℕ) → ((x : ℕ) → has x xs ≡ true → P x) → All P xs
  All-of_has [] f = tt
  All-of_has (z ∷ xs) f = (f z (rw ==_refl), All-of_has xs λ x h. f x (ground arith))

-- Pigeonhole: at most `n` distinct indices lie below `n`.
pub length-le_of_Distinct :
    (n : ℕ) (xs : List ℕ) → Distinct xs → All (λ x. x < n) xs → length xs ≤ n
length-le_of_Distinct zero [] d b = omega arith
length-le_of_Distinct zero (x ∷ xs) d b = absurd (omega arith)
length-le_of_Distinct (suc n) xs d b = ground (
  arith,
  length-le_of_Distinct n (erase n xs) (erase-Distinct n xs d) below,
  length-erase n xs,
  erase_absent n xs,
)
  where
    below : All (λ x. x < n) (erase n xs)
    below =
        All-of_has (λ x. x < n) (erase n xs)
          λ x h. elim (Bool-cases (x == n)) [
            | inl e ↦ absurd (cc (has-erase_self n xs d, (rw ((==_iff x n).0 e) at h)))
            | inr e ↦
                let ne : x ≢ n = ground arith in
                omega
                  (arith, All-has (λ y. y < suc n) x xs b (sym (has-erase_ne x n xs ne) ∙ h), ne)
          ]

-- The indices from `i` on, `n` of them.
abbrev pub range : ℕ → ℕ → List ℕ
range i zero = []
range i (suc n) = i ∷ range (suc i) n

pub has-range : (i n x : ℕ) → has x (range i n) ≡ (leb i x && ltb x (i + n))
has-range i zero x = ground arith
has-range i (suc n) x = ground (arith, has-range (suc i) n x)

pub range-Distinct : (i n : ℕ) → Distinct (range i n)
range-Distinct i zero = tt
range-Distinct i (suc n) = (ground (arith, has-range (suc i) n i), range-Distinct (suc i) n)
