-- ===== src/Ready/Leader.antt =====
-- The scan finds the first task of the highest level.
use mini_rtos_sim.Base.{
  Bool-cases, ◌<ℤ◌, ltb_ℤ, ℤ, All, select, ℕ, ◌≡◌, ap, inl, inr, Bool, true, false, some, List, [],
  ◌∷◌, arith,
}
use mathlib.Core.List.{head-eq_of_cons-eq}
use mini_rtos_sim.Task.{Tcb}
use mini_rtos_sim.Ready.Peek.{best_from, first_highest}

module _ (tasks : ℕ → Tcb) (p : ℤ) (group : ℕ → Bool) where
  -- The tasks of the group have the priority `p`, and others a lower one.
  abbrev pub Levelled : ℕ → Type 0
  Levelled y =
      (group y ≡ true → (tasks y).priority ≡ p) × (group y ≡ false → (tasks y).priority <ℤ p)

  best_from-leader :
      (xs : List ℕ) (b i : ℕ) (rest : List ℕ)
      → Levelled b
      → All Levelled xs
      → select group (b ∷ xs) ≡ i ∷ rest
      → best_from tasks b xs ≡ i
  best_from-leader [] b i rest l all e = elim (Bool-cases (group b)) [
    | inl g ↦ head-eq_of_cons-eq (rw g at e)
    | inr g ↦ absurd (cc (rw g at e))
  ]
  best_from-leader (x ∷ xs) b i rest l all e = elim (Bool-cases (group b)) [
    | inl g ↦
        let e' : b ∷ select group (x ∷ xs) ≡ i ∷ rest = rw g at e in
        let top : ltb_ℤ (tasks b).priority (tasks x).priority ≡ false =
          elim (Bool-cases (group x)) [
            | inl h ↦ rw (l.0 g, all.0.0 h) (ground arith)
            | inr h ↦ let below = all.0.1 h in rw (l.0 g) (ground (arith, below))
          ] in
        rw top (
          best_from-leader xs b i (select group xs) l all.1
            (rw g (ap (λ y. y ∷ select group xs) (head-eq_of_cons-eq e'))))
    | inr g ↦
        let e' : select group (x ∷ xs) ≡ i ∷ rest = rw g at e in
        elim (Bool-cases (ltb_ℤ (tasks b).priority (tasks x).priority)) [
          | inl more ↦ rw more (best_from-leader xs x i rest all.0 all.1 e')
          | inr kept ↦
              let below = l.1 g in
              let out : group x ≡ false = elim (Bool-cases (group x)) [
                | inl h ↦ let at = all.0.0 h in absurd (ground (arith, kept, below, at))
                | inr h ↦ h
              ] in
              let e'' : select group xs ≡ i ∷ rest = rw out at e' in
              rw kept (best_from-leader xs b i rest l all.1 (rw g e''))
        ]
  ]

  pub first_highest-leader :
      (xs : List ℕ) (i : ℕ) (rest : List ℕ)
      → All Levelled xs
      → select group xs ≡ i ∷ rest
      → first_highest tasks xs ≡ some i
  first_highest-leader [] i rest all e = absurd (cc e)
  first_highest-leader (x ∷ xs) i rest all e = ap some (best_from-leader xs x i rest all.0 all.1 e)
