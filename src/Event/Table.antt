-- ===== src/Event/Table.antt =====
-- The table of waiters without its order: a multiset.
use mini_rtos_sim.Base.{
  ◌==◌, ==_iff, Bool-cases, set, window, window_cong, ℕ, zero, suc, ◌+◌, ◌-◌, ◌≤◌, ◌<◌, ◌≡◌, sym,
  ap, ap₂, ◌∙◌, inl, inr, [], ◌∷◌, arith,
}
use mathlib.Mathlib.Data.Multiset.Defs.{Multiset, of_list}
use mathlib.Mathlib.Data.Multiset.ZeroCons.{cons, cons-swap}
use mini_rtos_sim.Kernel.{Kernel}
use mini_rtos_sim.Event.{EventWaiter, EventFlags, free_slot, serve_slot}

module _ {ℓ} {A : Type ℓ} where
  -- The elements of a window, in no order.
  abbrev pub bag : (ℕ → A) → ℕ → ℕ → Multiset A
  bag a i n = of_list (window a i n)

  -- A longer window has one element more.
  bag-end : (a : ℕ → A) (i n : ℕ) → bag a i (suc n) ≡ cons (a (i + n)) (bag a i n)
  bag-end a i zero = ap (λ j. of_list (a j ∷ [])) (omega arith)
  bag-end a i (suc n) =
      ap (cons (a i)) (bag-end a (suc i) n)
      ∙ cons-swap (a i) (a (suc i + n)) (bag a (suc i) n)
      ∙ ap (λ j. cons (a j) (bag a i (suc n))) (omega arith)

  -- A write exchanges one element.
  bag-set :
      (a : ℕ → A) (v : A) (s n i : ℕ)
      → s ≤ i
      → i < s + n
      → cons v (bag a s n) ≡ cons (a i) (bag (set a i v) s n)
  bag-set a v s zero i p q = absurd (omega arith)
  bag-set a v s (suc n) i p q = elim (Bool-cases (s == i)) [
    | inl here ↦
        let same : s ≡ i = (==_iff s i).0 here in
        let rest : window a (suc s) n ≡ window (set a i v) (suc s) n =
          window_cong a (set a i v) (suc s) n λ j p q. ground arith in
        rw here (
          cons-swap v (a s) (bag a (suc s) n)
          ∙ ap₂ (λ j l. cons (a j) (cons v (of_list l))) same rest)
    | inr later ↦ rw later (
        cons-swap v (a s) (bag a (suc s) n)
        ∙ ap (cons (a s)) (bag-set a v (suc s) n i (ground arith) (omega arith))
        ∙ cons-swap (a s) (a i) (bag (set a i v) (suc s) n))
  ]

  -- One element leaves; the last one takes its place, which is overwritten.
  bag-move_last :
      (a : ℕ → A) (v : A) (n i : ℕ)
      → i ≤ n
      → bag a 0 (suc n) ≡ cons (a i) (bag (set (set a i (a n)) n v) 0 n)
  bag-move_last a v n i p =
      let moved : window (set a i (a n)) 0 n ≡ window (set (set a i (a n)) n v) 0 n =
        window_cong (set a i (a n)) (set (set a i (a n)) n v) 0 n λ j q r. ground arith in
      let whole : bag a 0 (suc n) ≡ cons (a n) (bag a 0 n) =
        bag-end a 0 n ∙ ap (λ j. cons (a j) (bag a 0 n)) (omega arith) in
      elim (Bool-cases (i == n)) [
        | inl last ↦
            let same : i ≡ n = (==_iff i n).0 last in
            let kept : window a 0 n ≡ window (set a i (a n)) 0 n =
              window_cong a (set a i (a n)) 0 n λ j q r. ground arith in
            whole ∙ ap₂ (λ j l. cons (a j) (of_list l)) (sym same) (kept ∙ moved)
        | inr other ↦
            whole
            ∙ bag-set a (a n) 0 n i (omega arith) (ground arith)
            ∙ ap (λ l. cons (a i) (of_list l)) moved
      ]

abbrev pub table : EventFlags → Multiset EventWaiter
table ef = bag ef.waiters 0 ef.waiter_count

-- The last waiter in place of the one at `i`: only this one leaves.
pub table-serve_slot :
    (i : ℕ) (ef : EventFlags) (k : Kernel)
    → i < ef.waiter_count
    → table ef ≡ cons (ef.waiters i) (table (serve_slot i ef k).0)
unfolding serve_slot
table-serve_slot i ef k h =
    let whole : ef.waiter_count ≡ suc (ef.waiter_count - 1) = omega arith in
    ap (bag ef.waiters 0) whole
    ∙ bag-move_last ef.waiters free_slot (ef.waiter_count - 1) i (omega arith)
