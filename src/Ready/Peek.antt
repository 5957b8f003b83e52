-- ===== src/Ready/Peek.antt =====
-- The scan for the task to run next.
use mini_rtos_sim.Base.{
  ◌==◌, if◌then◌else◌, ==_iff, ==_refl, ◌≤ℤ◌, ltb_ℤ, window, All, has, ℕ, zero, suc, ◌≡◌, refl,
  true, false, ◌||◌, Option, none, some, List, [], ◌∷◌, arith,
}
use mini_rtos_sim.Task.{Tcb, is_ready}
use mini_rtos_sim.Ready.{
  ReadyQueue, entries, peek_loop, at_position, ready_queue_peek_highest_priority,
}

-- The specification: the first of the indices whose task no other task outranks.
abbrev pub better : (ℕ → Tcb) → ℕ → ℕ → ℕ
better tasks b x = if ltb_ℤ (tasks b).priority (tasks x).priority then x else b

abbrev pub best_from : (ℕ → Tcb) → ℕ → List ℕ → ℕ
best_from tasks b [] = b
best_from tasks b (x ∷ xs) = best_from tasks (better tasks b x) xs

abbrev pub first_highest : (ℕ → Tcb) → List ℕ → Option ℕ
first_highest tasks [] = none
first_highest tasks (x ∷ xs) = some (best_from tasks x xs)

module _ (tasks : ℕ → Tcb) where
  abbrev pub IsReadyAt : ℕ → Type 0
  IsReadyAt x = is_ready (tasks x).state ≡ true

  -- With no stale entry the scan removes nothing and keeps the best position so far.
  peek_loop-best :
      (n i b : ℕ) (q : ReadyQueue)
      → All IsReadyAt (window q.slots i n)
      → at_position (peek_loop n i (some b) tasks q)
        ≡ (some (best_from tasks (q.slots b) (window q.slots i n)), q)
  unfolding peek_loop
  peek_loop-best zero i b q h = refl
  peek_loop-best (suc n) i b q h =
      ground (arith, peek_loop-best n (suc i) i q h.1, peek_loop-best n (suc i) b q h.1)

  peek_loop-none :
      (n i : ℕ) (q : ReadyQueue)
      → All IsReadyAt (window q.slots i n)
      → at_position (peek_loop n i none tasks q) ≡ (first_highest tasks (window q.slots i n), q)
  unfolding peek_loop
  peek_loop-none zero i q h = refl
  peek_loop-none (suc n) i q h = rw h.0 (peek_loop-best n (suc i) i q h.1)

  -- When every queued task is READY, the scan removes no entry and answers the first queued task
  -- among those of the highest priority, or -1 for the empty queue.
  pub peek-first_highest :
      (q : ReadyQueue)
      → All IsReadyAt (entries q)
      → ready_queue_peek_highest_priority tasks q ≡ (first_highest tasks (entries q), q)
  unfolding ready_queue_peek_highest_priority
  peek-first_highest q h = peek_loop-none q.count 0 q h

  -- Nothing that was offered outranks the choice.
  best_from-ge :
      (xs : List ℕ) (b y : ℕ)
      → ((b == y) || has y xs) ≡ true
      → (tasks y).priority ≤ℤ (tasks (best_from tasks b xs)).priority
  best_from-ge [] b y h = ground (arith, ==_iff b y)
  best_from-ge (x ∷ xs) b y h = ground (
    arith,
    best_from-ge xs x y,
    best_from-ge xs b y,
    best_from-ge xs x x,
    best_from-ge xs b b,
    ==_refl x,
    ==_refl b,
    ==_iff b y,
    ==_iff x y,
  )

  -- The choice is one of those offered.
  best_from-has :
      (xs : List ℕ) (b : ℕ) → ((b == best_from tasks b xs) || has (best_from tasks b xs) xs) ≡ true
  best_from-has [] b = rw ==_refl
  best_from-has (x ∷ xs) b = ground (arith, best_from-has xs x, best_from-has xs b)

  -- The task chosen is queued, and no queued task has a higher priority.
  pub first_highest_bounds :
      (xs : List ℕ) (b : ℕ)
      → first_highest tasks xs ≡ some b
      → (has b xs ≡ true) × ((y : ℕ) → has y xs ≡ true → (tasks y).priority ≤ℤ (tasks b).priority)
  first_highest_bounds [] b e = absurd (ground arith)
  first_highest_bounds (x ∷ xs) b e =
      (ground (arith, best_from-has xs x), λ y h. ground (arith, best_from-ge xs x y))

  pub first_highest-none : (xs : List ℕ) (y : ℕ) → first_highest tasks xs ≡ none → has y xs ≡ false
  first_highest-none [] y e = refl
  first_highest-none (x ∷ xs) y e = ground arith
