-- ===== src/Kernel/Unblock.antt =====
-- `scheduler_unblock_one`: which waiter it wakes.
use mini_rtos_sim.Base.{
  ltb, leb, ◌==◌, if◌then◌else◌, Bool-cases, Option-cases, ◌≤ℤ◌, has, pos, ℕ, zero, suc, ◌+◌, ◌<◌,
  ◌≡◌, refl, ◌∙◌, ◌≢◌, ◌↔◌, ◌⊎◌, inl, inr, true, ◌&&◌, Option, none, some, List, [], ◌∷◌, arith,
}
use mini_rtos_sim.Task.{Tcb, BlockReason, ready, block_none, is_ready}
use mini_rtos_sim.Ready.Peek.{best_from, first_highest, first_highest_bounds, first_highest-none}
use mini_rtos_sim.Kernel.{
  Kernel, waits_for, unblock_scan, scheduler_unblock_one, scheduler_set_task_state,
}
use mini_rtos_sim.Kernel.Invariant.{IsValid}
use mini_rtos_sim.Kernel.Transition.{
  set_task_state-IsValid, tasks-set_task_state, frame-set_task_state,
}

-- The indices from `i` on, `n` of them, whose task waits for `reason`, in the order of the table.
abbrev pub waiters_from : BlockReason → (ℕ → Tcb) → ℕ → ℕ → List ℕ
waiters_from reason tasks i zero = []
waiters_from reason tasks i (suc n) =
    if waits_for reason (tasks i)
    then i ∷ waiters_from reason tasks (suc i) n
    else waiters_from reason tasks (suc i) n

abbrev pub waiters : BlockReason → Kernel → List ℕ
waiters reason k = waiters_from reason k.tasks 0 k.task_count

module _ (reason : BlockReason) (tasks : ℕ → Tcb) where
  scan-best :
      (n i b : ℕ)
      → unblock_scan n i (some b) reason tasks
        ≡ some (best_from tasks b (waiters_from reason tasks i n))
  unfolding unblock_scan
  scan-best zero i b = refl
  scan-best (suc n) i b = ground (arith, scan-best n (suc i) i, scan-best n (suc i) b)

  scan-first :
      (n i : ℕ)
      → unblock_scan n i none reason tasks ≡ first_highest tasks (waiters_from reason tasks i n)
  unfolding unblock_scan
  scan-first zero i = refl
  scan-first (suc n) i = ground (arith, scan-best n (suc i) i, scan-first n (suc i))

  -- A waiter is a task of the range that is BLOCKED for the reason.
  pub has-waiters_from :
      (n i j : ℕ)
      → has j (waiters_from reason tasks i n)
        ≡ (leb i j && ltb j (i + n) && waits_for reason (tasks j))
  has-waiters_from zero i j = ground arith
  has-waiters_from (suc n) i j = elim (Bool-cases (i == j)) [
    | inl e ↦
        let e' : i ≡ j = ground arith in rw (← e') (ground (arith, has-waiters_from n (suc i) i))
    | inr e ↦ ground (arith, has-waiters_from n (suc i) j)
  ]

-- A waiter of the table: a task below `task_count` that is BLOCKED for the reason.
abbrev pub Waits : BlockReason → Kernel → ℕ → Type 0
Waits reason k j = (j < k.task_count) × (waits_for reason (k.tasks j) ≡ true)

-- What the wake-up promises. With no waiter nothing changes. Otherwise the waiter `b`, which no
-- waiter outranks, becomes READY, and no other task changes.
pub data Woken (reason : BlockReason) (k : Kernel) : Option Kernel → Type 0 where
  nobody : ((j : ℕ) → ¬ Waits reason k j) → Woken reason k (some k)
  woken :
      {k' : Kernel} (b : ℕ)
      → Waits reason k b
      → ((j : ℕ) → Waits reason k j → (k.tasks j).priority ≤ℤ (k.tasks b).priority)
      → is_ready (k'.tasks b).state ≡ true
      → ((j : ℕ) → j ≢ b → k'.tasks j ≡ k.tasks j)
      → (k'.current_task_index ≡ k.current_task_index)
      → (k'.task_count ≡ k.task_count)
      → IsValid k'
      → Woken reason k (some k')

module _ (reason : BlockReason) (k : Kernel) where
  waiters-Waits : (j : ℕ) → (has j (waiters reason k) ≡ true) ↔ Waits reason k j
  waiters-Waits j = (
    (λ h. let e = has-waiters_from reason k.tasks k.task_count 0 j in (ground arith, ground arith)),
    λ w. ground (arith, has-waiters_from reason k.tasks k.task_count 0 j),
  )

  Woken-first :
      (c : Option ℕ)
      → IsValid k
      → first_highest k.tasks (waiters reason k) ≡ c
      → Woken reason k (elim c [
        | none ↦ some k
        | some b ↦ some (scheduler_set_task_state (pos b) ready block_none k)
      ])
  Woken-first none v e =
      nobody λ j w. cc ((waiters-Waits j).1 w, first_highest-none k.tasks (waiters reason k) j e)
  Woken-first (some b) v e =
      let (mem, best) = first_highest_bounds k.tasks (waiters reason k) b e in
      let w = (waiters-Waits b).0 mem in
      let f = frame-set_task_state v b w.0 ready block_none in
      woken b w (λ j u. best j ((waiters-Waits j).1 u))
        (ground (arith, tasks-set_task_state v b w.0 ready block_none b))
        (λ j ne. ground (arith, tasks-set_task_state v b w.0 ready block_none j)) f.2 f.1
        (set_task_state-IsValid v b w.0 ready block_none)

  unblock-first :
      k.bound ≡ true
      → scheduler_unblock_one reason k ≡ elim (first_highest k.tasks (waiters reason k)) [
        | none ↦ some k
        | some b ↦ some (scheduler_set_task_state (pos b) ready block_none k)
      ]
  unfolding scheduler_unblock_one
  unblock-first bound = ground (arith, scan-first reason k.tasks k.task_count 0)

  -- From a valid kernel, `scheduler_unblock_one` does not fault, and wakes exactly one waiter for
  -- the reason, one of the highest priority, or changes nothing where no task waits for it.
  pub unblock_one-Woken : IsValid k → Woken reason k (scheduler_unblock_one reason k)
  unblock_one-Woken v =
      rw (unblock-first v.bound) (Woken-first (first_highest k.tasks (waiters reason k)) v refl)

-- Where nobody waits nothing happens.
Woken-nobody :
    (reason : BlockReason) (k : Kernel) (r : Option Kernel)
    → Woken reason k r
    → ((j : ℕ) → ¬ Waits reason k j)
    → r ≡ some k
Woken-nobody reason k _ (nobody none_waits) h = refl
Woken-nobody reason k _ (woken b w top up others current count valid) h = absurd (h b w)

pub unblock_nobody :
    (reason : BlockReason) {k : Kernel}
    → IsValid k
    → ((j : ℕ) → ¬ Waits reason k j)
    → scheduler_unblock_one reason k ≡ some k
unblock_nobody reason {k} v h =
    Woken-nobody reason k (scheduler_unblock_one reason k) (unblock_one-Woken reason k v) h

-- The wake-up as a change of state.
pub unblock_one-cases :
    (reason : BlockReason) {k : Kernel}
    → IsValid k
    → (scheduler_unblock_one reason k ≡ some k)
      ⊎ ((b : ℕ) × Waits reason k b
          × (scheduler_unblock_one reason k
              ≡ some (scheduler_set_task_state (pos b) ready block_none k)))
unblock_one-cases reason {k} v = elim (Option-cases (first_highest k.tasks (waiters reason k))) [
  | inl e ↦ inl (unblock-first reason k v.bound ∙ rw e refl)
  | inr (b, e) ↦
      let w = (first_highest_bounds k.tasks (waiters reason k) b e).0 in
      inr (b, (waiters-Waits reason k b).0 w, unblock-first reason k v.bound ∙ rw e refl)
]
