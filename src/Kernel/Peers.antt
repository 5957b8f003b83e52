-- ===== src/Kernel/Peers.antt =====
-- A group of tasks that a change of others leaves alone, also in the ready queue.
use mini_rtos_sim.Base.{
  ◌==◌, ==_iff, Bool-cases, erase, select, select-append, select-erase_out, pos, ℕ, ◌<◌, ◌≡◌, refl,
  ap, ◌∙◌, inl, inr, Bool, true, false, List, [], ◌∷◌, arith,
}
use mini_rtos_sim.Task.{Tcb, TaskState, BlockReason, ready, block_none, is_blocked, is_ready}
use mini_rtos_sim.Ready.{entries}
use mini_rtos_sim.Kernel.{Kernel, waits_for, scheduler_set_task_state, scheduler_unblock_one}
use mini_rtos_sim.Kernel.Invariant.{IsValid}
use mini_rtos_sim.Kernel.Transition.{
  requeued, entries-set_task_state, tasks-set_task_state, frame-set_task_state,
}
use mini_rtos_sim.Sync.{Holds}
use mathlib.Core.List.{append-nil}
use mini_rtos_sim.Kernel.Unblock.{Waits, unblock_one-cases}

-- The tasks of the group are as they were and queued in the same order, no task is new, and
-- priorities are as they were.
pub record Undisturbed (group : ℕ → Bool) (k k' : Kernel) : Type 0 where
  pub queue : select group (entries k'.queue) ≡ select group (entries k.queue)
  pub peers : (j : ℕ) → group j ≡ true → k'.tasks j ≡ k.tasks j
  pub count : k'.task_count ≡ k.task_count
  pub priority : (j : ℕ) → (k'.tasks j).priority ≡ (k.tasks j).priority

pub Undisturbed-refl : (group : ℕ → Bool) (k : Kernel) → Undisturbed group k k
Undisturbed-refl group k = record {
  queue = refl;
  peers = λ j h. refl;
  count = refl;
  priority = λ j. refl;
}

pub Undisturbed-trans :
    (group : ℕ → Bool) (k k' k'' : Kernel)
    → Undisturbed group k k'
    → Undisturbed group k' k''
    → Undisturbed group k k''
Undisturbed-trans group k k' k'' s t = record {
  queue = t.queue ∙ s.queue;
  peers = λ j h. t.peers j h ∙ s.peers j h;
  count = t.count ∙ s.count;
  priority = λ j. t.priority j ∙ s.priority j;
}

-- No task of the group is BLOCKED.
abbrev pub Unblocked : (ℕ → Bool) → Kernel → Type 0
Unblocked group k =
    (j : ℕ) → j < k.task_count → group j ≡ true → is_blocked (k.tasks j).state ≡ false

pub Undisturbed-Unblocked :
    (group : ℕ → Bool) (k k' : Kernel)
    → Undisturbed group k k'
    → Unblocked group k
    → Unblocked group k'
Undisturbed-Unblocked group k k' u b j h g =
    ap (λ (t : Tcb). is_blocked t.state) (u.peers j g) ∙ b j (omega (arith, u.count)) g

select-requeued :
    (group : ℕ → Bool) (b : ℕ) (state : TaskState) (xs : List ℕ)
    → group b ≡ false
    → select group (requeued b state xs) ≡ select group xs
select-requeued group b state xs out = elim (Bool-cases (is_ready state)) [
  | inl e ↦ rw e (
      select-append group (erase b xs) (b ∷ [])
      ∙ rw out (append-nil (select group (erase b xs)) ∙ select-erase_out group b xs out))
  | inr e ↦ rw e (select-erase_out group b xs out)
]

-- A change of the state of a task outside the group.
pub set-Undisturbed :
    (group : ℕ → Bool) (b : ℕ) (state : TaskState) (reason : BlockReason) {k : Kernel}
    → IsValid k
    → b < k.task_count
    → group b ≡ false
    → Undisturbed group k (scheduler_set_task_state (pos b) state reason k)
set-Undisturbed group b state reason {k} v h out =
    let at = tasks-set_task_state v b h state reason in
    record {
      queue =
          ap (select group) (entries-set_task_state v b h state reason)
          ∙ select-requeued group b state (entries k.queue) out;
      peers = λ j g. elim (Bool-cases (j == b)) [
        | inl e ↦ absurd (cc (g, out, ap group ((==_iff j b).0 e)))
        | inr e ↦ ground (arith, at j, e)
      ];
      count = (frame-set_task_state v b h state reason).1;
      priority = λ j. ground (arith, at j, ==_iff j b);
    }

waiter_outside :
    (group : ℕ → Bool) (reason : BlockReason) (k : Kernel) (b : ℕ)
    → Unblocked group k
    → Waits reason k b
    → group b ≡ false
unfolding waits_for
waiter_outside group reason k b u w = elim (Bool-cases (group b)) [
  | inl e ↦ ground (arith, u b w.0 e, w.1)
  | inr e ↦ e
]

-- A wake-up, where no task of the group is BLOCKED.
pub unblock_one-Undisturbed :
    (group : ℕ → Bool) (reason : BlockReason) {k : Kernel}
    → IsValid k
    → Unblocked group k
    → Holds (Undisturbed group k) (scheduler_unblock_one reason k)
unblock_one-Undisturbed group reason {k} v u = elim (unblock_one-cases reason v) [
  | inl e ↦ rw e (Undisturbed-refl group k)
  | inr (b, w, e) ↦
      rw e (set-Undisturbed group b ready block_none v w.0 (waiter_outside group reason k b u w))
]
