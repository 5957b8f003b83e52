-- ===== src/Sync/Block.antt =====
-- The current task blocks: what each waiting call does to the kernel.
use mini_rtos_sim.Base.{
  ◌==◌, ==_refl, erase, pos, ℕ, ◌<◌, ◌≡◌, refl, ◌≢◌, true, Option, some, arith,
}
use mini_rtos_sim.Task.{BlockReason, blocked, reason_code}
use mini_rtos_sim.Ready.{entries}
use mini_rtos_sim.Kernel.{
  Kernel, waits_for, scheduler_set_current_task_state, rtos_current_task, scheduler_unblock_one,
}
use mini_rtos_sim.Kernel.Invariant.{IsValid}
use mini_rtos_sim.Kernel.Transition.{
  entries-set_task_state, tasks-set_task_state, frame-set_task_state, set_task_state-IsValid,
  set_current-eq,
}
use mini_rtos_sim.Kernel.Unblock.{Woken, nobody, woken, unblock_one-Woken}

-- `k'` is `k` with the task `i` blocked for `reason`, out of the ready queue.
pub record Blocks (k : Kernel) (i : ℕ) (reason : BlockReason) (k' : Kernel) : Type 0 where
  pub valid : IsValid k'
  pub waits : waits_for reason (k'.tasks i) ≡ true
  pub queue : entries k'.queue ≡ erase i (entries k.queue)
  pub others : (j : ℕ) → j ≢ i → k'.tasks j ≡ k.tasks j
  pub count : k'.task_count ≡ k.task_count

same_reason_refl : (r : BlockReason) → (reason_code r == reason_code r) ≡ true
same_reason_refl r = ==_refl (reason_code r)

-- Blocking the current task changes that task alone, and keeps the kernel valid.
pub set_current-Blocks :
    {k : Kernel} (i : ℕ) (reason : BlockReason)
    → IsValid k
    → rtos_current_task k ≡ some i
    → Blocks k i reason (scheduler_set_current_task_state blocked reason k)
set_current-Blocks {k} i reason v e =
    let c = set_current-eq v blocked reason i e in
    let at = tasks-set_task_state v i c.0 blocked reason in
    rw (c.2) (record {
      valid = set_task_state-IsValid v i c.0 blocked reason;
      waits = rw (at i, ==_refl) (unfold waits_for in same_reason_refl reason);
      queue = entries-set_task_state v i c.0 blocked reason;
      others = λ j ne. ground (arith, at j);
      count = (frame-set_task_state v i c.0 blocked reason).1;
    })

-- A successful wake-up, with what every caller needs of it.
pub unblock-some :
    (reason : BlockReason) (k : Kernel)
    → IsValid k
    → (k' : Kernel) × (scheduler_unblock_one reason k ≡ some k')
      × Woken reason k (some k')
      × IsValid k'
      × (k'.task_count ≡ k.task_count)
      × (k'.current_task_index ≡ k.current_task_index)
unblock-some reason k v = take_apart (scheduler_unblock_one reason k) (unblock_one-Woken reason k v)
  where
    take_apart :
        (o : Option Kernel)
        → Woken reason k o
        → (k' : Kernel) × (o ≡ some k')
          × Woken reason k (some k')
          × IsValid k'
          × (k'.task_count ≡ k.task_count)
          × (k'.current_task_index ≡ k.current_task_index)
    take_apart _ (nobody h) = (k, refl, nobody h, v, refl, refl)
    take_apart _ (woken {k'} b w best r o c n v') = (k', refl, woken b w best r o c n v', v', n, c)

-- The kernel while the task `i` runs.
abbrev pub as_current : ℕ → Kernel → Kernel
as_current i k = record k { current_task_index = pos i }

pub as_current-IsValid :
    {k : Kernel} (i : ℕ)
    → IsValid k
    → i < k.task_count
    → IsValid (as_current i k) × (rtos_current_task (as_current i k) ≡ some i)
unfolding rtos_current_task
as_current-IsValid i v h = (
  record {
    bound = v.bound;
    count_le = v.count_le;
    current_lt = omega arith;
    numbered = v.numbered;
    queued = v.queued;
  },
  ground arith,
)
