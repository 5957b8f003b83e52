-- ===== src/Demo/Effects.antt =====
-- What the calls of src/main.c do to their objects, in any kernel, where they return.
use mini_rtos_sim.Base.{
  inc_int, ◌==◌, Bool-cases, Option-cases, ◌<ℤ◌, ltb_ℤ, pred_ℤ, eqb_refl, ℤ, pos, ℕ, ◌≡◌, refl, ◌≢◌,
  ◌⊎◌, inl, inr, true, false, none, some, arith,
}
use mini_rtos_sim.Task.{
  queue_size, block_queue_empty, block_queue_full, block_mutex, block_semaphore,
}
use mini_rtos_sim.Kernel.{Kernel, rtos_current_task, scheduler_unblock_one}
use mini_rtos_sim.Sync.{
  Semaphore, Mutex, Holds, rtos_sem_wait, rtos_sem_signal, rtos_mutex_lock, rtos_mutex_unlock,
}
use mini_rtos_sim.MessageQueue.{
  MessageQueue, enqueued, dequeued, rtos_queue_send, rtos_queue_receive,
}

pub send-Holds :
    (q : MessageQueue) (v : ℤ) (k : Kernel)
    → Holds
        (λ x.
          ((q.count ≢ queue_size) × (x.0 ≡ true) × (x.1 ≡ enqueued q v))
          ⊎ ((x.0 ≡ false) × (x.1 ≡ q)))
        (rtos_queue_send q v k)
unfolding rtos_queue_send
send-Holds q v k = elim (Option-cases (rtos_current_task k)) [
  | inl e ↦ rw e _
  | inr (i, e) ↦ elim (Bool-cases (q.count == queue_size)) [
    | inl full ↦ rw (e, full) (inr (refl, refl))
    | inr room ↦ elim (Option-cases (scheduler_unblock_one block_queue_empty k)) [
      | inl f ↦ rw (e, room, f) _
      | inr (k', f) ↦ rw (e, room, f) (inl (ground arith, refl, refl))
    ]
  ]
]

pub receive-Holds :
    (q : MessageQueue) (k : Kernel)
    → Holds
        (λ x.
          ((q.count ≢ 0) × (x.0 ≡ some (q.buffer q.front)) × (x.1 ≡ dequeued q))
          ⊎ ((q.count ≡ 0) × (x.0 ≡ none) × (x.1 ≡ q)))
        (rtos_queue_receive q k)
unfolding rtos_queue_receive
receive-Holds q k = elim (Option-cases (rtos_current_task k)) [
  | inl e ↦ rw e _
  | inr (i, e) ↦ elim (Bool-cases (q.count == 0)) [
    | inl empty ↦ rw (e, empty) (inr (ground arith, refl, refl))
    | inr left ↦ elim (Option-cases (scheduler_unblock_one block_queue_full k)) [
      | inl f ↦ rw (e, left, f) _
      | inr (k', f) ↦ rw (e, left, f) (inl (ground arith, refl, refl))
    ]
  ]
]

pub wait-Holds :
    (sem : Semaphore) (k : Kernel)
    → Holds
        (λ x.
          ((pos 0 <ℤ sem.count) × (x.0 ≡ true) × (x.1 ≡ record { count = pred_ℤ sem.count }))
          ⊎ ((x.0 ≡ false) × (x.1 ≡ sem)))
        (rtos_sem_wait sem k)
unfolding rtos_sem_wait
wait-Holds sem k = elim (Option-cases (rtos_current_task k)) [
  | inl e ↦ rw e _
  | inr (i, e) ↦ elim (Bool-cases (ltb_ℤ (pos 0) sem.count)) [
    | inl left ↦ rw (e, left) (inl (ground arith, refl, refl))
    | inr gone ↦ rw (e, gone) (inr (refl, refl))
  ]
]

pub signal-Holds :
    (sem : Semaphore) (k : Kernel)
    → Holds (λ x. x.0 ≡ record { count = inc_int sem.count }) (rtos_sem_signal sem k)
unfolding rtos_sem_signal
signal-Holds sem k = elim (Option-cases (scheduler_unblock_one block_semaphore k)) [
  | inl f ↦ rw f _
  | inr (k', f) ↦ rw f refl
]

-- A mutex that the task of the kernel has just locked.
abbrev pub MineIn : Kernel → Mutex → Type 0
MineIn k m =
    (i : ℕ) × (rtos_current_task k ≡ some i)
    × (m ≡ record { locked = true; owner = pos (k.tasks i).task_id })

pub lock-Holds :
    (m : Mutex) (k : Kernel)
    → m.locked ≡ false
    → Holds (λ x. (x.0 ≡ true) × (x.2 ≡ k) × MineIn k x.1) (rtos_mutex_lock m k)
unfolding rtos_mutex_lock
lock-Holds m k free = elim (Option-cases (rtos_current_task k)) [
  | inl e ↦ rw e _
  | inr (i, e) ↦ rw (e, free) (refl, refl, (i, refl, refl))
]

pub unlock-Holds :
    (m : Mutex) (k : Kernel) → MineIn k m → Holds (λ x. x.0.locked ≡ false) (rtos_mutex_unlock m k)
unfolding rtos_mutex_unlock
unlock-Holds m k (i, e, mine) = elim (Option-cases (scheduler_unblock_one block_mutex k)) [
  | inl f ↦ rw (e, mine, eqb_refl (pos (k.tasks i).task_id), f) _
  | inr (k', f) ↦ rw (e, mine, eqb_refl (pos (k.tasks i).task_id), f) refl
]
