-- ===== src/Sync/Progress.antt =====
-- What the calls on semaphores and mutexes keep of the kernel.
use mini_rtos_sim.Base.{
  inc_int, Bool-cases, minus_one, ltb_ℤ, eqb_ℤ, pred_ℤ, pos, ◌≡◌, refl, inl, inr, true, false, not,
  ◌||◌, Option, some, arith,
}
use mini_rtos_sim.Task.{blocked, block_semaphore, block_mutex}
use mini_rtos_sim.Kernel.{Kernel, scheduler_set_current_task_state}
use mini_rtos_sim.Kernel.Invariant.{IsValid}
use mini_rtos_sim.Kernel.Progress.{
  Progress, Progress-refl, set_current-Progress, unblock-Progress, InTask,
}
use mini_rtos_sim.Sync.{
  Semaphore, Mutex, rtos_sem_wait, rtos_sem_signal, rtos_mutex_lock, rtos_mutex_unlock,
}

-- A call that returns its result with a kernel that has made progress.
abbrev pub Returns : {A : Type 0} → Kernel → Option A → (A → Kernel) → Type 0
Returns {A} k r kernel = (a : A) × (r ≡ some a) × Progress k (kernel a)

module _ {k : Kernel} (v : IsValid k) where
  pub sem_wait-Returns : (sem : Semaphore) → InTask k → Returns k (rtos_sem_wait sem k) (λ r. r.2)
  unfolding rtos_sem_wait
  sem_wait-Returns sem (i, e) = elim (Bool-cases (ltb_ℤ (pos 0) sem.count)) [
    | inl left ↦
        ((true, record { count = pred_ℤ sem.count }, k), ground (arith, e, left), Progress-refl v)
    | inr gone ↦ (
      (false, sem, scheduler_set_current_task_state blocked block_semaphore k),
      ground (arith, e, gone),
      set_current-Progress blocked block_semaphore v refl,
    )
  ]

  pub sem_signal-Returns : (sem : Semaphore) → Returns k (rtos_sem_signal sem k) (λ r. r.1)
  unfolding rtos_sem_signal
  sem_signal-Returns sem =
      let (k', e, p) = unblock-Progress block_semaphore v in
      ((record { count = inc_int sem.count }, k'), ground (arith, e), p)

  pub mutex_lock-Returns :
      (mutex : Mutex) → InTask k → Returns k (rtos_mutex_lock mutex k) (λ r. r.2)
  unfolding rtos_mutex_lock
  mutex_lock-Returns mutex (i, e) = elim (Bool-cases mutex.locked) [
    | inr free ↦ (
      (true, record { locked = true; owner = pos (k.tasks i).task_id }, k),
      ground (arith, e, free),
      Progress-refl v,
    )
    | inl held ↦ elim (Bool-cases (eqb_ℤ mutex.owner (pos (k.tasks i).task_id))) [
      | inl own ↦ ((true, mutex, k), ground (arith, e, held, own), Progress-refl v)
      | inr other ↦ (
        (false, mutex, scheduler_set_current_task_state blocked block_mutex k),
        ground (arith, e, held, other),
        set_current-Progress blocked block_mutex v refl,
      )
    ]
  ]

  pub mutex_unlock-Returns :
      (mutex : Mutex) → InTask k → Returns k (rtos_mutex_unlock mutex k) (λ r. r.1)
  unfolding rtos_mutex_unlock
  mutex_unlock-Returns mutex (i, e) =
      elim (Bool-cases (not mutex.locked || not (eqb_ℤ mutex.owner (pos (k.tasks i).task_id)))) [
        | inl ignored ↦ ((mutex, k), ground (arith, e, ignored), Progress-refl v)
        | inr released ↦
            let (k', e', p) = unblock-Progress block_mutex v in
            ((record { locked = false; owner = minus_one }, k'), ground (arith, e, released, e'), p)
      ]
