-- ===== src/Run/Frame.antt =====
-- The tasks that the calls of src/scheduler.c and src/rtos.c leave alone.
use mini_rtos_sim.Base.{
  ltb, ◌==◌, ltb→lt, ==_iff, Bool-cases, ltb_ℤ, eqb_ℤ, ℤ, pos, negsuc, ℕ, ◌<◌, ◌≡◌, refl, sym, ap,
  ◌∙◌, ◌≢◌, inl, inr, false, not, ◌||◌, Option, arith,
}
use mini_rtos_sim.Task.{
  TaskState, BlockReason, blocked, block_semaphore, block_mutex, block_queue_full,
  block_queue_empty, queue_size,
}
use mini_rtos_sim.Kernel.{
  Kernel, waits_for, scheduler_set_task_state, scheduler_set_current_task_state,
  scheduler_unblock_one, rtos_current_task,
}
use mini_rtos_sim.Kernel.Invariant.{IsValid}
use mini_rtos_sim.Kernel.Transition.{tasks-set_task_state, frame-set_task_state}
use mini_rtos_sim.Kernel.Unblock.{Woken, nobody, woken, unblock_one-Woken}
use mini_rtos_sim.Kernel.Progress.{set_beyond}
use mini_rtos_sim.MessageQueue.{MessageQueue, rtos_queue_send, rtos_queue_receive}
use mini_rtos_sim.Sync.{
  Holds, Semaphore, Mutex, rtos_sem_wait, rtos_sem_signal, rtos_mutex_lock, rtos_mutex_unlock,
  Holds-any, Holds-bind,
}

-- The task `i` is as it was, and no task is new.
abbrev pub Alone : ℕ → Kernel → Kernel → Type 0
Alone i k k' = (k'.tasks i ≡ k.tasks i) × (k'.task_count ≡ k.task_count)

module _ {k : Kernel} (v : IsValid k) (i : ℕ) (h : i < k.task_count) where
  -- Another task's state.
  pub set_task_state-other :
      (c : ℤ) (state : TaskState) (reason : BlockReason)
      → c ≢ pos i
      → Alone i k (scheduler_set_task_state c state reason k)
  set_task_state-other (negsuc n) state reason ne = unfold scheduler_set_task_state in (refl, refl)
  set_task_state-other (pos c) state reason ne = elim (Bool-cases (ltb c k.task_count)) [
    | inr beyond ↦ rw (set_beyond k c state reason beyond) (refl, refl)
    | inl below ↦
        let p = ltb→lt c k.task_count below in
        (
          tasks-set_task_state v c p state reason i
              ∙ ground (arith, ==_iff i c, λ (e : i ≡ c). ne (ap pos (sym e))),
          (frame-set_task_state v c p state reason).1,
        )
  ]

  pub set_current-other :
      (state : TaskState) (reason : BlockReason)
      → k.current_task_index ≢ pos i
      → Alone i k (scheduler_set_current_task_state state reason k)
  unfolding scheduler_set_current_task_state
  set_current-other state reason ne =
      simp v.bound (set_task_state-other k.current_task_index state reason ne)

  -- A wake-up for a reason that the task does not wait for.
  Woken-other :
      (reason : BlockReason) (r : Option Kernel)
      → waits_for reason (k.tasks i) ≡ false
      → Woken reason k r
      → Holds (Alone i k) r
  Woken-other reason _ no_wait (nobody none_waits) = (refl, refl)
  Woken-other reason _ no_wait (woken b w best r others c n v') =
      (others i λ e. cc (no_wait, w.1, ap (λ j. waits_for reason (k.tasks j)) e), n)

  unblock-other :
      (reason : BlockReason)
      → waits_for reason (k.tasks i) ≡ false
      → Holds (Alone i k) (scheduler_unblock_one reason k)
  unblock-other reason no_wait =
      Woken-other reason (scheduler_unblock_one reason k) no_wait (unblock_one-Woken reason k v)

  pub sem_wait-other :
      (sem : Semaphore)
      → k.current_task_index ≢ pos i
      → Holds (λ r. Alone i k r.2) (rtos_sem_wait sem k)
  unfolding rtos_sem_wait
  sem_wait-other sem ne =
      Holds-bind _ (rtos_current_task k) _
        (Holds-any (λ (t : ℕ). Unit) (λ t. _) (rtos_current_task k))
        λ t u. elim (Bool-cases (ltb_ℤ (pos 0) sem.count)) [
          | inl left ↦ rw left (refl, refl)
          | inr gone ↦ rw gone (set_current-other blocked block_semaphore ne)
        ]

  pub sem_signal-other :
      (sem : Semaphore)
      → waits_for block_semaphore (k.tasks i) ≡ false
      → Holds (λ r. Alone i k r.1) (rtos_sem_signal sem k)
  unfolding rtos_sem_signal
  sem_signal-other sem no_wait =
      Holds-bind _ (scheduler_unblock_one block_semaphore k) _
        (unblock-other block_semaphore no_wait) λ k' e. e

  pub mutex_lock-other :
      (m : Mutex) → k.current_task_index ≢ pos i → Holds (λ r. Alone i k r.2) (rtos_mutex_lock m k)
  unfolding rtos_mutex_lock
  mutex_lock-other m ne =
      Holds-bind _ (rtos_current_task k) _
        (Holds-any (λ (t : ℕ). Unit) (λ t. _) (rtos_current_task k))
        λ t u. elim (Bool-cases m.locked) [
          | inr free ↦ simp free (refl, refl)
          | inl held ↦ elim (Bool-cases (eqb_ℤ m.owner (pos (k.tasks t).task_id))) [
            | inl own ↦ simp (held, own) (refl, refl)
            | inr theirs ↦ simp (held, theirs) (set_current-other blocked block_mutex ne)
          ]
        ]

  pub mutex_unlock-other :
      (m : Mutex)
      → waits_for block_mutex (k.tasks i) ≡ false
      → Holds (λ r. Alone i k r.1) (rtos_mutex_unlock m k)
  unfolding rtos_mutex_unlock
  mutex_unlock-other m no_wait =
      Holds-bind _ (rtos_current_task k) _
        (Holds-any (λ (t : ℕ). Unit) (λ t. _) (rtos_current_task k))
        λ t u. elim (Bool-cases (not m.locked || not (eqb_ℤ m.owner (pos (k.tasks t).task_id)))) [
          | inl ignored ↦ simp ignored (refl, refl)
          | inr released ↦ simp released (
              Holds-bind _ (scheduler_unblock_one block_mutex k) _
                (unblock-other block_mutex no_wait) λ k' e. e)
        ]

  pub queue_send-other :
      (q : MessageQueue) (value : ℤ)
      → k.current_task_index ≢ pos i
      → waits_for block_queue_empty (k.tasks i) ≡ false
      → Holds (λ r. Alone i k r.2) (rtos_queue_send q value k)
  unfolding rtos_queue_send
  queue_send-other q value ne no_wait =
      Holds-bind _ (rtos_current_task k) _
        (Holds-any (λ (t : ℕ). Unit) (λ t. _) (rtos_current_task k))
        λ t u. elim (Bool-cases (q.count == queue_size)) [
          | inl full ↦ rw full (set_current-other blocked block_queue_full ne)
          | inr room ↦ rw room (
              Holds-bind _ (scheduler_unblock_one block_queue_empty k) _
                (unblock-other block_queue_empty no_wait) λ k' e. e)
        ]

  pub queue_receive-other :
      (q : MessageQueue)
      → k.current_task_index ≢ pos i
      → waits_for block_queue_full (k.tasks i) ≡ false
      → Holds (λ r. Alone i k r.2) (rtos_queue_receive q k)
  unfolding rtos_queue_receive
  queue_receive-other q ne no_wait =
      Holds-bind _ (rtos_current_task k) _
        (Holds-any (λ (t : ℕ). Unit) (λ t. _) (rtos_current_task k))
        λ t u. elim (Bool-cases (q.count == 0)) [
          | inl empty ↦ rw empty (set_current-other blocked block_queue_empty ne)
          | inr left ↦ rw left (
              Holds-bind _ (scheduler_unblock_one block_queue_full k) _
                (unblock-other block_queue_full no_wait) λ k' e. e)
        ]
