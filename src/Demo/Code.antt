-- ===== src/Demo/Code.antt =====
-- What the programs of src/main.c do where no call blocks and nobody waits.
use mini_rtos_sim.Base.{
  ℤ, inc_int, ◌==◌, if◌then◌else◌, ==_ne, Bool-cases, minus_one, ◌<ℤ◌, ltb_ℤ, pred_ℤ, eqb_refl, set,
  pos, ℕ, ◌≡◌, refl, ap, ◌∙◌, fun_ext, ◌≢◌, inl, inr, true, false, not, some, arith,
}
use mini_rtos_sim.Task.{
  BlockReason, block_semaphore, block_mutex, block_queue_full, block_queue_empty, block_sleep,
  queue_size,
}
use mini_rtos_sim.Kernel.{Kernel, same_reason, rtos_current_task, scheduler_unblock_one}
use mini_rtos_sim.Tasks.{rtos_task_sleep}
use mini_rtos_sim.Sync.{Mutex, rtos_sem_wait, rtos_sem_signal, rtos_mutex_lock, rtos_mutex_unlock}
use mini_rtos_sim.MessageQueue.{enqueued, dequeued, rtos_queue_send, rtos_queue_receive}
use mini_rtos_sim.Run.{task_sleep, World, Image, Program, call, done, mutex_lock, mutex_unlock}
use mini_rtos_sim.Run.Exec.{exec_op, exec}
use mini_rtos_sim.Demo.{then_do, add_five, sensor_task, logger_task, display_task}

-- The sensor has sent its sample.
abbrev pub sensor_did : World → World
sensor_did w = record w {
  queues = set w.queues 0 (enqueued (w.queues 0) (w.variables 0));
  variables = set w.variables 0 (add_five (w.variables 0));
  semaphores = set w.semaphores 0 (record { count = inc_int (w.semaphores 0).count });
}

-- The mutex is free, whoever had it.
abbrev pub freed : World → World
freed w = record w { mutexes = set w.mutexes 0 (record { locked = false; owner = minus_one }) }

-- The logger has received one, and printed it under the mutex.
abbrev pub logger_did : World → World
logger_did w = freed (record w {
  queues = set w.queues 0 (dequeued (w.queues 0));
  semaphores = set w.semaphores 0 (record { count = pred_ℤ (w.semaphores 0).count });
  variables = set w.variables 1 ((w.queues 0).buffer (w.queues 0).front);
})

-- The world has a kernel whose current task is `i`, and where nobody waits for an object.
abbrev pub Calm : ℕ → Kernel → Type 0
Calm i k =
    (rtos_current_task k ≡ some i)
    × ((r : BlockReason) → same_reason block_sleep r ≡ false → scheduler_unblock_one r k ≡ some k)

set_twice : {A : Type 0} (f : ℕ → A) (i : ℕ) (a b : A) → set (set f i a) i b ≡ set f i b
set_twice f i a b =
    fun_ext (λ j. elim (Bool-cases (j == i)) [ inl e ↦ rw e refl | inr e ↦ rw e refl ])

module _ (image : Image) (i : ℕ) (w : World) (c : Calm i w.kernel) where
  pub sensor_runs :
      (w.queues 0).count ≢ queue_size
      → exec image sensor_task w
        ≡ some (record (sensor_did w) { kernel = rtos_task_sleep (pos 3) w.kernel })
  unfolding sensor_task exec exec_op rtos_queue_send rtos_sem_signal
  sensor_runs room =
      rw (c.0, ==_ne (w.queues 0).count queue_size room, c.1 block_queue_empty refl)
        (rw (c.1 block_semaphore refl) refl)

  -- A critical section that sets variables at most.
  critical_runs :
      (body next : Program) (variables : ℕ → ℤ)
      → ((mutexes : ℕ → Mutex)
          → exec image body (record w { mutexes = mutexes })
            ≡ exec image
                (then_do (mutex_unlock 0) next)
                (record w { mutexes = mutexes; variables = variables }))
      → (w.mutexes 0).locked ≡ false
      → exec image (call (mutex_lock 0) λ r. (if not r.ok then done else body)) w
        ≡ exec image next (record (freed w) { variables = variables })
  unfolding exec exec_op rtos_mutex_lock rtos_mutex_unlock
  critical_runs body next variables prints free =
      let id = pos (w.kernel.tasks i).task_id in
      rw (c.0, free)
        (prints _
          ∙ rw (c.0, eqb_refl id)
              (rw (c.1 block_mutex refl) (
                ap (λ m. exec image next (record w { mutexes = m; variables = variables }))
                  (set_twice w.mutexes 0 (record { locked = true; owner = id })
                    (record { locked = false; owner = minus_one })))))

  pub display_runs :
      (w.mutexes 0).locked ≡ false
      → exec image display_task w
        ≡ some (record (freed w) { kernel = rtos_task_sleep (pos 4) w.kernel })
  unfolding display_task
  display_runs free =
      critical_runs _ _ w.variables (λ ms. refl) free ∙ (unfold exec exec_op in refl)

module _ (image : Image) (i : ℕ) (w : World) (c : Calm i w.kernel) where
  pub logger_runs :
      pos 0 <ℤ (w.semaphores 0).count
      → (w.queues 0).count ≢ 0
      → (w.mutexes 0).locked ≡ false
      → exec image logger_task w
        ≡ some (record (logger_did w) { kernel = rtos_task_sleep (pos 2) w.kernel })
  unfolding logger_task exec exec_op rtos_sem_wait rtos_queue_receive
  logger_runs signalled filled free =
      let left : ltb_ℤ (pos 0) (w.semaphores 0).count ≡ true = ground arith in
      rw (c.0, left)
        (rw (c.0, ==_ne (w.queues 0).count 0 filled, c.1 block_queue_full refl)
          (critical_runs image i
            (record w {
              queues = set w.queues 0 (dequeued (w.queues 0));
              semaphores = set w.semaphores 0 (record { count = pred_ℤ (w.semaphores 0).count });
            })
            c _ (then_do (task_sleep (pos 2)) done)
            (set w.variables 1 ((w.queues 0).buffer (w.queues 0).front)) (λ ms. refl) free))
