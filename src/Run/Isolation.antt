-- ===== src/Run/Isolation.antt =====
-- Which tasks a call can change.
use mini_rtos_sim.Kernel.Progress.{InTask}
use mini_rtos_sim.Run.Sound.{IsSound}
use mini_rtos_sim.Run.Total.{needs_task, exec_op-Returned}
use mini_rtos_sim.Base.{
  ◌⊎◌, pos, ℕ, suc, ◌<◌, ◌≡◌, refl, ap, ◌∙◌, subst, ◌≢◌, Bool, true, false, some,
}
use mini_rtos_sim.Task.{block_semaphore, block_mutex, block_queue_full, block_queue_empty}
use mini_rtos_sim.Kernel.{Kernel, waits_for}
use mini_rtos_sim.Kernel.Invariant.{IsValid}
use mini_rtos_sim.Sync.{
  Holds, Holds-bind, rtos_sem_wait, rtos_sem_signal, rtos_mutex_lock, rtos_mutex_unlock,
}
use mini_rtos_sim.MessageQueue.{rtos_queue_send, rtos_queue_receive}
use mini_rtos_sim.Event.{event_flags_set, event_flags_clear, event_flags_wait}
use mini_rtos_sim.Run.{
  World, Op, Reply, Image, create_task, task_sleep, suspend_task, resume_task, get_task_state,
  ready_count, sem_wait, sem_signal, mutex_lock, mutex_unlock, queue_send, queue_receive, event_set,
  event_clear, event_wait, event_get, soft_create, soft_start, soft_stop, soft_delete, mem_alloc,
  mem_free, now, read_variable, write_variable,
}
use mini_rtos_sim.Run.Exec.{exec_op}
use mini_rtos_sim.Run.Frame.{
  sem_wait-other, sem_signal-other, mutex_lock-other, mutex_unlock-other, queue_send-other,
  queue_receive-other,
}
use mini_rtos_sim.Run.Others.{
  create_task-other, task_sleep-other, suspend-other, resume-other, event_set-other,
  event_wait-other, put-kernel,
}

-- The calls that reach the task `i`, whoever makes them: those that name it, those that may end its
-- wait, and a set of flags of a group where it is registered.
abbrev pub Reaches : Op → World → ℕ → Type 0
Reaches (suspend_task id) w i = id ≡ pos (suc i)
Reaches (resume_task id) w i = id ≡ pos (suc i)
Reaches (sem_signal s) w i = waits_for block_semaphore (w.kernel.tasks i) ≡ true
Reaches (mutex_unlock m) w i = waits_for block_mutex (w.kernel.tasks i) ≡ true
Reaches (queue_send q x) w i = waits_for block_queue_empty (w.kernel.tasks i) ≡ true
Reaches (queue_receive q) w i = waits_for block_queue_full (w.kernel.tasks i) ≡ true
Reaches (event_set e mask) w i =
    (j : ℕ) × (j < (w.events e).waiter_count) × (((w.events e).waiters j).task_index ≡ pos i)
Reaches _ w i = ⊥

-- It does not hold, as a Boolean.
pub unless_true : (b : Bool) → ¬ (b ≡ true) → b ≡ false
unless_true false n = refl
unless_true true n = absurd (n refl)

module _ (image : Image) (w : World) (i : ℕ) (v : IsValid w.kernel) (h : i < w.kernel.task_count)
    (ne : w.kernel.current_task_index ≢ pos i) where
  abbrev Kept : Reply × World → Type 0
  Kept x = x.1.kernel.tasks i ≡ w.kernel.tasks i

  exec_op-other : (op : Op) → ¬ Reaches op w i → Holds Kept (exec_op image op w)
  unfolding exec_op
  exec_op-other (create_task name priority f) n = create_task-other v i h name priority (suc f)
  exec_op-other (task_sleep ticks) n = (task_sleep-other v i h ticks ne).0
  exec_op-other (suspend_task id) n = suspend-other v i h id n
  exec_op-other (resume_task id) n = resume-other v i h id n
  exec_op-other (get_task_state id) n = refl
  exec_op-other ready_count n = refl
  exec_op-other (sem_wait s) n =
      Holds-bind Kept (rtos_sem_wait (w.semaphores s) w.kernel) _
        (sem_wait-other v i h (w.semaphores s) ne) λ x e. e.0
  exec_op-other (sem_signal s) n =
      Holds-bind Kept (rtos_sem_signal (w.semaphores s) w.kernel) _
        (sem_signal-other v i h (w.semaphores s) (unless_true _ n)) λ x e. e.0
  exec_op-other (mutex_lock m) n =
      Holds-bind Kept (rtos_mutex_lock (w.mutexes m) w.kernel) _
        (mutex_lock-other v i h (w.mutexes m) ne) λ x e. e.0
  exec_op-other (mutex_unlock m) n =
      Holds-bind Kept (rtos_mutex_unlock (w.mutexes m) w.kernel) _
        (mutex_unlock-other v i h (w.mutexes m) (unless_true _ n)) λ x e. e.0
  exec_op-other (queue_send q x) n =
      Holds-bind Kept (rtos_queue_send (w.queues q) x w.kernel) _
        (queue_send-other v i h (w.queues q) x ne (unless_true _ n)) λ x e. e.0
  exec_op-other (queue_receive q) n =
      Holds-bind Kept (rtos_queue_receive (w.queues q) w.kernel) _
        (queue_receive-other v i h (w.queues q) ne (unless_true _ n)) λ x e. e.0
  exec_op-other (event_set e mask) n =
      ap (λ (k : Kernel). k.tasks i)
        (put-kernel (record w { kernel = (event_flags_set (some (w.events e)) mask w.kernel).1 }) e
          (event_flags_set (some (w.events e)) mask w.kernel).0)
      ∙ event_set-other mask i (w.events e) v h (λ j p same. n (j, p, same))
  exec_op-other (event_clear e mask) n =
      ap (λ (k : Kernel). k.tasks i) (put-kernel w e (event_flags_clear (some (w.events e)) mask))
  exec_op-other (event_wait e mask) n =
      ap (λ (k : Kernel). k.tasks i)
        (put-kernel (record w { kernel = (event_flags_wait (some (w.events e)) mask w.kernel).2 }) e
          (event_flags_wait (some (w.events e)) mask w.kernel).1)
      ∙ (event_wait-other mask i (w.events e) v h ne).0
  exec_op-other (event_get e) n = refl
  exec_op-other (soft_create name m p c a) n = refl
  exec_op-other (soft_start t) n = refl
  exec_op-other (soft_stop t) n = refl
  exec_op-other (soft_delete t) n = refl
  exec_op-other mem_alloc n = refl
  exec_op-other (mem_free ptr) n = refl
  exec_op-other now n = refl
  exec_op-other (read_variable x) n = refl
  exec_op-other (write_variable x y) n = refl

  -- Isolation: in a valid kernel with well-formed objects, a call of `Op` (made while a task runs, if
  -- it needs a current task) does not fault and changes nothing of a task of the table that is not the
  -- caller, neither its control block nor its saved registers, unless it is one of these: a suspension
  -- or a resumption that names the task, a signal, an unlock, a send or a receive when the task waits
  -- for its kind of object, or a set of event flags where the task is registered as a waiter.
  pub calls_isolate :
      (op : Op)
      → IsSound w
      → (needs_task op ≡ false) ⊎ InTask w.kernel
      → ¬ Reaches op w i
      → (x : Reply × World) × (exec_op image op w ≡ some x)
        × (x.1.kernel.tasks i ≡ w.kernel.tasks i)
        × (x.1.kernel.contexts.objects i ≡ w.kernel.contexts.objects i)
  calls_isolate op s t n =
      let (x, e, p, s') = exec_op-Returned image op w v s t in
      (x, e, subst (Holds Kept) e (exec_op-other op n), p.saved i h)
