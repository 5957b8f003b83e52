-- ===== src/Run/Total.antt =====
-- What kernel calls and programs of them keep of the kernel.
use mini_rtos_sim.Base.{
  suc, ℕ, ◌≡◌, refl, ◌⊎◌, inl, inr, Bool, true, false, Option, none, some, arith,
}
use mini_rtos_sim.Kernel.{Kernel}
use mini_rtos_sim.Kernel.Invariant.{IsValid}
use mini_rtos_sim.Kernel.Progress.{Progress, Progress-refl, Progress-trans, InTask, Progress-InTask}
use mini_rtos_sim.Tasks.Progress.{
  create_task-Progress, task_sleep-Progress, suspend_task-Progress, resume_task-Progress,
}
use mini_rtos_sim.Sync.{bind-some}
use mini_rtos_sim.Sync.Progress.{
  sem_wait-Returns, sem_signal-Returns, mutex_lock-Returns, mutex_unlock-Returns,
}
use mini_rtos_sim.MessageQueue.Progress.{queue_send-Returns, queue_receive-Returns}
use mini_rtos_sim.Event.{event_flags_set, event_flags_wait, event_flags_clear, EventFlags}
use mini_rtos_sim.Event.Progress.{event_set-Progress, event_wait-Progress}
use mini_rtos_sim.Run.{
  World, Op, Reply, Program, Image, create_task, task_sleep, suspend_task, resume_task,
  get_task_state, ready_count, sem_wait, sem_signal, mutex_lock, mutex_unlock, queue_send,
  queue_receive, event_set, event_clear, event_wait, event_get, soft_create, soft_start, soft_stop,
  soft_delete, mem_alloc, mem_free, now, read_variable, write_variable, done, call,
}
use mini_rtos_sim.Run.Exec.{exec_op, exec, put_event}
use mini_rtos_sim.Memory.Client.{alloc-IsPool, free-IsPool}
use mini_rtos_sim.Event.Group.{
  IsGroup-mono, Behind-mono, event_set-IsGroup, event_clear-IsGroup, event_wait-IsGroup,
}
use mini_rtos_sim.Timer.Armed.{create-AreTimers, start-AreTimers, stop-AreTimers, delete-AreTimers}
use mini_rtos_sim.Sync.Mutexes.{lock-IsOwned, unlock-IsOwned}
use mini_rtos_sim.Run.Sound.{
  IsSound, kernel-IsSound, mutex-IsSound, queue-IsSound, event-IsSound, timer-IsSound, pool-IsSound,
}

-- The calls that read the fields of `rtos_current_task()`.
abbrev pub needs_task : Op → Bool
needs_task (sem_wait s) = true
needs_task (mutex_lock m) = true
needs_task (mutex_unlock m) = true
needs_task (queue_send q v) = true
needs_task (queue_receive q) = true
needs_task _ = false

-- A program that makes none of them, on any path: fit for a callback.
abbrev pub Outside : Program → Type 0
Outside done = Unit
Outside (call op next) = (needs_task op ≡ false) × ((r : Reply) → Outside (next r))

-- It returns, with progress of the kernel, and all objects well formed.
abbrev pub Returned : World → Option (Reply × World) → Type 0
Returned w r = (x : Reply × World) × (r ≡ some x) × Progress w.kernel x.1.kernel × IsSound x.1

abbrev pub Ended : World → Option World → Type 0
Ended w r = (w' : World) × (r ≡ some w') × Progress w.kernel w'.kernel × IsSound w'

put_event-Progress :
    (k : Kernel) (w : World) (e : ℕ) (ef : Option EventFlags)
    → Progress k w.kernel
    → Progress k (put_event w e ef).kernel
put_event-Progress k w e none p = p
put_event-Progress k w e (some ef) p = p

module _ (image : Image) where
  pub exec_op-Returned :
      (op : Op) (w : World)
      → IsValid w.kernel
      → IsSound w
      → (needs_task op ≡ false) ⊎ InTask w.kernel
      → Returned w (exec_op image op w)
  unfolding exec_op
  exec_op-Returned (create_task name priority f) w v s t =
      let p = create_task-Progress name priority (suc f) (omega arith) v in
      (_, refl, p, kernel-IsSound w p s)
  exec_op-Returned (task_sleep ticks) w v s t =
      let p = task_sleep-Progress ticks v in (_, refl, p, kernel-IsSound w p s)
  exec_op-Returned (suspend_task id) w v s t =
      let p = suspend_task-Progress id v in (_, refl, p, kernel-IsSound w p s)
  exec_op-Returned (resume_task id) w v s t =
      let p = resume_task-Progress id v in (_, refl, p, kernel-IsSound w p s)
  exec_op-Returned (get_task_state id) w v s t = (_, refl, Progress-refl v, s)
  exec_op-Returned ready_count w v s t = (_, refl, Progress-refl v, s)
  exec_op-Returned (sem_wait x) w v s (inl h) = absurd (ground arith)
  exec_op-Returned (sem_wait x) w v s (inr t) =
      let (r, e, p) = sem_wait-Returns v (w.semaphores x) t in
      (_, bind-some _ r e, p, kernel-IsSound w p s)
  exec_op-Returned (sem_signal x) w v s t =
      let (r, e, p) = sem_signal-Returns v (w.semaphores x) in
      (_, bind-some _ r e, p, kernel-IsSound w p s)
  exec_op-Returned (mutex_lock m) w v s (inl h) = absurd (ground arith)
  exec_op-Returned (mutex_lock m) w v s (inr t) =
      let (r, e, p) = mutex_lock-Returns v (w.mutexes m) t in
      (
        _,
        bind-some _ r e,
        p,
        mutex-IsSound w p s m r.1 (lock-IsOwned (w.mutexes m) v t (s.owned m) r e),
      )
  exec_op-Returned (mutex_unlock m) w v s (inl h) = absurd (ground arith)
  exec_op-Returned (mutex_unlock m) w v s (inr t) =
      let (r, e, p) = mutex_unlock-Returns v (w.mutexes m) t in
      (
        _,
        bind-some _ r e,
        p,
        mutex-IsSound w p s m r.0 (unlock-IsOwned (w.mutexes m) v t (s.owned m) r e),
      )
  exec_op-Returned (queue_send q x) w v s (inl h) = absurd (ground arith)
  exec_op-Returned (queue_send q x) w v s (inr t) =
      let (r, e, p, ring) = queue_send-Returns v (w.queues q) x t in
      (_, bind-some _ r e, p, queue-IsSound w p s q r.1 ring)
  exec_op-Returned (queue_receive q) w v s (inl h) = absurd (ground arith)
  exec_op-Returned (queue_receive q) w v s (inr t) =
      let (r, e, p, ring) = queue_receive-Returns v (w.queues q) t in
      (_, bind-some _ r e, p, queue-IsSound w p s q r.1 ring)
  exec_op-Returned (event_set e mask) w v s t =
      let ef = w.events e in
      let (ef', k) = event_flags_set (some ef) mask w.kernel in
      let p = event_set-Progress ef mask v in
      (
        _,
        refl,
        put_event-Progress w.kernel (record w { kernel = k }) e ef' p,
        event-IsSound (record w { kernel = k }) e ef' (kernel-IsSound w p s)
            (event_set-IsGroup mask k.task_count ef w.kernel
              (IsGroup-mono w.kernel.task_count k.task_count ef p.count_le (s.groups e))),
      )
  exec_op-Returned (event_clear e mask) w v s t =
      let ef' = event_flags_clear (some (w.events e)) mask in
      (
        _,
        refl,
        put_event-Progress w.kernel w e ef' (Progress-refl v),
        event-IsSound w e ef' s
            (event_clear-IsGroup mask w.kernel.task_count (w.events e) (s.groups e)),
      )
  exec_op-Returned (event_wait e mask) w v s t =
      let ef = w.events e in
      let (ok, ef', k) = event_flags_wait (some ef) mask w.kernel in
      let p = event_wait-Progress ef mask v in
      (
        _,
        refl,
        put_event-Progress w.kernel (record w { kernel = k }) e ef' p,
        event-IsSound (record w { kernel = k }) e ef' (kernel-IsSound w p s)
            (Behind-mono w.kernel.task_count k.task_count ef' p.count_le
              (event_wait-IsGroup mask ef v (s.groups e))),
      )
  exec_op-Returned (event_get e) w v s t = (_, refl, Progress-refl v, s)
  exec_op-Returned (soft_create n m p c a) w v s t =
      (_, refl, Progress-refl v, timer-IsSound w _ s (create-AreTimers w.timer s.timers n m p c a))
  exec_op-Returned (soft_start x) w v s t =
      (_, refl, Progress-refl v, timer-IsSound w _ s (start-AreTimers w.timer s.timers x))
  exec_op-Returned (soft_stop x) w v s t =
      (_, refl, Progress-refl v, timer-IsSound w _ s (stop-AreTimers w.timer s.timers x))
  exec_op-Returned (soft_delete x) w v s t =
      (_, refl, Progress-refl v, timer-IsSound w _ s (delete-AreTimers w.timer s.timers x))
  exec_op-Returned mem_alloc w v s t =
      let (xs, f) = s.blocks in
      (_, refl, Progress-refl v, pool-IsSound w _ s (alloc-IsPool image.pool_base w.pool xs f))
  exec_op-Returned (mem_free ptr) w v s t = (
    _,
    refl,
    Progress-refl v,
    pool-IsSound w _ s (free-IsPool image.pool_base w.pool ptr s.blocks),
  )
  exec_op-Returned now w v s t = (_, refl, Progress-refl v, s)
  exec_op-Returned (read_variable x) w v s t = (_, refl, Progress-refl v, s)
  exec_op-Returned (write_variable x y) w v s t = (_, refl, Progress-refl v, s)

  -- From a valid kernel with a current task, and well-formed objects, the code of a task runs
  -- to its end without a fault, whatever calls of `Op` it makes; the kernel stays valid and
  -- keeps its current task, tasks are only added, priorities and contexts stay, no task becomes
  -- RUNNING, and the objects stay well formed.
  pub exec-Ended :
      (p : Program) (w : World)
      → IsValid w.kernel
      → IsSound w
      → InTask w.kernel
      → Ended w (exec image p w)
  unfolding exec
  exec-Ended done w v s t = (w, refl, Progress-refl v, s)
  exec-Ended (call op next) w v s t =
      let (r, e, p, s1) = exec_op-Returned op w v s (inr t) in
      let (w', e', p', s') = exec-Ended (next r.0) r.1 p.valid s1 (Progress-InTask p t) in
      (w', rw e e', Progress-trans p p', s')

  -- So does code that calls nothing which needs a current task, also where there is none.
  pub exec-Outside-Ended :
      (p : Program) (w : World)
      → IsValid w.kernel
      → IsSound w
      → Outside p
      → Ended w (exec image p w)
  unfolding exec
  exec-Outside-Ended done w v s o = (w, refl, Progress-refl v, s)
  exec-Outside-Ended (call op next) w v s o =
      let (r, e, p, s1) = exec_op-Returned op w v s (inl o.0) in
      let (w', e', p', s') = exec-Outside-Ended (next r.0) r.1 p.valid s1 (o.1 r.0) in
      (w', rw e e', Progress-trans p p', s')
