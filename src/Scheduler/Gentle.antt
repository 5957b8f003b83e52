-- ===== src/Scheduler/Gentle.antt =====
-- Programs whose calls spare every sleeping task.
use mini_rtos_sim.Base.{
  pos, ℕ, suc, ◌-◌, ◌≤◌, ◌<◌, ◌≡◌, refl, sym, ap, ◌∙◌, subst, ◌≢◌, inr, Bool, true, false, some,
  arith,
}
use mini_rtos_sim.Task.{
  Tcb, BlockReason, block_sleep, block_semaphore, block_mutex, block_queue_full, block_queue_empty,
}
use mini_rtos_sim.Kernel.{Kernel, waits_for, same_reason}
use mini_rtos_sim.Kernel.Invariant.{IsValid}
use mini_rtos_sim.Kernel.Progress.{InTask, Progress-InTask}
use mini_rtos_sim.Sync.{
  ◌>>=◌, Holds, Holds-bind, Holds-map, rtos_sem_wait, rtos_sem_signal, rtos_mutex_lock,
  rtos_mutex_unlock,
}
use mini_rtos_sim.MessageQueue.{rtos_queue_send, rtos_queue_receive}
use mini_rtos_sim.Event.{event_flags_clear, event_flags_wait}
use mini_rtos_sim.Run.{
  World, Op, Reply, Program, Image, create_task, task_sleep, suspend_task, resume_task,
  get_task_state, ready_count, sem_wait, sem_signal, mutex_lock, mutex_unlock, queue_send,
  queue_receive, event_set, event_clear, event_wait, event_get, soft_create, soft_start, soft_stop,
  soft_delete, mem_alloc, mem_free, now, read_variable, write_variable, done, call,
}
use mini_rtos_sim.Run.Exec.{exec_op, exec}
use mini_rtos_sim.Run.Sound.{IsSound}
use mini_rtos_sim.Run.Total.{exec_op-Returned}
use mini_rtos_sim.Run.Frame.{
  Alone, sem_wait-other, sem_signal-other, mutex_lock-other, mutex_unlock-other, queue_send-other,
  queue_receive-other,
}
use mini_rtos_sim.Run.Others.{task_sleep-other, event_wait-other, put-kernel, put-timer}
use mini_rtos_sim.Scheduler.{scheduler_run}
use mini_rtos_sim.Scheduler.Soft.{QuietCallbacks}
use mini_rtos_sim.Scheduler.Dispatch.{Rests}
use mini_rtos_sim.Scheduler.Deadline.{Awaits, wakes_on_time}
use mini_rtos_sim.Scheduler.Bystander.{Spares, Spared, Spared-refl, Spared-trans, core}

-- A call that creates no task, changes no software timer, and can wake no sleeper.
abbrev pub gentle : Op → Bool
gentle (create_task name priority f) = false
gentle (suspend_task id) = false
gentle (resume_task id) = false
gentle (event_set e mask) = false
gentle (soft_create n m p c a) = false
gentle (soft_start s) = false
gentle (soft_stop s) = false
gentle (soft_delete s) = false
gentle _ = true

-- A program of such calls, on every path.
abbrev pub Gentle : Program → Type 0
Gentle done = Unit
Gentle (call op next) = (gentle op ≡ true) × ((r : Reply) → Gentle (next r))

-- Who sleeps waits for nothing else.
pub sleeper_only :
    (t : Tcb) (reason : BlockReason)
    → waits_for block_sleep t ≡ true
    → same_reason block_sleep reason ≡ false
    → waits_for reason t ≡ false
unfolding waits_for
sleeper_only t reason e ne = ground (arith, e, ne)

module _ (image : Image) (w : World) (i : ℕ) (v : IsValid w.kernel) (h : i < w.kernel.task_count)
    (ne : w.kernel.current_task_index ≢ pos i)
    (asleep : waits_for block_sleep (w.kernel.tasks i) ≡ true) where
  abbrev Calm : Reply × World → Type 0
  Calm x = Alone i w.kernel x.1.kernel × (x.1.timer ≡ w.timer)

  gentle-Calm : (op : Op) → gentle op ≡ true → Holds Calm (exec_op image op w)
  unfolding exec_op
  gentle-Calm (create_task name priority f) g = absurd (cc g)
  gentle-Calm (task_sleep ticks) g = (task_sleep-other v i h ticks ne, refl)
  gentle-Calm (suspend_task id) g = absurd (cc g)
  gentle-Calm (resume_task id) g = absurd (cc g)
  gentle-Calm (get_task_state id) g = ((refl, refl), refl)
  gentle-Calm ready_count g = ((refl, refl), refl)
  gentle-Calm (sem_wait s) g =
      Holds-bind Calm (rtos_sem_wait (w.semaphores s) w.kernel) _
        (sem_wait-other v i h (w.semaphores s) ne) λ x e. (e, refl)
  gentle-Calm (sem_signal s) g =
      Holds-bind Calm (rtos_sem_signal (w.semaphores s) w.kernel) _
        (sem_signal-other v i h (w.semaphores s) (sleeper_only _ block_semaphore asleep refl))
        λ x e. (e, refl)
  gentle-Calm (mutex_lock m) g =
      Holds-bind Calm (rtos_mutex_lock (w.mutexes m) w.kernel) _
        (mutex_lock-other v i h (w.mutexes m) ne) λ x e. (e, refl)
  gentle-Calm (mutex_unlock m) g =
      Holds-bind Calm (rtos_mutex_unlock (w.mutexes m) w.kernel) _
        (mutex_unlock-other v i h (w.mutexes m) (sleeper_only _ block_mutex asleep refl))
        λ x e. (e, refl)
  gentle-Calm (queue_send q x) g =
      Holds-bind Calm (rtos_queue_send (w.queues q) x w.kernel) _
        (queue_send-other v i h (w.queues q) x ne (sleeper_only _ block_queue_empty asleep refl))
        λ x e. (e, refl)
  gentle-Calm (queue_receive q) g =
      Holds-bind Calm (rtos_queue_receive (w.queues q) w.kernel) _
        (queue_receive-other v i h (w.queues q) ne (sleeper_only _ block_queue_full asleep refl))
        λ x e. (e, refl)
  gentle-Calm (event_set e mask) g = absurd (cc g)
  gentle-Calm (event_clear e mask) g =
      let same = put-kernel w e (event_flags_clear (some (w.events e)) mask) in
      (
        (ap (λ (k : Kernel). k.tasks i) same, ap (λ (k : Kernel). k.task_count) same),
        put-timer w e (event_flags_clear (some (w.events e)) mask),
      )
  gentle-Calm (event_wait e mask) g =
      let r = event_flags_wait (some (w.events e)) mask w.kernel in
      let same = put-kernel (record w { kernel = r.2 }) e r.1 in
      let alone = event_wait-other mask i (w.events e) v h ne in
      (
        (
          ap (λ (k : Kernel). k.tasks i) same ∙ alone.0,
          ap (λ (k : Kernel). k.task_count) same ∙ alone.1,
        ),
        put-timer (record w { kernel = r.2 }) e r.1,
      )
  gentle-Calm (event_get e) g = ((refl, refl), refl)
  gentle-Calm (soft_create n m p c a) g = absurd (cc g)
  gentle-Calm (soft_start s) g = absurd (cc g)
  gentle-Calm (soft_stop s) g = absurd (cc g)
  gentle-Calm (soft_delete s) g = absurd (cc g)
  gentle-Calm mem_alloc g = ((refl, refl), refl)
  gentle-Calm (mem_free ptr) g = ((refl, refl), refl)
  gentle-Calm now g = ((refl, refl), refl)
  gentle-Calm (read_variable x) g = ((refl, refl), refl)
  gentle-Calm (write_variable x y) g = ((refl, refl), refl)

module _ (image : Image) (i : ℕ) where
  Gentle-Spared :
      (p : Program) (w : World)
      → Gentle p
      → IsValid w.kernel
      → IsSound w
      → InTask w.kernel
      → i < w.kernel.task_count
      → w.kernel.current_task_index ≢ pos i
      → waits_for block_sleep (w.kernel.tasks i) ≡ true
      → Holds (Spared i w) (exec image p w)
  unfolding exec
  Gentle-Spared done w g v s t h ne asleep = Spared-refl i w
  Gentle-Spared (call op next) w (g, rest) v s t h ne asleep =
      let (x, e, p, s') = exec_op-Returned image op w v s (inr t) in
      let (alone, timer) =
        subst (Holds (Calm image w i v h ne asleep)) e (gentle-Calm image w i v h ne asleep op g) in
      let step : Spared i w x.1 = record {
        task = ap core alone.0;
        count = alone.1;
        priority = p.priority;
        timer = timer;
      } in
      let later =
        Gentle-Spared (next x.0) x.1 (rest x.0) p.valid s' (Progress-InTask p t)
          (omega (arith, p.count_le)) (λ q. ne (sym p.current ∙ q))
          (ap (waits_for block_sleep) alone.0 ∙ asleep) in
      subst (λ r. Holds (Spared i w) (r >>= λ y. exec image (next y.0) y.1)) (sym e)
        (Holds-map (Spared i x.1) (Spared i w) (exec image (next x.0) x.1)
          (λ w' q. Spared-trans i w x.1 w' step q) later)

  -- It suffices that the code of tasks is gentle.
  pub Gentle-Spares : ((f : ℕ) → Gentle (image.task_code f)) → Spares image i
  Gentle-Spares all f w v s t h ne asleep =
      Gentle-Spared (image.task_code f) w (all f) v s t h ne asleep

-- Real time: let a world rest (`Rests`: also no task's function is NULL), where the task `i`
-- sleeps for `n + 1` ticks, every other task has a lower priority, and no software timer is
-- armed. Let the code of tasks create no task, suspend or resume none, set no event flags and
-- leave the software timers alone; it may make any other call of `Op`, and callbacks make no
-- call that needs a current task. Then for each of the next `n` ticks the scheduler runs and
-- the task still sleeps, with one tick less each time; the tick after these returns too, at
-- rest, and the task is then the current one.
pub urgent_on_time :
    (image : Image) (i n : ℕ) (w : World)
    → QuietCallbacks image
    → ((f : ℕ) → Gentle (image.task_code f))
    → Awaits i (suc n) w
    → ((m : ℕ)
        → m ≤ n
        → (w' : World) × (scheduler_run image m w ≡ some w') × Awaits i (suc n - m) w')
      × ((w' : World) × (scheduler_run image (suc n) w ≡ some w')
          × Rests w'
          × (w'.kernel.current_task_index ≡ pos i))
urgent_on_time image i n w quiet all a =
    wakes_on_time image quiet i (Gentle-Spares image i all) n w a
