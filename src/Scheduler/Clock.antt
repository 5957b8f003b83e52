-- ===== src/Scheduler/Clock.antt =====
-- The kernel's clock over a run: only the tick of a cycle moves it.
use mini_rtos_sim.Base.{
  ◌==◌, Bool-cases, ℕ, ◌+◌, ◌%◌, ◌^◌, ◌<◌, ◌≡◌, refl, ◌∙◌, inl, inr, Option, none, some, arith,
}
use Prim.Native.String.{String}
use mini_rtos_sim.Timer.{
  Timer, TimerMode, SoftTimer, soft_timer_count, timer_now, timer_tick, timer_soft_create,
  timer_soft_start, timer_soft_stop, timer_soft_delete,
}
use mini_rtos_sim.Timer.Claim.{Claimed, exhausted, claimed, loop-Claimed}
use mini_rtos_sim.MessageQueue.{rtos_queue_send, rtos_queue_receive}
use mini_rtos_sim.Event.{EventFlags, event_flags_set, event_flags_clear, event_flags_wait}
use mini_rtos_sim.Run.{
  World, Op, Reply, Program, Image, create_task, task_sleep, suspend_task, resume_task,
  get_task_state, ready_count, sem_wait, sem_signal, mutex_lock, mutex_unlock, queue_send,
  queue_receive, event_set, event_clear, event_wait, event_get, soft_create, soft_start, soft_stop,
  soft_delete, mem_alloc, mem_free, now, read_variable, write_variable, done, call,
}
use mini_rtos_sim.Run.Exec.{exec_op, exec, put_event}
use mini_rtos_sim.Scheduler.{rtos_run}
use mini_rtos_sim.Scheduler.Soft.{QuietCallbacks}
use mini_rtos_sim.Scheduler.Dispatch.{Rests}
use mini_rtos_sim.Scheduler.Preserve.{IsKept, rtos_run_keeps}
use mini_rtos_sim.Sync.{
  ◌>>=◌, Holds, rtos_sem_wait, rtos_sem_signal, rtos_mutex_lock, rtos_mutex_unlock, Holds-any,
  Holds-bind,
}

Claimed-tick :
    {t : SoftTimer} {timer : Timer} {i n : ℕ} {r : Option ℕ × Timer}
    → Claimed t timer i n r
    → r.1.kernel_tick ≡ timer.kernel_tick
Claimed-tick (exhausted used) = refl
Claimed-tick (claimed s p q free before) = refl

create-tick :
    (name : Option String) (mode : TimerMode) (period callback arg : ℕ) (timer : Timer)
    → (timer_soft_create name mode period callback arg timer).1.kernel_tick ≡ timer.kernel_tick
unfolding timer_soft_create
create-tick name mode period callback arg timer = elim (Bool-cases (callback == 0)) [
  | inl e ↦ rw e refl
  | inr c ↦ elim (Bool-cases (period == 0)) [
    | inl e ↦ rw (c, e) refl
    | inr p ↦ rw (c, p) (Claimed-tick (loop-Claimed soft_timer_count 0 _ timer))
  ]
]

slot-tick :
    (s : Option ℕ) (timer : Timer)
    → ((timer_soft_start s timer).kernel_tick ≡ timer.kernel_tick)
      × ((timer_soft_stop s timer).kernel_tick ≡ timer.kernel_tick)
      × ((timer_soft_delete s timer).kernel_tick ≡ timer.kernel_tick)
unfolding timer_soft_start timer_soft_stop timer_soft_delete
slot-tick none timer = (refl, refl, refl)
slot-tick (some i) timer = elim (Bool-cases (timer.soft_timers i).in_use) [
  | inl e ↦ rw e (refl, refl, refl)
  | inr e ↦ rw e (refl, refl, refl)
]

event-tick :
    (w : World) (e : ℕ) (ef : Option EventFlags)
    → (put_event w e ef).timer.kernel_tick ≡ w.timer.kernel_tick
event-tick w e none = refl
event-tick w e (some ef) = refl

module _ (image : Image) where
  abbrev Still : World → Reply × World → Type 0
  Still w x = x.1.timer.kernel_tick ≡ w.timer.kernel_tick

  -- A call on an object that changes no timer.
  untimed :
      {A : Type 0} (w : World) (m : Option A) (f : A → Option (Reply × World))
      → ((a : A) → Holds (Still w) (f a))
      → Holds (Still w) (m >>= f)
  untimed {A} w m f h =
      Holds-bind (Still w) m f (Holds-any (λ (a : A). Unit) (λ a. _) m) (λ a u. h a)

  exec_op-tick : (op : Op) (w : World) → Holds (Still w) (exec_op image op w)
  unfolding exec_op
  exec_op-tick (create_task name priority f) w = refl
  exec_op-tick (task_sleep ticks) w = refl
  exec_op-tick (suspend_task id) w = refl
  exec_op-tick (resume_task id) w = refl
  exec_op-tick (get_task_state id) w = refl
  exec_op-tick ready_count w = refl
  exec_op-tick (sem_wait s) w = untimed w (rtos_sem_wait (w.semaphores s) w.kernel) _ (λ a. refl)
  exec_op-tick (sem_signal s) w =
      untimed w (rtos_sem_signal (w.semaphores s) w.kernel) _ (λ a. refl)
  exec_op-tick (mutex_lock m) w = untimed w (rtos_mutex_lock (w.mutexes m) w.kernel) _ (λ a. refl)
  exec_op-tick (mutex_unlock m) w =
      untimed w (rtos_mutex_unlock (w.mutexes m) w.kernel) _ (λ a. refl)
  exec_op-tick (queue_send q v) w =
      untimed w (rtos_queue_send (w.queues q) v w.kernel) _ (λ a. refl)
  exec_op-tick (queue_receive q) w =
      untimed w (rtos_queue_receive (w.queues q) w.kernel) _ (λ a. refl)
  exec_op-tick (event_set e mask) w =
      event-tick _ e (event_flags_set (some (w.events e)) mask w.kernel).0
  exec_op-tick (event_clear e mask) w = event-tick w e (event_flags_clear (some (w.events e)) mask)
  exec_op-tick (event_wait e mask) w =
      event-tick _ e (event_flags_wait (some (w.events e)) mask w.kernel).1
  exec_op-tick (event_get e) w = refl
  exec_op-tick (soft_create n m p c a) w = create-tick n m p c a w.timer
  exec_op-tick (soft_start t) w = (slot-tick t w.timer).0
  exec_op-tick (soft_stop t) w = (slot-tick t w.timer).1
  exec_op-tick (soft_delete t) w = (slot-tick t w.timer).2
  exec_op-tick mem_alloc w = refl
  exec_op-tick (mem_free ptr) w = refl
  exec_op-tick now w = refl
  exec_op-tick (read_variable x) w = refl
  exec_op-tick (write_variable x v) w = refl

  exec-tick :
      (p : Program) (c : ℕ) (w : World)
      → w.timer.kernel_tick ≡ c
      → Holds (λ w'. w'.timer.kernel_tick ≡ c) (exec image p w)
  unfolding exec
  exec-tick done c w e = e
  exec-tick (call op next) c w e =
      Holds-bind (λ w'. w'.timer.kernel_tick ≡ c) (exec_op image op w) _ (exec_op-tick op w)
        λ x h. exec-tick (next x.0) c x.1 (h ∙ e)

  -- The clock `n` ticks after `start`.
  abbrev Clock : ℕ → ℕ → World → Type 0
  Clock start n w = w.timer.kernel_tick ≡ (start + n) % 2 ^ 32

  Clock-IsKept : (start : ℕ) → IsKept image (Clock start)
  unfolding timer_tick
  Clock-IsKept start = record {
    stable = λ n w k e. e;
    slots = λ n w s t e. e;
    tick = λ n w e. omega (arith, e);
    tasks = λ f n w e. exec-tick (image.task_code f) _ w e;
    callbacks = λ callback arg n w e. exec-tick (image.callback_code callback arg) _ w e;
  }

  -- From a world at rest (`Rests`: also no task's function is NULL), and for callbacks that
  -- make no call that needs a current task, a run of `ticks` ticks returns and moves the 32-bit
  -- clock that `timer_now` reads by just as many, modulo 2^32, whatever calls of `Op` the tasks
  -- and callbacks make otherwise.
  pub clock_exact :
      QuietCallbacks image
      → (ticks : ℕ) (w : World) → Rests w
      → timer_now w.timer < 2 ^ 32
      → (w' : World) × (rtos_run image ticks w ≡ some w')
        × (timer_now w'.timer ≡ (timer_now w.timer + ticks) % 2 ^ 32)
  unfolding timer_now
  clock_exact quiet ticks w r h =
      let start = w.timer.kernel_tick in
      let (w', e, rests, moved) =
        rtos_run_keeps (Clock-IsKept start) ticks 0 w quiet r (omega (arith, h)) in
      (w', e, omega (arith, moved))
