-- ===== src/Run/Exec.antt =====
-- The interpreter of calls and programs. `none` is a fault: a NULL pointer was read.
use mini_rtos_sim.Base.{suc, minus_one, ℤ, set, pos, ℕ, Bool, true, false, Option, none, some}
use mini_rtos_sim.Task.{TaskState, ready, running, blocked, suspended}
use mini_rtos_sim.Tasks.{
  rtos_create_task, rtos_task_sleep, rtos_suspend_task, rtos_resume_task, rtos_get_task_state,
  rtos_ready_count,
}
use mini_rtos_sim.Sync.{◌>>=◌, rtos_sem_wait, rtos_sem_signal, rtos_mutex_lock, rtos_mutex_unlock}
use mini_rtos_sim.MessageQueue.{rtos_queue_send, rtos_queue_receive}
use mini_rtos_sim.Event.{
  EventFlags, event_flags_set, event_flags_clear, event_flags_wait, event_flags_get,
}
use mini_rtos_sim.Memory.{memory_alloc, memory_free}
use mini_rtos_sim.Timer.{
  timer_now, timer_soft_create, timer_soft_start, timer_soft_stop, timer_soft_delete,
}
use mini_rtos_sim.Run.{
  World, Op, Reply, Program, Image, create_task, task_sleep, suspend_task, resume_task,
  get_task_state, ready_count, sem_wait, sem_signal, mutex_lock, mutex_unlock, queue_send,
  queue_receive, event_set, event_clear, event_wait, event_get, soft_create, soft_start, soft_stop,
  soft_delete, mem_alloc, mem_free, now, read_variable, write_variable, done, call,
}

abbrev pub reply : Bool → ℤ → Reply
reply ok value = record { ok = ok; value = value }

abbrev pub nothing : Reply
nothing = reply true (pos 0)

abbrev pub state_code : TaskState → ℕ
state_code ready = 0
state_code running = 1
state_code blocked = 2
state_code suspended = 3

-- The received value, or the 0 that the callers of main.c initialise their variable with.
abbrev pub or_zero : Option ℤ → ℤ
or_zero none = pos 0
or_zero (some v) = v

abbrev pub is_some {ℓ} : {A : Type ℓ} → Option A → Bool
is_some none = false
is_some (some a) = true

abbrev pub slot_code : Option ℕ → ℤ
slot_code none = minus_one
slot_code (some i) = pos i

abbrev pub put_event : World → ℕ → Option EventFlags → World
put_event w e none = w
put_event w e (some ef) = record w { events = set w.events e ef }

module _ (image : Image) where
  unfoldable pub exec_op : Op → World → Option (Reply × World)
  exec_op (create_task name priority f) w =
      let (id, k) = rtos_create_task name priority (suc f) w.kernel in
      some (reply true id, record w { kernel = k })
  exec_op (task_sleep ticks) w =
      some (nothing, record w { kernel = rtos_task_sleep ticks w.kernel })
  exec_op (suspend_task id) w =
      let (ok, k) = rtos_suspend_task id w.kernel in
      some (reply ok (pos 0), record w { kernel = k })
  exec_op (resume_task id) w =
      let (ok, k) = rtos_resume_task id w.kernel in some (reply ok (pos 0), record w { kernel = k })
  exec_op (get_task_state id) w =
      some (reply true (pos (state_code (rtos_get_task_state id w.kernel))), w)
  exec_op ready_count w = some (reply true (pos (rtos_ready_count w.kernel)), w)
  exec_op (sem_wait s) w = do
    (ok, sem, k) ← rtos_sem_wait (w.semaphores s) w.kernel
    some (reply ok (pos 0), record w { kernel = k; semaphores = set w.semaphores s sem })
  exec_op (sem_signal s) w = do
    (sem, k) ← rtos_sem_signal (w.semaphores s) w.kernel
    some (nothing, record w { kernel = k; semaphores = set w.semaphores s sem })
  exec_op (mutex_lock m) w = do
    (ok, mutex, k) ← rtos_mutex_lock (w.mutexes m) w.kernel
    some (reply ok (pos 0), record w { kernel = k; mutexes = set w.mutexes m mutex })
  exec_op (mutex_unlock m) w = do
    (mutex, k) ← rtos_mutex_unlock (w.mutexes m) w.kernel
    some (nothing, record w { kernel = k; mutexes = set w.mutexes m mutex })
  exec_op (queue_send q v) w = do
    (ok, queue, k) ← rtos_queue_send (w.queues q) v w.kernel
    some (reply ok (pos 0), record w { kernel = k; queues = set w.queues q queue })
  exec_op (queue_receive q) w = do
    (v, queue, k) ← rtos_queue_receive (w.queues q) w.kernel
    some (reply (is_some v) (or_zero v), record w { kernel = k; queues = set w.queues q queue })
  exec_op (event_set e mask) w =
      let (ef, k) = event_flags_set (some (w.events e)) mask w.kernel in
      some (nothing, put_event (record w { kernel = k }) e ef)
  exec_op (event_clear e mask) w =
      some (nothing, put_event w e (event_flags_clear (some (w.events e)) mask))
  exec_op (event_wait e mask) w =
      let (ok, ef, k) = event_flags_wait (some (w.events e)) mask w.kernel in
      some (reply ok (pos 0), put_event (record w { kernel = k }) e ef)
  exec_op (event_get e) w = some (reply true (pos (event_flags_get (some (w.events e)))), w)
  exec_op (soft_create name mode period callback arg) w =
      let (slot, timer) = timer_soft_create name mode period callback arg w.timer in
      some (reply (is_some slot) (slot_code slot), record w { timer = timer })
  exec_op (soft_start t) w = some (nothing, record w { timer = timer_soft_start t w.timer })
  exec_op (soft_stop t) w = some (nothing, record w { timer = timer_soft_stop t w.timer })
  exec_op (soft_delete t) w = some (nothing, record w { timer = timer_soft_delete t w.timer })
  exec_op mem_alloc w =
      let (ptr, pool) = memory_alloc image.pool_base w.pool in
      some (reply true (pos ptr), record w { pool = pool })
  exec_op (mem_free ptr) w =
      some (nothing, record w { pool = memory_free image.pool_base ptr w.pool })
  exec_op now w = some (reply true (pos (timer_now w.timer)), w)
  exec_op (read_variable x) w = some (reply true (w.variables x), w)
  exec_op (write_variable x v) w = some (nothing, record w { variables = set w.variables x v })

  unfoldable pub exec : Program → World → Option World
  exec done w = some w
  exec (call op next) w = exec_op op w >>= λ r. exec (next r.0) r.1
