-- ===== src/Run.antt =====
-- The whole simulator: every module's state, task code as sequences of kernel calls, and the
-- interpreter that `task_function()` and `callback(arg)` stand for.
pub mod Exec
pub mod Sound
pub mod Total
pub mod Errors
pub mod Frame
pub mod Others
pub mod Isolation
pub mod Tireless
use mini_rtos_sim.Base.{ℤ, ℕ, Bool, Option}
use Prim.Native.String.{String}
use mini_rtos_sim.Kernel.{Kernel}
use mini_rtos_sim.Sync.{Semaphore, Mutex}
use mini_rtos_sim.MessageQueue.{MessageQueue}
use mini_rtos_sim.Event.{EventFlags}
use mini_rtos_sim.Memory.{Pool}
use mini_rtos_sim.Timer.{Timer, TimerMode}

-- The static objects of the application are numbered: semaphores, mutexes, queues, event groups,
-- and `int` variables.
pub record World : Type 0 where
  pub kernel : Kernel
  pub timer : Timer
  pub pool : Pool
  pub semaphores : ℕ → Semaphore
  pub mutexes : ℕ → Mutex
  pub queues : ℕ → MessageQueue
  pub events : ℕ → EventFlags
  pub variables : ℕ → ℤ

-- A call by the code of a task or of a timer callback. The objects exist, so no pointer to a
-- semaphore, mutex, queue or event group is NULL; the function of a created task stands at the
-- address after the given number, so it is not NULL either. Initialisers, `rtos_run` and the kernel's
-- own functions are not called from there.
pub data Op : Type 0 where
  create_task : String → ℤ → ℕ → Op
  task_sleep : ℤ → Op
  suspend_task : ℤ → Op
  resume_task : ℤ → Op
  get_task_state : ℤ → Op
  ready_count : Op
  sem_wait : ℕ → Op
  sem_signal : ℕ → Op
  mutex_lock : ℕ → Op
  mutex_unlock : ℕ → Op
  queue_send : ℕ → ℤ → Op
  queue_receive : ℕ → Op
  event_set : ℕ → ℕ → Op
  event_clear : ℕ → ℕ → Op
  event_wait : ℕ → ℕ → Op
  event_get : ℕ → Op
  soft_create : Option String → TimerMode → ℕ → ℕ → ℕ → Op
  soft_start : Option ℕ → Op
  soft_stop : Option ℕ → Op
  soft_delete : Option ℕ → Op
  mem_alloc : Op
  mem_free : ℕ → Op
  now : Op
  read_variable : ℕ → Op
  write_variable : ℕ → ℤ → Op

-- What a call returns: a Boolean, and a number or the value behind an out-parameter.
pub record Reply : Type 0 where
  pub ok : Bool
  pub value : ℤ

-- Code that runs to completion: it makes calls and branches on what they return.
pub data Program : Type 0 where
  done : Program
  call : Op → (Reply → Program) → Program

-- The program image: the code at each address, for task functions and for callbacks with their
-- argument; and the address of the block pool.
pub record Image : Type 0 where
  pub task_code : ℕ → Program
  pub callback_code : ℕ → ℕ → Program
  pub pool_base : ℕ
