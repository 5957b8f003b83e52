-- ===== src/Task.antt =====
-- include/rtos.h: the task control block and its states. The task's `context` field stands in the
-- store of `Context`, under the task's index.
use Prim.Native.String.{String}
use mini_rtos_sim.Base.{ℕ, ◌/◌, Bool, true, false, ℤ}

pub data TaskState : Type 0 where
  ready running blocked suspended : TaskState

pub data BlockReason : Type 0 where
  block_none block_sleep block_semaphore block_mutex : BlockReason
  block_queue_empty block_queue_full block_event : BlockReason

abbrev pub is_ready : TaskState → Bool
is_ready ready = true
is_ready _ = false

abbrev pub is_running : TaskState → Bool
is_running running = true
is_running _ = false

abbrev pub is_blocked : TaskState → Bool
is_blocked blocked = true
is_blocked _ = false

abbrev pub is_suspended : TaskState → Bool
is_suspended suspended = true
is_suspended _ = false

abbrev pub reason_code : BlockReason → ℕ
reason_code block_none = 0
reason_code block_sleep = 1
reason_code block_semaphore = 2
reason_code block_mutex = 3
reason_code block_queue_empty = 4
reason_code block_queue_full = 5
reason_code block_event = 6

abbrev pub max_tasks : ℕ
max_tasks = 8

abbrev pub queue_size : ℕ
queue_size = 10

abbrev pub stack_size : ℕ
stack_size = 256

-- `sizeof(uintptr_t)` on a 64-bit host
abbrev pub stack_words : ℕ
stack_words = stack_size / 8

abbrev pub time_slice_ticks : ℕ
time_slice_ticks = 1

-- `stack_pointer` is an index into `stack_memory`; `task_function` is the address of the code.
pub record Tcb : Type 0 where
  pub task_id : ℕ
  pub priority : ℤ
  pub state : TaskState
  pub block_reason : BlockReason
  pub sleep_ticks : ℤ
  pub stack_memory : ℕ → ℕ
  pub stack_bytes : ℕ
  pub stack_pointer : ℕ
  pub task_function : ℕ
  pub name : String
  pub slice_ticks_used : ℕ
