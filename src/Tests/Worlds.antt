-- ===== src/Tests/Worlds.antt =====
-- Concrete states for the tests.
use mini_rtos_sim.Base.{minus_one, pos, ℕ, ◌<◌, ◌≡◌, refl, false, some, arith}
use mini_rtos_sim.Context.{context_clear}
use mini_rtos_sim.Task.{Tcb, suspended, block_none}
use mini_rtos_sim.Timer.{timer_init}
use mini_rtos_sim.Event.{free_slot}
use mini_rtos_sim.MessageQueue.{MessageQueue}
use mini_rtos_sim.Run.{World}
use mini_rtos_sim.Kernel.{Kernel, scheduler_set_task_state, rtos_current_task}
use mini_rtos_sim.Kernel.Invariant.{IsValid}
use mini_rtos_sim.Tasks.{rtos_create_task, rtos_task_sleep}
use mini_rtos_sim.Tasks.Suspend.{task_sleep_lem}
use mini_rtos_sim.Sync.Block.{as_current, as_current-IsValid}
use mini_rtos_sim.Memory.{Pool, memory_init}
use mini_rtos_sim.Boot.{rtos_init}
use mini_rtos_sim.Boot.Start.{Fresh}
use mini_rtos_sim.Scheduler.Dispatch.{Rests}
use mini_rtos_sim.Demo.{set_up}
use mini_rtos_sim.Demo.Returns.{set_up-Rests}

abbrev pub zero_tcb : Tcb
zero_tcb = record {
  task_id = 0;
  priority = pos 0;
  state = suspended;
  block_reason = block_none;
  sleep_ticks = pos 0;
  stack_memory = λ i. 0;
  stack_bytes = 0;
  stack_pointer = 0;
  task_function = 0;
  name = "";
  slice_ticks_used = 0;
}

-- The statics before `rtos_init`.
abbrev pub zero_kernel : Kernel
zero_kernel = record {
  bound = false;
  tasks = λ i. zero_tcb;
  task_count = 0;
  current_task_index = minus_one;
  queue = record { slots = λ i. 0; count = 0 };
  contexts = record { active_context = context_clear; objects = λ i. context_clear };
}

abbrev pub zero_pool : Pool
zero_pool = record {
  storage = λ i j. 0;
  allocated = λ i. 0;
  free_list_head = pos 0;
  available_blocks = pos 0;
}

abbrev pub zero_queue : MessageQueue
zero_queue = record { buffer = λ i. pos 0; front = 0; rear = 0; count = 0 }

abbrev pub zero_world : World
zero_world = record {
  kernel = zero_kernel;
  timer = record timer_init { kernel_tick = 0 };
  pool = zero_pool;
  semaphores = λ i. record { count = pos 0 };
  mutexes = λ i. record { locked = false; owner = pos 0 };
  queues = λ i. zero_queue;
  events = λ i. record { flags = 0; waiters = λ i. free_slot; waiter_count = 0 };
  variables = λ i. pos 0;
}

pub zero_world-Fresh : Fresh zero_world
zero_world-Fresh = record {
  unlocked = λ m. refl;
  rings = λ q. record { front_lt = omega arith; rear_eq = refl; count_le = omega arith };
  no_waiters = λ e. refl;
}

-- The demonstration before its first tick: three tasks, all READY.
abbrev pub ready_world : World
ready_world = set_up zero_world

pub ready_world-Rests : Rests ready_world
ready_world-Rests = set_up-Rests zero_world zero_world-Fresh

abbrev pub three : Kernel
three = ready_world.kernel

pub three-IsValid : IsValid three
three-IsValid = ready_world-Rests.valid

pub three_count : three.task_count ≡ 3
unfolding set_up rtos_init rtos_create_task scheduler_set_task_state
three_count = refl

pub below_three : (i : ℕ) → i < 3 → i < three.task_count
below_three i h = rw three_count h

-- The task 0 runs.
abbrev pub in_first : Kernel
in_first = as_current 0 three

pub in_first_lem : IsValid in_first × (rtos_current_task in_first ≡ some 0)
in_first_lem = as_current-IsValid 0 three-IsValid (below_three 0 (omega arith))

-- The task 0 sleeps for two ticks.
abbrev pub asleep : Kernel
asleep = rtos_task_sleep (pos 2) in_first

pub asleep-IsValid : IsValid asleep
asleep-IsValid = (task_sleep_lem 0 (pos 2) in_first_lem.0 in_first_lem.1).0

abbrev pub fresh_pool : Pool
fresh_pool = memory_init zero_pool
