-- ===== src/Tasks.antt =====
-- src/rtos.c, the life of a task: creation, sleep, suspension, and the queries by identifier.
pub mod Create
pub mod Suspend
pub mod Queries
pub mod Progress
use mini_rtos_sim.Base.{
  leb, if◌then◌else◌, minus_one, eqb_ℤ, ℤ, set, pos, ℕ, zero, suc, Bool, true, false, not, Option,
  none, some,
}
use Prim.Native.String.{String}
use mini_rtos_sim.Context.{object, context_init}
use mini_rtos_sim.Task.{
  Tcb, TaskState, ready, blocked, suspended, block_none, block_sleep, is_suspended, max_tasks,
  stack_size, stack_words,
}
use mini_rtos_sim.Kernel.{
  Kernel, scheduler_set_task_state, scheduler_set_current_task_state, scheduler_ready_count,
  rtos_current_task,
}

unfoldable pub index_loop : ℕ → ℕ → ℤ → (ℕ → Tcb) → Option ℕ
index_loop zero i task_id tasks = none
index_loop (suc rounds) i task_id tasks =
    if eqb_ℤ (pos (tasks i).task_id) task_id
    then some i
    else index_loop rounds (suc i) task_id tasks

-- `none` for -1.
unfoldable pub task_index_from_id : ℤ → Kernel → Option ℕ
unfolding index_loop
task_index_from_id task_id k = index_loop k.task_count 0 task_id k.tasks

unfoldable pub zero_stack : ℕ → ℕ → (ℕ → ℕ) → ℕ → ℕ
zero_stack zero i memory = memory
zero_stack (suc rounds) i memory = zero_stack rounds (suc i) (set memory i 0)

unfoldable pub init_task_stack : Tcb → Tcb
unfolding zero_stack
init_task_stack task = record task {
  stack_memory = zero_stack stack_words 0 task.stack_memory;
  stack_bytes = stack_size;
  stack_pointer = stack_words;
}

-- The task block that `rtos_create_task` writes in the slot `index`.
unfoldable pub new_task : ℕ → String → ℤ → ℕ → Tcb → Tcb
unfolding init_task_stack
new_task index name priority task_function task =
    record (init_task_stack (record task {
      task_id = suc index;
      priority = priority;
      state = suspended;
      block_reason = block_none;
      sleep_ticks = pos 0;
      slice_ticks_used = 0;
    })) { task_function = task_function; name = name }

unfoldable pub rtos_create_task : String → ℤ → ℕ → Kernel → ℤ × Kernel
unfolding new_task
rtos_create_task name priority task_function k =
    let n = k.task_count in
    let entered = record k {
      tasks = set k.tasks n (new_task n name priority task_function (k.tasks n));
      contexts = context_init (object n) task_function k.contexts;
      task_count = suc n;
    } in
    if leb max_tasks n
    then (minus_one, k)
    else (pos (suc n), scheduler_set_task_state (pos n) ready block_none entered)

unfoldable pub rtos_task_sleep : ℤ → Kernel → Kernel
rtos_task_sleep ticks k = elim (rtos_current_task k) [
  | none ↦ k
  | some i ↦
      scheduler_set_current_task_state blocked block_sleep
        (record k { tasks = set k.tasks i (record (k.tasks i) { sleep_ticks = ticks }) })
]

unfoldable pub rtos_suspend_task : ℤ → Kernel → Bool × Kernel
rtos_suspend_task task_id k = elim (task_index_from_id task_id k) [
  | none ↦ (false, k)
  | some i ↦ (true, scheduler_set_task_state (pos i) suspended block_none k)
]

unfoldable pub rtos_resume_task : ℤ → Kernel → Bool × Kernel
rtos_resume_task task_id k = elim (task_index_from_id task_id k) [
  | none ↦ (false, k)
  | some i ↦
      if not (is_suspended (k.tasks i).state)
      then (false, k)
      else (true, scheduler_set_task_state (pos i) ready block_none k)
]

unfoldable pub rtos_get_task_state : ℤ → Kernel → TaskState
rtos_get_task_state task_id k = elim (task_index_from_id task_id k) [
  | none ↦ suspended
  | some i ↦ (k.tasks i).state
]

unfoldable pub rtos_ready_count : Kernel → ℕ
rtos_ready_count k = scheduler_ready_count k

-- The owner of the stack and the index into it; `none` is NULL.
unfoldable pub rtos_get_task_stack_base : ℤ → Kernel → Option (ℕ × ℕ)
rtos_get_task_stack_base task_id k = elim (task_index_from_id task_id k) [
  | none ↦ none
  | some i ↦ some (i, 0)
]

unfoldable pub rtos_get_task_stack_pointer : ℤ → Kernel → Option (ℕ × ℕ)
rtos_get_task_stack_pointer task_id k = elim (task_index_from_id task_id k) [
  | none ↦ none
  | some i ↦ some (i, (k.tasks i).stack_pointer)
]

unfoldable pub rtos_get_task_stack_size : ℤ → Kernel → ℕ
rtos_get_task_stack_size task_id k = elim (task_index_from_id task_id k) [
  | none ↦ 0
  | some i ↦ (k.tasks i).stack_bytes
]
