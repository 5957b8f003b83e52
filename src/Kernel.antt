-- ===== src/Kernel.antt =====
-- src/scheduler.c, the state transitions: the task table with its ready queue, the one function
-- that changes a task's state, and the wake-up of a waiter.
pub mod Invariant
pub mod Transition
pub mod Unblock
pub mod Progress
pub mod Peers
pub mod Enter
use mini_rtos_sim.Base.{
  ltb, ◌==◌, if◌then◌else◌, minus_one, ltb_ℤ, ℤ, set, pos, negsuc, ℕ, zero, suc, Bool, not, ◌&&◌,
  Option, none, some,
}
use mini_rtos_sim.Context.{Contexts}
use mini_rtos_sim.Task.{
  Tcb, TaskState, BlockReason, ready, block_none, is_ready, is_blocked, reason_code,
}
use mini_rtos_sim.Ready.{ReadyQueue, append_entry, ready_queue_remove}

-- The static variables of rtos.c and scheduler.c. The pointers of scheduler.c are all NULL until
-- `scheduler_init` binds them to the variables of rtos.c: `bound` says that it has run.
pub record Kernel : Type 0 where
  pub bound : Bool
  pub tasks : ℕ → Tcb
  pub task_count : ℕ
  pub current_task_index : ℤ
  pub queue : ReadyQueue
  pub contexts : Contexts

abbrev pub same_reason : BlockReason → BlockReason → Bool
same_reason a b = reason_code a == reason_code b

ready_queue_enqueue : ℕ → Kernel → Kernel
ready_queue_enqueue task_index k =
    if not k.bound
    then k
    else if not (ltb task_index k.task_count)
    then k
    else if not (is_ready (k.tasks task_index).state)
    then k
    else record k { queue = append_entry task_index k.queue }

-- What `scheduler_set_task_state` does behind its guards.
change_state : ℕ → TaskState → BlockReason → Kernel → Kernel
unfolding ready_queue_enqueue
change_state i state reason k =
    let moved = record k {
      queue = ready_queue_remove i k.queue;
      tasks = set k.tasks i (record (k.tasks i) { state = state; block_reason = reason });
    } in
    let awake = record (moved.tasks i) { sleep_ticks = pos 0; block_reason = block_none } in
    if is_ready state
    then ready_queue_enqueue i (record moved { tasks = set moved.tasks i awake })
    else moved

unfoldable pub scheduler_set_task_state : ℤ → TaskState → BlockReason → Kernel → Kernel
unfolding change_state
scheduler_set_task_state (negsuc n) state reason k = k
scheduler_set_task_state (pos i) state reason k =
    if not k.bound then k else if ltb i k.task_count then change_state i state reason k else k

unfoldable pub scheduler_set_current_task_state : TaskState → BlockReason → Kernel → Kernel
scheduler_set_current_task_state state reason k =
    if k.bound then scheduler_set_task_state k.current_task_index state reason k else k

-- The scan of the task table for the best waiter, with `none` for -1.
unfoldable pub waits_for : BlockReason → Tcb → Bool
waits_for reason t = is_blocked t.state && same_reason t.block_reason reason

unblock_scan : ℕ → ℕ → Option ℕ → BlockReason → (ℕ → Tcb) → Option ℕ
unblock_scan zero i best reason tasks = best
unblock_scan (suc rounds) i best reason tasks =
    let chosen = unblock_scan rounds (suc i) (some i) reason tasks in
    let passed = unblock_scan rounds (suc i) best reason tasks in
    if waits_for reason (tasks i)
    then elim best [
      | none ↦ chosen
      | some b ↦ if ltb_ℤ (tasks b).priority (tasks i).priority then chosen else passed
    ]
    else passed

-- `none` is the fault of reading `*task_count` through NULL.
unfoldable pub scheduler_unblock_one : BlockReason → Kernel → Option Kernel
unfolding unblock_scan
scheduler_unblock_one reason k =
    if not k.bound then none else elim (unblock_scan k.task_count 0 none reason k.tasks) [
      | none ↦ some k
      | some best ↦ some (scheduler_set_task_state (pos best) ready block_none k)
    ]

unfoldable pub scheduler_ready_count : Kernel → ℕ
scheduler_ready_count k = k.queue.count

unfoldable pub scheduler_current_task_index : Kernel → ℤ
scheduler_current_task_index k = if k.bound then k.current_task_index else minus_one

-- `&task_list[current_task_index]`, as an index; `none` is NULL.
abbrev pub current_in : ℤ → ℕ → Option ℕ
current_in (negsuc n) count = none
current_in (pos i) count = if ltb i count then some i else none

unfoldable pub rtos_current_task : Kernel → Option ℕ
rtos_current_task k = current_in k.current_task_index k.task_count
