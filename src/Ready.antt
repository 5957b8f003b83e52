-- ===== src/Ready.antt =====
-- src/scheduler.c, the ready-queue primitives: `ready_queue[RTOS_MAX_TASKS]` and `ready_count`.
-- The two loops of `ready_queue_remove` and the scan of the peek are written as the source has
-- them; `rounds` is what is left of `ready_count`.
pub mod Remove
pub mod Peek
pub mod Leader
use mini_rtos_sim.Base.{
  ℕ, zero, suc, ◌-◌, ◌||◌, Bool, true, false, Option, none, some, List, set, window, leb, ◌==◌,
  ltb_ℤ, if◌then◌else◌,
}
use mini_rtos_sim.Task.{Tcb, is_ready, max_tasks}

pub record ReadyQueue : Type 0 where
  pub slots : ℕ → ℕ
  pub count : ℕ

-- The queued task indices, oldest first.
abbrev pub entries : ReadyQueue → List ℕ
entries q = window q.slots 0 q.count

contains_loop : ℕ → ℕ → (ℕ → ℕ) → ℕ → Bool
contains_loop zero i slots task_index = false
contains_loop (suc rounds) i slots task_index =
    if slots i == task_index then true else contains_loop rounds (suc i) slots task_index

unfoldable pub ready_queue_contains : ReadyQueue → ℕ → Bool
unfolding contains_loop
ready_queue_contains q task_index = contains_loop q.count 0 q.slots task_index

-- `for (j = i; j < ready_count - 1; j++) ready_queue[j] = ready_queue[j + 1];`
shift : ℕ → ℕ → (ℕ → ℕ) → ℕ → ℕ
shift zero j slots = slots
shift (suc rounds) j slots = shift rounds (suc j) (set slots j (slots (suc j)))

remove_loop : ℕ → ℕ → ℕ → ReadyQueue → ReadyQueue
unfolding shift
remove_loop zero i task_index q = q
remove_loop (suc rounds) i task_index q =
    if q.slots i == task_index
    then record { slots = shift (q.count - 1 - i) i q.slots; count = q.count - 1 }
    else remove_loop rounds (suc i) task_index q

unfoldable pub ready_queue_remove : ℕ → ReadyQueue → ReadyQueue
unfolding remove_loop
ready_queue_remove task_index q = remove_loop q.count 0 task_index q

-- The scan: `best` is `best_queue_pos`, with `none` for -1. An entry whose task is not READY is
-- removed, and the same position is looked at again.
peek_loop : ℕ → ℕ → Option ℕ → (ℕ → Tcb) → ReadyQueue → Option ℕ × ReadyQueue
peek_loop zero i best tasks q = (best, q)
peek_loop (suc rounds) i best tasks q =
    let task_index = q.slots i in
    let evicted = peek_loop rounds i best tasks (ready_queue_remove task_index q) in
    let chosen = peek_loop rounds (suc i) (some i) tasks q in
    let passed = peek_loop rounds (suc i) best tasks q in
    if is_ready (tasks task_index).state
    then elim best [
      | none ↦ chosen
      | some b ↦
          if ltb_ℤ (tasks (q.slots b)).priority (tasks task_index).priority then chosen else passed
    ]
    else evicted

abbrev at_position : Option ℕ × ReadyQueue → Option ℕ × ReadyQueue
at_position (none, q) = (none, q)
at_position (some b, q) = (some (q.slots b), q)

-- The task to run next, `none` for -1, and the queue without its stale entries.
unfoldable pub ready_queue_peek_highest_priority : (ℕ → Tcb) → ReadyQueue → Option ℕ × ReadyQueue
unfolding peek_loop
ready_queue_peek_highest_priority tasks q = at_position (peek_loop q.count 0 none tasks q)

unfoldable pub ready_queue_pop : ℕ → ReadyQueue → ReadyQueue
ready_queue_pop task_index q = ready_queue_remove task_index q

-- The guarded write at the end of `ready_queue_enqueue`; the caller tests the task itself.
unfoldable pub append_entry : ℕ → ReadyQueue → ReadyQueue
append_entry task_index q =
    if leb max_tasks q.count || ready_queue_contains q task_index
    then q
    else record { slots = set q.slots q.count task_index; count = suc q.count }
