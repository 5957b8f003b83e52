-- ===== src/Kernel/Invariant.antt =====
-- The invariant of the task table and its ready queue.
use mini_rtos_sim.Base.{
  ltb, ◌<ℤ◌, length-window, All, has, Distinct, All-of_has, length-le_of_Distinct, pos, ℕ, suc, ◌≤◌,
  ◌<◌, ◌≡◌, ◌∙◌, true, ◌&&◌, arith,
}
use mini_rtos_sim.Task.{Tcb, is_ready, max_tasks}
use mini_rtos_sim.Ready.{ReadyQueue, entries}
use mini_rtos_sim.Kernel.{Kernel}

-- The queue holds exactly the READY tasks of the table, each once.
pub record Queued (tasks : ℕ → Tcb) (count : ℕ) (q : ReadyQueue) : Type 0 where
  pub exact : (i : ℕ) → has i (entries q) ≡ (ltb i count && is_ready (tasks i).state)
  pub distinct : Distinct (entries q)

pub record IsValid (k : Kernel) : Type 0 where
  pub bound : k.bound ≡ true
  pub count_le : k.task_count ≤ max_tasks
  pub current_lt : k.current_task_index <ℤ pos k.task_count
  pub numbered : (i : ℕ) → i < k.task_count → (k.tasks i).task_id ≡ suc i
  pub queued : Queued k.tasks k.task_count k.queue

module _ {tasks : ℕ → Tcb} {count : ℕ} {q : ReadyQueue} (v : Queued tasks count q) where
  pub entry_bounds :
      (i : ℕ) → has i (entries q) ≡ true → (i < count) × (is_ready (tasks i).state ≡ true)
  entry_bounds i h = (ground (arith, v.exact i), ground (arith, v.exact i))

  pub entries_below : All (λ i. i < count) (entries q)
  entries_below = All-of_has (λ i. i < count) (entries q) λ i h. (entry_bounds i h).0

  pub entries_ready : All (λ i. is_ready (tasks i).state ≡ true) (entries q)
  entries_ready =
      All-of_has (λ i. is_ready (tasks i).state ≡ true) (entries q) λ i h. (entry_bounds i h).1

  -- A ready queue that holds just the READY tasks of a table, each once, has no more entries
  -- than the table has tasks.
  pub count-le : q.count ≤ count
  count-le = omega (
    arith,
    length-window q.slots 0 q.count,
    length-le_of_Distinct count (entries q) v.distinct entries_below,
  )

-- A change of the table that leaves the states and the identifiers alone keeps the invariant.
pub retask-IsValid :
    {k : Kernel} (tasks : ℕ → Tcb)
    → IsValid k
    → ((i : ℕ) → (tasks i).state ≡ (k.tasks i).state)
    → ((i : ℕ) → (tasks i).task_id ≡ (k.tasks i).task_id)
    → IsValid (record k { tasks = tasks })
retask-IsValid {k} tasks v states ids = record {
  bound = v.bound;
  count_le = v.count_le;
  current_lt = v.current_lt;
  numbered = λ i h. ids i ∙ v.numbered i h;
  queued = record { exact = λ i. rw (states i) (v.queued.exact i); distinct = v.queued.distinct };
}
