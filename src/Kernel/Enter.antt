-- ===== src/Kernel/Enter.antt =====
-- The kernel while a task that has left the queue becomes RUNNING.
use mini_rtos_sim.Base.{
  ltb, ◌==◌, if◌then◌else◌, lt→ltb, ==_iff, Bool-cases, has, erase, Distinct, has-erase_ne,
  has-erase_self, erase-Distinct, pos, ℕ, suc, ◌≤◌, ◌<◌, ◌≡◌, ◌∙◌, ◌≢◌, inl, inr, true, ◌&&◌, arith,
}
use mini_rtos_sim.Task.{running, block_none, is_ready, max_tasks}
use mini_rtos_sim.Ready.{entries}
use mini_rtos_sim.Ready.Remove.{entries-remove}
use mini_rtos_sim.Kernel.{Kernel, scheduler_set_task_state}
use mini_rtos_sim.Kernel.Invariant.{IsValid}
use mini_rtos_sim.Kernel.Transition.{moved}

-- The invariant, but for whether the READY task `i` is queued.
pub record ValidBut (i : ℕ) (k : Kernel) : Type 0 where
  pub bound : k.bound ≡ true
  pub count_le : k.task_count ≤ max_tasks
  pub index_lt : i < k.task_count
  pub current : k.current_task_index ≡ pos i
  pub numbered : (j : ℕ) → j < k.task_count → (k.tasks j).task_id ≡ suc j
  pub exact :
      (j : ℕ) → j ≢ i → has j (entries k.queue) ≡ (ltb j k.task_count && is_ready (k.tasks j).state)
  pub distinct : Distinct (entries k.queue)

module _ {k : Kernel} (i : ℕ) (v : ValidBut i k) where
  abbrev pub entered : Kernel
  entered = scheduler_set_task_state (pos i) running block_none k

  pub entered_entries : entries entered.queue ≡ erase i (entries k.queue)
  unfolding scheduler_set_task_state
  entered_entries =
      ground (arith, v.bound, lt→ltb i k.task_count v.index_lt, entries-remove i k.queue)

  pub entered_tasks :
      (j : ℕ)
      → entered.tasks j ≡ (if j == i then moved running block_none (k.tasks i) else k.tasks j)
  unfolding scheduler_set_task_state
  entered_tasks j = ground (arith, v.bound, lt→ltb i k.task_count v.index_lt)

  pub entered_frame :
      (entered.bound ≡ k.bound)
      × (entered.task_count ≡ k.task_count)
      × (entered.current_task_index ≡ k.current_task_index)
      × (entered.contexts ≡ k.contexts)
  unfolding scheduler_set_task_state
  entered_frame = ground (arith, v.bound, lt→ltb i k.task_count v.index_lt)

  -- The invariant is whole again.
  pub entered-IsValid : IsValid entered
  entered-IsValid =
      let f = entered_frame in
      record {
        bound = f.0 ∙ v.bound;
        count_le = omega (arith, f.1, v.count_le);
        current_lt = rw (f.1, f.2, v.current) (omega (arith, v.index_lt));
        numbered =
            λ j p. ground (arith, f.1, entered_tasks j, v.numbered j, v.numbered i v.index_lt);
        queued = record {
          exact = λ j.
              rw (entered_entries, f.1, entered_tasks j)
                (elim (Bool-cases (j == i)) [
                  | inl same ↦ rw same (
                      ground
                        (arith, has-erase_self i (entries k.queue) v.distinct, (==_iff j i).0 same))
                  | inr other ↦
                      rw other (ground (arith, has-erase_ne j i (entries k.queue), v.exact j))
                ]);
          distinct = rw entered_entries (erase-Distinct i (entries k.queue) v.distinct);
        };
      }
