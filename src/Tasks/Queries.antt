-- ===== src/Tasks/Queries.antt =====
-- The calls that only read the task table.
use mini_rtos_sim.Base.{
  Option-cases, ℤ, pos, ℕ, suc, ◌<◌, ◌≡◌, sym, ap, ◌∙◌, ◌≢◌, inl, inr, Option, none, some, arith,
}
use mini_rtos_sim.Task.{TaskState, suspended}
use mini_rtos_sim.Kernel.{Kernel}
use mini_rtos_sim.Kernel.Invariant.{IsValid}
use mini_rtos_sim.Tasks.{
  task_index_from_id, rtos_get_task_state, rtos_get_task_stack_base, rtos_get_task_stack_pointer,
  rtos_get_task_stack_size,
}
use mini_rtos_sim.Tasks.Create.{task_index_from_id_lem, task_index_from_id_sound}

-- What the four calls answer for an identifier.
pub record Answers (k : Kernel) (id : ℤ) (state : TaskState) (base pointer : Option (ℕ × ℕ))
    (size : ℕ) : Type 0 where
  pub state_is : rtos_get_task_state id k ≡ state
  pub base_is : rtos_get_task_stack_base id k ≡ base
  pub pointer_is : rtos_get_task_stack_pointer id k ≡ pointer
  pub size_is : rtos_get_task_stack_size id k ≡ size

found-Answers :
    (k : Kernel) (id : ℤ) (i : ℕ)
    → task_index_from_id id k ≡ some i
    → Answers k id
        (k.tasks i).state
        (some (i, 0))
        (some (i, (k.tasks i).stack_pointer))
        (k.tasks i).stack_bytes
unfolding rtos_get_task_state rtos_get_task_stack_base rtos_get_task_stack_pointer
    rtos_get_task_stack_size
found-Answers k id i e = record {
  state_is = ground (arith, e);
  base_is = ground (arith, e);
  pointer_is = ground (arith, e);
  size_is = ground (arith, e);
}

missing-Answers :
    (k : Kernel) (id : ℤ) → task_index_from_id id k ≡ none → Answers k id suspended none none 0
unfolding rtos_get_task_state rtos_get_task_stack_base rtos_get_task_stack_pointer
    rtos_get_task_stack_size
missing-Answers k id e = record {
  state_is = ground (arith, e);
  base_is = ground (arith, e);
  pointer_is = ground (arith, e);
  size_is = ground (arith, e);
}

-- In a valid kernel, the calls that ask for the state and the stack of a task answer from the entry
-- of the task that has the identifier; if no task has it, they answer SUSPENDED, NULL, NULL and 0.
pub queries_lem :
    {k : Kernel} (id : ℤ)
    → IsValid k
    → ((i : ℕ)
        → i < k.task_count
        → id ≡ pos (suc i)
        → Answers k id
            (k.tasks i).state
            (some (i, 0))
            (some (i, (k.tasks i).stack_pointer))
            (k.tasks i).stack_bytes)
      × (((i : ℕ) → i < k.task_count → id ≢ pos (suc i)) → Answers k id suspended none none 0)
queries_lem {k} id v = (
  (λ i h e.
      found-Answers k id i (ap (λ x. task_index_from_id x k) e ∙ task_index_from_id_lem i v h)),
  (λ no_task. elim (Option-cases (task_index_from_id id k)) [
    | inl e ↦ missing-Answers k id e
    | inr (i, e) ↦
        let (h, p) = task_index_from_id_sound k i id e in
        absurd (no_task i h (sym p ∙ ap pos (v.numbered i h)))
  ]),
)
