-- ===== src/Tasks/Suspend.antt =====
-- Suspension, resumption and sleep of a task.
use mini_rtos_sim.Base.{
  if◌then◌else◌, ==_iff, Bool-cases, Option-cases, ℤ, set, has, erase, erase_absent, pos, ℕ, suc,
  ◌<◌, ◌≡◌, refl, ap, ◌∙◌, ◌≢◌, inl, inr, true, false, none, some, [], ◌∷◌, ◌++◌, arith,
}
use mini_rtos_sim.Task.{ready, blocked, suspended, block_none, block_sleep, is_ready, is_suspended}
use mini_rtos_sim.Ready.{entries}
use mini_rtos_sim.Kernel.{Kernel, waits_for, scheduler_set_task_state, rtos_current_task}
use mini_rtos_sim.Kernel.Invariant.{IsValid, retask-IsValid}
use mini_rtos_sim.Kernel.Transition.{
  entries-set_task_state, tasks-set_task_state, frame-set_task_state, set_task_state-IsValid,
  set_current-eq,
}
use mini_rtos_sim.Tasks.{
  task_index_from_id, rtos_task_sleep, rtos_suspend_task, rtos_resume_task, rtos_get_task_state,
}
use mini_rtos_sim.Tasks.Create.{task_index_from_id_lem, task_index_from_id_sound}

suspend-eq :
    {k : Kernel} (i : ℕ)
    → IsValid k
    → i < k.task_count
    → rtos_suspend_task (pos (suc i)) k
      ≡ (true, scheduler_set_task_state (pos i) suspended block_none k)
unfolding rtos_suspend_task
suspend-eq i v h = ground (arith, task_index_from_id_lem i v h)

resume-eq :
    {k : Kernel} (i : ℕ)
    → IsValid k
    → i < k.task_count
    → rtos_resume_task (pos (suc i)) k ≡ (
        if is_suspended (k.tasks i).state
        then (true, scheduler_set_task_state (pos i) ready block_none k)
        else (false, k))
unfolding rtos_resume_task
resume-eq i v h = ground (arith, task_index_from_id_lem i v h)

pub state-eq :
    {k : Kernel} (i : ℕ)
    → IsValid k
    → i < k.task_count
    → rtos_get_task_state (pos (suc i)) k ≡ (k.tasks i).state
unfolding rtos_get_task_state
state-eq i v h = ground (arith, task_index_from_id_lem i v h)

-- From a valid kernel, suspending a task of the table succeeds whatever its state was, and
-- leaves a valid kernel: the task reads as SUSPENDED, it is off the ready queue, which keeps
-- the order of the others, and no other task changes.
pub suspend_task_lem :
    {k : Kernel} (i : ℕ)
    → IsValid k
    → i < k.task_count
    → let (found, k') = rtos_suspend_task (pos (suc i)) k in
      (found ≡ true)
      × IsValid k'
      × (rtos_get_task_state (pos (suc i)) k' ≡ suspended)
      × (entries k'.queue ≡ erase i (entries k.queue))
      × ((j : ℕ) → j ≢ i → k'.tasks j ≡ k.tasks j)
suspend_task_lem {k} i v h =
    let v' = set_task_state-IsValid v i h suspended block_none in
    let f = frame-set_task_state v i h suspended block_none in
    rw (suspend-eq i v h) (
      refl,
      v',
      state-eq i v' (omega (arith, f.1))
          ∙ ground (arith, tasks-set_task_state v i h suspended block_none i),
      entries-set_task_state v i h suspended block_none,
      (λ j ne. ground (arith, tasks-set_task_state v i h suspended block_none j)),
    )

-- From a valid kernel, `rtos_resume_task` on a task of the table returns true just if the task
-- is SUSPENDED, and leaves a valid kernel: then the task becomes READY and goes to the end of
-- the queue, and no other task changes; otherwise nothing changes.
pub resume_task_lem :
    {k : Kernel} (i : ℕ)
    → IsValid k
    → i < k.task_count
    → let (found, k') = rtos_resume_task (pos (suc i)) k in
      (found ≡ is_suspended (k.tasks i).state)
      × IsValid k'
      × (found ≡ true
          → (is_ready (k'.tasks i).state ≡ true)
            × (entries k'.queue ≡ entries k.queue ++ (i ∷ []))
            × ((j : ℕ) → j ≢ i → k'.tasks j ≡ k.tasks j))
      × (found ≡ false → k' ≡ k)
resume_task_lem {k} i v h =
    let off : is_suspended (k.tasks i).state ≡ true → has i (entries k.queue) ≡ false =
      λ e. v.queued.exact i ∙ ground (arith, e) in
    let at = tasks-set_task_state v i h ready block_none in
    let queue = entries-set_task_state v i h ready block_none in
    rw (resume-eq i v h) (elim (Bool-cases (is_suspended (k.tasks i).state)) [
      | inl e ↦ rw e (
        refl,
        set_task_state-IsValid v i h ready block_none,
        (λ _. (
          ground (arith, at i),
          queue ∙ ap (λ xs. xs ++ (i ∷ [])) (erase_absent i (entries k.queue) (off e)),
          (λ j ne. ground (arith, at j)),
        )),
        (λ p. absurd (ground arith)),
      )
      | inr e ↦ rw e (refl, v, (λ p. absurd (ground arith)), (λ _. refl))
    ])

unknown_index :
    (k : Kernel) (id : ℤ)
    → ((i : ℕ) → i < k.task_count → pos (k.tasks i).task_id ≢ id)
    → task_index_from_id id k ≡ none
unknown_index k id none_has = elim (Option-cases (task_index_from_id id k)) [
  | inl e ↦ e
  | inr (i, e) ↦ let r = task_index_from_id_sound k i id e in absurd (none_has i r.0 r.1)
]

-- `rtos_suspend_task` and `rtos_resume_task` return false and change nothing for an identifier
-- that no task of the table has.
pub unknown_task :
    (k : Kernel) (id : ℤ)
    → ((i : ℕ) → i < k.task_count → pos (k.tasks i).task_id ≢ id)
    → (rtos_suspend_task id k ≡ (false, k)) × (rtos_resume_task id k ≡ (false, k))
unfolding rtos_suspend_task rtos_resume_task
unknown_task k id none_has =
    let e = unknown_index k id none_has in (ground (arith, e), ground (arith, e))

module _ {k : Kernel} (i : ℕ) (ticks : ℤ) (v : IsValid k) where
  abbrev timed : Kernel
  timed = record k { tasks = set k.tasks i (record (k.tasks i) { sleep_ticks = ticks }) }

  timed-IsValid : IsValid timed
  timed-IsValid =
      retask-IsValid timed.tasks v (λ j. ground (arith, ==_iff j i))
        (λ j. ground (arith, ==_iff j i))

  sleep-eq :
      rtos_current_task k ≡ some i
      → (i < k.task_count)
        × (rtos_task_sleep ticks k ≡ scheduler_set_task_state (pos i) blocked block_sleep timed)
  unfolding rtos_task_sleep rtos_current_task
  sleep-eq e =
      let c = set_current-eq timed-IsValid blocked block_sleep i e in (c.0, ground (arith, c.2))

-- From a valid kernel with the current task `i`, `rtos_task_sleep(ticks)` leaves a valid kernel
-- in which this task, and no other, is blocked for `ticks` and off the ready queue, which keeps
-- the order of the others.
pub task_sleep_lem :
    {k : Kernel} (i : ℕ) (ticks : ℤ)
    → IsValid k
    → rtos_current_task k ≡ some i
    → let k' = rtos_task_sleep ticks k in
      IsValid k'
      × (waits_for block_sleep (k'.tasks i) ≡ true)
      × ((k'.tasks i).sleep_ticks ≡ ticks)
      × (entries k'.queue ≡ erase i (entries k.queue))
      × ((j : ℕ) → j ≢ i → k'.tasks j ≡ k.tasks j)
      × (k'.task_count ≡ k.task_count)
      × ((k'.tasks i).priority ≡ (k.tasks i).priority)
      × ((k'.tasks i).task_function ≡ (k.tasks i).task_function)
      × (k'.current_task_index ≡ k.current_task_index)
task_sleep_lem {k} i ticks v e =
    let (h, same) = sleep-eq i ticks v e in
    let v' = timed-IsValid i ticks v in
    let at = tasks-set_task_state v' i h blocked block_sleep in
    let f = frame-set_task_state v' i h blocked block_sleep in
    rw same (
      set_task_state-IsValid v' i h blocked block_sleep,
      unfold waits_for in ground (arith, at i),
      ground (arith, at i),
      entries-set_task_state v' i h blocked block_sleep,
      (λ j ne. ground (arith, at j)),
      f.1,
      ground (arith, at i),
      ground (arith, at i),
      f.2,
    )
