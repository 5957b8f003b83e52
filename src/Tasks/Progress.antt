-- ===== src/Tasks/Progress.antt =====
-- What the calls on tasks keep of the kernel.
use mini_rtos_sim.Base.{
  leb, ==_iff, Bool-cases, Option-cases, ℤ, set, pos, ℕ, ◌<◌, refl, inl, inr, not, arith,
}
use Prim.Native.String.{String}
use mini_rtos_sim.Task.{ready, blocked, suspended, block_none, block_sleep, is_suspended, max_tasks}
use mini_rtos_sim.Context.{context_init}
use mini_rtos_sim.Kernel.{Kernel, rtos_current_task}
use mini_rtos_sim.Kernel.Invariant.{IsValid}
use mini_rtos_sim.Kernel.Progress.{
  Progress, Progress-refl, Progress-trans, set_task_state-Progress, set_current-Progress,
  retask-Progress,
}
use mini_rtos_sim.Tasks.{
  task_index_from_id, new_task, rtos_create_task, rtos_task_sleep, rtos_suspend_task,
  rtos_resume_task,
}
use mini_rtos_sim.Tasks.Create.{entered, entered-IsValid}

entered-Progress :
    {k : Kernel} (v : IsValid k) (name : String) (priority : ℤ) (task_function : ℕ)
    → 0 < task_function
    → k.task_count < max_tasks
    → Progress k (entered v name priority task_function)
unfolding new_task context_init
entered-Progress {k} v name priority task_function some_code h = record {
  valid = entered-IsValid v name priority task_function h;
  count_le = omega arith;
  current = refl;
  running = λ i p e. ground arith;
  priority = λ i p. ground arith;
  active = refl;
  saved = λ i p. ground arith;
  entry = λ e i p. (
    ground (arith, e i, ==_iff i k.task_count),
    ground (arith, e i, ==_iff i k.task_count, some_code),
  );
}

pub create_task-Progress :
    {k : Kernel} (name : String) (priority : ℤ) (task_function : ℕ)
    → 0 < task_function
    → IsValid k
    → Progress k (rtos_create_task name priority task_function k).1
unfolding rtos_create_task
create_task-Progress {k} name priority task_function some_code v =
    elim (Bool-cases (leb max_tasks k.task_count)) [
      | inl full ↦ rw full (Progress-refl v)
      | inr room ↦
          let p = entered-Progress v name priority task_function some_code (ground arith) in
          rw room (
            Progress-trans p
              (set_task_state-Progress (pos k.task_count) ready block_none p.valid refl))
    ]

pub task_sleep-Progress :
    {k : Kernel} (ticks : ℤ) → IsValid k → Progress k (rtos_task_sleep ticks k)
unfolding rtos_task_sleep
task_sleep-Progress {k} ticks v = elim (Option-cases (rtos_current_task k)) [
  | inl e ↦ rw (e, rtos_task_sleep) (Progress-refl v)
  | inr (i, e) ↦
      let p =
        retask-Progress (set k.tasks i (record (k.tasks i) { sleep_ticks = ticks })) v
          (λ j. ground (arith, ==_iff j i)) (λ j. ground (arith, ==_iff j i))
          (λ j. ground (arith, ==_iff j i)) (λ j. ground (arith, ==_iff j i)) in
      rw (e, rtos_task_sleep)
        (Progress-trans p (set_current-Progress blocked block_sleep p.valid refl))
]

pub suspend_task-Progress :
    {k : Kernel} (id : ℤ) → IsValid k → Progress k (rtos_suspend_task id k).1
unfolding rtos_suspend_task
suspend_task-Progress {k} id v = elim (Option-cases (task_index_from_id id k)) [
  | inl e ↦ rw (e, rtos_suspend_task) (Progress-refl v)
  | inr (i, e) ↦
      rw (e, rtos_suspend_task) (set_task_state-Progress (pos i) suspended block_none v refl)
]

pub resume_task-Progress : {k : Kernel} (id : ℤ) → IsValid k → Progress k (rtos_resume_task id k).1
unfolding rtos_resume_task
resume_task-Progress {k} id v = elim (Option-cases (task_index_from_id id k)) [
  | inl e ↦ rw (e, rtos_resume_task) (Progress-refl v)
  | inr (i, e) ↦ elim (Bool-cases (not (is_suspended (k.tasks i).state))) [
    | inl no_change ↦ rw (e, rtos_resume_task, no_change) (Progress-refl v)
    | inr change ↦
        rw (e, rtos_resume_task, change) (set_task_state-Progress (pos i) ready block_none v refl)
  ]
]
