-- ===== src/Scheduler/Dispatch.antt =====
-- A decision carried out: the run of the chosen task, from RUNNING on.
use mini_rtos_sim.Scheduler.Call.{call_function-exec}
use mini_rtos_sim.Base.{
  ◌==◌, lt→ltb, ==_iff, Bool-cases, pos, ℕ, ◌<◌, ◌≡◌, refl, sym, ap, ◌∙◌, inl, inr, true, Option,
  some, arith,
}
use mini_rtos_sim.Task.{ready, running, block_none, is_running}
use mini_rtos_sim.Kernel.{Kernel, scheduler_set_task_state, rtos_current_task}
use mini_rtos_sim.Kernel.Invariant.{IsValid}
use mini_rtos_sim.Kernel.Transition.{tasks-set_task_state, frame-set_task_state}
use mini_rtos_sim.Kernel.Enter.{ValidBut, entered, entered_tasks, entered_frame, entered-IsValid}
use mini_rtos_sim.Context.{Contexts}
use mini_rtos_sim.Run.Sound.{IsSound, Objects-mono}
use mini_rtos_sim.Kernel.Progress.{
  kept-AtEntry, AtEntry, Progress, Progress-refl, Progress-trans, moved_function, InTask,
  set_task_state-Progress,
}
use mini_rtos_sim.Sync.{bind-some}
use mini_rtos_sim.Run.{World, Image}
use mini_rtos_sim.Run.Total.{exec-Ended}
use mini_rtos_sim.Scheduler.{requeue, run_task}
use mini_rtos_sim.Scheduler.Decide.{Paused}

-- The live registers are those saved for the task `i`, and every task would start its code, which is
-- not NULL.
abbrev pub InPlace : ℕ → Kernel → Type 0
InPlace i k = AtEntry k × (k.contexts.active_context ≡ k.contexts.objects i)

-- The live registers are those of the current task, if there is one.
abbrev pub Loaded : Kernel → Type 0
Loaded k = (i : ℕ) → k.current_task_index ≡ pos i → k.contexts.active_context ≡ k.contexts.objects i

pub Progress-InPlace :
    (i : ℕ) {k k' : Kernel} → Progress k k' → i < k.task_count → InPlace i k → InPlace i k'
Progress-InPlace i p h (entry, live) = (p.entry entry, p.active ∙ live ∙ sym (p.saved i h))

pub InPlace-Loaded : (i : ℕ) (k : Kernel) → k.current_task_index ≡ pos i → InPlace i k → Loaded k
InPlace-Loaded i k e (entry, live) j e' =
    let same : j ≡ i = ground arith in live ∙ ap (λ x. k.contexts.objects x) (sym same)

-- Between cycles: a valid kernel with no task RUNNING, task functions that are not NULL, contexts in
-- place, and all objects well formed.
pub record Rests (w : World) : Type 0 where
  pub valid : IsValid w.kernel
  pub paused : Paused w.kernel
  pub entry : AtEntry w.kernel
  pub loaded : Loaded w.kernel
  pub sound : IsSound w

-- The task `i` has run: nothing is RUNNING any more, and `i` is the current task.
abbrev pub HasRun : ℕ → Option World → Type 0
HasRun i r = (w' : World) × (r ≡ some w') × Rests w' × (w'.kernel.current_task_index ≡ pos i)

requeue-Rests :
    (i : ℕ) (k : Kernel)
    → IsValid k
    → i < k.task_count
    → ((j : ℕ) → j < k.task_count → is_running (k.tasks j).state ≡ true → j ≡ i)
    → Progress k (requeue i k) × Paused (requeue i k)
requeue-Rests i k v h only = elim (Bool-cases (is_running (k.tasks i).state)) [
  | inr stopped ↦ rw stopped (
    Progress-refl v,
    (λ j p. elim (Bool-cases (is_running (k.tasks j).state)) [
      | inr e ↦ e
      | inl e ↦ cc (stopped, only j p e)
    ]),
  )
  | inl runs ↦
      let p = set_task_state-Progress (pos i) ready block_none v refl in
      let at = tasks-set_task_state v i h ready block_none in
      let f = frame-set_task_state v i h ready block_none in
      rw runs (
        p,
        (λ j q. elim (Bool-cases (is_running (k.tasks j).state)) [
          | inr e ↦ ground (arith, at j, e)
          | inl e ↦ let same = only j (omega (arith, f.1)) e in ground (arith, at j, same)
        ]),
      )
]

pub entered_current :
    (i : ℕ) (k : Kernel)
    → ValidBut i k
    → rtos_current_task (scheduler_set_task_state (pos i) running block_none k) ≡ some i
unfolding rtos_current_task
entered_current i k v =
    let f = entered_frame i v in rw (f.1, f.2, v.current) (rw (lt→ltb i k.task_count v.index_lt))

module _ (image : Image) where
  pub in_task :
      (i : ℕ) (k : Kernel)
      → ValidBut i k
      → InTask (scheduler_set_task_state (pos i) running block_none k)
  in_task i k v = (i, entered_current i k v)

  only_entered :
      {k : Kernel} (i : ℕ) (v : ValidBut i k)
      → Paused k
      → (j : ℕ) → j < k.task_count
      → is_running ((entered i v).tasks j).state ≡ true
      → j ≡ i
  only_entered {k} i v paused j h r = elim (Bool-cases (j == i)) [
    | inl same ↦ (==_iff j i).0 same
    | inr other ↦ absurd (ground (arith, entered_tasks i v j, paused j h, r))
  ]

  entered-InPlace : {k : Kernel} (i : ℕ) (v : ValidBut i k) → InPlace i k → InPlace i (entered i v)
  entered-InPlace {k} i v (entry, live) =
      let f = entered_frame i v in
      (
        (λ j h.
            kept-AtEntry (ap (λ (c : Contexts). c.objects j) f.3)
              (ground (
                arith,
                entered_tasks i v j,
                moved_function running block_none (k.tasks i),
                ==_iff j i,
              ))
              (entry j (omega (arith, f.1)))),
        ap (λ (c : Contexts). c.active_context) f.3
            ∙ live
            ∙ ap (λ (c : Contexts). c.objects i) (sym f.3),
      )

  -- The task that has been entered runs to the end of its code.
  pub run_task-HasRun :
      (i : ℕ) (w : World)
      → ValidBut i w.kernel
      → Paused w.kernel
      → InPlace i w.kernel
      → IsSound w
      → HasRun i (run_task image i w)
  unfolding run_task
  run_task-HasRun i w v paused place s =
      let start = scheduler_set_task_state (pos i) running block_none w.kernel in
      let started = record w { kernel = start } in
      let f = entered_frame i v in
      let some_code : 0 < (start.tasks i).task_function =
        ((entered-InPlace i v place).0 i (omega (arith, f.1, v.index_lt))).1 in
      let (w', e, p, s') =
        exec-Ended image (image.task_code (start.tasks i).task_function) started
          (entered-IsValid i v)
          (Objects-mono w.kernel.task_count start.task_count (omega (arith, f.1)) s)
          (in_task i w.kernel v) in
      let (q, quiet) =
        requeue-Rests i w'.kernel p.valid (omega (arith, p.count_le, f.1, v.index_lt)) (λ j h r.
          let q = p.running j h r in only_entered i v paused j (omega (arith, q.0, f.1)) q.1) in
      (
        record w' { kernel = requeue i w'.kernel },
        bind-some _ w' (call_function-exec image _ started some_code ∙ e),
        (let whole = Progress-trans p q in
            let at = whole.current ∙ f.2 ∙ v.current in
            let place' =
              Progress-InPlace i whole (omega (arith, f.1, v.index_lt))
                (entered-InPlace i v place) in
            record {
              valid = q.valid;
              paused = quiet;
              entry = place'.0;
              loaded = InPlace-Loaded i (requeue i w'.kernel) at place';
              sound =
                  Objects-mono w'.kernel.task_count (requeue i w'.kernel).task_count q.count_le s';
            }),
        q.current ∙ p.current ∙ f.2 ∙ v.current,
      )
