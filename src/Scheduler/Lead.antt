-- ===== src/Scheduler/Lead.antt =====
-- A dispatch of a task that does not block.
use mini_rtos_sim.Scheduler.Call.{call_function-Holds}
use mini_rtos_sim.Base.{
  ==_iff, ==_refl, ℤ, pos, ℕ, ◌<◌, ◌≡◌, refl, sym, ap, ◌∙◌, subst, true, some, arith,
}
use mini_rtos_sim.Context.{Contexts}
use mini_rtos_sim.Kernel.{scheduler_set_task_state}
use mini_rtos_sim.Ready.{ReadyQueue}
use mini_rtos_sim.Run.{World, Image}
use mini_rtos_sim.Run.Exec.{exec}
use mini_rtos_sim.Scheduler.Decide.{chosen, decision}
use mini_rtos_sim.Scheduler.Entering.{entering}
use mini_rtos_sim.Kernel.Transition.{tasks-set_task_state, frame-set_task_state}
use mini_rtos_sim.Kernel.Invariant.{IsValid}
use mini_rtos_sim.Kernel.Progress.{InTask}
use mini_rtos_sim.Kernel.Enter.{ValidBut, entered_frame, entered_tasks, entered-IsValid}
use mini_rtos_sim.Run.Sound.{IsSound, Objects-mono}
use mini_rtos_sim.Scheduler.Dispatch.{Rests, in_task}
use mini_rtos_sim.Sync.{Holds, Holds-bind, Holds-map}
use mini_rtos_sim.Task.{Tcb, running, block_none, is_ready, ready, is_running}
use mini_rtos_sim.Scheduler.{call_function, run_task, dispatch, requeue}
use mini_rtos_sim.Scheduler.Bystander.{Spared}
use mini_rtos_sim.Scheduler.Chosen.{Carried, dispatch-Carried}

-- What a run of the task `i` leaves: `i` is READY, and counts, priorities, code and timers are kept.
pub record Leads (i : ℕ) (w w' : World) : Type 0 where
  pub ready_again : is_ready (w'.kernel.tasks i).state ≡ true
  pub count : w'.kernel.task_count ≡ w.kernel.task_count
  pub priority :
      (j : ℕ) → j < w.kernel.task_count → (w'.kernel.tasks j).priority ≡ (w.kernel.tasks j).priority
  pub code : (w'.kernel.tasks i).task_function ≡ (w.kernel.tasks i).task_function
  pub timer : w'.timer ≡ w.timer

-- What is asked of the code `f` of the task `i`: a run of it by the RUNNING task leaves the task as it
-- is, makes no task, and leaves priorities and timers alone.
abbrev pub Keeps : Image → ℕ → ℕ → Type 0
Keeps image i f =
    (w : World)
    → IsValid w.kernel
    → IsSound w
    → InTask w.kernel
    → i < w.kernel.task_count
    → is_running (w.kernel.tasks i).state ≡ true
    → Holds (λ w'. Spared i w w' × IsValid w'.kernel) (exec image (image.task_code f) w)

started-Leads :
    (i : ℕ) (w : World) (v : ValidBut i w.kernel)
    → let k = scheduler_set_task_state (pos i) running block_none w.kernel in
      (is_running (k.tasks i).state ≡ true)
      × (k.task_count ≡ w.kernel.task_count)
      × ((j : ℕ) → (k.tasks j).priority ≡ (w.kernel.tasks j).priority)
      × ((k.tasks i).task_function ≡ (w.kernel.tasks i).task_function)
started-Leads i w v =
    let at = entered_tasks i v in
    (
      ground (arith, at i, ==_refl i),
      (entered_frame i v).1,
      (λ j. ground (arith, at j, ==_iff j i)),
      ground (arith, at i, ==_refl i),
    )

requeued-Leads :
    (i : ℕ) (w : World)
    → IsValid w.kernel
    → i < w.kernel.task_count
    → is_running (w.kernel.tasks i).state ≡ true
    → Leads i w (record w { kernel = requeue i w.kernel })
requeued-Leads i w v h e =
    let at = tasks-set_task_state v i h ready block_none in
    simp e (record {
      ready_again = ground (arith, at i, ==_refl i);
      count = (frame-set_task_state v i h ready block_none).1;
      priority = λ j p. ground (arith, at j, ==_iff j i);
      code = ground (arith, at i, ==_refl i);
      timer = refl;
    })

module _ (image : Image) (i f : ℕ) (keeps : Keeps image i f) where
  run_task-Leads :
      (w : World)
      → ValidBut i w.kernel
      → IsSound w
      → (w.kernel.tasks i).task_function ≡ f
      → Holds (Leads i w) (run_task image i w)
  unfolding run_task
  run_task-Leads w v sound e =
      let start = scheduler_set_task_state (pos i) running block_none w.kernel in
      let started = record w { kernel = start } in
      let s = started-Leads i w v in
      let h : i < start.task_count = omega (arith, s.1, v.index_lt) in
      Holds-bind (Leads i w) (call_function image (start.tasks i).task_function started) _
        (call_function-Holds _ image _ started (
          subst
            (λ g.
              Holds (λ w'. Spared i started w' × IsValid w'.kernel)
                (exec image (image.task_code g) started))
            (sym (s.3 ∙ e))
            (keeps started (entered-IsValid i v)
              (Objects-mono w.kernel.task_count start.task_count (omega (arith, s.1)) sound)
              (in_task image i w.kernel v) h s.0)))
        λ w' (t, v').
          let q =
            requeued-Leads i w' v' (omega (arith, t.count, h))
              (ap (λ (x : Tcb). is_running x.state) t.task ∙ s.0) in
          record {
            ready_again = q.ready_again;
            count = q.count ∙ t.count ∙ s.1;
            priority = λ j p.
                q.priority j (omega (arith, t.count, s.1))
                ∙ t.priority j (omega (arith, s.1))
                ∙ s.2 j;
            code = q.code ∙ ap (λ (x : Tcb). x.task_function) t.task ∙ s.3;
            timer = q.timer ∙ t.timer;
          }

  -- It is entered with another slice count, current task, queue and registers.
  loaded-Leads :
      (current : ℤ) (q : ReadyQueue) (contexts : Contexts) (g : ℕ → ℕ) (w : World)
      → ValidBut i (entering w.kernel i current q contexts g)
      → IsSound w
      → (w.kernel.tasks i).task_function ≡ f
      → Holds
          (Leads i w)
          (run_task image i (record w { kernel = entering w.kernel i current q contexts g }))
  loaded-Leads current q contexts g w v sound e =
      let w1 = record w { kernel = entering w.kernel i current q contexts g } in
      Holds-map (Leads i w1) (Leads i w) (run_task image i w1)
        (λ w' s. record {
          ready_again = s.ready_again;
          count = s.count;
          priority = λ j p. s.priority j p ∙ ground (arith, ==_iff j i);
          code = s.code ∙ ground (arith, ==_refl i);
          timer = s.timer;
        })
        (run_task-Leads w1 v sound (ground (arith, ==_refl i, e)))

  pub dispatch-Leads :
      (w : World)
      → Rests w
      → chosen (decision w.kernel) ≡ some i
      → i < w.kernel.task_count
      → (w.kernel.tasks i).task_function ≡ f
      → Holds (Leads i w) (dispatch image w)
  dispatch-Leads w r c h e =
      let (current, q, contexts, g, v, same) =
        subst (λ d. Carried image d w (dispatch image w)) c (dispatch-Carried image w r) in
      rw same (loaded-Leads current q contexts g w v r.sound e)
