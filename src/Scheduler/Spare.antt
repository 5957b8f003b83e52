-- ===== src/Scheduler/Spare.antt =====
-- A sleeping task while other tasks run.
use mini_rtos_sim.Scheduler.Call.{call_function-Holds}
use mini_rtos_sim.Base.{
  ℤ, pos, ℕ, ◌<◌, ◌≡◌, refl, ap, ◌∙◌, subst, ◌≢◌, inl, inr, true, Option, none, some, arith,
}
use mini_rtos_sim.Task.{running, block_none, block_sleep, is_ready}
use mini_rtos_sim.Context.{Contexts}
use mini_rtos_sim.Kernel.{waits_for, scheduler_set_task_state}
use mini_rtos_sim.Kernel.Enter.{ValidBut, entered_frame, entered-IsValid}
use mini_rtos_sim.Sync.{Holds, Holds-bind, Holds-map}
use mini_rtos_sim.Ready.{ReadyQueue}
use mini_rtos_sim.Run.{World, Image}
use mini_rtos_sim.Run.Sound.{IsSound, Objects-mono}
use mini_rtos_sim.Scheduler.{call_function, slice, run_task, dispatch}
use mini_rtos_sim.Scheduler.Decide.{Best, chosen, decision, highest_priority_runs}
use mini_rtos_sim.Scheduler.Dispatch.{Rests, in_task}
use mini_rtos_sim.Scheduler.Entering.{entering}
use mini_rtos_sim.Scheduler.Bystander.{
  Spared, Spared-refl, Spared-trans, set-Spared, requeue-Spared, slice-Spared, Spares, core_waits,
  sleeper_not_ready,
}
use mini_rtos_sim.Scheduler.Chosen.{Carried, dispatch-Carried}

module _ (image : Image) (i : ℕ) (spares : Spares image i) where
  run_task-Spared :
      (c : ℕ) (w : World)
      → ValidBut c w.kernel
      → IsSound w
      → c ≢ i
      → i < w.kernel.task_count
      → waits_for block_sleep (w.kernel.tasks i) ≡ true
      → Holds (Spared i w) (run_task image c w)
  unfolding run_task
  run_task-Spared c w v sound ne h asleep =
      let start = scheduler_set_task_state (pos c) running block_none w.kernel in
      let started = record w { kernel = start } in
      let f = entered_frame c v in
      let s = set-Spared i c running block_none w ne in
      let other : start.current_task_index ≢ pos i = λ e. ne (ground (arith, f.2, v.current, e)) in
      Holds-bind (Spared i w) (call_function image (start.tasks c).task_function started) _
        (call_function-Holds _ image (start.tasks c).task_function started (
          spares (start.tasks c).task_function started (entered-IsValid c v)
            (Objects-mono w.kernel.task_count start.task_count (omega (arith, s.count)) sound)
            (in_task image c w.kernel v) (omega (arith, s.count)) other
            (core_waits i w started s asleep)))
        λ w' t.
          Spared-trans i w started _ s (Spared-trans i started w' _ t (requeue-Spared i c w' ne))

  -- It is entered with another slice count, current task, queue and registers.
  loaded-Spared :
      (c : ℕ) (current : ℤ) (q : ReadyQueue) (contexts : Contexts) (f : ℕ → ℕ) (w : World)
      → ValidBut c (entering w.kernel c current q contexts f)
      → IsSound w
      → c ≢ i
      → i < w.kernel.task_count
      → waits_for block_sleep (w.kernel.tasks i) ≡ true
      → Holds
          (Spared i w)
          (run_task image c (record w { kernel = entering w.kernel c current q contexts f }))
  loaded-Spared c current q contexts f w v sound ne h asleep =
      let s = slice-Spared i c f w in
      let w1 = record w { kernel = entering w.kernel c current q contexts f } in
      Holds-map (Spared i w1) (Spared i w) (run_task image c w1)
        (λ w' t. record {
          task = t.task ∙ s.task;
          count = t.count;
          priority = λ j p. t.priority j p ∙ s.priority j p;
          timer = t.timer;
        })
        (run_task-Spared c w1 v sound ne h
          (core_waits i w (record w { kernel = slice c f w.kernel }) s asleep))

  Carried-Spared :
      (d : Option ℕ) (r : Option World) (w : World)
      → Rests w
      → Carried image d w r
      → ((c : ℕ) → d ≡ some c → c ≢ i)
      → i < w.kernel.task_count
      → waits_for block_sleep (w.kernel.tasks i) ≡ true
      → Holds (Spared i w) r
  Carried-Spared none r w rests (inl e) ne h asleep = rw e (Spared-refl i w)
  Carried-Spared none r w rests (inr (c, e)) ne h asleep = rw e (slice-Spared i c (λ s. 0) w)
  Carried-Spared (some c) r w rests (current, q, contexts, g, v, e) ne h asleep =
      rw e (loaded-Spared c current q contexts g w v rests.sound (ne c refl) h asleep)

  -- A task that sleeps is not chosen.
  sleeper_waits :
      (w : World)
      → Rests w
      → waits_for block_sleep (w.kernel.tasks i) ≡ true
      → (c : ℕ) → chosen (decision w.kernel) ≡ some c
      → c ≢ i
  sleeper_waits w r asleep c e same =
      let best = subst (Best w.kernel) e (highest_priority_runs r.valid r.paused) in
      cc (
        best.0.1,
        sleeper_not_ready (w.kernel.tasks i) asleep,
        ap (λ j. is_ready (w.kernel.tasks j).state) same,
      )

  pub dispatch-Spared :
      (w : World)
      → Rests w
      → i < w.kernel.task_count
      → waits_for block_sleep (w.kernel.tasks i) ≡ true
      → Holds (Spared i w) (dispatch image w)
  dispatch-Spared w r h asleep =
      Carried-Spared (chosen (decision w.kernel)) (dispatch image w) w r
        (dispatch-Carried image w r) (sleeper_waits w r asleep) h asleep
