-- ===== src/Scheduler/Cycle.antt =====
-- Whole cycles, and runs of them.
use mini_rtos_sim.Base.{
  Bool-cases, pos, ℕ, zero, suc, ◌<◌, ◌≡◌, refl, sym, ◌∙◌, subst, inl, inr, Option, none, some,
  arith,
}
use mini_rtos_sim.Task.{is_running}
use mini_rtos_sim.Kernel.{Kernel}
use mini_rtos_sim.Kernel.Invariant.{IsValid}
use mini_rtos_sim.Timer.Armed.{AreTimers}
use mini_rtos_sim.Timer.Sleep.{update_sleep-Progress}
use mini_rtos_sim.Run.Sound.{IsSound, kernel-IsSound, timer-IsSound}
use mini_rtos_sim.Kernel.Progress.{Progress, Progress-trans}
use mini_rtos_sim.Sync.{bind-some}
use mini_rtos_sim.Timer.{Timer, timer_tick, update_sleep}
use mini_rtos_sim.Run.{World, Image}
use mini_rtos_sim.Scheduler.{timer_update_sleep, cycle, dispatch, scheduler_run, rtos_run}
use mini_rtos_sim.Scheduler.Decide.{Best, decision, chosen, highest_priority_runs}
use mini_rtos_sim.Scheduler.Soft.{QuietCallbacks, update_soft-Ended}
use mini_rtos_sim.Scheduler.Dispatch.{Progress-InPlace, Rests}
use mini_rtos_sim.Scheduler.Act.{Acted, dispatch-Acted}

current_below : {k : Kernel} (i : ℕ) → IsValid k → k.current_task_index ≡ pos i → i < k.task_count
current_below i v e = ground (arith, v.current_lt, e)

ticked-AreTimers : (timer : Timer) → AreTimers timer → AreTimers (timer_tick timer)
unfolding timer_tick
ticked-AreTimers timer all = all

pub Progress-Rests : (w w' : World) → Progress w.kernel w'.kernel → IsSound w' → Rests w → Rests w'
Progress-Rests w w' p sound r = record {
  valid = p.valid;
  paused = λ i h. elim (Bool-cases (is_running (w'.kernel.tasks i).state)) [
    | inr e ↦ e
    | inl e ↦ let q = p.running i h e in absurd (ground (arith, r.paused i q.0))
  ];
  entry = p.entry r.entry;
  loaded = λ i e.
      let e' : w.kernel.current_task_index ≡ pos i = sym p.current ∙ e in
      (Progress-InPlace i p (current_below i r.valid e') (r.entry, r.loaded i e')).1;
  sound = sound;
}

pub Acted-Rests :
    (d : Option ℕ) (r : Option World) → Acted d r → (w' : World) × (r ≡ some w') × Rests w'
Acted-Rests none r a = a
Acted-Rests (some i) r (w', e, rests, current) = (w', e, rests)

module _ (image : Image) (quiet : QuietCallbacks image) where
  -- The updates of the timers return, and leave no task RUNNING.
  timers-Rests :
      (w : World) → Rests w → (w' : World) × (timer_update_sleep image w ≡ some w') × Rests w'
  unfolding timer_update_sleep
  timers-Rests w r =
      let p = update_sleep-Progress r.valid in
      let slept = record w { kernel = update_sleep w.kernel } in
      let (w', e, q, s) =
        update_soft-Ended image quiet slept p.valid (kernel-IsSound w p r.sound) in
      (w', e, Progress-Rests w w' (Progress-trans p q) s r)

  -- Start from a world at rest: its kernel is valid, no task is RUNNING, the function of every
  -- task is not NULL and its saved context is the one that starts it, the live registers are
  -- those saved for the current task, and timers, blocks, mutexes, queues and event groups are
  -- well formed. For callbacks that make no call that needs a current task, a cycle does not
  -- fault: the clock and the timers lead to a world `timed` at rest; the task that is then
  -- chosen is a READY one that no READY task outranks, or there is none; and the cycle ends at
  -- rest, with the chosen task, if there is one, as the current one.
  pub cycle_runs-Best :
      (w : World)
      → Rests w
      → (timed : World) × (timer_update_sleep image (record w { timer = timer_tick w.timer })
          ≡ some timed)
        × Rests timed
        × Best timed.kernel (chosen (decision timed.kernel))
        × Acted (chosen (decision timed.kernel)) (cycle image w)
  unfolding cycle
  cycle_runs-Best w r =
      let (timed, e, t) =
        timers-Rests (record w { timer = timer_tick w.timer })
          (record {
            valid = r.valid;
            paused = r.paused;
            entry = r.entry;
            loaded = r.loaded;
            sound =
                timer-IsSound w (timer_tick w.timer) r.sound
                  (ticked-AreTimers w.timer r.sound.timers);
          }) in
      (
        timed,
        e,
        t,
        highest_priority_runs t.valid t.paused,
        subst (Acted (chosen (decision timed.kernel))) (sym (bind-some (dispatch image) timed e))
            (dispatch-Acted image timed t),
      )

  run_total :
      (ticks : ℕ) (w : World)
      → Rests w
      → (w' : World) × (scheduler_run image ticks w ≡ some w') × Rests w'
  unfolding scheduler_run
  run_total zero w r = (w, refl, r)
  run_total (suc ticks) w r =
      let (timed, e, t, best, acted) = cycle_runs-Best w r in
      let (w1, e1, r1) = Acted-Rests (chosen (decision timed.kernel)) (cycle image w) acted in
      let (w2, e2, r2) = run_total ticks w1 r1 in (w2, bind-some _ w1 e1 ∙ e2, r2)

  -- Start from a world at rest: its kernel is valid, no task is RUNNING, the function of every
  -- task is not NULL and its saved context is the one that starts it, the live registers are
  -- those saved for the current task, and timers, blocks, mutexes, queues and event groups are
  -- well formed. For callbacks that make no call that needs a current task, the scheduler runs
  -- for any number of ticks without a fault, whatever calls of `Op` the tasks make, and ends at
  -- rest.
  pub rtos_run_total :
      (ticks : ℕ) (w : World)
      → Rests w
      → (w' : World) × (rtos_run image ticks w ≡ some w') × Rests w'
  unfolding rtos_run
  rtos_run_total ticks w r = run_total ticks w r
