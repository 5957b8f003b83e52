-- ===== src/Scheduler/Deadline.antt =====
-- The task of the highest priority runs in the very tick in which its sleep ends.
use mini_rtos_sim.Base.{
  pos, ℕ, zero, suc, ◌-◌, ◌≤◌, ◌<◌, ◌≡◌, refl, sym, ap, ◌∙◌, subst, true, some, arith,
}
use mini_rtos_sim.Task.{Tcb, is_ready}
use mini_rtos_sim.Kernel.{waits_for}
use mini_rtos_sim.Timer.{Timer, timer_tick}
use mini_rtos_sim.Timer.Sleep.{Asleep, Asleep-ticked, wakes-ticked}
use mini_rtos_sim.Sync.{bind-some, Holds}
use mini_rtos_sim.Run.{World, Image}
use mini_rtos_sim.Scheduler.{armed, cycle, scheduler_run}
use mini_rtos_sim.Scheduler.Decide.{chosen, decision}
use mini_rtos_sim.Scheduler.Soft.{QuietCallbacks}
use mini_rtos_sim.Scheduler.Dispatch.{Rests}
use mini_rtos_sim.Scheduler.Act.{Acted}
use mini_rtos_sim.Scheduler.Cycle.{Acted-Rests}
use mini_rtos_sim.Scheduler.Spare.{dispatch-Spared}
use mini_rtos_sim.Scheduler.Bystander.{Spares, Spared}
use mini_rtos_sim.Scheduler.Timed.{Unarmed, Outranks, timed, only_chosen, timed-cycle, timed-kept}

-- What is known of the sleeper `i` from tick to tick.
pub record Awaits (i ticks : ℕ) (w : World) : Type 0 where
  pub rests : Rests w
  pub index_lt : i < w.kernel.task_count
  pub asleep : Asleep (w.kernel.tasks i) ticks
  pub top : Outranks i w.kernel
  pub unarmed : Unarmed w

module _ (image : Image) (quiet : QuietCallbacks image) (i : ℕ) (spares : Spares image i) where
  -- A tick in which the sleep does not end.
  tick_on :
      (n : ℕ) (w : World)
      → Awaits i (suc (suc n)) w
      → (w' : World) × (cycle image w ≡ some w') × Awaits i (suc n) w'
  unfolding waits_for timer_tick
  tick_on n w a =
      let (h, top, at) = timed-kept i w a.rests.valid a.index_lt a.top in
      let (rests, best, acted, e) = timed-cycle image quiet w a.rests a.unarmed in
      let asleep : Asleep ((timed w).kernel.tasks i) (suc n) =
        subst (λ t. Asleep t (suc n)) (sym at) (Asleep-ticked (w.kernel.tasks i) n a.asleep) in
      let (w', e', rests') =
        Acted-Rests (chosen (decision (timed w).kernel)) (cycle image w) acted in
      let s =
        subst (Holds (Spared i (timed w))) (sym e ∙ e')
          (dispatch-Spared image i spares (timed w) rests h asleep.0) in
      (
        w',
        e',
        record {
          rests = rests';
          index_lt = omega (arith, s.count, h);
          asleep = subst (λ t. Asleep t (suc n)) (sym s.task) asleep;
          top = λ j p ne.
              let p' : j < (timed w).kernel.task_count = omega (arith, s.count) in
              rw (s.priority j p', s.priority i h) (top j p' ne);
          unarmed = λ x. ap (λ (t : Timer). armed (t.soft_timers x)) s.timer ∙ a.unarmed x;
        },
      )

  -- The tick in which it ends.
  tick_off :
      (w : World)
      → Awaits i 1 w
      → (w' : World) × (cycle image w ≡ some w') × Rests w' × (w'.kernel.current_task_index ≡ pos i)
  tick_off w a =
      let (h, top, at) = timed-kept i w a.rests.valid a.index_lt a.top in
      let (rests, best, acted, e) = timed-cycle image quiet w a.rests a.unarmed in
      let awake : is_ready ((timed w).kernel.tasks i).state ≡ true =
        ap (λ (t : Tcb). is_ready t.state) at ∙ wakes-ticked (w.kernel.tasks i) a.asleep in
      subst (λ d. Acted d (cycle image w))
        (only_chosen (timed w).kernel i (chosen (decision (timed w).kernel)) best h awake top) acted

  -- Let a world rest, where the task `i` sleeps for `n + 1` ticks, every other task has a lower
  -- priority, and no software timer is armed; let callbacks make no call that needs a current task,
  -- and let the code of other tasks spare a task that sleeps: it changes neither this task nor any
  -- timer, and creates no task. Then for each of the next `n` ticks the scheduler runs and the task
  -- still sleeps, with one tick less each time; and in the tick after these it is the task that runs.
  pub wakes_on_time :
      (n : ℕ) (w : World)
      → Awaits i (suc n) w
      → ((m : ℕ)
          → m ≤ n
          → (w' : World) × (scheduler_run image m w ≡ some w') × Awaits i (suc n - m) w')
        × ((w' : World) × (scheduler_run image (suc n) w ≡ some w')
            × Rests w'
            × (w'.kernel.current_task_index ≡ pos i))
  unfolding scheduler_run
  wakes_on_time zero w a =
      let (w', e, rests, current) = tick_off w a in
      (
        (λ m p.
            let none_yet : m ≡ 0 = omega arith in
            subst (λ x. (w' : World) × (scheduler_run image x w ≡ some w') × Awaits i (1 - x) w')
              (sym none_yet) (w, refl, a)),
        (w', bind-some _ w' e, rests, current),
      )
  wakes_on_time (suc n) w a =
      let (w1, e1, a1) = tick_on n w a in
      let (during, (w2, e2, rests, current)) = wakes_on_time n w1 a1 in
      (later w1 e1 during, (w2, bind-some _ w1 e1 ∙ e2, rests, current))
    where
      later :
          (w1 : World)
          → cycle image w ≡ some w1
          → ((m : ℕ)
              → m ≤ n
              → (w' : World) × (scheduler_run image m w1 ≡ some w') × Awaits i (suc n - m) w')
          → (m : ℕ) → m ≤ suc n
          → (w' : World) × (scheduler_run image m w ≡ some w') × Awaits i (suc (suc n) - m) w'
      later w1 e1 during zero p =
          let whole : suc (suc n) - 0 ≡ suc (suc n) = omega arith in
          (w, refl, subst (λ x. Awaits i x w) (sym whole) a)
      later w1 e1 during (suc m) p =
          let (w', e, b) = during m (omega arith) in
          let left : suc (suc n) - suc m ≡ suc n - m = omega arith in
          (w', bind-some _ w1 e1 ∙ e, subst (λ x. Awaits i x w') (sym left) b)
