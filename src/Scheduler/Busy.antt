-- ===== src/Scheduler/Busy.antt =====
-- The most urgent task, while it does not block.
use mini_rtos_sim.Base.{pos, ℕ, zero, suc, ◌<◌, ◌≡◌, sym, ap, ◌∙◌, subst, true, some, arith}
use mini_rtos_sim.Task.{Tcb, is_ready}
use mini_rtos_sim.Kernel.{waits_for}
use mini_rtos_sim.Run.{World, Image}
use mini_rtos_sim.Scheduler.Decide.{chosen, decision}
use mini_rtos_sim.Scheduler.Dispatch.{Rests}
use mini_rtos_sim.Timer.{Timer, timer_tick}
use mini_rtos_sim.Timer.Sleep.{ticked}
use mini_rtos_sim.Sync.{Holds, bind-some}
use mini_rtos_sim.Scheduler.{cycle, scheduler_run, armed}
use mini_rtos_sim.Scheduler.Act.{Acted}
use mini_rtos_sim.Scheduler.Soft.{QuietCallbacks}
use mini_rtos_sim.Scheduler.Timed.{Unarmed, Outranks, timed, only_chosen, timed-cycle, timed-kept}
use mini_rtos_sim.Scheduler.Lead.{Leads, Keeps, dispatch-Leads}

pub ticked_code : (t : Tcb) → (ticked t).task_function ≡ t.task_function
ticked_code t = ground arith

pub ready_ticked : (t : Tcb) → is_ready t.state ≡ true → is_ready (ticked t).state ≡ true
unfolding waits_for
ready_ticked t e = ground (arith, e)

-- The task `i` with the code `f` is READY in a world at rest, every other task has a lower priority,
-- and no software timer is armed.
pub record Busy (i f : ℕ) (w : World) : Type 0 where
  pub rests : Rests w
  pub index_lt : i < w.kernel.task_count
  pub able : is_ready (w.kernel.tasks i).state ≡ true
  pub top : Outranks i w.kernel
  pub code : (w.kernel.tasks i).task_function ≡ f
  pub unarmed : Unarmed w

module _ (image : Image) (quiet : QuietCallbacks image) (i f : ℕ) (keeps : Keeps image i f) where
  cycle-Busy :
      (w : World)
      → Busy i f w
      → (w' : World) × (cycle image w ≡ some w')
        × Busy i f w'
        × (w'.kernel.current_task_index ≡ pos i)
  unfolding timer_tick
  cycle-Busy w b =
      let (h, top, at) = timed-kept i w b.rests.valid b.index_lt b.top in
      let (rests, best, acted, e) = timed-cycle image quiet w b.rests b.unarmed in
      let able = ap (λ (t : Tcb). is_ready t.state) at ∙ ready_ticked (w.kernel.tasks i) b.able in
      let code = ap (λ (t : Tcb). t.task_function) at ∙ ticked_code (w.kernel.tasks i) ∙ b.code in
      let only =
        only_chosen (timed w).kernel i (chosen (decision (timed w).kernel)) best h able top in
      let (w', e', rests', current) = subst (λ d. Acted d (cycle image w)) only acted in
      let s =
        subst (Holds (Leads i (timed w))) (sym e ∙ e')
          (dispatch-Leads image i f keeps (timed w) rests only h code) in
      (
        w',
        e',
        record {
          rests = rests';
          index_lt = omega (arith, s.count, h);
          able = s.ready_again;
          top = λ j p ne.
              let p' : j < (timed w).kernel.task_count = omega (arith, s.count) in
              rw (s.priority j p', s.priority i h) (top j p' ne);
          code = s.code ∙ code;
          unarmed = λ x. ap (λ (t : Timer). armed (t.soft_timers x)) s.timer ∙ b.unarmed x;
        },
        current,
      )

  -- It runs in every tick.
  pub runs_on :
      (n : ℕ) (w : World)
      → Busy i f w
      → (w' : World) × (scheduler_run image (suc n) w ≡ some w')
        × Busy i f w'
        × (w'.kernel.current_task_index ≡ pos i)
  unfolding scheduler_run
  runs_on zero w b =
      let (w', e, b', current) = cycle-Busy w b in (w', bind-some _ w' e, b', current)
  runs_on (suc n) w b =
      let (w1, e1, b1, now) = cycle-Busy w b in
      let (w2, e2, b2, current) = runs_on n w1 b1 in (w2, bind-some _ w1 e1 ∙ e2, b2, current)
