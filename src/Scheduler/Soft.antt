-- ===== src/Scheduler/Soft.antt =====
-- The update of the software timers of src/timer.c, and the kernel.
use mini_rtos_sim.Base.{
  ◌==◌, ==_ne, Bool-cases, ℕ, zero, suc, ◌≡◌, refl, ◌∙◌, inl, inr, false, arith,
}
use mini_rtos_sim.Kernel.Invariant.{IsValid}
use mini_rtos_sim.Kernel.Progress.{Progress-refl, Progress-trans}
use mini_rtos_sim.Sync.{bind-some}
use mini_rtos_sim.Timer.{SoftTimer, is_periodic, put}
use mini_rtos_sim.Timer.Armed.{IsTimer, put-AreTimers}
use mini_rtos_sim.Run.Sound.{IsSound, timer-IsSound}
use mini_rtos_sim.Run.{World, Image}
use mini_rtos_sim.Run.Total.{Outside, Ended, exec-Outside-Ended}
use mini_rtos_sim.Scheduler.{
  countdown, armed, rearm, soft_round, soft_loop, timer_update_soft, soft_timer_count,
}

-- What is asked of the application: its timer callbacks make no call that reads the current task,
-- since a timer may fire before a first task runs.
abbrev pub QuietCallbacks : Image → Type 0
QuietCallbacks image = (callback arg : ℕ) → Outside (image.callback_code callback arg)

module _ (image : Image) (quiet : QuietCallbacks image) where
  countdown-IsTimer : (t : SoftTimer) → IsTimer t → IsTimer (countdown t)
  countdown-IsTimer t h u = let (c, p, r) = h u in (c, p, omega arith)

  rearm-IsTimer : (t : SoftTimer) → IsTimer t → IsTimer (rearm t)
  rearm-IsTimer t h = elim (Bool-cases (is_periodic t.mode)) [
    | inl e ↦ rw e (λ u. let (c, p, r) = h u in (c, p, omega arith))
    | inr e ↦ rw e (λ u. h u)
  ]

  round-Ended : (i : ℕ) (w : World) → IsValid w.kernel → IsSound w → Ended w (soft_round image i w)
  unfolding soft_round
  round-Ended i w v s = elim (Bool-cases (armed (w.timer.soft_timers i))) [
    | inr off ↦ (w, ground (arith, off), Progress-refl v, s)
    | inl on ↦
        let t = countdown (w.timer.soft_timers i) in
        let counted = record w { timer = put w.timer i t } in
        let s1 = timer-IsSound w counted.timer s (
          put-AreTimers w.timer i t s.timers
            (countdown-IsTimer (w.timer.soft_timers i) (s.timers i))) in
        elim (Bool-cases (t.remaining == 0)) [
          | inr waits ↦ (counted, ground (arith, on, waits), Progress-refl v, s1)
          | inl fires ↦
              let call : (t.callback == 0) ≡ false =
                ==_ne t.callback 0 (s.timers i (ground (arith, on))).0 in
              let (w', e, p, s') =
                exec-Outside-Ended image (image.callback_code t.callback t.arg) counted v s1
                  (quiet t.callback t.arg) in
              (
                record w' { timer = put w'.timer i (rearm (w'.timer.soft_timers i)) },
                ground (arith, on, fires, call, e),
                p,
                timer-IsSound w' (put w'.timer i (rearm (w'.timer.soft_timers i))) s' (
                    put-AreTimers w'.timer i (rearm (w'.timer.soft_timers i)) s'.timers
                      (rearm-IsTimer (w'.timer.soft_timers i) (s'.timers i))),
              )
        ]
  ]

  loop-Ended :
      (n i : ℕ) (w : World) → IsValid w.kernel → IsSound w → Ended w (soft_loop image n i w)
  unfolding soft_loop
  loop-Ended zero i w v s = (w, refl, Progress-refl v, s)
  loop-Ended (suc n) i w v s =
      let (w', e, p, s') = round-Ended i w v s in
      let (w'', e', p', s'') = loop-Ended n (suc i) w' p.valid s' in
      (w'', bind-some _ w' e ∙ e', Progress-trans p p', s'')

  -- From a valid kernel and well-formed objects, and for callbacks that make no call which needs a
  -- current task, the update of the software timers returns without a fault, and so calls no NULL
  -- callback; the kernel stays valid and keeps its current task, tasks are only added, priorities
  -- and contexts stay, no task becomes RUNNING, and the objects stay well formed.
  pub update_soft-Ended :
      (w : World) → IsValid w.kernel → IsSound w → Ended w (timer_update_soft image w)
  unfolding timer_update_soft
  update_soft-Ended w v s = loop-Ended soft_timer_count 0 w v s
