-- ===== src/Scheduler/Countdown.antt =====
-- The software timers of src/timer.c from one update to the next.
use mini_rtos_sim.Base.{
  ltb, leb, ◌==◌, if◌then◌else◌, ==_iff, ==_refl, ==_ne, Bool-cases, set_each, ℕ, zero, suc, ◌+◌,
  ◌<◌, ◌≡◌, refl, sym, ap, ◌∙◌, subst, inl, inr, false, not, ◌&&◌, some, arith,
}
use mini_rtos_sim.Sync.{bind-some}
use mini_rtos_sim.Timer.{SoftTimer, Timer, soft_timer_count, put}
use mini_rtos_sim.Timer.Sleep.{if-range, below}
use mini_rtos_sim.Timer.Armed.{IsTimer, AreTimers}
use mini_rtos_sim.Run.{World, Image}
use mini_rtos_sim.Run.Exec.{exec}
use mini_rtos_sim.Scheduler.{countdown, armed, rearm, soft_round, soft_loop, timer_update_soft}

-- The callbacks return, and leave the timers alone.
abbrev pub KeepsTimers : Image → Type 0
KeepsTimers image =
    (callback arg : ℕ) (w : World)
    → (w' : World) × (exec image (image.callback_code callback arg) w ≡ some w')
      × (w'.timer ≡ w.timer)

-- A timer after one update: one tick less; after the last one a periodic timer starts again with
-- its whole period, and a one-shot timer is off.
abbrev pub elapsed : SoftTimer → SoftTimer
elapsed t =
    if not (armed t)
    then t
    else if (countdown t).remaining == 0
    then rearm (countdown t)
    else countdown t

elapsed-IsTimer : (t : SoftTimer) → IsTimer t → IsTimer (elapsed t)
elapsed-IsTimer t h u =
    let (c, p, r) = h (ground (arith, u)) in
    (ground (arith, c), ground (arith, p), ground (arith, r))

module _ (image : Image) (keeps : KeepsTimers image) where
  round-elapsed :
      (i : ℕ) (w : World)
      → AreTimers w.timer
      → (w' : World) × (soft_round image i w ≡ some w')
        × ((j : ℕ)
            → w'.timer.soft_timers j
              ≡ (if j == i then elapsed (w.timer.soft_timers i) else w.timer.soft_timers j))
  unfolding soft_round
  round-elapsed i w all = elim (Bool-cases (armed (w.timer.soft_timers i))) [
    | inr off ↦ (w, ground (arith, off), λ j. ground (arith, off, ==_iff j i))
    | inl on ↦
        let t = countdown (w.timer.soft_timers i) in
        let counted = record w { timer = put w.timer i t } in
        elim (Bool-cases (t.remaining == 0)) [
          | inr waits ↦ (counted, ground (arith, on, waits), λ j. ground (arith, on, waits))
          | inl fires ↦
              let call : (t.callback == 0) ≡ false =
                ==_ne t.callback 0 (all i (ground (arith, on))).0 in
              let (w', e, same) = keeps t.callback t.arg counted in
              (
                record w' { timer = put w'.timer i (rearm (w'.timer.soft_timers i)) },
                ground (arith, on, fires, call, e),
                (λ j.
                    let here = ap (λ (m : Timer). m.soft_timers i) same in
                    let there = ap (λ (m : Timer). m.soft_timers j) same in
                    rw (here, there) (ground (arith, on, fires, ==_refl i))),
              )
        ]
  ]

  loop-elapsed :
      (n i : ℕ) (w : World)
      → AreTimers w.timer
      → (w' : World) × (soft_loop image n i w ≡ some w')
        × ((j : ℕ)
            → w'.timer.soft_timers j ≡ (
                if leb i j && ltb j (i + n)
                then elapsed (w.timer.soft_timers j)
                else w.timer.soft_timers j))
        × AreTimers w'.timer
  unfolding soft_loop
  loop-elapsed zero i w all = (w, refl, (λ j. ground arith), all)
  loop-elapsed (suc n) i w all =
      let (w1, e1, at1) = round-elapsed i w all in
      let all1 =
        set_each IsTimer w.timer.soft_timers i _ all
          (elapsed-IsTimer (w.timer.soft_timers i) (all i)) in
      let (w2, e2, at2, all2) =
        loop-elapsed n (suc i) w1 (λ j. subst IsTimer (sym (at1 j)) (all1 j)) in
      (
        w2,
        bind-some _ w1 e1 ∙ e2,
        (λ j.
            at2 j
            ∙ ap (λ t. if leb (suc i) j && ltb j (suc i + n) then elapsed t else t) (at1 j)
            ∙ if-range elapsed w.timer.soft_timers i n j),
        all2,
      )

  -- The update counts every armed timer down, independently of the others.
  pub update_soft-elapsed :
      (w : World)
      → AreTimers w.timer
      → (w' : World) × (timer_update_soft image w ≡ some w')
        × ((j : ℕ)
            → j < soft_timer_count
            → w'.timer.soft_timers j ≡ elapsed (w.timer.soft_timers j))
        × AreTimers w'.timer
  unfolding timer_update_soft
  update_soft-elapsed w all =
      let (w', e, at, all') = loop-elapsed soft_timer_count 0 w all in
      (w', e, (λ j h. at j ∙ below elapsed w.timer.soft_timers soft_timer_count j h), all')
