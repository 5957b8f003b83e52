-- ===== src/Scheduler/Own.antt =====
-- A callback that acts on its own software timer.
use mini_rtos_sim.Base.{
  ◌==◌, ==_refl, ==_ne, Bool-cases, ℕ, zero, suc, ◌+◌, ◌-◌, ◌≤◌, ◌<◌, ◌≡◌, refl, sym, ap, ◌∙◌,
  subst, ◌≢◌, inl, inr, true, false, some, arith,
}
use mini_rtos_sim.Timer.{
  SoftTimer, TimerMode, one_shot, put, soft_timer_count, timer_soft_start, timer_soft_stop,
  timer_soft_delete,
}
use mini_rtos_sim.Sync.{bind-some}
use mini_rtos_sim.Run.{World, Image, Op, call, done, soft_start, soft_stop, soft_delete}
use mini_rtos_sim.Run.Exec.{exec_op, exec}
use mini_rtos_sim.Scheduler.{armed, countdown, rearm, soft_round, soft_loop, timer_update_soft}
use mini_rtos_sim.Scheduler.Timed.{Unarmed, still}
use mini_rtos_sim.Scheduler.Periodic.{soft_updates}

pub data OwnCall : Type 0 where
  restart stop delete : OwnCall

-- The call as it is made for the timer in the slot `i`.
abbrev pub own_op : OwnCall → ℕ → Op
own_op restart i = soft_start (some i)
own_op stop i = soft_stop (some i)
own_op delete i = soft_delete (some i)

-- What it does to a timer in use.
abbrev own_effect : OwnCall → SoftTimer → SoftTimer
own_effect restart t = record t { remaining = t.period_ticks; active = true }
own_effect stop t = record t { active = false }
own_effect delete t = record t { active = false; in_use = false }

-- All but a restart of a periodic timer.
abbrev pub Disarms : OwnCall → TimerMode → Type 0
Disarms restart mode = mode ≡ one_shot
Disarms stop mode = Unit
Disarms delete mode = Unit

-- Only the timer in the slot `i` is armed, it is due, and its callback makes just the call `c` for it.
pub record Due (image : Image) (c : OwnCall) (i : ℕ) (w : World) : Type 0 where
  pub index_lt : i < soft_timer_count
  pub on : armed (w.timer.soft_timers i) ≡ true
  pub last : (w.timer.soft_timers i).remaining ≡ 1
  pub callback : (w.timer.soft_timers i).callback ≢ 0
  pub code :
      image.callback_code (w.timer.soft_timers i).callback (w.timer.soft_timers i).arg
      ≡ call (own_op c i) λ r. done
  pub disarms : Disarms c (w.timer.soft_timers i).mode
  pub others : (s : ℕ) → s ≢ i → armed (w.timer.soft_timers s) ≡ false

exec-own :
    (image : Image) (c : OwnCall) (i : ℕ) (w : World)
    → (w.timer.soft_timers i).in_use ≡ true
    → exec image (call (own_op c i) λ r. done) w
      ≡ some (record w { timer = put w.timer i (own_effect c (w.timer.soft_timers i)) })
unfolding exec exec_op timer_soft_start timer_soft_stop timer_soft_delete
exec-own image restart i w e = rw e refl
exec-own image stop i w e = rw e refl
exec-own image delete i w e = rw e refl

rearmed_off :
    (c : OwnCall) (t : SoftTimer)
    → Disarms c t.mode
    → armed (rearm (own_effect c (countdown t))) ≡ false
rearmed_off restart t d = rw d (ground arith)
rearmed_off stop t d = ground arith
rearmed_off delete t d = ground arith

module _ (image : Image) (c : OwnCall) (i : ℕ) where
  own_round :
      (w : World) → Due image c i w → (w' : World) × (soft_round image i w ≡ some w') × Unarmed w'
  unfolding soft_round
  own_round w d =
      let t = w.timer.soft_timers i in
      let counted = record w { timer = put w.timer i (countdown t) } in
      let at : counted.timer.soft_timers i ≡ countdown t = rw (==_refl i) refl in
      let used : (counted.timer.soft_timers i).in_use ≡ true =
        ap (λ (t : SoftTimer). t.in_use) at ∙ ground (arith, d.on) in
      let after = record counted {
        timer = put counted.timer i (own_effect c (counted.timer.soft_timers i));
      } in
      let ran =
        subst (λ p. exec image p counted ≡ some after) (sym d.code)
          (exec-own image c i counted used) in
      let now : (t.remaining - 1 == 0) ≡ true = ground (arith, d.last) in
      let real : (t.callback == 0) ≡ false = ==_ne t.callback 0 d.callback in
      let w' = record after { timer = put after.timer i (rearm (after.timer.soft_timers i)) } in
      (
        w',
        rw (d.on, now, real) (bind-some _ after ran),
        λ s. elim (Bool-cases (s == i)) [
          | inl e ↦ rw (e, ==_refl i) (rearmed_off c t d.disarms)
          | inr e ↦ rw e (d.others s (ground (arith, e)))
        ],
      )

  own_loop :
      (n s : ℕ) (w : World)
      → s ≤ i
      → i < s + n
      → Due image c i w
      → (w' : World) × (soft_loop image n s w ≡ some w') × Unarmed w'
  unfolding soft_loop
  own_loop zero s w low high d = absurd (omega arith)
  own_loop (suc n) s w low high d = elim (Bool-cases (s == i)) [
    | inl e ↦
        let same : i ≡ s = ground (arith, e) in
        let (w', e', off) = own_round w d in
        (
          w',
          bind-some _ w' (subst (λ x. soft_round image x w ≡ some w') same e')
              ∙ still image n (suc s) w' off,
          off,
        )
    | inr e ↦
        let idle : soft_round image s w ≡ some w =
          unfold soft_round in rw (d.others s (ground (arith, e))) refl in
        let (w', e', off) = own_loop n (suc s) w (ground (arith, e)) (omega arith) d in
        (w', bind-some _ w idle ∙ e', off)
  ]

  quiet_updates : (n : ℕ) (w : World) → Unarmed w → soft_updates image n w ≡ some w
  unfolding soft_updates timer_update_soft
  quiet_updates zero w off = refl
  quiet_updates (suc n) w off =
      bind-some _ w (quiet_updates n w off) ∙ still image soft_timer_count 0 w off

  -- Let one software timer be armed and due, and let its callback only start, stop or delete this
  -- same timer. Then the update of the software timers does not fault, and afterwards no timer is
  -- armed, so that no number of further updates changes anything, if the call is a stop or a delete,
  -- or if the timer is one-shot: a one-shot timer that its callback starts again never expires again.
  pub own_call_ends :
      (w : World)
      → Due image c i w
      → (w' : World) × (timer_update_soft image w ≡ some w')
        × Unarmed w'
        × ((n : ℕ) → soft_updates image n w' ≡ some w')
  unfolding timer_update_soft
  own_call_ends w d =
      let (w', e, off) =
        own_loop soft_timer_count 0 w (omega arith) (omega (arith, d.index_lt)) d in
      (w', e, off, λ n. quiet_updates n w' off)
