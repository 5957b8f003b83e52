-- ===== src/Timer/Armed.antt =====
-- What the calls on software timers keep of the slots.
use mini_rtos_sim.Base.{
  ◌==◌, Bool-cases, set_each, ℕ, ◌≤◌, ◌≡◌, ◌≢◌, inl, inr, true, Option, none, some, arith,
}
use Prim.Native.String.{String}
use mini_rtos_sim.Timer.{
  TimerMode, SoftTimer, Timer, put, timer_soft_create, timer_soft_start, timer_soft_stop,
  timer_soft_delete, soft_timer_count,
}
use mini_rtos_sim.Timer.Claim.{Claimed, exhausted, claimed, loop-Claimed}

-- A timer that is in use has a callback and a period, and does not overrun it.
abbrev pub IsTimer : SoftTimer → Type 0
IsTimer t =
    t.in_use ≡ true → (t.callback ≢ 0) × (t.period_ticks ≢ 0) × (t.remaining ≤ t.period_ticks)

abbrev pub AreTimers : Timer → Type 0
AreTimers timer = (i : ℕ) → IsTimer (timer.soft_timers i)

pub put-AreTimers :
    (timer : Timer) (i : ℕ) (t : SoftTimer)
    → AreTimers timer
    → IsTimer t
    → AreTimers (put timer i t)
put-AreTimers timer i t all h = set_each IsTimer timer.soft_timers i t all h

Claimed-AreTimers :
    {t : SoftTimer} {timer : Timer} {i n : ℕ} {r : Option ℕ × Timer}
    → AreTimers timer
    → IsTimer t
    → Claimed t timer i n r
    → AreTimers r.1
Claimed-AreTimers all h (exhausted used) = all
Claimed-AreTimers {t} {timer} all h (claimed s p q free before) = put-AreTimers timer s t all h

module _ (timer : Timer) (all : AreTimers timer) where
  pub create-AreTimers :
      (name : Option String) (mode : TimerMode) (period callback arg : ℕ)
      → AreTimers (timer_soft_create name mode period callback arg timer).1
  unfolding timer_soft_create
  create-AreTimers name mode period callback arg = elim (Bool-cases (callback == 0)) [
    | inl e ↦ rw e all
    | inr c ↦ elim (Bool-cases (period == 0)) [
      | inl e ↦ rw (c, e) all
      | inr p ↦
          rw (c, p)
            (Claimed-AreTimers all (λ u. ground (arith, c, p))
              (loop-Claimed soft_timer_count 0 _ timer))
    ]
  ]

  pub start-AreTimers : (s : Option ℕ) → AreTimers (timer_soft_start s timer)
  unfolding timer_soft_start
  start-AreTimers none = all
  start-AreTimers (some i) = elim (Bool-cases (timer.soft_timers i).in_use) [
    | inr free ↦ rw free all
    | inl used ↦
        rw used
          (put-AreTimers timer i _ all (λ u. let (c, p, r) = all i used in (c, p, omega arith)))
  ]

  pub stop-AreTimers : (s : Option ℕ) → AreTimers (timer_soft_stop s timer)
  unfolding timer_soft_stop
  stop-AreTimers none = all
  stop-AreTimers (some i) = elim (Bool-cases (timer.soft_timers i).in_use) [
    | inr free ↦ rw free all
    | inl used ↦ rw used (put-AreTimers timer i _ all (λ u. all i used))
  ]

  pub delete-AreTimers : (s : Option ℕ) → AreTimers (timer_soft_delete s timer)
  unfolding timer_soft_delete
  delete-AreTimers none = all
  delete-AreTimers (some i) = elim (Bool-cases (timer.soft_timers i).in_use) [
    | inr free ↦ rw free all
    | inl used ↦ rw used (put-AreTimers timer i _ all (λ u. absurd (cc u)))
  ]
