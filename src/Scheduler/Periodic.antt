-- ===== src/Scheduler/Periodic.antt =====
-- A software timer over several updates.
use mini_rtos_sim.Base.{
  ℕ, zero, suc, ◌-◌, ◌≤◌, ◌<◌, ◌≡◌, refl, sym, ap, ◌∙◌, true, false, Option, some, arith,
}
use mini_rtos_sim.Sync.{◌>>=◌, bind-some}
use mini_rtos_sim.Timer.{SoftTimer, soft_timer_count, is_periodic}
use mini_rtos_sim.Timer.Armed.{AreTimers}
use mini_rtos_sim.Run.{World, Image}
use mini_rtos_sim.Scheduler.{armed, timer_update_soft}
use mini_rtos_sim.Scheduler.Countdown.{KeepsTimers, elapsed, update_soft-elapsed}

-- `n` updates in turn.
unfoldable pub soft_updates : Image → ℕ → World → Option World
soft_updates image zero w = some w
soft_updates image (suc n) w = soft_updates image n w >>= timer_update_soft image

elapsed_more :
    (t : SoftTimer) (n : ℕ)
    → armed t ≡ true
    → t.remaining ≡ suc (suc n)
    → elapsed t ≡ record t { remaining = suc n }
elapsed_more t n on e =
    let left : t.remaining - 1 ≡ suc n = omega arith in rw (on, left) (ground arith)

elapsed_last :
    (t : SoftTimer)
    → armed t ≡ true
    → is_periodic t.mode ≡ true
    → t.remaining ≡ 1
    → elapsed t ≡ record t { remaining = t.period_ticks }
elapsed_last t on p e = let left : t.remaining - 1 ≡ 0 = omega arith in rw (on, left, p) refl

elapsed_once :
    (t : SoftTimer)
    → armed t ≡ true
    → is_periodic t.mode ≡ false
    → t.remaining ≡ 1
    → elapsed t ≡ record t { remaining = 0; active = false }
elapsed_once t on p e = let left : t.remaining - 1 ≡ 0 = omega arith in rw (on, left, p) refl

elapsed_off : (t : SoftTimer) → elapsed (record t { active = false }) ≡ record t { active = false }
elapsed_off t = ground arith

-- The update returned, and the timer `j` is as `t`; all timers are well formed.
abbrev pub Shows : ℕ → SoftTimer → Option World → Type 0
Shows j t r = (w' : World) × (r ≡ some w') × (w'.timer.soft_timers j ≡ t) × AreTimers w'.timer

-- `n` updates, and `m` more.
abbrev pub after : ℕ → ℕ → ℕ
after zero n = n
after (suc m) n = suc (after m n)

module _ (image : Image) (keeps : KeepsTimers image) (w : World) (all : AreTimers w.timer) (j : ℕ)
    (h : j < soft_timer_count) where
  abbrev timer_of : SoftTimer
  timer_of = w.timer.soft_timers j

  -- One update more.
  another :
      (n : ℕ) (t t' : SoftTimer)
      → Shows j t (soft_updates image n w)
      → elapsed t ≡ t'
      → Shows j t' (soft_updates image (suc n) w)
  unfolding soft_updates
  another n t t' (w1, e1, s1, all1) e =
      let (w2, e2, at, all2) = update_soft-elapsed image keeps w1 all1 in
      (w2, bind-some _ w1 e1 ∙ e2, at j h ∙ ap elapsed s1 ∙ e, all2)

  counts :
      (m n : ℕ)
      → armed timer_of ≡ true
      → timer_of.remaining ≡ suc n
      → m ≤ n
      → Shows j (record timer_of { remaining = suc n - m }) (soft_updates image m w)
  unfolding soft_updates
  counts zero n on e p =
      let whole : suc n - 0 ≡ suc n = omega arith in (w, refl, rw (whole, sym e) refl, all)
  counts (suc m) n on e p =
      let more : suc n - m ≡ suc (suc (n - suc m)) = omega arith in
      let left : suc n - suc m ≡ suc (n - suc m) = omega arith in
      another m (record timer_of { remaining = suc n - m }) _ (counts m n on e (omega arith))
        (elapsed_more (record timer_of { remaining = suc n - m }) (n - suc m) on more
          ∙ ap (λ x. record timer_of { remaining = x }) (sym left))

  -- For well-formed timers, and callbacks that return and leave the timers alone, a periodic timer
  -- that is armed with `n + 1` ticks to go has one tick less after each of the first `n` updates of
  -- the software timers, which do not fault, and is armed again with its whole period after the
  -- next one.
  pub periodic_exact :
      (n : ℕ)
      → armed timer_of ≡ true
      → is_periodic timer_of.mode ≡ true
      → timer_of.remaining ≡ suc n
      → ((m : ℕ)
          → m ≤ n
          → Shows j (record timer_of { remaining = suc n - m }) (soft_updates image m w))
        × Shows j
            (record timer_of { remaining = timer_of.period_ticks })
            (soft_updates image (suc n) w)
  periodic_exact n on p e = (
    (λ m q. counts m n on e q),
    another n (record timer_of { remaining = suc n - n }) _ (counts n n on e (omega arith))
        (elapsed_last (record timer_of { remaining = suc n - n }) on p (omega arith)),
  )

  stays_off :
      (n m : ℕ)
      → Shows j (record timer_of { remaining = 0; active = false }) (soft_updates image n w)
      → Shows j
          (record timer_of { remaining = 0; active = false })
          (soft_updates image (after m n) w)
  stays_off n zero s = s
  stays_off n (suc m) s =
      another (after m n) _ _ (stays_off n m s) (elapsed_off (record timer_of { remaining = 0 }))

  -- For well-formed timers, and callbacks that return and leave the timers alone, a one-shot timer
  -- that is armed with `n + 1` ticks to go has one tick less after each of the first `n` updates of
  -- the software timers, which do not fault, is disarmed by the next one, and stays so in all
  -- further updates.
  pub one_shot_exact :
      (n : ℕ)
      → armed timer_of ≡ true
      → is_periodic timer_of.mode ≡ false
      → timer_of.remaining ≡ suc n
      → ((m : ℕ)
          → m ≤ n
          → Shows j (record timer_of { remaining = suc n - m }) (soft_updates image m w))
        × ((m : ℕ)
            → Shows j
                (record timer_of { remaining = 0; active = false })
                (soft_updates image (after m (suc n)) w))
  one_shot_exact n on p e = (
    (λ m q. counts m n on e q),
    (λ m. stays_off (suc n) m (
        another n (record timer_of { remaining = suc n - n }) _ (counts n n on e (omega arith))
          (elapsed_once (record timer_of { remaining = suc n - n }) on p (omega arith)))),
  )
