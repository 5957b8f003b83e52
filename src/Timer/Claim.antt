-- ===== src/Timer/Claim.antt =====
-- The pool of software timers: claims of slots.
use mini_rtos_sim.Base.{
  ◌==◌, ==_ne, Bool-cases, ℕ, zero, suc, ◌+◌, ◌≤◌, ◌<◌, ◌≡◌, ◌≢◌, inl, inr, true, false, Option,
  none, some, arith,
}
use Prim.Native.String.{String}
use mini_rtos_sim.Timer.{
  TimerMode, SoftTimer, Timer, soft_timer_count, put, claim_loop, timer_soft_create,
}

-- What a claim of a slot for the timer `t` promises, from slot `i` on.
pub data Claimed (t : SoftTimer) (timer : Timer) (i n : ℕ) : Option ℕ × Timer → Type 0 where
  exhausted :
      ((j : ℕ) → i ≤ j → j < i + n → (timer.soft_timers j).in_use ≡ true)
      → Claimed t timer i n (none, timer)
  claimed :
      (s : ℕ)
      → i ≤ s
      → s < i + n
      → (timer.soft_timers s).in_use ≡ false
      → ((j : ℕ) → i ≤ j → j < s → (timer.soft_timers j).in_use ≡ true)
      → Claimed t timer i n (some s, put timer s t)

widen :
    {t : SoftTimer} {timer : Timer} {i n : ℕ} {r : Option ℕ × Timer}
    → (timer.soft_timers i).in_use ≡ true
    → Claimed t timer (suc i) n r
    → Claimed t timer i (suc n) r
widen {i = i} used (exhausted all) = exhausted λ j p q. elim (Bool-cases (i == j)) [
  | inl e ↦ let same : i ≡ j = ground arith in rw (← same) used
  | inr e ↦ all j (ground arith) (omega arith)
]
widen {i = i} used (claimed s p q free before) = claimed s (omega arith) (omega arith) free λ j a b.
    elim (Bool-cases (i == j)) [
      | inl e ↦ let same : i ≡ j = ground arith in rw (← same) used
      | inr e ↦ before j (ground arith) b
    ]

pub loop-Claimed :
    (n i : ℕ) (t : SoftTimer) (timer : Timer) → Claimed t timer i n (claim_loop n i t timer)
unfolding claim_loop
loop-Claimed zero i t timer = exhausted λ j p q. absurd (omega arith)
loop-Claimed (suc n) i t timer = elim (Bool-cases (timer.soft_timers i).in_use) [
  | inl used ↦ rw used (widen used (loop-Claimed n (suc i) t timer))
  | inr free ↦ rw free (claimed i (omega arith) (omega arith) free (λ j a b. absurd (omega arith)))
]

-- The timer that is created, stopped.
abbrev pub made : String → TimerMode → ℕ → ℕ → ℕ → SoftTimer
made name mode period_ticks callback arg = record {
  name = name;
  mode = mode;
  period_ticks = period_ticks;
  remaining = period_ticks;
  callback = callback;
  arg = arg;
  active = false;
  in_use = true;
}

-- With a name, a callback and a period other than 0, `timer_soft_create` claims the first slot
-- that is not in use for the new timer, stopped, and changes no other slot; it returns NULL,
-- with no change, only if every slot is in use.
pub soft_create-Claimed :
    (name : String) (mode : TimerMode) (period_ticks callback arg : ℕ) (timer : Timer)
    → callback ≢ 0
    → period_ticks ≢ 0
    → Claimed
        (made name mode period_ticks callback arg)
        timer
        0
        soft_timer_count
        (timer_soft_create (some name) mode period_ticks callback arg timer)
unfolding timer_soft_create
soft_create-Claimed name mode period_ticks callback arg timer c p =
    rw (==_ne callback 0 c, ==_ne period_ticks 0 p)
      (loop-Claimed soft_timer_count 0 (made name mode period_ticks callback arg) timer)
