-- ===== src/Tests/Timers.antt =====
-- A timer whose callback starts it again, at a concrete input.
use mini_rtos_sim.Base.{◌==◌, ==_ne, Bool-cases, ℕ, ◌≡◌, refl, inl, inr, true, false, some, arith}
use mini_rtos_sim.Tests.Worlds.{zero_world}
use mini_rtos_sim.Timer.{one_shot, put, timer_init, zero_timer}
use mini_rtos_sim.Run.{World, Image, call, done, soft_start}
use mini_rtos_sim.Scheduler.{timer_update_soft}
use mini_rtos_sim.Scheduler.Timed.{Unarmed}
use mini_rtos_sim.Scheduler.Periodic.{soft_updates}
use mini_rtos_sim.Scheduler.Chain.{Chained, Only, started_early}
use mini_rtos_sim.Scheduler.Own.{restart, Due, own_call_ends}

abbrev restarting : Image
restarting = record {
  task_code = λ f. done;
  callback_code = λ callback arg. call (soft_start (some 3)) λ r. done;
  pool_base = 1000;
}

-- The timer in slot 3 expires in the next tick.
abbrev expiring : World
expiring = record zero_world {
  timer = put timer_init 3 (record zero_timer {
    mode = one_shot;
    period_ticks = 5;
    remaining = 1;
    callback = 9;
    active = true;
    in_use = true;
  });
}

expiring-Due : Due restarting restart 3 expiring
unfolding timer_init
expiring-Due = record {
  index_lt = omega arith;
  on = refl;
  last = refl;
  callback = omega arith;
  code = refl;
  disarms = refl;
  others = λ s ne. let off : (s == 3) ≡ false = ==_ne s 3 ne in rw off refl;
}

own_call_ends_example :
    (w' : World) × (timer_update_soft restarting expiring ≡ some w')
    × Unarmed w'
    × ((n : ℕ) → soft_updates restarting n w' ≡ some w')
own_call_ends_example = own_call_ends restarting restart 3 expiring expiring-Due

-- The timer in slot 3 starts the one in slot 5.
abbrev chaining : Image
chaining = record restarting {
  callback_code = λ callback arg. call (soft_start (some 5)) λ r. done;
}

abbrev linked : World
linked = record zero_world {
  timer =
      put expiring.timer 5 (record zero_timer { mode = one_shot; period_ticks = 4; in_use = true });
}

linked-Chained : Chained chaining 3 5 linked
unfolding timer_init
linked-Chained = record {
  i_lt = omega arith;
  j_lt = omega arith;
  apart = omega arith;
  on = refl;
  mode = refl;
  last = refl;
  callback = omega arith;
  code = refl;
  used = refl;
  period = omega arith;
  others = λ s ne. elim (Bool-cases (s == 5)) [
    | inl e ↦ rw e refl
    | inr e ↦ let off : (s == 3) ≡ false = ==_ne s 3 ne in rw (e, off) refl
  ];
}

started_early_example : (w' : World) × (timer_update_soft chaining linked ≡ some w') × Only 5 3 w'
started_early_example = started_early chaining 3 5 linked linked-Chained
