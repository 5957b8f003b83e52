-- ===== src/Tests/Events.antt =====
-- Event flags, timers and shared wake-ups at concrete inputs.
use mini_rtos_sim.Base.{
  inc_int, set, pos, ℕ, zero, suc, ◌-◌, ◌≤◌, ◌<◌, ◌≡◌, refl, ap, ◌≢◌, true, false, ◌||◌, some, List,
  arith,
}
use mini_rtos_sim.Kernel.{
  Kernel, waits_for, scheduler_set_current_task_state, scheduler_set_task_state,
}
use mini_rtos_sim.Sync.{rtos_sem_signal}
use mini_rtos_sim.Sync.Block.{Blocks, set_current-Blocks}
use mini_rtos_sim.Sync.Shared.{Top, sem_signal_wakes_any}
use mini_rtos_sim.Tasks.{rtos_create_task}
use mini_rtos_sim.Boot.{rtos_init}
use mini_rtos_sim.Timer.{one_shot, periodic, timer_init, put, zero_timer}
use mini_rtos_sim.Run.{World}
use mini_rtos_sim.Run.Exec.{exec}
use mini_rtos_sim.Demo.{set_up, demo}
use mini_rtos_sim.Scheduler.Countdown.{KeepsTimers}
use mini_rtos_sim.Timer.Armed.{AreTimers, put-AreTimers}
use mini_rtos_sim.Scheduler.Periodic.{after, one_shot_exact, soft_updates, Shows, periodic_exact}
use mini_rtos_sim.Event.Table.{table}
use mini_rtos_sim.Event.Refine.{Serves, unordered, among, event_set-Serves}
use mini_rtos_sim.Task.{blocked, block_semaphore, is_ready}
use mini_rtos_sim.Kernel.Invariant.{IsValid}
use mini_rtos_sim.Event.{
  EventFlags, free_slot, satisfied, or32, and32, event_flags_set, event_flags_wait, EventWaiter,
}
use mini_rtos_sim.Tests.Worlds.{
  three, three_count, in_first, in_first_lem, zero_world, three-IsValid,
}
use mini_rtos_sim.Event.Wake.{Unserved}
use mini_rtos_sim.Event.Wait.{EventWaited, event_wait-EventWaited, woken_waits_again}

-- The task 0 waits for the flag 1.
abbrev group : EventFlags
group = record {
  flags = 4;
  waiters = set (λ i. free_slot) 0 (record { task_index = pos 0; required_mask = 1 });
  waiter_count = 1;
}

event_set-Serves_example :
    (ef' : EventFlags) × (ws : List EventWaiter) × (k' : Kernel) × (event_flags_set
        (some group)
        3
        three
      ≡ (some ef', k'))
    × Serves (record { flags = or32 group.flags 3; waiting = table group }) (unordered ef') ws
    × Unserved 0 ef'
    × IsValid k'
    × ((j : ℕ)
        → j < three.task_count
        → is_ready (k'.tasks j).state ≡ (among j ws || is_ready (three.tasks j).state))
event_set-Serves_example = event_set-Serves group 3 (omega arith) three-IsValid

event_wait-EventWaited_example :
    EventWaited group 2 in_first 0 (event_flags_wait (some group) 2 in_first)
event_wait-EventWaited_example =
    event_wait-EventWaited group 2 0 (omega arith) in_first_lem.0 in_first_lem.1

enough : satisfied (or32 4 3) 1 ≡ true
unfolding satisfied or32 and32
enough = refl

woken_waits_again_example :
    (event_flags_wait (event_flags_set (some group) 3 three).0 1 in_first).0 ≡ false
woken_waits_again_example =
    woken_waits_again group 3 1 three in_first refl (omega arith) (omega arith) (omega arith) refl
      enough

abbrev waiting : Kernel
waiting = scheduler_set_current_task_state blocked block_semaphore in_first

waiting_first : Blocks in_first 0 block_semaphore waiting
waiting_first = set_current-Blocks 0 block_semaphore in_first_lem.0 in_first_lem.1

nobody_waits : (j : ℕ) → j < 3 → waits_for block_semaphore (three.tasks j) ≡ false
unfolding waits_for set_up rtos_init rtos_create_task scheduler_set_task_state
nobody_waits zero h = refl
nobody_waits (suc zero) h = refl
nobody_waits (suc (suc zero)) h = refl
nobody_waits (suc (suc (suc j))) h = absurd (omega arith)

waiting-Top : Top waiting 0
waiting-Top = (
  (omega (arith, waiting_first.count, three_count), waiting_first.waits),
  (λ j ne w.
      let small : j < 3 = omega (arith, waiting_first.count, three_count, w.0) in
      let same = ap (waits_for block_semaphore) (waiting_first.others j ne) in
      absurd (cc (same, nobody_waits j small, w.1))),
)

sem_signal_wakes_any_example :
    (k' : Kernel) × (rtos_sem_signal (record { count = pos 7 }) waiting
      ≡ some (record { count = inc_int (pos 7) }, k'))
    × (is_ready (k'.tasks 0).state ≡ true)
    × ((j : ℕ) → j ≢ 0 → k'.tasks j ≡ waiting.tasks j)
sem_signal_wakes_any_example =
    sem_signal_wakes_any (record { count = pos 7 }) 0 waiting_first.valid waiting-Top

-- The callbacks of the demonstration do nothing.
keeps : KeepsTimers (demo 1000)
unfolding exec
keeps callback arg w = (w, refl, refl)

-- A periodic timer in slot 0, with two ticks to go.
abbrev blinking : World
blinking = record zero_world {
  timer = put timer_init 0 (record zero_timer {
    mode = periodic;
    period_ticks = 4;
    remaining = 2;
    callback = 9;
    active = true;
    in_use = true;
  });
}

blinking-AreTimers : AreTimers blinking.timer
unfolding timer_init
blinking-AreTimers =
    put-AreTimers timer_init 0 (blinking.timer.soft_timers 0) (λ i u. absurd (cc u))
      (λ u. ((λ e. absurd (ground arith)), (λ e. absurd (ground arith)), omega arith))

periodic_exact_example :
    ((m : ℕ)
      → m ≤ 1
      → Shows 0
          (record (blinking.timer.soft_timers 0) { remaining = 2 - m })
          (soft_updates (demo 1000) m blinking))
    × Shows 0
        (record (blinking.timer.soft_timers 0) { remaining = 4 })
        (soft_updates (demo 1000) 2 blinking)
periodic_exact_example =
    periodic_exact (demo 1000) keeps blinking blinking-AreTimers 0 (omega arith) 1 refl refl refl

-- The same, but one-shot.
abbrev alarm : World
alarm = record blinking {
  timer = put timer_init 0 (record (blinking.timer.soft_timers 0) { mode = one_shot });
}

alarm-AreTimers : AreTimers alarm.timer
unfolding timer_init
alarm-AreTimers =
    put-AreTimers timer_init 0 (alarm.timer.soft_timers 0) (λ i u. absurd (cc u))
      (λ u. ((λ e. absurd (ground arith)), (λ e. absurd (ground arith)), omega arith))

one_shot_exact_example :
    ((m : ℕ)
      → m ≤ 1
      → Shows 0
          (record (alarm.timer.soft_timers 0) { remaining = 2 - m })
          (soft_updates (demo 1000) m alarm))
    × ((m : ℕ)
        → Shows 0
            (record (alarm.timer.soft_timers 0) { remaining = 0; active = false })
            (soft_updates (demo 1000) (after m 2) alarm))
one_shot_exact_example =
    one_shot_exact (demo 1000) keeps alarm alarm-AreTimers 0 (omega arith) 1 refl refl refl
