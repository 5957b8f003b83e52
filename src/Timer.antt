-- ===== src/Timer.antt =====
-- src/timer.c and include/timer.h: the kernel tick, the countdown of sleeping tasks, and the pool
-- of software timers. The update of the armed timers, which runs callbacks, stands in `Scheduler`.
pub mod Sleep
pub mod Peers
pub mod Claim
pub mod Armed
use mini_rtos_sim.Base.{
  ◌==◌, if◌then◌else◌, ltb_ℤ, pred_ℤ, set, pos, ℕ, zero, suc, ◌+◌, ◌%◌, ◌^◌, Bool, true, false, not,
  Option, none, some,
}
use Prim.Native.String.{String}
use mini_rtos_sim.Task.{ready, block_none, block_sleep}
use mini_rtos_sim.Kernel.{Kernel, waits_for, scheduler_set_task_state}

pub data TimerMode : Type 0 where
  one_shot periodic : TimerMode

abbrev pub is_periodic : TimerMode → Bool
is_periodic one_shot = false
is_periodic periodic = true

-- `callback` is the address of the code, 0 for NULL; `arg` is an address too.
pub record SoftTimer : Type 0 where
  pub name : String
  pub mode : TimerMode
  pub period_ticks : ℕ
  pub remaining : ℕ
  pub callback : ℕ
  pub arg : ℕ
  pub active : Bool
  pub in_use : Bool

abbrev pub soft_timer_count : ℕ
soft_timer_count = 8

pub record Timer : Type 0 where
  pub kernel_tick : ℕ
  pub soft_timers : ℕ → SoftTimer

-- What `memset` to zero leaves of a timer: `mode` 0 is one-shot.
abbrev pub zero_timer : SoftTimer
zero_timer = record {
  name = "";
  mode = one_shot;
  period_ticks = 0;
  remaining = 0;
  callback = 0;
  arg = 0;
  active = false;
  in_use = false;
}

unfoldable pub timer_init : Timer
timer_init = record { kernel_tick = 0; soft_timers = λ i. zero_timer }

unfoldable pub timer_tick : Timer → Timer
timer_tick timer = record timer { kernel_tick = (timer.kernel_tick + 1) % 2 ^ 32 }

unfoldable pub timer_now : Timer → ℕ
timer_now timer = timer.kernel_tick

-- One round of the loop of `timer_update_sleep`.
unfoldable pub sleep_round : ℕ → Kernel → Kernel
sleep_round i k =
    let left = pred_ℤ (k.tasks i).sleep_ticks in
    let counted = record k { tasks = set k.tasks i (record (k.tasks i) { sleep_ticks = left }) } in
    if not (waits_for block_sleep (k.tasks i))
    then k
    else if ltb_ℤ (pos 0) left
    then counted
    else scheduler_set_task_state (pos i) ready block_none counted

unfoldable pub sleep_loop : ℕ → ℕ → Kernel → Kernel
sleep_loop zero i k = k
sleep_loop (suc rounds) i k = sleep_loop rounds (suc i) (sleep_round i k)

-- The part of `timer_update_sleep` before the label `update_soft`.
unfoldable pub update_sleep : Kernel → Kernel
update_sleep k = if k.bound then sleep_loop k.task_count 0 k else k

-- A claim of the first free slot, from slot `i` on.
pub claim_loop : ℕ → ℕ → SoftTimer → Timer → Option ℕ × Timer
claim_loop zero i t timer = (none, timer)
claim_loop (suc rounds) i t timer =
    if (timer.soft_timers i).in_use
    then claim_loop rounds (suc i) t timer
    else (some i, record timer { soft_timers = set timer.soft_timers i t })

-- The slot is the pointer that is returned, `none` for NULL; so in the calls below. A name is
-- `none` for NULL.
unfoldable pub timer_soft_create : Option String → TimerMode → ℕ → ℕ → ℕ → Timer → Option ℕ × Timer
unfolding claim_loop
timer_soft_create name mode period_ticks callback arg timer =
    if callback == 0
    then (none, timer)
    else if period_ticks == 0
    then (none, timer)
    else claim_loop soft_timer_count 0
        (record {
          name = elim name [ none ↦ "unnamed" | some n ↦ n ];
          mode = mode;
          period_ticks = period_ticks;
          remaining = period_ticks;
          callback = callback;
          arg = arg;
          active = false;
          in_use = true;
        })
        timer

abbrev pub put : Timer → ℕ → SoftTimer → Timer
put timer i t = record timer { soft_timers = set timer.soft_timers i t }

unfoldable pub timer_soft_start : Option ℕ → Timer → Timer
timer_soft_start none timer = timer
timer_soft_start (some i) timer =
    let t = timer.soft_timers i in
    if not t.in_use
    then timer
    else put timer i (record t { remaining = t.period_ticks; active = true })

unfoldable pub timer_soft_stop : Option ℕ → Timer → Timer
timer_soft_stop none timer = timer
timer_soft_stop (some i) timer =
    let t = timer.soft_timers i in
    if not t.in_use then timer else put timer i (record t { active = false })

unfoldable pub timer_soft_delete : Option ℕ → Timer → Timer
timer_soft_delete none timer = timer
timer_soft_delete (some i) timer =
    let t = timer.soft_timers i in
    if not t.in_use then timer else put timer i (record t { active = false; in_use = false })
