-- ===== src/Scheduler.antt =====
-- src/scheduler.c, the loop, with the update of the software timers of src/timer.c that each
-- cycle makes. A cycle is split into the decision and what is done about it.
pub mod Decide
pub mod Dispatch
pub mod Soft
pub mod Countdown
pub mod Periodic
pub mod Entering
pub mod Act
pub mod Cycle
pub mod Turn
pub mod Rotate
pub mod Rounds
pub mod Preserve
pub mod Clock
pub mod Chosen
pub mod Call
pub mod Doze
pub mod Bystander
pub mod Spare
pub mod Timed
pub mod Deadline
pub mod Gentle
pub mod Lead
pub mod Busy
pub mod Tireless
pub mod Own
pub mod Chain
use mini_rtos_sim.Base.{
  leb, ◌==◌, if◌then◌else◌, ltb_ℤ, eqb_ℤ, set, pos, ℕ, zero, suc, ◌+◌, ◌-◌, ◌%◌, ◌^◌, Bool, false,
  not, ◌&&◌, Option, none, some,
}
use mini_rtos_sim.Context.{object, context_switch, context_restore}
use mini_rtos_sim.Task.{Tcb, ready, running, block_none, is_ready, is_running, time_slice_ticks}
use mini_rtos_sim.Ready.{ready_queue_peek_highest_priority, ready_queue_pop}
use mini_rtos_sim.Kernel.{Kernel, scheduler_set_task_state, current_in}
use mini_rtos_sim.Sync.{◌>>=◌}
use mini_rtos_sim.Timer.{SoftTimer, soft_timer_count, is_periodic, put, timer_tick, update_sleep}
use mini_rtos_sim.Run.{World, Image}
use mini_rtos_sim.Run.Exec.{exec}

-- The end of a round of `timer_update_soft`, after the callback: the timer is read again, since
-- the callback may have changed it.
abbrev pub rearm : SoftTimer → SoftTimer
rearm t =
    if is_periodic t.mode
    then record t { remaining = t.period_ticks }
    else record t { active = false }

abbrev pub countdown : SoftTimer → SoftTimer
countdown t = record t { remaining = t.remaining - 1 }

abbrev pub armed : SoftTimer → Bool
armed t = t.in_use && t.active

-- `remaining` counts down to 0 and stays there, so the subtraction does not wrap. The callback is
-- called without a test for NULL: that is a fault.
unfoldable pub soft_round : Image → ℕ → World → Option World
soft_round image i w =
    let t = countdown (w.timer.soft_timers i) in
    let counted = record w { timer = put w.timer i t } in
    if not (armed (w.timer.soft_timers i))
    then some w
    else if not (t.remaining == 0)
    then some counted
    else if t.callback == 0
    then none
    else do
      w' ← exec image (image.callback_code t.callback t.arg) counted
      some (record w' { timer = put w'.timer i (rearm (w'.timer.soft_timers i)) })

unfoldable pub soft_loop : Image → ℕ → ℕ → World → Option World
soft_loop image zero i w = some w
soft_loop image (suc rounds) i w = soft_round image i w >>= soft_loop image rounds (suc i)

unfoldable pub timer_update_soft : Image → World → Option World
timer_update_soft image w = soft_loop image soft_timer_count 0 w

unfoldable pub timer_update_sleep : Image → World → Option World
timer_update_sleep image w = timer_update_soft image (record w { kernel = update_sleep w.kernel })

-- What a cycle does: no READY task; the first task to run; a switch away from a task that cannot
-- run, that is outranked, or whose slice is over; or the same task once more.
pub data Decision : Type 0 where
  idle : Decision
  first : ℕ → Decision
  forced : ℕ → ℕ → Decision
  preempted : ℕ → ℕ → Decision
  expired : ℕ → ℕ → Decision
  continued : ℕ → Decision

-- The tests of the cycle for a current task `cur` and the best READY task `best`.
unfoldable pub decide_between : (ℕ → Tcb) → ℕ → ℕ → Decision
decide_between tasks cur best =
    let c = tasks cur in
    let b = tasks best in
    if not (is_running c.state) && not (is_ready c.state)
    then forced cur best
    else if ltb_ℤ c.priority b.priority
    then preempted cur best
    else if eqb_ℤ b.priority c.priority
        && leb time_slice_ticks c.slice_ticks_used
        && not (best == cur)
    then expired cur best
    else continued cur

unfoldable pub decide : (ℕ → Tcb) → Option ℕ → Option ℕ → Decision
unfolding decide_between
decide tasks cur none = idle
decide tasks none (some best) = first best
decide tasks (some cur) (some best) = decide_between tasks cur best

-- `task_list[i].slice_ticks_used = f(task_list[i].slice_ticks_used)`
abbrev pub slice : ℕ → (ℕ → ℕ) → Kernel → Kernel
slice i f k = record k {
  tasks = set k.tasks i (record (k.tasks i) { slice_ticks_used = f (k.tasks i).slice_ticks_used });
}

-- `task_function()`; `none` is the fault of a call through NULL.
unfoldable pub call_function : Image → ℕ → World → Option World
call_function image zero w = none
call_function image (suc f) w = exec image (image.task_code (suc f)) w

-- The task runs: from RUNNING, through its code, back to READY if it is still RUNNING.
abbrev pub requeue : ℕ → Kernel → Kernel
requeue i k =
    if is_running (k.tasks i).state then scheduler_set_task_state (pos i) ready block_none k else k

unfoldable pub run_task : Image → ℕ → World → Option World
unfolding call_function
run_task image i w = do
  let start = scheduler_set_task_state (pos i) running block_none w.kernel
  w' ← call_function image (start.tasks i).task_function (record w { kernel = start })
  some (record w' { kernel = requeue i w'.kernel })

abbrev pub load_context : Option ℕ → ℕ → Kernel → Kernel
load_context none incoming k = record k { contexts = context_restore (object incoming) k.contexts }
load_context (some outgoing) incoming k = record k {
  contexts = context_switch (object outgoing) (object incoming) k.contexts;
}

unfoldable pub do_context_switch : Image → Option ℕ → ℕ → World → Option World
unfolding run_task
do_context_switch image outgoing incoming w =
    let loaded = load_context outgoing incoming w.kernel in
    let current = record loaded { current_task_index = pos incoming } in
    run_task image incoming (record w { kernel = slice incoming (λ s. 1) current })

-- The best task leaves the queue.
abbrev pub pop_best : ℕ → Kernel → Kernel
pop_best best k = record k { queue = ready_queue_pop best k.queue }

unfoldable pub act : Image → Option ℕ → Decision → World → Option World
unfolding run_task do_context_switch
act image none idle w = some w
act image (some cur) idle w = some (record w { kernel = slice cur (λ s. 0) w.kernel })
act image at (first best) w =
    do_context_switch image none best (record w { kernel = pop_best best w.kernel })
act image at (forced cur best) w =
    do_context_switch image (some cur) best (record w { kernel = pop_best best w.kernel })
act image at (preempted cur best) w =
    do_context_switch image (some cur) best
      (record w { kernel = pop_best best (requeue cur w.kernel) })
act image at (expired cur best) w =
    do_context_switch image (some cur) best
      (record w { kernel = pop_best best (requeue cur w.kernel) })
act image at (continued cur) w =
    run_task image cur (record w { kernel = slice cur (λ s. (s + 1) % 2 ^ 32) w.kernel })

-- The current task, NULL before `scheduler_init`.
abbrev pub current_of : Kernel → Option ℕ
current_of k = if k.bound then current_in k.current_task_index k.task_count else none

-- One cycle after the clock and the sleepers: peek, decide, act.
unfoldable pub dispatch : Image → World → Option World
unfolding act
dispatch image w =
    let (best, q) = ready_queue_peek_highest_priority w.kernel.tasks w.kernel.queue in
    let k = record w.kernel { queue = q } in
    act image (current_of k) (decide k.tasks (current_of k) best) (record w { kernel = k })

unfoldable pub cycle : Image → World → Option World
cycle image w =
    timer_update_sleep image (record w { timer = timer_tick w.timer }) >>= dispatch image

unfoldable pub scheduler_run : Image → ℕ → World → Option World
scheduler_run image zero w = some w
scheduler_run image (suc ticks) w = cycle image w >>= scheduler_run image ticks

unfoldable pub rtos_run : Image → ℕ → World → Option World
rtos_run image max_ticks w = scheduler_run image max_ticks w
