-- ===== src/Event.antt =====
-- src/event.c and include/event.h: groups of 32 event flags with a table of waiters.
pub mod Progress
pub mod Group
pub mod Wake
pub mod Wait
pub mod Table
pub mod Refine
pub mod Suspended
use mini_rtos_sim.Base.{
  leb, ◌==◌, if◌then◌else◌, minus_one, ℤ, set, ℕ, zero, suc, ◌-◌, ◌^◌, Bool, true, false, Option,
  none, some,
}
use Prim.Native.Nat.{bit_and, bit_or}
use mini_rtos_sim.Task.{ready, blocked, block_none, block_event, max_tasks}
use mini_rtos_sim.Kernel.{
  Kernel, scheduler_set_task_state, scheduler_set_current_task_state, scheduler_current_task_index,
}

abbrev pub event_max_waiters : ℕ
event_max_waiters = max_tasks

pub record EventWaiter : Type 0 where
  pub task_index : ℤ
  pub required_mask : ℕ

pub record EventFlags : Type 0 where
  pub flags : ℕ
  pub waiters : ℕ → EventWaiter
  pub waiter_count : ℕ

abbrev pub free_slot : EventWaiter
free_slot = record { task_index = minus_one; required_mask = 0 }

-- `a & b`, and `a & ~b` on 32 bits.
unfoldable pub and32 : ℕ → ℕ → ℕ
and32 a b = bit_and a b

unfoldable pub or32 : ℕ → ℕ → ℕ
or32 a b = bit_or a b

unfoldable pub and_not32 : ℕ → ℕ → ℕ
and_not32 a b = bit_and a (2 ^ 32 - 1 - b)

-- `(flags & mask) == mask`
unfoldable pub satisfied : ℕ → ℕ → Bool
satisfied flags mask = and32 flags mask == mask

init_loop : ℕ → ℕ → (ℕ → EventWaiter) → ℕ → EventWaiter
init_loop zero i waiters = waiters
init_loop (suc rounds) i waiters = init_loop rounds (suc i) (set waiters i free_slot)

-- In these calls `ef` is what the pointer leads to, `none` for NULL.
unfoldable pub event_flags_init : Option EventFlags → Option EventFlags
unfolding init_loop
event_flags_init none = none
event_flags_init (some ef) =
    some
      (record { flags = 0; waiter_count = 0; waiters = init_loop event_max_waiters 0 ef.waiters })

-- The waiter at `i` is served: its bits are cleared, the last waiter takes its slot, and its task
-- becomes READY.
unfoldable pub serve_slot : ℕ → EventFlags → Kernel → EventFlags × Kernel
serve_slot i ef k =
    let w = ef.waiters i in
    let last = ef.waiter_count - 1 in
    (
      record {
        flags = and_not32 ef.flags w.required_mask;
        waiters = set (set ef.waiters i (ef.waiters last)) last free_slot;
        waiter_count = last;
      },
      scheduler_set_task_state w.task_index ready block_none k,
    )

unfoldable pub scan_slot : ℕ → EventFlags → Kernel → EventFlags × Kernel
unfolding serve_slot
scan_slot i ef k =
    if satisfied ef.flags (ef.waiters i).required_mask then serve_slot i ef k else (ef, k)

-- `for (i = n - 1; i >= 0; i--)`
unfoldable pub scan_loop : ℕ → EventFlags → Kernel → EventFlags × Kernel
unfolding scan_slot
scan_loop zero ef k = (ef, k)
scan_loop (suc i) ef k = let (ef', k') = scan_slot i ef k in scan_loop i ef' k'

unfoldable pub event_flags_set : Option EventFlags → ℕ → Kernel → Option EventFlags × Kernel
event_flags_set none mask k = (none, k)
event_flags_set (some ef) mask k =
    let (ef', k') = scan_loop ef.waiter_count (record ef { flags = or32 ef.flags mask }) k in
    if mask == 0 then (some ef, k) else (some ef', k')

unfoldable pub event_flags_clear : Option EventFlags → ℕ → Option EventFlags
event_flags_clear none mask = none
event_flags_clear (some ef) mask = some (record ef { flags = and_not32 ef.flags mask })

unfoldable pub event_flags_wait : Option EventFlags → ℕ → Kernel → Bool × Option EventFlags × Kernel
event_flags_wait none mask k = (false, none, k)
event_flags_wait (some ef) mask k =
    let slot : EventWaiter = record {
      task_index = scheduler_current_task_index k;
      required_mask = mask;
    } in
    if mask == 0
    then (false, some ef, k)
    else if satisfied ef.flags mask
    then (true, some (record ef { flags = and_not32 ef.flags mask }), k)
    else if leb event_max_waiters ef.waiter_count
    then (false, some ef, k)
    else (
      false,
      some (record {
        flags = ef.flags;
        waiters = set ef.waiters ef.waiter_count slot;
        waiter_count = suc ef.waiter_count;
      }),
      scheduler_set_current_task_state blocked block_event k,
    )

unfoldable pub event_flags_get : Option EventFlags → ℕ
event_flags_get none = 0
event_flags_get (some ef) = ef.flags
