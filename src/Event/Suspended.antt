-- ===== src/Event/Suspended.antt =====
-- Event flags and suspension.
use mini_rtos_sim.Base.{
  ==_refl, ==_ne, and_or, pos, ℕ, suc, ◌<◌, ◌≡◌, refl, sym, ap, ◌∙◌, ◌≢◌, Bool, true, false, Option,
  some, arith,
}
use mini_rtos_sim.Task.{blocked, ready, suspended, block_none, is_ready, block_event}
use mini_rtos_sim.Kernel.{Kernel, scheduler_set_task_state, rtos_current_task}
use mini_rtos_sim.Kernel.Invariant.{IsValid}
use mini_rtos_sim.Kernel.Transition.{
  set_current-eq, tasks-set_task_state, frame-set_task_state, set_task_state-IsValid,
}
use mini_rtos_sim.Tasks.{rtos_suspend_task, rtos_get_task_state}
use mini_rtos_sim.Tasks.Suspend.{suspend_task_lem, state-eq}
use mini_rtos_sim.Tasks.Progress.{suspend_task-Progress}
use mini_rtos_sim.Event.{
  EventFlags, satisfied, and32, or32, scan_slot, serve_slot, scan_loop, event_flags_set,
  event_flags_wait,
}
use mini_rtos_sim.Event.Wait.{EventWaited, taken, full, waits, event_wait-EventWaited}

raised_satisfied : (flags mask : ℕ) → satisfied (or32 flags mask) mask ≡ true
unfolding satisfied and32 or32
raised_satisfied flags mask = let e = and_or flags mask in rw e (==_refl mask)

-- A set that wakes the only waiter.
set_single :
    (ef : EventFlags) (mask : ℕ) (k : Kernel) (i : ℕ)
    → ef.waiter_count ≡ 1
    → mask ≢ 0
    → ef.waiters 0 ≡ record { task_index = pos i; required_mask = mask }
    → (event_flags_set (some ef) mask k).1 ≡ scheduler_set_task_state (pos i) ready block_none k
unfolding event_flags_set scan_loop
set_single ef mask k i one nz w =
    rw (==_ne mask 0 nz, one)
      (unfold scan_slot serve_slot in rw (w, raised_satisfied ef.flags mask) refl)

-- The three calls: the task `i` waits, it is suspended, and then the flags are set.
abbrev pub Overridden : ℕ → ℕ → Bool × Option EventFlags × Kernel → Type 0
Overridden i mask r =
    let s = rtos_suspend_task (pos (suc i)) r.2 in
    let t = event_flags_set r.1 mask s.1 in
    (rtos_get_task_state (pos (suc i)) s.1 ≡ suspended)
    × (is_ready (rtos_get_task_state (pos (suc i)) t.1) ≡ true)

Waited-Overridden :
    (ef : EventFlags) (mask : ℕ) (k : Kernel) (i : ℕ) (r : Bool × Option EventFlags × Kernel)
    → mask ≢ 0
    → ef.waiter_count ≡ 0
    → satisfied ef.flags mask ≡ false
    → i < k.task_count
    → EventWaited ef mask k i r
    → Overridden i mask r
Waited-Overridden ef mask k i _ nz none_waits unset h (taken s) = absurd (cc (s, unset))
Waited-Overridden ef mask k i _ nz none_waits unset h (full s f) =
    absurd (omega (arith, none_waits))
Waited-Overridden ef mask k i _ nz none_waits unset h
      (waits {ef'} {k'} s room same count mine old b) =
    let h' : i < k'.task_count = omega (arith, b.count) in
    let (found, v2, at, queue, others) = suspend_task_lem i b.valid h' in
    let k2 = (rtos_suspend_task (pos (suc i)) k').1 in
    let g = suspend_task-Progress (pos (suc i)) b.valid in
    let h2 : i < k2.task_count = omega (arith, g.count_le) in
    let woken : (event_flags_set (some ef') mask k2).1
        ≡ scheduler_set_task_state (pos i) ready block_none k2 =
      set_single ef' mask k2 i (omega (arith, count, none_waits)) nz
        (ap ef'.waiters (sym none_waits) ∙ mine) in
    (
      at,
      rw woken (
          let v3 = set_task_state-IsValid v2 i h2 ready block_none in
          let n = (frame-set_task_state v2 i h2 ready block_none).1 in
          ap is_ready (state-eq i v3 (omega (arith, n)))
          ∙ ground (arith, tasks-set_task_state v2 i h2 ready block_none i, ==_refl i)),
    )

-- Let the task `i` run in a valid kernel, where nobody waits for the group and not all bits of
-- `mask`, at least one, are set. If it waits for them, is suspended by `rtos_suspend_task`, and then
-- the bits are set, it is READY again although nobody has resumed it: the set acts on the entry that
-- the wait has left in the table of waiters.
pub set_overrides_suspend :
    (ef : EventFlags) (mask : ℕ) {k : Kernel} (i : ℕ)
    → mask ≢ 0
    → ef.waiter_count ≡ 0
    → satisfied ef.flags mask ≡ false
    → IsValid k
    → rtos_current_task k ≡ some i
    → Overridden i mask (event_flags_wait (some ef) mask k)
set_overrides_suspend ef mask {k} i nz none_waits unset v e =
    Waited-Overridden ef mask k i _ nz none_waits unset (set_current-eq v blocked block_event i e).0
      (event_wait-EventWaited ef mask i nz v e)
