-- ===== src/Event/Wait.antt =====
-- `event_flags_wait`: its outcomes, and what a woken task finds.
use mini_rtos_sim.Task.{block_event, blocked}
use mini_rtos_sim.Base.{
  leb, ==_ne, Bool-cases, and_cleared, pos, ℕ, suc, ◌^◌, ◌≤◌, ◌<◌, ◌≡◌, refl, ◌≢◌, inl, inr, Bool,
  true, false, Option, some, arith,
}
use mini_rtos_sim.Kernel.{Kernel, rtos_current_task, scheduler_current_task_index}
use mini_rtos_sim.Kernel.Invariant.{IsValid}
use mini_rtos_sim.Kernel.Transition.{set_current-eq}
use mini_rtos_sim.Sync.Block.{Blocks, set_current-Blocks}
use mini_rtos_sim.Event.{
  EventFlags, event_max_waiters, and32, or32, and_not32, satisfied, serve_slot, scan_slot,
  scan_loop, event_flags_set, event_flags_wait,
}

-- What a wait promises the caller `i`.
pub data EventWaited (ef : EventFlags) (mask : ℕ) (k : Kernel) (i : ℕ)
    : Bool × Option EventFlags × Kernel → Type 0 where
  taken :
      satisfied ef.flags mask ≡ true
      → EventWaited ef mask k i (true, some (record ef { flags = and_not32 ef.flags mask }), k)
  full :
      satisfied ef.flags mask ≡ false
      → event_max_waiters ≤ ef.waiter_count
      → EventWaited ef mask k i (false, some ef, k)
  waits :
      {ef' : EventFlags} {k' : Kernel}
      → satisfied ef.flags mask ≡ false
      → ef.waiter_count < event_max_waiters
      → ef'.flags ≡ ef.flags
      → ef'.waiter_count ≡ suc ef.waiter_count
      → ef'.waiters ef.waiter_count ≡ record { task_index = pos i; required_mask = mask }
      → ((j : ℕ) → j < ef.waiter_count → ef'.waiters j ≡ ef.waiters j)
      → Blocks k i block_event k'
      → EventWaited ef mask k i (false, some ef', k')

-- From a valid kernel with the current task `i`, and for a mask other than 0:
-- `event_flags_wait` takes the flags and returns true, with no change of the kernel, if all of
-- them are set; it returns false and changes nothing, so that the caller is not blocked, if
-- they are not and the table of waiters is full; otherwise it returns false, records the caller
-- and its mask behind the other waiters, and blocks the caller.
pub event_wait-EventWaited :
    (ef : EventFlags) (mask : ℕ) {k : Kernel} (i : ℕ)
    → mask ≢ 0
    → IsValid k
    → rtos_current_task k ≡ some i
    → EventWaited ef mask k i (event_flags_wait (some ef) mask k)
unfolding event_flags_wait scheduler_current_task_index
event_wait-EventWaited ef mask {k} i nz v e =
    let some_mask = ==_ne mask 0 nz in
    elim (Bool-cases (satisfied ef.flags mask)) [
      | inl s ↦ rw (some_mask, s) (taken s)
      | inr s ↦ elim (Bool-cases (leb event_max_waiters ef.waiter_count)) [
        | inl f ↦ rw (some_mask, s, f) (full s (ground arith))
        | inr f ↦
            let c = (set_current-eq v blocked block_event i e).1 in
            rw (some_mask, s, f)
              (waits s (ground arith) refl refl (ground (arith, v.bound, c)) (λ j h. ground arith)
                (set_current-Blocks i block_event v e))
      ]
    ]

cleared_satisfied :
    (flags mask : ℕ) → 0 < mask → mask < 2 ^ 32 → satisfied (and_not32 flags mask) mask ≡ false
unfolding satisfied and_not32 and32
cleared_satisfied flags mask p q = let z = and_cleared 32 flags mask q in ground (arith, z)

-- When the only waiter of a group requires the flags `bits`, at least one of 32, and
-- `event_flags_set` with a mask other than 0 makes them all set, which wakes it, then a check
-- of the same flags by `event_flags_wait` on the group that is left returns false, for any
-- kernel.
pub woken_waits_again :
    (ef : EventFlags) (mask bits : ℕ) (k k' : Kernel)
    → ef.waiter_count ≡ 1
    → mask ≢ 0
    → 0 < bits
    → bits < 2 ^ 32
    → (ef.waiters 0).required_mask ≡ bits
    → satisfied (or32 ef.flags mask) bits ≡ true
    → (event_flags_wait (event_flags_set (some ef) mask k).0 bits k').0 ≡ false
unfolding event_flags_wait event_flags_set scan_loop
woken_waits_again ef mask bits k k' one nz p q alone s =
    let raised = record ef { flags = or32 ef.flags mask } in
    let empty = cleared_satisfied (or32 ef.flags mask) bits p q in
    rw (==_ne mask 0 nz, one) (unfold scan_slot serve_slot in ground (arith, alone, s, empty))
