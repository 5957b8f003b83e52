-- ===== src/Event/Progress.antt =====
-- What the calls on event flags keep of the kernel.
use mini_rtos_sim.Base.{leb, ◌==◌, Bool-cases, ℕ, zero, suc, refl, inl, inr, some}
use mini_rtos_sim.Task.{ready, blocked, block_none, block_event}
use mini_rtos_sim.Kernel.{Kernel}
use mini_rtos_sim.Kernel.Invariant.{IsValid}
use mini_rtos_sim.Kernel.Progress.{
  Progress, Progress-refl, Progress-trans, set_task_state-Progress, set_current-Progress,
}
use mini_rtos_sim.Event.{
  EventFlags, satisfied, or32, scan_slot, scan_loop, event_flags_set, event_flags_wait,
  event_max_waiters,
}

pub scan_slot-Progress :
    (i : ℕ) (ef : EventFlags) {k : Kernel} → IsValid k → Progress k (scan_slot i ef k).1
unfolding scan_slot
scan_slot-Progress i ef {k} v =
    elim (Bool-cases (satisfied ef.flags (ef.waiters i).required_mask)) [
      | inl e ↦ rw e (set_task_state-Progress (ef.waiters i).task_index ready block_none v refl)
      | inr e ↦ rw e (Progress-refl v)
    ]

scan_loop-Progress :
    (i : ℕ) (ef : EventFlags) {k : Kernel} → IsValid k → Progress k (scan_loop i ef k).1
unfolding scan_loop
scan_loop-Progress zero ef v = Progress-refl v
scan_loop-Progress (suc i) ef {k} v =
    let p = scan_slot-Progress i ef v in
    Progress-trans p (scan_loop-Progress i (scan_slot i ef k).0 p.valid)

pub event_set-Progress :
    (ef : EventFlags) (mask : ℕ) {k : Kernel}
    → IsValid k
    → Progress k (event_flags_set (some ef) mask k).1
unfolding event_flags_set
event_set-Progress ef mask {k} v = elim (Bool-cases (mask == 0)) [
  | inl e ↦ rw e (Progress-refl v)
  | inr e ↦ rw e (scan_loop-Progress ef.waiter_count (record ef { flags = or32 ef.flags mask }) v)
]

pub event_wait-Progress :
    (ef : EventFlags) (mask : ℕ) {k : Kernel}
    → IsValid k
    → Progress k (event_flags_wait (some ef) mask k).2
unfolding event_flags_wait
event_wait-Progress ef mask {k} v = elim (Bool-cases (mask == 0)) [
  | inl e ↦ rw e (Progress-refl v)
  | inr e ↦ elim (Bool-cases (satisfied ef.flags mask)) [
    | inl s ↦ rw (e, s) (Progress-refl v)
    | inr s ↦ elim (Bool-cases (leb event_max_waiters ef.waiter_count)) [
      | inl f ↦ rw (e, s, f) (Progress-refl v)
      | inr f ↦ rw (e, s, f) (set_current-Progress blocked block_event v refl)
    ]
  ]
]
