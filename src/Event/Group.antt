-- ===== src/Event/Group.antt =====
-- What the calls on event flags keep of the table of waiters.
use mini_rtos_sim.Base.{
  leb, ◌==◌, Bool-cases, ◌<ℤ◌, set, pos, ℕ, zero, suc, ◌-◌, ◌≤◌, ◌<◌, ◌≡◌, ◌≢◌, inl, inr, Option,
  none, some, arith,
}
use mini_rtos_sim.Kernel.{Kernel, scheduler_current_task_index}
use mini_rtos_sim.Kernel.Invariant.{IsValid}
use mini_rtos_sim.Event.{
  EventFlags, event_max_waiters, free_slot, satisfied, or32, serve_slot, scan_slot, scan_loop,
  event_flags_set, event_flags_wait, event_flags_clear,
}

-- The table of waiters does not overflow; each waiter requires something, and its index lies
-- below the tasks of the table.
pub record IsGroup (count : ℕ) (ef : EventFlags) : Type 0 where
  pub few : ef.waiter_count ≤ event_max_waiters
  pub waiter :
      (j : ℕ)
      → j < ef.waiter_count
      → ((ef.waiters j).task_index <ℤ pos count) × ((ef.waiters j).required_mask ≢ 0)

pub IsGroup-mono : (m n : ℕ) (ef : EventFlags) → m ≤ n → IsGroup m ef → IsGroup n ef
IsGroup-mono m n ef h g = record {
  few = g.few;
  waiter = λ j p. let (q, r) = g.waiter j p in (omega arith, r);
}

scan_slot-IsGroup :
    (i count : ℕ) (ef : EventFlags) (k : Kernel)
    → i < ef.waiter_count
    → IsGroup count ef
    → let ef' = (scan_slot i ef k).0 in IsGroup count ef' × (i ≤ ef'.waiter_count)
unfolding scan_slot serve_slot
scan_slot-IsGroup i count ef k h g =
    elim (Bool-cases (satisfied ef.flags (ef.waiters i).required_mask)) [
      | inr e ↦ rw e (g, omega arith)
      | inl e ↦
          let last = ef.waiter_count - 1 in
          rw e (
            record {
              few = omega (arith, g.few);
              waiter = λ j p.
                  let same : set (set ef.waiters i (ef.waiters last)) last free_slot j
                      ≡ set ef.waiters i (ef.waiters last) j =
                    ground arith in
                  rw same (elim (Bool-cases (j == i)) [
                    | inl here ↦ rw here (g.waiter last (omega arith))
                    | inr there ↦ rw there (g.waiter j (omega arith))
                  ]);
            },
            omega arith,
          )
    ]

scan_loop-IsGroup :
    (i count : ℕ) (ef : EventFlags) (k : Kernel)
    → i ≤ ef.waiter_count
    → IsGroup count ef
    → IsGroup count (scan_loop i ef k).0
unfolding scan_loop
scan_loop-IsGroup zero count ef k h g = g
scan_loop-IsGroup (suc i) count ef k h g =
    let (g', h') = scan_slot-IsGroup i count ef k (omega arith) g in
    scan_loop-IsGroup i count (scan_slot i ef k).0 (scan_slot i ef k).1 h' g'

-- A predicate of the group behind the pointer.
abbrev pub Behind : (EventFlags → Type 0) → Option EventFlags → Type 0
Behind P none = Unit
Behind P (some ef) = P ef

pub Behind-mono :
    (m n : ℕ) (ef : Option EventFlags) → m ≤ n → Behind (IsGroup m) ef → Behind (IsGroup n) ef
Behind-mono m n none h g = _
Behind-mono m n (some ef) h g = IsGroup-mono m n ef h g

pub event_set-IsGroup :
    (mask count : ℕ) (ef : EventFlags) (k : Kernel)
    → IsGroup count ef
    → Behind (IsGroup count) (event_flags_set (some ef) mask k).0
unfolding event_flags_set
event_set-IsGroup mask count ef k g = elim (Bool-cases (mask == 0)) [
  | inl e ↦ rw e g
  | inr e ↦ rw e (
      scan_loop-IsGroup ef.waiter_count count (record ef { flags = or32 ef.flags mask }) k
        (omega arith) (record { few = g.few; waiter = g.waiter }))
]

pub event_wait-IsGroup :
    (mask : ℕ) (ef : EventFlags) {k : Kernel}
    → IsValid k
    → IsGroup k.task_count ef
    → Behind (IsGroup k.task_count) (event_flags_wait (some ef) mask k).1
unfolding event_flags_wait scheduler_current_task_index
event_wait-IsGroup mask ef {k} v g = elim (Bool-cases (mask == 0)) [
  | inl e ↦ rw e g
  | inr e ↦ elim (Bool-cases (satisfied ef.flags mask)) [
    | inl s ↦ rw (e, s) (record { few = g.few; waiter = g.waiter })
    | inr s ↦ elim (Bool-cases (leb event_max_waiters ef.waiter_count)) [
      | inl f ↦ rw (e, s, f) g
      | inr f ↦
          rw (e, s, f, v.bound)
            (record {
              few = ground arith;
              waiter = λ j p. elim (Bool-cases (j == ef.waiter_count)) [
                | inl new ↦ rw new (v.current_lt, ground arith)
                | inr old ↦ rw old (g.waiter j (ground arith))
              ];
            })
    ]
  ]
]

pub event_clear-IsGroup :
    (mask count : ℕ) (ef : EventFlags)
    → IsGroup count ef
    → Behind (IsGroup count) (event_flags_clear (some ef) mask)
unfolding event_flags_clear
event_clear-IsGroup mask count ef g = record { few = g.few; waiter = g.waiter }
