-- ===== src/Event/Wake.antt =====
-- `event_flags_set`: the waiters that it leaves in the table.
use mini_rtos_sim.Base.{
  ◌==◌, ==_ne, Bool-cases, set, and_within, ℕ, zero, suc, ◌-◌, ◌^◌, ◌≤◌, ◌<◌, ◌≡◌, ◌≢◌, ◌↔◌, inl,
  inr, true, false, some, arith,
}
use mini_rtos_sim.Kernel.{Kernel}
use mini_rtos_sim.Event.{
  EventFlags, free_slot, and32, or32, and_not32, satisfied, serve_slot, scan_slot, scan_loop,
  event_flags_set,
}

satisfied_iff : (flags mask : ℕ) → (satisfied flags mask ≡ true) ↔ (and32 flags mask ≡ mask)
unfolding satisfied
satisfied_iff flags mask = ((λ h. ground arith), (λ h. ground (arith, h)))

-- Clearing flags satisfies nobody.
cleared_unsatisfied :
    (flags bits mask : ℕ)
    → satisfied flags mask ≡ false
    → satisfied (and_not32 flags bits) mask ≡ false
unfolding and_not32 and32
cleared_unsatisfied flags bits mask h = elim (Bool-cases (satisfied (and_not32 flags bits) mask)) [
  | inr e ↦ e
  | inl e ↦
      let all =
        and_within flags (2 ^ 32 - 1 - bits) mask
          ((satisfied_iff (and_not32 flags bits) mask).0 e) in
      cc ((satisfied_iff flags mask).1 all, h)
]

-- No waiter from slot `i` on finds all its flags set.
abbrev pub Unserved : ℕ → EventFlags → Type 0
Unserved i ef =
    (j : ℕ) → i ≤ j → j < ef.waiter_count → satisfied ef.flags (ef.waiters j).required_mask ≡ false

serve-Unserved :
    (i : ℕ) (ef : EventFlags) (k : Kernel)
    → i < ef.waiter_count
    → Unserved (suc i) ef
    → let ef' = (serve_slot i ef k).0 in Unserved i ef' × (i ≤ ef'.waiter_count)
unfolding serve_slot
serve-Unserved i ef k h u = (
  (λ j p q.
      let last = ef.waiter_count - 1 in
      let kept : satisfied ef.flags (set ef.waiters i (ef.waiters last) j).required_mask ≡ false =
        ground (arith, u last, u j) in
      let same : set (set ef.waiters i (ef.waiters last)) last free_slot j
          ≡ set ef.waiters i (ef.waiters last) j =
        ground arith in
      rw same (cleared_unsatisfied ef.flags (ef.waiters i).required_mask _ kept)),
  omega arith,
)

scan_slot-Unserved :
    (i : ℕ) (ef : EventFlags) (k : Kernel)
    → i < ef.waiter_count
    → Unserved (suc i) ef
    → let ef' = (scan_slot i ef k).0 in Unserved i ef' × (i ≤ ef'.waiter_count)
unfolding scan_slot
scan_slot-Unserved i ef k h u =
    elim (Bool-cases (satisfied ef.flags (ef.waiters i).required_mask)) [
      | inl e ↦ rw e (serve-Unserved i ef k h u)
      | inr e ↦ rw e (
        (λ j p q. elim (Bool-cases (i == j)) [
          | inl same ↦ let same' : i ≡ j = ground arith in rw (← same') e
          | inr other ↦ u j (ground arith) q
        ]),
        omega arith,
      )
    ]

pub scan_loop-Unserved :
    (i : ℕ) (ef : EventFlags) (k : Kernel)
    → i ≤ ef.waiter_count
    → Unserved i ef
    → Unserved 0 (scan_loop i ef k).0
unfolding scan_loop
scan_loop-Unserved zero ef k h u = u
scan_loop-Unserved (suc i) ef k h u =
    let (u', h') = scan_slot-Unserved i ef k (omega arith) u in
    scan_loop-Unserved i (scan_slot i ef k).0 (scan_slot i ef k).1 h' u'

-- After `event_flags_set` with a mask other than 0, no waiter is left in the table whose
-- required flags are all set.
pub event_set-Unserved :
    (ef : EventFlags) (mask : ℕ) (k : Kernel)
    → mask ≢ 0
    → (ef' : EventFlags) × ((event_flags_set (some ef) mask k).0 ≡ some ef') × Unserved 0 ef'
unfolding event_flags_set
event_set-Unserved ef mask k h =
    let raised = record ef { flags = or32 ef.flags mask } in
    (
      (scan_loop ef.waiter_count raised k).0,
      rw (==_ne mask 0 h),
      scan_loop-Unserved ef.waiter_count raised k (omega arith) (λ j p q. absurd (omega arith)),
    )
