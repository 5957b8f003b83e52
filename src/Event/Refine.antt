-- ===== src/Event/Refine.antt =====
-- `event_flags_set` as what it promises: waiters whose flags are all set are served one by one, in
-- an order left open, until there is none.
use mini_rtos_sim.Base.{
  ltb, ltb→lt, ==_iff, ==_ne, Bool-cases, eqb_ℤ, ℤ, pos, negsuc, ℕ, zero, suc, ◌≤◌, ◌<◌, ◌≡◌, refl,
  ap, ◌≢◌, inl, inr, Bool, true, false, ◌||◌, some, List, [], ◌∷◌, arith,
}
use mathlib.Mathlib.Data.Multiset.Defs.{Multiset}
use mathlib.Mathlib.Data.Multiset.ZeroCons.{cons}
use mini_rtos_sim.Task.{ready, block_none, is_ready}
use mini_rtos_sim.Kernel.{Kernel, scheduler_set_task_state}
use mini_rtos_sim.Kernel.Invariant.{IsValid}
use mini_rtos_sim.Kernel.Progress.{set_beyond}
use mini_rtos_sim.Kernel.Transition.{
  tasks-set_task_state, frame-set_task_state, set_task_state-IsValid,
}
use mini_rtos_sim.Event.{
  EventWaiter, EventFlags, or32, and_not32, satisfied, serve_slot, scan_slot, scan_loop,
  event_flags_set,
}
use mini_rtos_sim.Event.Table.{table, table-serve_slot}
use mini_rtos_sim.Event.Wake.{Unserved, scan_loop-Unserved}

-- The flags and the waiters, in no order.
pub record Group : Type 0 where
  pub flags : ℕ
  pub waiting : Multiset EventWaiter

abbrev pub unordered : EventFlags → Group
unordered ef = record { flags = ef.flags; waiting = table ef }

-- From `g` the waiters `ws` are served in turn, which leads to `g'`: each one finds all its flags
-- set, takes them, and leaves.
pub data Serves : Group → Group → List EventWaiter → Type 0 where
  over : {g : Group} → Serves g g []
  serve :
      {g g' : Group} {ws : List EventWaiter} (w : EventWaiter) (rest : Multiset EventWaiter)
      → satisfied g.flags w.required_mask ≡ true
      → g.waiting ≡ cons w rest
      → Serves (record { flags = and_not32 g.flags w.required_mask; waiting = rest }) g' ws
      → Serves g g' (w ∷ ws)

-- The tasks of served waiters become READY in turn.
abbrev pub wake : List EventWaiter → Kernel → Kernel
wake [] k = k
wake (w ∷ ws) k = wake ws (scheduler_set_task_state w.task_index ready block_none k)

-- What follows from here is a whole that starts with the given unordered and kernel.
abbrev Follows : EventFlags → Kernel → Group × Kernel → Type 0
Follows ef k r = (ws : List EventWaiter) × Serves (unordered ef) r.0 ws × (r.1 ≡ wake ws k)

scan_slot-Follows :
    (i : ℕ) (ef : EventFlags) (k : Kernel) (r : Group × Kernel)
    → i < ef.waiter_count
    → let s = scan_slot i ef k in (i ≤ s.0.waiter_count) × (Follows s.0 s.1 r → Follows ef k r)
unfolding scan_slot serve_slot
scan_slot-Follows i ef k r h = elim (Bool-cases (satisfied ef.flags (ef.waiters i).required_mask)) [
  | inr waits ↦ rw waits (omega arith, λ f. f)
  | inl all ↦
      let step = table-serve_slot i ef k h in
      rw all (
        omega arith,
        λ f.
            let (ws, s, e) = f in
            (ef.waiters i ∷ ws, serve (ef.waiters i) _ all (unfold serve_slot in step) s, e),
      )
]

scan_loop-Follows :
    (i : ℕ) (ef : EventFlags) (k : Kernel)
    → i ≤ ef.waiter_count
    → let r = scan_loop i ef k in Follows ef k (unordered r.0, r.1)
unfolding scan_loop
scan_loop-Follows zero ef k h = ([], over, refl)
scan_loop-Follows (suc i) ef k h =
    let (h', back) = scan_slot-Follows i ef k _ (omega arith) in
    back (scan_loop-Follows i (scan_slot i ef k).0 (scan_slot i ef k).1 h')

-- One of the waiters is the task `j`.
abbrev pub among : ℕ → List EventWaiter → Bool
among j [] = false
among j (w ∷ ws) = eqb_ℤ w.task_index (pos j) || among j ws

woken_one :
    {k : Kernel} (c : ℤ)
    → IsValid k
    → let k' = scheduler_set_task_state c ready block_none k in
      IsValid k'
      × (k'.task_count ≡ k.task_count)
      × ((j : ℕ)
          → j < k.task_count
          → is_ready (k'.tasks j).state ≡ (eqb_ℤ c (pos j) || is_ready (k.tasks j).state))
woken_one (negsuc n) v = unfold scheduler_set_task_state in (v, refl, λ j h. ground arith)
woken_one {k} (pos i) v = elim (Bool-cases (ltb i k.task_count)) [
  | inl below ↦
      let h = ltb→lt i k.task_count below in
      let at = tasks-set_task_state v i h ready block_none in
      (
        set_task_state-IsValid v i h ready block_none,
        (frame-set_task_state v i h ready block_none).1,
        (λ j p. ground (arith, at j, ==_iff j i)),
      )
  | inr beyond ↦ rw (set_beyond k i ready block_none beyond) (v, refl, λ j h. ground arith)
]

wake_lem :
    (ws : List EventWaiter) {k : Kernel}
    → IsValid k
    → IsValid (wake ws k)
      × ((j : ℕ)
          → j < k.task_count
          → is_ready ((wake ws k).tasks j).state ≡ (among j ws || is_ready (k.tasks j).state))
wake_lem [] v = (v, λ j h. refl)
wake_lem (w ∷ ws) {k} v =
    let (v1, n, at1) = woken_one w.task_index v in
    let (v2, at2) = wake_lem ws v1 in
    (v2, λ j h. ground (arith, at1 j h, at2 j (omega (arith, n, h))))

-- From a valid kernel, and for a mask other than 0, `event_flags_set` raises the flags and then
-- serves waiters one after the other, in an order that this leaves open: each of them is in the
-- table, finds all its flags set, takes them and leaves the table; it ends when no waiter that
-- is left finds all its flags set. The kernel stays valid, and of the tasks those are READY
-- that were READY before and those that have been served.
pub event_set-Serves :
    (ef : EventFlags) (mask : ℕ) {k : Kernel}
    → mask ≢ 0
    → IsValid k
    → (ef' : EventFlags) × (ws : List EventWaiter) × (k' : Kernel) × (event_flags_set
          (some ef)
          mask
          k
        ≡ (some ef', k'))
      × Serves (record { flags = or32 ef.flags mask; waiting = table ef }) (unordered ef') ws
      × Unserved 0 ef'
      × IsValid k'
      × ((j : ℕ)
          → j < k.task_count
          → is_ready (k'.tasks j).state ≡ (among j ws || is_ready (k.tasks j).state))
unfolding event_flags_set
event_set-Serves ef mask {k} h v =
    let raised = record ef { flags = or32 ef.flags mask } in
    let (ws, s, e) = scan_loop-Follows ef.waiter_count raised k (omega arith) in
    let (v', at) = wake_lem ws v in
    (
      (scan_loop ef.waiter_count raised k).0,
      ws,
      wake ws k,
      rw (==_ne mask 0 h) (ap (λ k'. (some (scan_loop ef.waiter_count raised k).0, k')) e),
      s,
      scan_loop-Unserved ef.waiter_count raised k (omega arith) (λ j p q. absurd (omega arith)),
      v',
      at,
    )
