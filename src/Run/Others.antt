-- ===== src/Run/Others.antt =====
-- The calls that can change only their caller and the tasks they wake, and the other tasks.
use mini_rtos_sim.Base.{
  leb, ◌==◌, ==_iff, ==_ne, Bool-cases, Option-cases, ℤ, set, pos, ℕ, zero, suc, ◌-◌, ◌≤◌, ◌<◌, ◌≡◌,
  refl, sym, ap, ◌∙◌, ◌≢◌, inl, inr, false, Option, none, some, arith,
}
use Prim.Native.String.{String}
use mini_rtos_sim.Task.{
  is_suspended, ready, blocked, suspended, block_none, block_event, block_sleep, max_tasks,
}
use mini_rtos_sim.Kernel.{Kernel, rtos_current_task}
use mini_rtos_sim.Kernel.Invariant.{IsValid, retask-IsValid}
use mini_rtos_sim.Kernel.Transition.{set_current-eq}
use mini_rtos_sim.Tasks.{
  rtos_create_task, rtos_task_sleep, rtos_suspend_task, rtos_resume_task, task_index_from_id,
}
use mini_rtos_sim.Tasks.Create.{create_task_lem, task_index_from_id_sound}
use mini_rtos_sim.Event.{
  EventFlags, event_max_waiters, free_slot, satisfied, or32, serve_slot, scan_slot, scan_loop,
  event_flags_set, event_flags_wait,
}
use mini_rtos_sim.Event.Progress.{scan_slot-Progress}
use mini_rtos_sim.Run.{World}
use mini_rtos_sim.Run.Exec.{put_event}
use mini_rtos_sim.Run.Frame.{Alone, set_task_state-other, set_current-other}

-- No waiter of the group is the task `i`.
abbrev pub Unregistered : ℕ → EventFlags → Type 0
Unregistered i ef = (j : ℕ) → j < ef.waiter_count → (ef.waiters j).task_index ≢ pos i

module _ {k : Kernel} (v : IsValid k) (i : ℕ) (h : i < k.task_count) where
  pub create_task-other :
      (name : String) (priority : ℤ) (f : ℕ)
      → (rtos_create_task name priority f k).1.tasks i ≡ k.tasks i
  create_task-other name priority f = elim (Bool-cases (leb max_tasks k.task_count)) [
    | inl full ↦ unfold rtos_create_task in rw full refl
    | inr room ↦ (create_task_lem v name priority f (ground arith)).4 i h
  ]

  pub task_sleep-other :
      (ticks : ℤ) → k.current_task_index ≢ pos i → Alone i k (rtos_task_sleep ticks k)
  unfolding rtos_task_sleep
  task_sleep-other ticks ne = elim (Option-cases (rtos_current_task k)) [
    | inl e ↦ rw (e, rtos_task_sleep) (refl, refl)
    | inr (c, e) ↦
        let at = (set_current-eq v blocked block_sleep c e).1 in
        let apart : (i == c) ≡ false = ==_ne i c (λ e. ne (at ∙ ap pos (sym e))) in
        let kept : set k.tasks c (record (k.tasks c) { sleep_ticks = ticks }) i ≡ k.tasks i =
          rw apart refl in
        let alone =
          set_current-other
            (retask-IsValid (set k.tasks c (record (k.tasks c) { sleep_ticks = ticks })) v
              (λ j. ground (arith, ==_iff j c)) (λ j. ground (arith, ==_iff j c)))
            i h blocked block_sleep ne in
        rw (e, rtos_task_sleep) (alone.0 ∙ kept, alone.1)
  ]

  pub suspend-other : (id : ℤ) → id ≢ pos (suc i) → (rtos_suspend_task id k).1.tasks i ≡ k.tasks i
  unfolding rtos_suspend_task
  suspend-other id ne = elim (Option-cases (task_index_from_id id k)) [
    | inl e ↦ rw (e, rtos_suspend_task) refl
    | inr (c, e) ↦
        let (p, q) = task_index_from_id_sound k c id e in
        rw (e, rtos_suspend_task)
          (set_task_state-other v i h (pos c) suspended block_none
            (λ same. ne (ground (arith, q, v.numbered c p, same)))).0
  ]

  pub resume-other : (id : ℤ) → id ≢ pos (suc i) → (rtos_resume_task id k).1.tasks i ≡ k.tasks i
  unfolding rtos_resume_task
  resume-other id ne = elim (Option-cases (task_index_from_id id k)) [
    | inl e ↦ rw (e, rtos_resume_task) refl
    | inr (c, e) ↦
        let (p, q) = task_index_from_id_sound k c id e in
        elim (Bool-cases (is_suspended (k.tasks c).state)) [
          | inr busy ↦ rw (e, rtos_resume_task, busy) refl
          | inl idle ↦
              rw (e, rtos_resume_task, idle)
                (set_task_state-other v i h (pos c) ready block_none
                  (λ same. ne (ground (arith, q, v.numbered c p, same)))).0
        ]
  ]

scan_slot-other :
    (j i : ℕ) (ef : EventFlags) {k : Kernel}
    → IsValid k
    → i < k.task_count
    → j < ef.waiter_count
    → Unregistered i ef
    → let r = scan_slot j ef k in
      (r.1.tasks i ≡ k.tasks i) × Unregistered i r.0 × (j ≤ r.0.waiter_count)
unfolding scan_slot serve_slot
scan_slot-other j i ef {k} v h p u =
    elim (Bool-cases (satisfied ef.flags (ef.waiters j).required_mask)) [
      | inr e ↦ rw e (refl, u, omega arith)
      | inl e ↦
          let last = ef.waiter_count - 1 in
          rw e (
            (set_task_state-other v i h (ef.waiters j).task_index ready block_none (u j p)).0,
            (λ m q.
                let same : set (set ef.waiters j (ef.waiters last)) last free_slot m
                    ≡ set ef.waiters j (ef.waiters last) m =
                  ground arith in
                rw same (elim (Bool-cases (m == j)) [
                  | inl here ↦ rw here (u last (omega arith))
                  | inr there ↦ rw there (u m (omega arith))
                ])),
            omega arith,
          )
    ]

scan_loop-other :
    (j i : ℕ) (ef : EventFlags) {k : Kernel}
    → IsValid k
    → i < k.task_count
    → j ≤ ef.waiter_count
    → Unregistered i ef
    → (scan_loop j ef k).1.tasks i ≡ k.tasks i
unfolding scan_loop
scan_loop-other zero i ef v h p u = refl
scan_loop-other (suc j) i ef {k} v h p u =
    let (same, u', p') = scan_slot-other j i ef v h (omega arith) u in
    let g = scan_slot-Progress j ef v in
    scan_loop-other j i (scan_slot j ef k).0 g.valid (omega (arith, g.count_le)) p' u' ∙ same

pub event_set-other :
    (mask i : ℕ) (ef : EventFlags) {k : Kernel}
    → IsValid k
    → i < k.task_count
    → Unregistered i ef
    → (event_flags_set (some ef) mask k).1.tasks i ≡ k.tasks i
unfolding event_flags_set
event_set-other mask i ef {k} v h u = elim (Bool-cases (mask == 0)) [
  | inl e ↦ rw e refl
  | inr e ↦ rw e (
      scan_loop-other ef.waiter_count i (record ef { flags = or32 ef.flags mask }) v h (omega arith)
        u)
]

pub event_wait-other :
    (mask i : ℕ) (ef : EventFlags) {k : Kernel}
    → IsValid k
    → i < k.task_count
    → k.current_task_index ≢ pos i
    → Alone i k (event_flags_wait (some ef) mask k).2
unfolding event_flags_wait
event_wait-other mask i ef {k} v h ne = elim (Bool-cases (mask == 0)) [
  | inl e ↦ rw e (refl, refl)
  | inr e ↦ elim (Bool-cases (satisfied ef.flags mask)) [
    | inl s ↦ rw (e, s) (refl, refl)
    | inr s ↦ elim (Bool-cases (leb event_max_waiters ef.waiter_count)) [
      | inl f ↦ rw (e, s, f) (refl, refl)
      | inr f ↦ rw (e, s, f) (set_current-other v i h blocked block_event ne)
    ]
  ]
]

pub put-kernel : (w : World) (e : ℕ) (ef : Option EventFlags) → (put_event w e ef).kernel ≡ w.kernel
put-kernel w e none = refl
put-kernel w e (some ef) = refl

pub put-timer : (w : World) (e : ℕ) (ef : Option EventFlags) → (put_event w e ef).timer ≡ w.timer
put-timer w e none = refl
put-timer w e (some ef) = refl
