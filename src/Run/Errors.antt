-- ===== src/Run/Errors.antt =====
-- The calls that report an error: when they do, and that nothing has changed then.
use mini_rtos_sim.Base.{
  suc, leb, ◌==◌, Bool-cases, Option-cases, minus_one, eqb_ℤ, ℤ, pos, ℕ, ◌≤◌, ◌<◌, ◌≡◌, refl, ap,
  subst, ◌≢◌, ◌⊎◌, inl, inr, Bool, true, false, not, Option, some, List, [], ◌∷◌, arith,
}
use Prim.Native.String.{String}
use mini_rtos_sim.Task.{max_tasks, is_suspended}
use mini_rtos_sim.Kernel.{Kernel}
use mini_rtos_sim.Kernel.Invariant.{IsValid}
use mini_rtos_sim.Tasks.{rtos_create_task, rtos_suspend_task, rtos_resume_task, task_index_from_id}
use mini_rtos_sim.Tasks.Create.{task_index_from_id_lem, task_index_from_id_sound}
use mini_rtos_sim.Timer.{Timer, TimerMode, SoftTimer, soft_timer_count, timer_soft_create}
use mini_rtos_sim.Timer.Claim.{Claimed, exhausted, claimed, loop-Claimed}
use mini_rtos_sim.Memory.{pool_block_count, memory_alloc}
use mini_rtos_sim.Memory.Chain.{FreeList}
use mini_rtos_sim.Memory.Alloc.{alloc_exhausted, alloc_head}
use mini_rtos_sim.Sync.{Holds, Holds-any}
use mini_rtos_sim.Run.{
  World, Op, Reply, Image, create_task, task_sleep, suspend_task, resume_task, get_task_state,
  ready_count, sem_wait, sem_signal, mutex_lock, mutex_unlock, queue_send, queue_receive, event_set,
  event_clear, event_wait, event_get, soft_create, soft_start, soft_stop, soft_delete, mem_alloc,
  mem_free, now, read_variable, write_variable,
}
use mini_rtos_sim.Run.Exec.{exec_op, is_some, reply, slot_code}
use mini_rtos_sim.Run.Sound.{IsSound}

-- A call found an error: `rtos_create_task` returns -1, `rtos_suspend_task` and
-- `rtos_resume_task` return false, `timer_soft_create` and `memory_alloc` return NULL.
abbrev pub failed : Op → Reply → Bool
failed (create_task name priority f) r = eqb_ℤ r.value minus_one
failed (suspend_task id) r = not r.ok
failed (resume_task id) r = not r.ok
failed (soft_create n m p c a) r = not r.ok
failed mem_alloc r = eqb_ℤ r.value (pos 0)
failed _ r = false

-- What the interface says: the table of tasks is full; no task of the table has the identifier;
-- or it has but is not SUSPENDED; the callback is NULL, the period is 0, or all slots are in use;
-- all blocks are allocated.
abbrev pub Refused : Op → World → Type 0
Refused (create_task name priority f) w = max_tasks ≤ w.kernel.task_count
Refused (suspend_task id) w = (i : ℕ) → i < w.kernel.task_count → id ≢ pos (suc i)
Refused (resume_task id) w =
    (i : ℕ)
    → i < w.kernel.task_count
    → id ≡ pos (suc i)
    → is_suspended (w.kernel.tasks i).state ≡ false
Refused (soft_create n m p c a) w =
    (c ≡ 0) ⊎ ((p ≡ 0) ⊎ ((j : ℕ) → j < soft_timer_count → (w.timer.soft_timers j).in_use ≡ true))
Refused mem_alloc w = (i : ℕ) → i < pool_block_count → w.pool.allocated i ≢ 0
Refused _ w = ⊥

-- An error with no change, or neither a cause of an error nor a report of one.
abbrev pub Answered : Op → World → Reply × World → Type 0
Answered op w x =
    (Refused op w × (failed op x.0 ≡ true) × (x.1 ≡ w))
    ⊎ ((¬ Refused op w) × (failed op x.0 ≡ false))

create-Answered :
    (name : String) (priority : ℤ) (f : ℕ) (w : World) (r : ℤ × Kernel)
    → rtos_create_task name priority f w.kernel ≡ r
    → Answered (create_task name priority f) w (reply true r.0, record w { kernel = r.1 })
unfolding rtos_create_task
create-Answered name priority f w r e = elim (Bool-cases (leb max_tasks w.kernel.task_count)) [
  | inl full ↦
      let e' : (minus_one, w.kernel) ≡ r = ground (arith, e, full) in
      subst
        (λ (x : ℤ × Kernel).
          Answered (create_task name priority f) w (reply true x.0, record w { kernel = x.1 }))
        e' (inl (ground (arith, full), refl, refl))
  | inr room ↦
      inr ((λ h. ground (arith, room, h)), ground (arith, ap (λ (x : ℤ × Kernel). x.0) e, room))
]

suspend-Answered :
    (id : ℤ) (w : World)
    → IsValid w.kernel
    → let r = rtos_suspend_task id w.kernel in
      Answered (suspend_task id) w (reply r.0 (pos 0), record w { kernel = r.1 })
unfolding rtos_suspend_task
suspend-Answered id w v = elim (Option-cases (task_index_from_id id w.kernel)) [
  | inl e ↦
      rw (e, rtos_suspend_task)
        (inl ((λ i h p. ground (arith, task_index_from_id_lem i v h, e, p)), refl, refl))
  | inr (i, e) ↦
      let (h, p) = task_index_from_id_sound w.kernel i id e in
      rw (e, rtos_suspend_task) (inr ((λ no. no i h (ground (arith, p, v.numbered i h))), refl))
]

resume-Answered :
    (id : ℤ) (w : World)
    → IsValid w.kernel
    → let r = rtos_resume_task id w.kernel in
      Answered (resume_task id) w (reply r.0 (pos 0), record w { kernel = r.1 })
unfolding rtos_resume_task
resume-Answered id w v = elim (Option-cases (task_index_from_id id w.kernel)) [
  | inl e ↦
      rw (e, rtos_resume_task)
        (inl ((λ i h p. absurd (ground (arith, task_index_from_id_lem i v h, e, p))), refl, refl))
  | inr (i, e) ↦
      let (h, p) = task_index_from_id_sound w.kernel i id e in
      let named : id ≡ pos (suc i) = ground (arith, p, v.numbered i h) in
      elim (Bool-cases (is_suspended (w.kernel.tasks i).state)) [
        | inl idle ↦
            rw (e, rtos_resume_task, idle) (inr ((λ no. ground (arith, no i h named, idle)), refl))
        | inr busy ↦
            rw (e, rtos_resume_task, busy)
              (inl (
                (λ j q n.
                    let same : j ≡ i = ground (arith, n, named) in ground (arith, same, busy)),
                refl,
                refl,
              ))
      ]
]

Claimed-Answered :
    (name : Option String) (mode : TimerMode) (period callback arg : ℕ) (w : World) {t : SoftTimer}
    (r : Option ℕ × Timer)
    → callback ≢ 0
    → period ≢ 0
    → Claimed t w.timer 0 soft_timer_count r
    → Answered
        (soft_create name mode period callback arg)
        w
        (reply (is_some r.0) (slot_code r.0), record w { timer = r.1 })
Claimed-Answered name mode period callback arg w _ c p (exhausted used) =
    inl (inr (inr (λ j h. used j (omega arith) (omega arith))), refl, refl)
Claimed-Answered name mode period callback arg w _ c p (claimed i a b free before) = inr (
  (λ h. elim h [
    | inl z ↦ c z
    | inr h' ↦ elim h' [ inl z ↦ p z | inr used ↦ cc (free, used i (omega arith)) ]
  ]),
  refl,
)

soft-Answered :
    (name : Option String) (mode : TimerMode) (period callback arg : ℕ) (w : World)
    → let r = timer_soft_create name mode period callback arg w.timer in
      Answered
        (soft_create name mode period callback arg)
        w
        (reply (is_some r.0) (slot_code r.0), record w { timer = r.1 })
unfolding timer_soft_create
soft-Answered name mode period callback arg w = elim (Bool-cases (callback == 0)) [
  | inl z ↦ rw z (inl (inl (ground arith), refl, refl))
  | inr c ↦ elim (Bool-cases (period == 0)) [
    | inl z ↦ rw (c, z) (inl (inr (inl (ground arith)), refl, refl))
    | inr p ↦
        rw (c, p)
          (Claimed-Answered name mode period callback arg w _ (ground arith) (ground arith)
            (loop-Claimed soft_timer_count 0 _ w.timer))
  ]
]

alloc-Answered :
    (base : ℕ) (w : World) (xs : List ℕ)
    → base ≢ 0
    → FreeList w.pool xs
    → let r = memory_alloc base w.pool in
      Answered mem_alloc w (reply true (pos r.0), record w { pool = r.1 })
alloc-Answered base w [] nz f =
    rw (alloc_exhausted base w.pool f)
      (inl ((λ i h e. ground (arith, f.exact i, h, e)), refl, refl))
alloc-Answered base w (i ∷ xs) nz f =
    let (ptr, free, marked, f', kept) = alloc_head base w.pool i xs f in
    rw ptr (inr ((λ no. no i f.chain.1 free), ground arith))

module _ (image : Image) (nz : image.pool_base ≢ 0) where
  exec_op-Answered :
      (op : Op) (w : World)
      → IsValid w.kernel
      → IsSound w
      → Holds (Answered op w) (exec_op image op w)
  unfolding exec_op
  exec_op-Answered (create_task name priority f) w v s =
      create-Answered name priority (suc f) w _ refl
  exec_op-Answered (suspend_task id) w v s = suspend-Answered id w v
  exec_op-Answered (resume_task id) w v s = resume-Answered id w v
  exec_op-Answered (soft_create n m p c a) w v s = soft-Answered n m p c a w
  exec_op-Answered mem_alloc w v s =
      let (xs, f) = s.blocks in alloc-Answered image.pool_base w xs nz f
  exec_op-Answered (task_sleep ticks) w v s = inr ((λ e. e), refl)
  exec_op-Answered (get_task_state id) w v s = inr ((λ e. e), refl)
  exec_op-Answered ready_count w v s = inr ((λ e. e), refl)
  exec_op-Answered (sem_wait x) w v s = Holds-any _ (λ a. inr ((λ e. e), refl)) _
  exec_op-Answered (sem_signal x) w v s = Holds-any _ (λ a. inr ((λ e. e), refl)) _
  exec_op-Answered (mutex_lock x) w v s = Holds-any _ (λ a. inr ((λ e. e), refl)) _
  exec_op-Answered (mutex_unlock x) w v s = Holds-any _ (λ a. inr ((λ e. e), refl)) _
  exec_op-Answered (queue_send q x) w v s = Holds-any _ (λ a. inr ((λ e. e), refl)) _
  exec_op-Answered (queue_receive q) w v s = Holds-any _ (λ a. inr ((λ e. e), refl)) _
  exec_op-Answered (event_set e mask) w v s = inr ((λ e. e), refl)
  exec_op-Answered (event_clear e mask) w v s = inr ((λ e. e), refl)
  exec_op-Answered (event_wait e mask) w v s = inr ((λ e. e), refl)
  exec_op-Answered (event_get e) w v s = inr ((λ e. e), refl)
  exec_op-Answered (soft_start x) w v s = inr ((λ e. e), refl)
  exec_op-Answered (soft_stop x) w v s = inr ((λ e. e), refl)
  exec_op-Answered (soft_delete x) w v s = inr ((λ e. e), refl)
  exec_op-Answered (mem_free ptr) w v s = inr ((λ e. e), refl)
  exec_op-Answered now w v s = inr ((λ e. e), refl)
  exec_op-Answered (read_variable x) w v s = inr ((λ e. e), refl)
  exec_op-Answered (write_variable x y) w v s = inr ((λ e. e), refl)

  -- From a valid kernel and well-formed objects, and with the pool not at NULL, these calls report
  -- an error just where the interface names a cause, and have changed nothing then:
  -- `rtos_create_task` returns -1 just if the table is full; `rtos_suspend_task` returns false just
  -- if no task has the identifier; `rtos_resume_task` just if none has, or it is not SUSPENDED;
  -- `timer_soft_create` returns NULL just if the callback is NULL, the period is 0 or every slot is
  -- in use; and `memory_alloc` just if every block is allocated.
  pub exec_op-errors :
      (op : Op) (w : World) (x : Reply × World)
      → IsValid w.kernel
      → IsSound w
      → exec_op image op w ≡ some x
      → Answered op w x
  exec_op-errors op w x v s e = subst (Holds (Answered op w)) e (exec_op-Answered op w v s)
