-- ===== src/Kernel/Transition.antt =====
-- `scheduler_set_task_state`: what it does to the table and to the queue.
use mini_rtos_sim.Base.{
  ◌==◌, if◌then◌else◌, lt→ltb, ==_iff, ==_refl, Bool-cases, ◌<ℤ◌, ℤ, length, length-append,
  length-window, has, erase, Distinct, has-append, has-erase_ne, has-erase_self, erase-Distinct,
  append-Distinct, All-erase, All-append, length-le_of_Distinct, pos, negsuc, ℕ, ◌<◌, ◌≡◌, refl, ap,
  ◌∙◌, inl, inr, false, some, List, [], ◌∷◌, ◌++◌, arith,
}
use mini_rtos_sim.Task.{Tcb, TaskState, BlockReason, block_none, is_ready, max_tasks}
use mini_rtos_sim.Ready.{entries, ready_queue_remove}
use mini_rtos_sim.Ready.Remove.{entries-remove, entries-append}
use mini_rtos_sim.Kernel.{
  Kernel, scheduler_set_task_state, scheduler_set_current_task_state, rtos_current_task,
}
use mini_rtos_sim.Kernel.Invariant.{IsValid, entries_below}

-- The task after the transition.
abbrev pub moved : TaskState → BlockReason → Tcb → Tcb
moved state reason t =
    if is_ready state
    then record t { state = state; block_reason = block_none; sleep_ticks = pos 0 }
    else record t { state = state; block_reason = reason }

-- The queued indices after it.
abbrev pub requeued : ℕ → TaskState → List ℕ → List ℕ
requeued i state xs = if is_ready state then erase i xs ++ (i ∷ []) else erase i xs

module _ {k : Kernel} (v : IsValid k) (i : ℕ) (h : i < k.task_count) where
  absent : has i (erase i (entries k.queue)) ≡ false
  absent = has-erase_self i (entries k.queue) v.queued.distinct

  requeued-Distinct : (state : TaskState) → Distinct (requeued i state (entries k.queue))
  requeued-Distinct state =
      let d = erase-Distinct i (entries k.queue) v.queued.distinct in
      ground (arith, d, append-Distinct i (erase i (entries k.queue)) d absent)

  room : (ready_queue_remove i k.queue).count < max_tasks
  room =
      let e = erase i (entries k.queue) in
      omega (
        arith,
        v.count_le,
        length-le_of_Distinct k.task_count (e ++ (i ∷ []))
            (append-Distinct i e (erase-Distinct i (entries k.queue) v.queued.distinct) absent)
            (All-append (λ x. x < k.task_count) e (i ∷ [])
              (All-erase (λ x. x < k.task_count) i (entries k.queue) (entries_below v.queued))
              (h, tt)),
        length-append e (i ∷ []),
        ap length (entries-remove i k.queue),
        length-window (ready_queue_remove i k.queue).slots 0 (ready_queue_remove i k.queue).count,
      )

  module _ (state : TaskState) (reason : BlockReason) where
    abbrev pub after : Kernel
    after = scheduler_set_task_state (pos i) state reason k

    -- From a valid kernel, `scheduler_set_task_state` on a task of the table takes the task off
    -- the ready queue, which keeps the order of the others, and appends it at the end if the
    -- new state is READY.
    pub entries-set_task_state : entries after.queue ≡ requeued i state (entries k.queue)
    unfolding scheduler_set_task_state
    entries-set_task_state = ground (
      arith,
      v.bound,
      lt→ltb i k.task_count h,
      entries-remove i k.queue,
      entries-append i (ready_queue_remove i k.queue),
      absent,
      room,
    )

    pub tasks-set_task_state :
        (j : ℕ) → after.tasks j ≡ (if j == i then moved state reason (k.tasks i) else k.tasks j)
    unfolding scheduler_set_task_state
    tasks-set_task_state j = ground (arith, v.bound, lt→ltb i k.task_count h)

    pub frame-set_task_state :
        (after.bound ≡ k.bound)
        × (after.task_count ≡ k.task_count)
        × (after.current_task_index ≡ k.current_task_index)
        × (after.contexts ≡ k.contexts)
    unfolding scheduler_set_task_state
    frame-set_task_state = ground (arith, v.bound, lt→ltb i k.task_count h)

    -- From a valid kernel, `scheduler_set_task_state` on a task of the table, with any state
    -- and reason, leaves a valid kernel; in particular the ready queue again holds just the
    -- READY tasks, each once.
    pub set_task_state-IsValid : IsValid after
    set_task_state-IsValid =
        let f = frame-set_task_state in
        let e = entries-set_task_state in
        record {
          bound = f.0 ∙ v.bound;
          count_le = omega (arith, f.1, v.count_le);
          current_lt = rw (f.1, f.2) v.current_lt;
          numbered = λ j p. ground (arith, f, tasks-set_task_state j, v.numbered j, v.numbered i h);
          queued = record {
            exact = λ j.
                rw (e, f.1, tasks-set_task_state j)
                  (elim (Bool-cases (j == i)) [
                    | inl same ↦ rw same (
                        ground (
                          arith,
                          absent,
                          has-append i (erase i (entries k.queue)) (i ∷ []),
                          lt→ltb i k.task_count h,
                          (==_iff j i).0 same,
                          ==_refl i,
                        ))
                    | inr other ↦ rw other (
                        ground (
                          arith,
                          has-append j (erase i (entries k.queue)) (i ∷ []),
                          has-erase_ne j i (entries k.queue),
                          v.queued.exact j,
                        ))
                  ]);
            distinct = rw e (requeued-Distinct state);
          };
        }

-- The same for the current task, where there is one.
module _ {k : Kernel} (v : IsValid k) (state : TaskState) (reason : BlockReason) where
  pub set_current-eq :
      (i : ℕ)
      → rtos_current_task k ≡ some i
      → (i < k.task_count)
        × (k.current_task_index ≡ pos i)
        × (scheduler_set_current_task_state state reason k
            ≡ scheduler_set_task_state (pos i) state reason k)
  unfolding scheduler_set_current_task_state rtos_current_task
  set_current-eq i e = split k.current_task_index refl
    where
      split :
          (c : ℤ)
          → k.current_task_index ≡ c
          → (i < k.task_count)
            × (k.current_task_index ≡ pos i)
            × (scheduler_set_current_task_state state reason k
                ≡ scheduler_set_task_state (pos i) state reason k)
      split (negsuc n) p = absurd (ground arith)
      split (pos n) p =
          let same : n ≡ i = ground arith in
          (
            ground arith,
            p ∙ ap pos same,
            simp v.bound (ap (λ c. scheduler_set_task_state c state reason k) (p ∙ ap pos same)),
          )

  pub set_current-IsValid : IsValid (scheduler_set_current_task_state state reason k)
  unfolding scheduler_set_current_task_state
  set_current-IsValid = simp v.bound (go k.current_task_index v.current_lt)
    where
      go : (c : ℤ) → c <ℤ pos k.task_count → IsValid (scheduler_set_task_state c state reason k)
      go (pos i) h = set_task_state-IsValid v i (omega arith) state reason
      go (negsuc n) h = unfold scheduler_set_task_state in v
