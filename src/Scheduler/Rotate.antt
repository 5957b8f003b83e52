-- ===== src/Scheduler/Rotate.antt =====
-- One turn: a dispatch where the tasks of the highest priority share the processor.
use mini_rtos_sim.Base.{
  leb, ◌==◌, lt→ltb, ==_iff, ==_refl, Bool-cases, ◌<ℤ◌, ltb_ℤ, eqb_ℤ, eqb_refl, ℤ, All, has, erase,
  Distinct, erase_absent, All-of_has, select, has-select, select-erase_in, select-Distinct, pos, ℕ,
  ◌<◌, ◌≡◌, refl, sym, ap, ap₂, ◌∙◌, subst, ◌≢◌, inl, inr, Bool, true, false, ◌&&◌, some, List, [],
  ◌∷◌, ◌++◌, arith,
}
use mini_rtos_sim.Task.{Tcb, time_slice_ticks, is_ready}
use mini_rtos_sim.Ready.{entries, ready_queue_pop}
use mini_rtos_sim.Ready.Remove.{entries-pop}
use mini_rtos_sim.Ready.Peek.{first_highest}
use mini_rtos_sim.Ready.Leader.{Levelled, first_highest-leader}
use mini_rtos_sim.Kernel.{Kernel}
use mini_rtos_sim.Kernel.Invariant.{entry_bounds}
use mini_rtos_sim.Sync.{Holds}
use mini_rtos_sim.Run.{World, Image}
use mini_rtos_sim.Run.Tireless.{Tireless}
use mini_rtos_sim.Timer.{Timer}
use mini_rtos_sim.Scheduler.{
  armed, expired, decide, decide_between, current_of, slice, requeue, run_task, do_context_switch,
  act, dispatch, load_context, pop_best,
}
use mini_rtos_sim.Scheduler.Decide.{decision, chosen}
use mini_rtos_sim.Scheduler.Dispatch.{Rests}
use mini_rtos_sim.Scheduler.Entering.{popped-ValidBut}
use mini_rtos_sim.Scheduler.Act.{Acted, dispatch-acting, dispatch-Acted}
use mini_rtos_sim.Scheduler.Timed.{Unarmed}
use mini_rtos_sim.Scheduler.Turn.{Turned, run_task-Turned, last_of, last_of-has, last_of-append}

-- The group of the tasks with the highest priority `p` is READY, their code never blocks, and they
-- are queued in the order `xs`, of which the last one has just had its turn; no software timer is
-- armed. Other tasks are in any state.
pub record InTurn (image : Image) (p : ℤ) (group : ℕ → Bool) (xs : List ℕ) (w : World)
    : Type 0 where
  pub rests : Rests w
  pub queue : select group (entries w.kernel.queue) ≡ xs
  pub able :
      (j : ℕ) → j < w.kernel.task_count → group j ≡ true → is_ready (w.kernel.tasks j).state ≡ true
  pub same : (j : ℕ) → j < w.kernel.task_count → group j ≡ true → (w.kernel.tasks j).priority ≡ p
  pub lower : (j : ℕ) → j < w.kernel.task_count → group j ≡ false → (w.kernel.tasks j).priority <ℤ p
  pub tireless :
      (j : ℕ)
      → j < w.kernel.task_count
      → group j ≡ true
      → Tireless (image.task_code (w.kernel.tasks j).task_function)
  pub current : w.kernel.current_task_index ≡ pos (last_of 0 xs)
  pub slice : (w.kernel.tasks (last_of 0 xs)).slice_ticks_used ≡ 1
  pub unarmed : Unarmed w

module _ (image : Image) (p : ℤ) (group : ℕ → Bool) (i j : ℕ) (zs : List ℕ) (w : World)
    (t : InTurn image p group (i ∷ j ∷ zs) w) where
  abbrev k : Kernel
  k = w.kernel

  abbrev previous : ℕ
  previous = last_of j zs

  -- A task in the list is one of the group that is queued.
  listed :
      (x : ℕ)
      → has x (i ∷ j ∷ zs) ≡ true
      → (group x ≡ true) × (x < k.task_count) × (is_ready (k.tasks x).state ≡ true)
  listed x h =
      let both : (group x && has x (entries k.queue)) ≡ true =
        sym (has-select group x (entries k.queue)) ∙ ap (has x) t.queue ∙ h in
      let inside : group x ≡ true = ground (arith, both) in
      let queued : has x (entries k.queue) ≡ true = ground (arith, both) in
      let b = entry_bounds t.rests.valid.queued x queued in (inside, b.0, b.1)

  once : Distinct (i ∷ j ∷ zs)
  once =
      subst Distinct t.queue (select-Distinct group (entries k.queue) t.rests.valid.queued.distinct)

  first_listed : has i (i ∷ j ∷ zs) ≡ true
  first_listed = rw (==_refl i)

  previous-has : has previous (i ∷ j ∷ zs) ≡ true
  previous-has = ground (arith, last_of-has j zs)

  other_task : (i == previous) ≡ false
  other_task = elim (Bool-cases (i == previous)) [
    | inr e ↦ e
    | inl e ↦
        let same : i ≡ previous = (==_iff i previous).0 e in
        cc (once.0, last_of-has j zs, ap (λ x. has x (j ∷ zs)) same)
  ]

  levelled : All (Levelled k.tasks p group) (entries k.queue)
  levelled =
      All-of_has (Levelled k.tasks p group) (entries k.queue)
        λ x h. let b = entry_bounds t.rests.valid.queued x h in (t.same x b.0, t.lower x b.0)

  decision-expired : (current_of k ≡ some previous) × (decision k ≡ expired previous i)
  unfolding decide decide_between
  decision-expired =
      let before = listed previous previous-has in
      let mine = listed i first_listed in
      let now : current_of k ≡ some previous =
        rw (t.rests.valid.bound, t.current) (rw (lt→ltb previous k.task_count before.1)) in
      let best : first_highest k.tasks (entries k.queue) ≡ some i =
        first_highest-leader k.tasks p group (entries k.queue) i (j ∷ zs) levelled t.queue in
      let able = before.2 in
      let equal : (k.tasks i).priority ≡ (k.tasks previous).priority =
        t.same i mine.1 mine.0 ∙ sym (t.same previous before.1 before.0) in
      let level : ltb_ℤ (k.tasks previous).priority (k.tasks i).priority ≡ false =
        rw equal (ground arith) in
      let peers : eqb_ℤ (k.tasks i).priority (k.tasks previous).priority ≡ true =
        rw equal (eqb_refl (k.tasks previous).priority) in
      let over : leb time_slice_ticks (k.tasks previous).slice_ticks_used ≡ true =
        ground (arith, t.slice) in
      (now, rw (now, best) (ground (arith, able, level, peers, over, other_task)))

  abbrev switched : World
  switched = record w {
    kernel =
        slice i (λ s. 1)
          (record (load_context (some previous) i (pop_best i k)) { current_task_index = pos i });
  }

  dispatch-switched : dispatch image w ≡ run_task image i switched
  unfolding act do_context_switch
  dispatch-switched =
      let (now, d) = decision-expired in
      let paused : requeue previous k ≡ k =
        rw (t.rests.paused previous (listed previous previous-has).1) refl in
      dispatch-acting image w t.rests
      ∙ ap₂ (λ at e. act image at e w) now d
      ∙ ap (λ k. do_context_switch image (some previous) i (record w { kernel = pop_best i k }))
          paused

  dispatch-Turned : Holds (Turned group i switched) (dispatch image w)
  dispatch-Turned =
      let mine = listed i first_listed in
      rw dispatch-switched (
        run_task-Turned group i mine.0 image switched (popped-ValidBut t.rests.valid i _ mine.1)
          t.rests.sound (ground (arith, ==_refl i, t.tireless i mine.1 mine.0))
          λ x h g. ground (arith, t.able x h g, ==_iff x i))

  rotated_queue :
      (w' : World)
      → Turned group i switched w'
      → select group (entries w'.kernel.queue) ≡ (j ∷ zs) ++ (i ∷ [])
  rotated_queue w' s =
      let mine = listed i first_listed in
      let gone : erase i (j ∷ zs) ≡ j ∷ zs = erase_absent i (j ∷ zs) once.0 in
      let popped : select group (entries (ready_queue_pop i k.queue)) ≡ j ∷ zs =
        ap (select group) (entries-pop i k.queue)
        ∙ select-erase_in group i (entries k.queue) mine.0
        ∙ ap (erase i) t.queue
        ∙ rw (==_refl i) refl in
      s.queue
      ∙ ap (λ xs. erase i (erase i xs) ++ (i ∷ [])) popped
      ∙ ap (λ xs. erase i xs ++ (i ∷ [])) gone
      ∙ ap (λ xs. xs ++ (i ∷ [])) gone

  -- A task of the group after the turn.
  rotated_member :
      (w' : World) (s : Turned group i switched w') (x : ℕ)
      → x < w'.kernel.task_count
      → group x ≡ true
      → (is_ready (w'.kernel.tasks x).state ≡ true)
        × ((w'.kernel.tasks x).task_function ≡ (k.tasks x).task_function)
  rotated_member w' s x h g = elim (Bool-cases (x == i)) [
    | inl e ↦
        let same : i ≡ x = ground (arith, e) in
        subst
          (λ y.
            (is_ready (w'.kernel.tasks y).state ≡ true)
            × ((w'.kernel.tasks y).task_function ≡ (k.tasks y).task_function))
          same (s.again, s.code ∙ ground (arith, ==_refl i))
    | inr e ↦
        let ne : x ≢ i = ground (arith, e) in
        let h' : x < k.task_count = omega (arith, s.count) in
        let at : w'.kernel.tasks x ≡ k.tasks x = s.peers x g ne ∙ ground (arith, e) in
        (
          ap (λ (y : Tcb). is_ready y.state) at ∙ t.able x h' g,
          ap (λ (y : Tcb). y.task_function) at,
        )
  ]

  kept_priority :
      (w' : World)
      → Turned group i switched w'
      → (x : ℕ) → (w'.kernel.tasks x).priority ≡ (k.tasks x).priority
  kept_priority w' s x = s.priority x ∙ ground (arith, ==_iff x i)

  -- The first of the queue has its turn and goes to the end.
  pub turn-InTurn :
      (w' : World) × (dispatch image w ≡ some w')
      × InTurn image p group ((j ∷ zs) ++ (i ∷ [])) w'
      × (w'.kernel.current_task_index ≡ pos i)
  turn-InTurn =
      let (w', e, rests, current) =
        subst (λ d. Acted (chosen d) (dispatch image w)) decision-expired.1
          (dispatch-Acted image w t.rests) in
      let s = subst (Holds (Turned group i switched)) e dispatch-Turned in
      let last : last_of 0 ((j ∷ zs) ++ (i ∷ [])) ≡ i = last_of-append 0 i (j ∷ zs) in
      (
        w',
        e,
        record {
          rests = rests;
          queue = rotated_queue w' s;
          able = λ x h g. (rotated_member w' s x h g).0;
          same = λ x h g. kept_priority w' s x ∙ t.same x (omega (arith, s.count)) g;
          lower = λ x h g. rw (kept_priority w' s x) (t.lower x (omega (arith, s.count)) g);
          tireless = λ x h g.
              subst (λ c. Tireless (image.task_code c)) (sym (rotated_member w' s x h g).1)
                (t.tireless x (omega (arith, s.count)) g);
          current = rw last current;
          slice = rw last (s.slice ∙ ground (arith, ==_refl i));
          unarmed = λ x. ap (λ (y : Timer). armed (y.soft_timers x)) s.timer ∙ t.unarmed x;
        },
        current,
      )
