-- ===== src/Scheduler/Rounds.antt =====
-- Whole rounds of tasks of one priority, tick by tick.
use mini_rtos_sim.Base.{
  ℤ, length, length-append, has, has-select, pos, ℕ, zero, suc, ◌+◌, ◌≤◌, ◌<◌, ◌≡◌, refl, sym, ap,
  ◌∙◌, subst, Bool, true, ◌&&◌, Option, some, List, [], ◌∷◌, ◌++◌, map, arith,
}
use mathlib.Core.List.{append_assoc, append-nil}
use mini_rtos_sim.Sync.{◌>>=◌}
use mini_rtos_sim.Run.{World, Image}
use mini_rtos_sim.Scheduler.{cycle, dispatch}
use mini_rtos_sim.Scheduler.Soft.{QuietCallbacks}
use mini_rtos_sim.Scheduler.Timed.{timed, timed-cycle}
use mini_rtos_sim.Timer.{timer_tick}
use mini_rtos_sim.Task.{Tcb, is_ready}
use mini_rtos_sim.Kernel.Peers.{Unblocked}
use mini_rtos_sim.Timer.Peers.{update_sleep-Undisturbed}
use mini_rtos_sim.Timer.Sleep.{update_sleep_lem}
use mini_rtos_sim.Run.Tireless.{Tireless}
use mini_rtos_sim.Ready.{entries}
use mini_rtos_sim.Scheduler.Turn.{last_of, last_of-has}
use mini_rtos_sim.Scheduler.Rotate.{InTurn, turn-InTurn}

-- `n` ticks of `scheduler_run`, with the task that is current after each.
unfoldable pub turns : Image → ℕ → World → Option (List ℤ × World)
turns image zero w = some ([], w)
turns image (suc n) w = do
  w' ← cycle image w
  (currents, w'') ← turns image n w'
  some (w'.kernel.current_task_index ∷ currents, w'')

module _ (image : Image) (quiet : QuietCallbacks image) (p : ℤ) (group : ℕ → Bool) where
  not_blocked : (xs : List ℕ) (w : World) → InTurn image p group xs w → Unblocked group w.kernel
  not_blocked xs w t j h g = ground (arith, t.able j h g)

  -- The last of the list is one of the group.
  last_inside :
      (x : ℕ) (xs : List ℕ) (w : World)
      → InTurn image p group (x ∷ xs) w
      → group (last_of 0 (x ∷ xs)) ≡ true
  last_inside x xs w t =
      let y = last_of x xs in
      let both : (group y && has y (entries w.kernel.queue)) ≡ true =
        sym (has-select group y (entries w.kernel.queue)) ∙ ap (has y) t.queue ∙ last_of-has x xs in
      ground (arith, both)

  timed-InTurn :
      (x : ℕ) (xs : List ℕ) (w : World)
      → InTurn image p group (x ∷ xs) w
      → InTurn image p group (x ∷ xs) (timed w) × (cycle image w ≡ dispatch image (timed w))
  unfolding timer_tick
  timed-InTurn x xs w t =
      let (rests, best, acted, e) = timed-cycle image quiet w t.rests t.unarmed in
      let u = update_sleep-Undisturbed group t.rests.valid (not_blocked (x ∷ xs) w t) in
      let c = (update_sleep_lem t.rests.valid).0.current in
      (
        record {
          rests = rests;
          queue = u.queue ∙ t.queue;
          able = λ j h g.
              ap (λ (y : Tcb). is_ready y.state) (u.peers j g)
              ∙ t.able j (omega (arith, u.count)) g;
          same = λ j h g. u.priority j ∙ t.same j (omega (arith, u.count)) g;
          lower = λ j h g. rw (u.priority j) (t.lower j (omega (arith, u.count)) g);
          tireless = λ j h g.
              subst (λ (y : Tcb). Tireless (image.task_code y.task_function)) (sym (u.peers j g))
                (t.tireless j (omega (arith, u.count)) g);
          current = c ∙ t.current;
          slice =
              ap (λ (y : Tcb). y.slice_ticks_used) (u.peers (last_of x xs) (last_inside x xs w t))
              ∙ t.slice;
          unarmed = t.unarmed;
        },
        e,
      )

  first_turn :
      (i : ℕ) (rest : List ℕ) (w : World)
      → 0 < length rest
      → InTurn image p group (i ∷ rest) w
      → (w' : World) × (cycle image w ≡ some w')
        × InTurn image p group (rest ++ (i ∷ [])) w'
        × (w'.kernel.current_task_index ≡ pos i)
  first_turn i [] w h t = absurd (omega arith)
  first_turn i (j ∷ zs) w h t =
      let (t', e) = timed-InTurn i (j ∷ zs) w t in
      let (w', d, u, c) = turn-InTurn image p group i j zs (timed w) t' in (w', e ∙ d, u, c)

  turns-InTurn :
      (xs ys : List ℕ) (w : World)
      → 2 ≤ length xs + length ys
      → InTurn image p group (xs ++ ys) w
      → (w' : World) × (turns image (length xs) w ≡ some (map pos xs, w'))
        × InTurn image p group (ys ++ xs) w'
  unfolding turns
  turns-InTurn [] ys w h t =
      (w, refl, subst (λ l. InTurn image p group l w) (sym (append-nil ys)) t)
  turns-InTurn (i ∷ xs) ys w h t =
      let (w1, e, t1, c) = first_turn i (xs ++ ys) w (omega (arith, length-append xs ys)) t in
      let t1' = subst (λ l. InTurn image p group l w1) (append_assoc xs ys (i ∷ [])) t1 in
      let (w2, e2, t2) =
        turns-InTurn xs (ys ++ (i ∷ [])) w1 (omega (arith, length-append ys (i ∷ []))) t1' in
      (
        w2,
        rw e (rw e2 (ap (λ x. some (x ∷ map pos xs, w2)) c)),
        subst (λ l. InTurn image p group l w2) (append_assoc ys (i ∷ []) xs) t2,
      )

  -- Round robin: in a world with a valid kernel, no task RUNNING, no NULL as a task's function,
  -- registers in place and well-formed objects, let the tasks of a group be READY and have the
  -- priority `p`, and all other tasks, in whatever state, a lower one. Let the group be queued
  -- in the order `xs`, at least two, where the last of them is the current task and has used
  -- one tick of its slice. Let no software timer be armed; on every path, let the code of the
  -- group make only signals of semaphores, unlocks of mutexes, clears and reads of event flags,
  -- calls on the block pool, queries of task states, of the ready queue and of the clock, and
  -- accesses to variables, and callbacks no call that needs a current task. Then `cycle`, the
  -- body of the loop of `scheduler_run`, can be run as many times as there are tasks in the
  -- group without a fault; it runs each of them once, in this order, and ends in such a state
  -- again.
  pub round-InTurn :
      (xs : List ℕ) (w : World)
      → 2 ≤ length xs
      → InTurn image p group xs w
      → (w' : World) × (turns image (length xs) w ≡ some (map pos xs, w'))
        × InTurn image p group xs w'
  round-InTurn xs w h t =
      turns-InTurn xs [] w (omega arith)
        (subst (λ l. InTurn image p group l w) (sym (append-nil xs)) t)
