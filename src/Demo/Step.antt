-- ===== src/Demo/Step.antt =====
-- One tick of src/main.c: the first task that does not sleep runs, and goes to sleep.
use mini_rtos_sim.Base.{
  ◌==◌, ==_iff, ==_refl, Bool-cases, ℤ, set, pos, ℕ, suc, ◌-◌, ◌<◌, ◌≡◌, sym, ap, ◌∙◌, subst, ◌≢◌,
  inl, inr, some, arith,
}
use mini_rtos_sim.Task.{Tcb}
use mathlib.Core.Option.{some-injective}
use mini_rtos_sim.Ready.{ReadyQueue}
use mini_rtos_sim.Context.{Contexts}
use mini_rtos_sim.Kernel.{Kernel}
use mini_rtos_sim.Kernel.Enter.{entered}
use mini_rtos_sim.Tasks.{rtos_task_sleep}
use mini_rtos_sim.Timer.{Timer, timer_tick}
use mini_rtos_sim.Timer.Sleep.{update_sleep_lem}
use mini_rtos_sim.Sync.{Holds}
use mini_rtos_sim.Run.{World, Image}
use mini_rtos_sim.Run.Exec.{exec}
use mini_rtos_sim.Scheduler.{armed, slice, cycle, dispatch}
use mini_rtos_sim.Scheduler.Decide.{chosen, decision}
use mini_rtos_sim.Scheduler.Dispatch.{Rests}
use mini_rtos_sim.Scheduler.Entering.{entering}
use mini_rtos_sim.Scheduler.Cycle.{Acted-Rests}
use mini_rtos_sim.Scheduler.Chosen.{Carried, dispatch-Carried}
use mini_rtos_sim.Scheduler.Doze.{run_task-Slept}
use mini_rtos_sim.Scheduler.Timed.{timed, timed-cycle}
use mini_rtos_sim.Scheduler.Preserve.{cycle-Holds}
use mini_rtos_sim.Demo.{demo, code_at}
use mini_rtos_sim.Demo.Stage.{sample, Flow}
use mini_rtos_sim.Demo.Flow.{demo-IsKept}
use mini_rtos_sim.Demo.Code.{Calm}
use mini_rtos_sim.Demo.Posture.{
  Dozes, Dozes-slice, Posture, one_less, timed-Posture, first_chosen, nobody_chosen, entered-Calm,
}

-- The task `i`, in a kernel like that of `w` but for the slice count of the task.
entering_other :
    (i j : ℕ) (k : Kernel) (current : ℤ) (q : ReadyQueue) (contexts : Contexts) (g : ℕ → ℕ)
    → j ≢ i
    → (entering k i current q contexts g).tasks j ≡ k.tasks j
entering_other i j k current q contexts g ne = ground (arith, ==_iff j i)

abbrev pub Ticked : Image → World → (ℕ → ℕ) → ℕ → ℕ → ℤ → Type 0
Ticked image w left d n current =
    (w' : World) × (cycle image w ≡ some w')
    × Posture left d n w'
    × (w'.kernel.current_task_index ≡ current)

module _ (pool_base : ℕ) {left : ℕ → ℕ} {d n : ℕ} {w : World} (p : Posture left d n w) where
  abbrev image : Image
  image = demo pool_base

  abbrev due : ℕ → ℕ
  due j = one_less (left j)

  abbrev KeptBy : Type 0
  KeptBy =
      Posture due d n (timed w)
      × (cycle image w ≡ dispatch image (timed w))
      × ((w' : World) → cycle image w ≡ some w' → Rests w' × Flow w')

  tick_kept : KeptBy
  tick_kept =
      let (rests, best, acted, e) = timed-cycle image (λ callback arg. _) w p.rests p.unarmed in
      let (w1, e1, r1) = Acted-Rests (chosen (decision (timed w).kernel)) (cycle image w) acted in
      (
        timed-Posture p rests,
        e,
        λ w' e'. (
          subst Rests (some-injective w1 w' (sym e1 ∙ e')) r1,
          subst (Holds Flow) e' (cycle-Holds (demo-IsKept pool_base) 0 w p.flow),
        ),
      )

  -- The task `i` runs: its code makes the world `x`, and ends by a sleep of `s` ticks.
  pub task_ticks :
      (i s d' n' : ℕ) (x : World)
      → i < 3
      → due i ≡ 0
      → ((j : ℕ) → j < i → due j ≢ 0)
      → ((k : Kernel)
          → Calm i k
          → exec image (code_at (suc i)) (record (timed w) { kernel = k })
            ≡ some (record x { kernel = rtos_task_sleep (pos (suc s)) k }))
      → x.timer ≡ (timed w).timer
      → (x.queues 0).count ≡ d'
      → x.variables 0 ≡ sample n'
      → Ticked image w (set due i (suc s)) d' n' (pos i)
  unfolding timer_tick
  task_ticks i s d' n' x h now before runs timer level value =
      let (u, e, later) = tick_kept in
      let k = (timed w).kernel in
      let (current, q, contexts, g, v, starts) =
        subst (λ c. Carried image c (timed w) (dispatch image (timed w)))
          (first_chosen u i h now before) (dispatch-Carried image (timed w) u.rests) in
      let k1 = entering k i current q contexts g in
      let code : (k1.tasks i).task_function ≡ suc i = ground (arith, ==_refl i) ∙ u.code i h in
      let k2 = entered i v in
      let (k', ran, slept) =
        run_task-Slept image i (suc s) (record (timed w) { kernel = k1 }) x v (omega (arith, code))
          (subst
            (λ f.
              exec image (image.task_code f) (record (timed w) { kernel = k2 })
              ≡ some (record x { kernel = rtos_task_sleep (pos (suc s)) k2 }))
            (sym code)
            (runs k2 (
              entered-Calm u i k1 v u.count
                λ j ne. entering_other i j k current q contexts g ne))) in
      let w' = record x { kernel = k' } in
      let done : cycle image w ≡ some w' = e ∙ starts ∙ ran in
      let (rests, flow) = later w' done in
      let other : (j : ℕ) → j ≢ i → k'.tasks j ≡ k.tasks j =
        λ j ne. slept.others j ne ∙ entering_other i j k current q contexts g ne in
      (
        w',
        done,
        record {
          rests = rests;
          unarmed = λ t. ap (λ (y : Timer). armed (y.soft_timers t)) timer ∙ p.unarmed t;
          count = slept.count ∙ u.count;
          dozes = λ j q. elim (Bool-cases (j == i)) [
            | inl e ↦
                let same : i ≡ j = ground (arith, e) in
                rw e (subst (λ y. Dozes (suc s) (k'.tasks y)) same slept.asleep)
            | inr e ↦ rw e (subst (Dozes (due j)) (sym (other j (ground (arith, e)))) (u.dozes j q))
          ];
          priority = λ j q. elim (Bool-cases (j == i)) [
            | inl e ↦
                let same : i ≡ j = ground (arith, e) in
                subst (λ y. (k'.tasks y).priority ≡ pos (3 - y)) same
                  (slept.priority ∙ ground (arith, ==_refl i) ∙ u.priority i h)
            | inr e ↦ ap (λ (t : Tcb). t.priority) (other j (ground (arith, e))) ∙ u.priority j q
          ];
          code = λ j q. elim (Bool-cases (j == i)) [
            | inl e ↦
                let same : i ≡ j = ground (arith, e) in
                subst (λ y. (k'.tasks y).task_function ≡ suc y) same (slept.code ∙ code)
            | inr e ↦ ap (λ (t : Tcb). t.task_function) (other j (ground (arith, e))) ∙ u.code j q
          ];
          flow = flow;
          level = level;
          value = value;
        },
        slept.current,
      )

  -- All sleep on.
  pub idle_ticks :
      ((j : ℕ) → j < 3 → due j ≢ 0) → Ticked image w due d n w.kernel.current_task_index
  idle_ticks all =
      let (u, e, later) = tick_kept in
      let current = (update_sleep_lem p.rests.valid).0.current in
      let carried =
        subst (λ c. Carried image c (timed w) (dispatch image (timed w))) (nobody_chosen u all)
          (dispatch-Carried image (timed w) u.rests) in
      elim carried [
        | inl same ↦ (timed w, e ∙ same, u, current)
        | inr (c, same) ↦
            let k = slice c (λ s. 0) (timed w).kernel in
            let w' = record (timed w) { kernel = k } in
            let (rests, flow) = later w' (e ∙ same) in
            (
              w',
              e ∙ same,
              record {
                rests = rests;
                unarmed = u.unarmed;
                count = u.count;
                dozes = λ j h. elim (Bool-cases (j == c)) [
                  | inl at ↦ rw at (
                      Dozes-slice (due j) 0 _ (
                        subst (λ y. Dozes (due j) ((timed w).kernel.tasks y)) (ground (arith, at))
                          (u.dozes j h)))
                  | inr at ↦ rw at (u.dozes j h)
                ];
                priority = λ j h. ground (arith, ==_iff j c) ∙ u.priority j h;
                code = λ j h. ground (arith, ==_iff j c) ∙ u.code j h;
                flow = flow;
                level = u.level;
                value = u.value;
              },
              current,
            )
      ]
