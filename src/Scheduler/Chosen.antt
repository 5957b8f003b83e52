-- ===== src/Scheduler/Chosen.antt =====
-- How a dispatch carries out its choice: it enters the chosen task, or it idles.
use mini_rtos_sim.Base.{
  ℤ, pos, ℕ, ◌+◌, ◌%◌, ◌^◌, ◌<◌, ◌≡◌, refl, sym, subst, ◌⊎◌, inl, inr, Option, none, some,
}
use mini_rtos_sim.Context.{Contexts}
use mini_rtos_sim.Kernel.Enter.{ValidBut}
use mini_rtos_sim.Ready.{ReadyQueue, entries, ready_queue_pop}
use mini_rtos_sim.Ready.Peek.{first_highest}
use mini_rtos_sim.Run.{World, Image}
use mini_rtos_sim.Scheduler.Decide.{Best, chosen, decision, current_of-lt, first-Best}
use mini_rtos_sim.Scheduler.Dispatch.{Rests}
use mini_rtos_sim.Scheduler.Act.{decide-Fits, dispatch-acting}
use mini_rtos_sim.Scheduler.Entering.{
  entering, Fits, current_of-pos, popped-ValidBut, entering-ValidBut,
}
use mini_rtos_sim.Scheduler.{
  Decision, idle, first, forced, preempted, expired, continued, slice, pop_best, run_task,
  do_context_switch, act, dispatch, current_of, load_context,
}

-- The result `r` is a run of the task `i` that starts in the kernel of `w` with another current task,
-- queue, register store and slice count of the task.
abbrev pub Enters : Image → ℕ → World → Option World → Type 0
Enters image i w r =
    (current : ℤ) × (q : ReadyQueue) × (contexts : Contexts) × (g : ℕ → ℕ) × ValidBut i
      (entering w.kernel i current q contexts g)
    × (r ≡ run_task image i (record w { kernel = entering w.kernel i current q contexts g }))

abbrev pub Carried : Image → Option ℕ → World → Option World → Type 0
Carried image none w r =
    (r ≡ some w) ⊎ ((c : ℕ) × (r ≡ some (record w { kernel = slice c (λ s. 0) w.kernel })))
Carried image (some i) w r = Enters image i w r

module _ (image : Image) where
  switch-Enters :
      (outgoing : Option ℕ) (b : ℕ) (w : World)
      → Rests w
      → b < w.kernel.task_count
      → Enters image b w
          (do_context_switch image outgoing b (record w { kernel = pop_best b w.kernel }))
  unfolding do_context_switch
  switch-Enters none b w r h =
      let c = (load_context none b (pop_best b w.kernel)).contexts in
      (pos b, ready_queue_pop b w.kernel.queue, c, (λ s. 1), popped-ValidBut r.valid b c h, refl)
  switch-Enters (some o) b w r h =
      let c = (load_context (some o) b (pop_best b w.kernel)).contexts in
      (pos b, ready_queue_pop b w.kernel.queue, c, (λ s. 1), popped-ValidBut r.valid b c h, refl)

  act-Carried :
      (at : Option ℕ) (d : Decision) (w : World)
      → Rests w
      → Fits w.kernel d
      → Carried image (chosen d) w (act image at d w)
  unfolding act
  act-Carried none idle w r f = inl refl
  act-Carried (some c) idle w r f = inr (c, refl)
  act-Carried none (first b) w r f = switch-Enters none b w r f
  act-Carried (some c) (first b) w r f = switch-Enters none b w r f
  act-Carried at (forced c b) w r f = switch-Enters (some c) b w r f.1
  act-Carried at (preempted c b) w r f = rw (r.paused c f.0) (switch-Enters (some c) b w r f.1)
  act-Carried at (expired c b) w r f = rw (r.paused c f.0) (switch-Enters (some c) b w r f.1)
  act-Carried at (continued c) w r f =
      let tick : ℕ → ℕ = λ s. (s + 1) % 2 ^ 32 in
      (
        w.kernel.current_task_index,
        w.kernel.queue,
        w.kernel.contexts,
        tick,
        entering-ValidBut r.valid c w.kernel.current_task_index w.kernel.queue w.kernel.contexts
            tick f.0 f.1 (λ j p. refl) r.valid.queued.distinct,
        refl,
      )

  pub dispatch-Carried :
      (w : World) → Rests w → Carried image (chosen (decision w.kernel)) w (dispatch image w)
  dispatch-Carried w r =
      let k = w.kernel in
      let best = first_highest k.tasks (entries k.queue) in
      subst (Carried image (chosen (decision k)) w) (sym (dispatch-acting image w r)) (
        act-Carried (current_of k) (decision k) w r (
          decide-Fits k (current_of k) best (λ c e. (current_of-lt k c e, current_of-pos k c e))
            (λ b e. (subst (Best k) e (first-Best r.valid r.paused best refl)).0.0)))
