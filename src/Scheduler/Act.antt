-- ===== src/Scheduler/Act.antt =====
-- A cycle's decision carried out, for each decision.
use mini_rtos_sim.Base.{
  leb, ◌==◌, ==_iff, Bool-cases, ltb_ℤ, eqb_ℤ, pos, ℕ, ◌+◌, ◌%◌, ◌^◌, ◌<◌, ◌≡◌, refl, ap, subst,
  inl, inr, not, ◌&&◌, Option, none, some, arith,
}
use mini_rtos_sim.Task.{is_ready, is_running, time_slice_ticks}
use mini_rtos_sim.Ready.{ReadyQueue, entries, ready_queue_pop}
use mini_rtos_sim.Ready.Peek.{first_highest, peek-first_highest}
use mini_rtos_sim.Kernel.{Kernel}
use mini_rtos_sim.Kernel.Invariant.{entries_ready, retask-IsValid}
use mini_rtos_sim.Run.{World, Image}
use mini_rtos_sim.Scheduler.{
  Decision, idle, first, forced, preempted, expired, continued, decide_between, decide, slice,
  do_context_switch, act, current_of, dispatch,
}
use mini_rtos_sim.Scheduler.Decide.{Best, chosen, decision, first-Best, current_of-lt}
use mini_rtos_sim.Scheduler.Dispatch.{Rests, HasRun, run_task-HasRun}
use mini_rtos_sim.Scheduler.Entering.{
  entering-ValidBut, popped-ValidBut, slice-Paused, current_of-pos, Fits, slice-AtEntry,
  load-InPlace,
}

-- What a decision comes to.
abbrev pub Acted : Option ℕ → Option World → Type 0
Acted none r = (w' : World) × (r ≡ some w') × Rests w'
Acted (some i) r = HasRun i r

module _ (image : Image) where
  switch-HasRun :
      (outgoing : Option ℕ) (i : ℕ) (w : World)
      → Rests w
      → i < w.kernel.task_count
      → ((o : ℕ) → outgoing ≡ some o → w.kernel.current_task_index ≡ pos o)
      → HasRun i (
          do_context_switch image outgoing i
            (record w { kernel = record w.kernel { queue = ready_queue_pop i w.kernel.queue } }))
  unfolding do_context_switch
  switch-HasRun none i w r h from =
      run_task-HasRun image i _ (popped-ValidBut r.valid i _ h)
        (slice-Paused r.valid i (λ s. 1) r.paused)
        (load-InPlace none i i (ready_queue_pop i w.kernel.queue) w.kernel r.entry
          (λ o e. r.loaded o (from o e)))
        r.sound
  switch-HasRun (some o) i w r h from =
      run_task-HasRun image i _ (popped-ValidBut r.valid i _ h)
        (slice-Paused r.valid i (λ s. 1) r.paused)
        (load-InPlace (some o) i i (ready_queue_pop i w.kernel.queue) w.kernel r.entry
          (λ o' e. r.loaded o' (from o' e)))
        r.sound

  from :
      (k : Kernel) (c : ℕ)
      → k.current_task_index ≡ pos c
      → (o : ℕ) → some c ≡ some o
      → k.current_task_index ≡ pos o
  from k c e o p = ground (arith, e, p)

  act-Acted :
      (at : Option ℕ) (d : Decision) (w : World)
      → Rests w
      → Fits w.kernel d
      → Acted (chosen d) (act image at d w)
  unfolding act
  act-Acted none idle w r f = (w, refl, r)
  act-Acted (some c) idle w r f = (
    _,
    refl,
    record {
      valid =
          retask-IsValid _ r.valid (λ j. ground (arith, ==_iff j c))
            (λ j. ground (arith, ==_iff j c));
      paused = slice-Paused r.valid c (λ s. 0) r.paused;
      entry = slice-AtEntry c (λ s. 0) w.kernel r.entry;
      loaded = r.loaded;
      sound = r.sound;
    },
  )
  act-Acted none (first b) w r f = switch-HasRun none b w r f (λ o e. absurd (cc e))
  act-Acted (some c) (first b) w r f = switch-HasRun none b w r f (λ o e. absurd (cc e))
  act-Acted at (forced c b) w r f = switch-HasRun (some c) b w r f.1 (from w.kernel c f.2)
  act-Acted at (preempted c b) w r f =
      rw (r.paused c f.0) (switch-HasRun (some c) b w r f.1 (from w.kernel c f.2))
  act-Acted at (expired c b) w r f =
      rw (r.paused c f.0) (switch-HasRun (some c) b w r f.1 (from w.kernel c f.2))
  act-Acted at (continued c) w r f =
      let tick : ℕ → ℕ = λ s. (s + 1) % 2 ^ 32 in
      run_task-HasRun image c (record w { kernel = slice c tick w.kernel })
        (entering-ValidBut r.valid c w.kernel.current_task_index w.kernel.queue w.kernel.contexts
          tick f.0 f.1 (λ j p. refl) r.valid.queued.distinct)
        (slice-Paused r.valid c tick r.paused)
        (slice-AtEntry c tick w.kernel r.entry, r.loaded c f.1) r.sound

between-Fits :
    (k : Kernel) (c b : ℕ)
    → c < k.task_count
    → k.current_task_index ≡ pos c
    → b < k.task_count
    → Fits k (decide_between k.tasks c b)
unfolding decide_between
between-Fits k c b h e p =
    elim (Bool-cases (not (is_running (k.tasks c).state) && not (is_ready (k.tasks c).state))) [
      | inl stopped ↦ rw stopped (h, p, e)
      | inr able ↦ elim (Bool-cases (ltb_ℤ (k.tasks c).priority (k.tasks b).priority)) [
        | inl outranked ↦ rw (able, outranked) (h, p, e)
        | inr top ↦
            elim (Bool-cases (
              eqb_ℤ (k.tasks b).priority (k.tasks c).priority
              && leb time_slice_ticks (k.tasks c).slice_ticks_used
              && not (b == c))) [
                | inl over ↦ rw (able, top, over) (h, p, e)
                | inr again ↦ rw (able, top, again) (h, e)
              ]
      ]
    ]

pub decide-Fits :
    (k : Kernel) (at best : Option ℕ)
    → ((c : ℕ) → at ≡ some c → (c < k.task_count) × (k.current_task_index ≡ pos c))
    → ((b : ℕ) → best ≡ some b → b < k.task_count)
    → Fits k (decide k.tasks at best)
unfolding decide
decide-Fits k none none h p = _
decide-Fits k (some c) none h p = _
decide-Fits k none (some b) h p = p b refl
decide-Fits k (some c) (some b) h p = let (lt, e) = h c refl in between-Fits k c b lt e (p b refl)

-- The cycle, given what the peek answers.
abbrev acting : Image → World → Option ℕ × ReadyQueue → Option World
acting image w r =
    let k = record w.kernel { queue = r.1 } in
    act image (current_of k) (decide k.tasks (current_of k) r.0) (record w { kernel = k })

pub dispatch-acting :
    (image : Image) (w : World)
    → Rests w
    → dispatch image w ≡ act image (current_of w.kernel) (decision w.kernel) w
unfolding dispatch
dispatch-acting image w r =
    ap (acting image w)
      (peek-first_highest w.kernel.tasks w.kernel.queue (entries_ready r.valid.queued))

-- Start from a world at rest: its kernel is valid, no task is RUNNING, the saved context of
-- every task is the one that starts its code, the live registers are those saved for the
-- current task, and timers, blocks, mutexes, queues and event groups are well formed. The part
-- of a cycle after the timers does not fault, and ends at rest; the task of the decision, if
-- there is one, is the current one at the end.
pub dispatch-Acted :
    (image : Image) (w : World) → Rests w → Acted (chosen (decision w.kernel)) (dispatch image w)
dispatch-Acted image w r =
    let k = w.kernel in
    let best = first_highest k.tasks (entries k.queue) in
    rw (dispatch-acting image w r) (
      act-Acted image (current_of k) (decision k) w r (
        decide-Fits k (current_of k) best (λ c e. (current_of-lt k c e, current_of-pos k c e))
          (λ b e. (subst (Best k) e (first-Best r.valid r.paused best refl)).0.0)))
