-- ===== src/Demo/Posture.antt =====
-- The three tasks of src/main.c between two ticks, each READY or asleep.
use mini_rtos_sim.Base.{
  ltb, ◌==◌, Bool-cases, pos, ℕ, zero, suc, ◌-◌, ◌<◌, ◌≡◌, refl, sym, ap, ◌∙◌, subst, ◌≢◌, inl, inr,
  true, false, Option, none, some, arith,
}
use mini_rtos_sim.Task.{Tcb, BlockReason, block_sleep, is_ready, is_running}
use mini_rtos_sim.Kernel.{Kernel, waits_for, same_reason}
use mini_rtos_sim.Kernel.Unblock.{unblock_nobody}
use mini_rtos_sim.Kernel.Enter.{ValidBut, entered, entered_tasks, entered_frame, entered-IsValid}
use mini_rtos_sim.Timer.{timer_tick}
use mini_rtos_sim.Timer.Sleep.{Asleep, ticked, Asleep-ticked, wakes-ticked, update_sleep_lem}
use mini_rtos_sim.Run.{World}
use mini_rtos_sim.Scheduler.Decide.{Best, chosen, decision, highest_priority_runs}
use mini_rtos_sim.Scheduler.Dispatch.{Rests, entered_current}
use mini_rtos_sim.Scheduler.Bystander.{sleeper_not_ready}
use mini_rtos_sim.Scheduler.Busy.{ticked_code, ready_ticked}
use mini_rtos_sim.Scheduler.Gentle.{sleeper_only}
use mini_rtos_sim.Scheduler.Timed.{Unarmed, timed, ticked_priority, leader_chosen}
use mini_rtos_sim.Demo.Stage.{sample, Flow, with_kernel, with_timer}
use mini_rtos_sim.Demo.Code.{Calm}

-- READY for 0, or asleep for so many ticks.
abbrev pub Dozes : ℕ → Tcb → Type 0
Dozes zero t = is_ready t.state ≡ true
Dozes (suc n) t = Asleep t (suc n)

abbrev pub one_less : ℕ → ℕ
one_less zero = zero
one_less (suc n) = n

-- `left` has the ticks for which each task still sleeps, `queued` samples are in the queue, and the
-- sensor's next sample has the number `next`.
pub record Posture (left : ℕ → ℕ) (queued next : ℕ) (w : World) : Type 0 where
  pub rests : Rests w
  pub unarmed : Unarmed w
  pub count : w.kernel.task_count ≡ 3
  pub dozes : (j : ℕ) → j < 3 → Dozes (left j) (w.kernel.tasks j)
  pub priority : (j : ℕ) → j < 3 → (w.kernel.tasks j).priority ≡ pos (3 - j)
  pub code : (j : ℕ) → j < 3 → (w.kernel.tasks j).task_function ≡ suc j
  pub flow : Flow w
  pub level : (w.queues 0).count ≡ queued
  pub value : w.variables 0 ≡ sample next

pub Dozes-ticked : (n : ℕ) (t : Tcb) → Dozes n t → Dozes (one_less n) (ticked t)
Dozes-ticked zero t e = ready_ticked t e
Dozes-ticked (suc zero) t a = wakes-ticked t a
Dozes-ticked (suc (suc n)) t a = Asleep-ticked t n a

Dozes-ready : (n : ℕ) (t : Tcb) → Dozes n t → is_ready t.state ≡ true → n ≡ 0
Dozes-ready zero t d r = refl
Dozes-ready (suc n) t a r = absurd (cc (r, sleeper_not_ready t a.0))

pub Dozes-slice : (n s : ℕ) (t : Tcb) → Dozes n t → Dozes n (record t { slice_ticks_used = s })
unfolding waits_for
Dozes-slice zero s t e = e
Dozes-slice (suc n) s t a = a

ready_apart : (t : Tcb) (r : BlockReason) → is_ready t.state ≡ true → waits_for r t ≡ false
unfolding waits_for
ready_apart t r e = ground (arith, e)

running_apart : (t : Tcb) (r : BlockReason) → is_running t.state ≡ true → waits_for r t ≡ false
unfolding waits_for
running_apart t r e = ground (arith, e)

Dozes-apart :
    (n : ℕ) (t : Tcb) (r : BlockReason)
    → Dozes n t
    → same_reason block_sleep r ≡ false
    → waits_for r t ≡ false
Dozes-apart zero t r e ne = ready_apart t r e
Dozes-apart (suc n) t r a ne = sleeper_only t r a.0 ne

-- The clock and the sleepers take a tick off.
pub timed-Posture :
    {left : ℕ → ℕ} {d n : ℕ} {w : World}
    → Posture left d n w
    → Rests (timed w)
    → Posture (λ j. one_less (left j)) d n (timed w)
unfolding timer_tick
timed-Posture {left} {d} {n} {w} p rests =
    let (kept, at) = update_sleep_lem p.rests.valid in
    let below : (j : ℕ) → j < 3 → j < w.kernel.task_count = λ j h. omega (arith, p.count) in
    let (r, q, g) = p.flow in
    record {
      rests = rests;
      unarmed = p.unarmed;
      count = kept.count ∙ p.count;
      dozes = λ j h.
          subst (Dozes (one_less (left j))) (sym (at j (below j h)))
            (Dozes-ticked (left j) (w.kernel.tasks j) (p.dozes j h));
      priority = λ j h.
          ap (λ (t : Tcb). t.priority) (at j (below j h))
          ∙ ticked_priority (w.kernel.tasks j)
          ∙ p.priority j h;
      code = λ j h.
          ap (λ (t : Tcb). t.task_function) (at j (below j h))
          ∙ ticked_code (w.kernel.tasks j)
          ∙ p.code j h;
      flow = (r, q, with_timer (with_kernel g (timed w).kernel) (timed w).timer);
      level = p.level;
      value = p.value;
    }

module _ {left : ℕ → ℕ} {d n : ℕ} {w : World} (p : Posture left d n w) where
  -- The first task that does not sleep is chosen.
  pub first_chosen :
      (i : ℕ)
      → i < 3
      → left i ≡ 0
      → ((j : ℕ) → j < i → left j ≢ 0)
      → chosen (decision w.kernel) ≡ some i
  first_chosen i h e before =
      leader_chosen w.kernel i (chosen (decision w.kernel))
        (highest_priority_runs p.rests.valid p.rests.paused) (omega (arith, p.count))
        (subst (λ m. Dozes m (w.kernel.tasks i)) e (p.dozes i h))
        λ j q r ne.
          let h' : j < 3 = omega (arith, p.count) in
          let awake = Dozes-ready (left j) (w.kernel.tasks j) (p.dozes j h') r in
          let after : i < j = elim (Bool-cases (ltb j i)) [
            | inl lower ↦ absurd (before j (ground arith) awake)
            | inr higher ↦ ground (arith, ne)
          ] in
          rw (p.priority j h', p.priority i h) (omega (arith, after))

  pub nobody_chosen : ((j : ℕ) → j < 3 → left j ≢ 0) → chosen (decision w.kernel) ≡ none
  nobody_chosen all =
      idle (chosen (decision w.kernel)) (highest_priority_runs p.rests.valid p.rests.paused)
    where
      idle : (c : Option ℕ) → Best w.kernel c → c ≡ none
      idle none best = refl
      idle (some c) best =
          let h : c < 3 = omega (arith, best.0.0, p.count) in
          absurd (all c h (Dozes-ready (left c) (w.kernel.tasks c) (p.dozes c h) best.0.1))

  -- Nobody waits for an object while a task runs.
  pub entered-Calm :
      (i : ℕ) (k : Kernel) (v : ValidBut i k)
      → k.task_count ≡ 3
      → ((j : ℕ) → j ≢ i → k.tasks j ≡ w.kernel.tasks j)
      → Calm i (entered i v)
  entered-Calm i k v count others = (
    entered_current i k v,
    λ r ne. unblock_nobody r (entered-IsValid i v) λ j u.
        let h : j < 3 = omega (arith, u.0, (entered_frame i v).1, count) in
        elim (Bool-cases (j == i)) [
          | inl e ↦
              let runs : is_running ((entered i v).tasks j).state ≡ true =
                ground (arith, entered_tasks i v j, e) in
              cc (u.1, running_apart ((entered i v).tasks j) r runs)
          | inr e ↦
              let same : (entered i v).tasks j ≡ w.kernel.tasks j =
                ground (arith, entered_tasks i v j, e) ∙ others j (ground (arith, e)) in
              cc (u.1, Dozes-apart (left j) (w.kernel.tasks j) r (p.dozes j h) ne)
        ],
  )
