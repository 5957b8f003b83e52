-- ===== src/Scheduler/Timed.antt =====
-- A cycle up to its decision, where no software timer is armed.
use mini_rtos_sim.Base.{
  ◌==◌, ==_iff, Bool-cases, ◌<ℤ◌, ℕ, zero, suc, ◌<◌, ◌≡◌, refl, sym, ap, ◌∙◌, subst, ◌≢◌, inl, inr,
  true, false, Option, none, some, arith,
}
use mini_rtos_sim.Task.{Tcb, is_ready}
use mini_rtos_sim.Kernel.{Kernel}
use mini_rtos_sim.Timer.{soft_timer_count, timer_tick, update_sleep}
use mini_rtos_sim.Timer.Sleep.{ticked, update_sleep_lem}
use mini_rtos_sim.Sync.{bind-some}
use mini_rtos_sim.Run.{World, Image}
use mini_rtos_sim.Scheduler.{
  armed, soft_round, soft_loop, timer_update_soft, timer_update_sleep, dispatch, cycle,
}
use mini_rtos_sim.Scheduler.Decide.{Best, chosen, decision}
use mini_rtos_sim.Scheduler.Soft.{QuietCallbacks}
use mini_rtos_sim.Scheduler.Dispatch.{Rests}
use mini_rtos_sim.Scheduler.Act.{Acted}
use mini_rtos_sim.Scheduler.Cycle.{cycle_runs-Best}
use mini_rtos_sim.Kernel.Invariant.{IsValid}
use mathlib.Core.Option.{some-injective}

-- No software timer is armed.
abbrev pub Unarmed : World → Type 0
Unarmed w = (s : ℕ) → armed (w.timer.soft_timers s) ≡ false

-- Every other task has a lower priority.
abbrev pub Outranks : ℕ → Kernel → Type 0
Outranks i k = (j : ℕ) → j < k.task_count → j ≢ i → (k.tasks j).priority <ℤ (k.tasks i).priority

pub still : (image : Image) (n s : ℕ) (w : World) → Unarmed w → soft_loop image n s w ≡ some w
unfolding soft_loop soft_round
still image zero s w off = refl
still image (suc n) s w off = rw (off s) (still image n (suc s) w off)

-- The world after the clock and the sleepers.
abbrev pub timed : World → World
timed w = record w { kernel = update_sleep w.kernel; timer = timer_tick w.timer }

pub ticked_priority : (t : Tcb) → (ticked t).priority ≡ t.priority
ticked_priority t = ground arith

-- The one that outranks all who can run.
pub leader_chosen :
    (k : Kernel) (i : ℕ) (d : Option ℕ)
    → Best k d
    → i < k.task_count
    → is_ready (k.tasks i).state ≡ true
    → ((j : ℕ)
        → j < k.task_count
        → is_ready (k.tasks j).state ≡ true
        → j ≢ i
        → (k.tasks j).priority <ℤ (k.tasks i).priority)
    → d ≡ some i
leader_chosen k i none best h r top = absurd (best i (h, r))
leader_chosen k i (some c) best h r top = elim (Bool-cases (c == i)) [
  | inl e ↦ ap some ((==_iff c i).0 e)
  | inr e ↦
      let below = top c best.0.0 best.0.1 (ground (arith, e)) in
      absurd (omega (arith, below, best.1 i (h, r)))
]

-- Only `i` can be the best, if it can run.
pub only_chosen :
    (k : Kernel) (i : ℕ) (d : Option ℕ)
    → Best k d
    → i < k.task_count
    → is_ready (k.tasks i).state ≡ true
    → Outranks i k
    → d ≡ some i
only_chosen k i d best h r top = leader_chosen k i d best h r λ j p runnable. top j p

module _ (image : Image) (quiet : QuietCallbacks image) where
  updated :
      (w : World)
      → Unarmed w
      → timer_update_sleep image (record w { timer = timer_tick w.timer }) ≡ some (timed w)
  unfolding timer_update_sleep timer_update_soft timer_tick
  updated w off = still image soft_timer_count 0 (timed w) off

  pub timed-cycle :
      (w : World)
      → Rests w
      → Unarmed w
      → let d = chosen (decision (timed w).kernel) in
        Rests (timed w)
        × Best (timed w).kernel d
        × Acted d (cycle image w)
        × (cycle image w ≡ dispatch image (timed w))
  unfolding cycle
  timed-cycle w r off =
      let (t, e, rests, best, acted) = cycle_runs-Best image quiet w r in
      let same : t ≡ timed w = some-injective t (timed w) (sym e ∙ updated w off) in
      (
        subst Rests same rests,
        subst (λ u. Best u.kernel (chosen (decision u.kernel))) same best,
        subst (λ u. Acted (chosen (decision u.kernel)) (cycle image w)) same acted,
        bind-some (dispatch image) (timed w) (updated w off),
      )

pub timed-kept :
    (i : ℕ) (w : World)
    → IsValid w.kernel
    → i < w.kernel.task_count
    → Outranks i w.kernel
    → (i < (timed w).kernel.task_count)
      × Outranks i (timed w).kernel
      × ((timed w).kernel.tasks i ≡ ticked (w.kernel.tasks i))
timed-kept i w v lt higher =
    let (kept, at) = update_sleep_lem v in
    (
      omega (arith, kept.count, lt),
      (λ j h ne.
          let h' : j < w.kernel.task_count = omega (arith, kept.count) in
          rw
            (
              at j h',
              at i lt,
              ticked_priority (w.kernel.tasks j),
              ticked_priority (w.kernel.tasks i),
            )
            (higher j h' ne)),
      at i lt,
    )
