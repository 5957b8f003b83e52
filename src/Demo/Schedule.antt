-- ===== src/Demo/Schedule.antt =====
-- The exact schedule of src/main.c.
use mini_rtos_sim.Base.{
  pos, ℕ, zero, suc, ◌+◌, ◌-◌, ◌/◌, ◌%◌, ◌<◌, ◌≡◌, refl, sym, ap, ◌∙◌, subst, some, arith,
}
use mini_rtos_sim.Sync.{bind-some}
use mini_rtos_sim.Kernel.{scheduler_set_task_state}
use mini_rtos_sim.Tasks.{rtos_create_task}
use mini_rtos_sim.Timer.{timer_init}
use mini_rtos_sim.MessageQueue.{queue_init}
use mini_rtos_sim.Boot.{rtos_init, scheduler_init}
use mini_rtos_sim.Boot.Start.{Fresh}
use mini_rtos_sim.Run.{World, Image}
use mini_rtos_sim.Scheduler.{scheduler_run, rtos_run}
use mini_rtos_sim.Demo.{demo, set_up}
use mini_rtos_sim.Demo.Returns.{set_up-Rests}
use mini_rtos_sim.Demo.Flow.{set_up-Flow}
use mini_rtos_sim.Demo.Posture.{Dozes}
use mini_rtos_sim.Demo.Slots.{
  Slot, started, sensed, logged, shown, sensed_again, logged_again, idled, next, ticks_left, sends,
  Seen, by_three, cycle-Seen,
}

-- The situation after `t` ticks.
abbrev repeated : ℕ → Slot
repeated zero = sensed
repeated (suc zero) = logged
repeated (suc (suc zero)) = shown
repeated (suc (suc (suc zero))) = sensed_again
repeated (suc (suc (suc (suc zero)))) = logged_again
repeated (suc (suc (suc (suc (suc r))))) = idled

abbrev pub slot_at : ℕ → Slot
slot_at zero = started
slot_at (suc t) = repeated (t % 6)

-- The samples that the sensor has sent by then: one in each three ticks.
abbrev pub samples_at : ℕ → ℕ
samples_at t = (t + 2) / 3

by_six : (P : ℕ → Type 0) → P 0 → P 1 → P 2 → P 3 → P 4 → P 5 → (r : ℕ) → r < 6 → P r
by_six P a b c d e f zero h = a
by_six P a b c d e f (suc zero) h = b
by_six P a b c d e f (suc (suc zero)) h = c
by_six P a b c d e f (suc (suc (suc zero))) h = d
by_six P a b c d e f (suc (suc (suc (suc zero)))) h = e
by_six P a b c d e f (suc (suc (suc (suc (suc zero))))) h = f
by_six P a b c d e f (suc (suc (suc (suc (suc (suc r)))))) h = absurd (omega arith)

next-slot_at : (t : ℕ) → next (slot_at t) ≡ slot_at (suc t)
next-slot_at zero = refl
next-slot_at (suc t) =
    let same : suc t % 6 ≡ suc (t % 6) % 6 = omega arith in
    by_six (λ r. next (repeated r) ≡ repeated (suc r % 6)) refl refl refl refl refl refl (t % 6)
      (omega arith)
    ∙ ap repeated (sym same)

next-samples_at : (t : ℕ) → samples_at t + sends (slot_at (suc t)) ≡ samples_at (suc t)
next-samples_at t =
    by_six (λ r. t % 6 ≡ r → samples_at t + sends (repeated r) ≡ samples_at (suc t))
      (λ e. omega arith) (λ e. omega arith) (λ e. omega arith) (λ e. omega arith) (λ e. omega arith)
      (λ e. omega arith) (t % 6) (omega arith) refl

module _ (pool_base : ℕ) where
  abbrev demonstration : Image
  demonstration = demo pool_base

  run-Seen :
      (ticks t : ℕ) (w : World)
      → Seen (slot_at t) (samples_at t) w
      → (w' : World) × (scheduler_run demonstration ticks w ≡ some w')
        × Seen (slot_at (t + ticks)) (samples_at (t + ticks)) w'
  unfolding scheduler_run
  run-Seen zero t w s =
      let same : t ≡ t + 0 = omega arith in
      (w, refl, subst (λ x. Seen (slot_at x) (samples_at x) w) same s)
  run-Seen (suc ticks) t w s =
      let (w1, e1, s1) = cycle-Seen pool_base (slot_at t) (samples_at t) w s in
      let s2 = subst (λ x. Seen x (samples_at t + sends x) w1) (next-slot_at t) s1 in
      let s3 = subst (λ n. Seen (slot_at (suc t)) n w1) (next-samples_at t) s2 in
      let (w2, e2, s4) = run-Seen ticks (suc t) w1 s3 in
      let same : suc t + ticks ≡ t + suc ticks = omega arith in
      (w2, bind-some _ w1 e1 ∙ e2, subst (λ x. Seen (slot_at x) (samples_at x) w2) same s4)

set_up-Seen : (w : World) → Fresh w → Seen started 0 (set_up w)
unfolding set_up rtos_init scheduler_init timer_init rtos_create_task scheduler_set_task_state
    queue_init
set_up-Seen w f = (
  record {
    rests = set_up-Rests w f;
    unarmed = λ s. refl;
    count = refl;
    dozes = by_three (λ j. Dozes (ticks_left started j) ((set_up w).kernel.tasks j)) refl refl refl;
    priority = by_three (λ j. ((set_up w).kernel.tasks j).priority ≡ pos (3 - j)) refl refl refl;
    code = by_three (λ j. ((set_up w).kernel.tasks j).task_function ≡ suc j) refl refl refl;
    flow = set_up-Flow w;
    level = refl;
    value = refl;
  },
  refl,
)

-- The exact schedule of the demonstration, if at the start no mutex is locked, each queue is a ring
-- and nobody waits for event flags: any number of ticks is run without a fault. The current task at
-- the end of a tick is the sensor for the ticks 1, 4, 7, …, the logger for the ticks 2, 5, 8, …, and
-- the display for the ticks 3, 9, 15, …; each is then READY or asleep, for a number of ticks that is
-- known. In the ticks 6, 12, 18, … all three sleep on, and the logger stays the current task. The
-- sensor has sent (t + 2) / 3 samples after `t` ticks; the queue is empty but for the one that it has
-- sent in the last tick, if any. Between ticks the whole system is well formed.
pub demo_schedule :
    (pool_base t : ℕ) (w : World)
    → Fresh w
    → (w' : World) × (rtos_run (demo pool_base) t (set_up w) ≡ some w')
      × Seen (slot_at t) (samples_at t) w'
unfolding rtos_run
demo_schedule pool_base t w f =
    let (w', e, seen) = run-Seen pool_base t 0 (set_up w) (set_up-Seen w f) in
    let same : 0 + t ≡ t = omega arith in
    (w', e, subst (λ x. Seen (slot_at x) (samples_at x) w') same seen)
