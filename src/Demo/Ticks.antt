-- ===== src/Demo/Ticks.antt =====
-- A tick of src/main.c in which the sensor, the logger or the display runs.
use mini_rtos_sim.Base.{
  ◌==◌, Bool-cases, set, pos, ℕ, suc, ◌-◌, ◌<◌, ◌≡◌, refl, sym, ap, subst, ◌≢◌, inl, inr, arith,
}
use mini_rtos_sim.Task.{queue_size}
use mini_rtos_sim.Run.{World, Image}
use mini_rtos_sim.Scheduler.Timed.{timed}
use mini_rtos_sim.Demo.{demo, add_five}
use mini_rtos_sim.Demo.Stage.{count-queued}
use mini_rtos_sim.Demo.Code.{sensor_did, logger_did, freed, sensor_runs, logger_runs, display_runs}
use mini_rtos_sim.Demo.Posture.{Posture, one_less}
use mini_rtos_sim.Demo.Step.{Ticked, task_ticks}

module _ (pool_base : ℕ) {left : ℕ → ℕ} {d n : ℕ} {w : World} (p : Posture left d n w) where
  abbrev image : Image
  image = demo pool_base

  abbrev due : ℕ → ℕ
  due j = one_less (left j)

  pub sensor_ticks :
      due 0 ≡ 0 → d < queue_size → Ticked image w (set due 0 3) (suc d) (suc n) (pos 0)
  sensor_ticks now room =
      task_ticks pool_base p 0 2 (suc d) (suc n) (sensor_did (timed w)) (omega arith) now
        (λ j h. absurd (omega arith))
        (λ k c.
          sensor_runs image 0 (record (timed w) { kernel = k }) c
            λ e. absurd (omega (arith, p.level, e)))
        refl (omega (arith, p.level)) (ap add_five p.value)

  pub logger_ticks : due 0 ≢ 0 → due 1 ≡ 0 → 0 < d → Ticked image w (set due 1 2) (d - 1) n (pos 1)
  logger_ticks first now filled =
      let (r, q, g) = p.flow in
      let many = count-queued g in
      task_ticks pool_base p 1 1 (d - 1) n (logger_did (timed w)) (omega arith) now
        (λ j h. let only : j ≡ 0 = omega arith in subst (λ x. due x ≢ 0) (sym only) first)
        (λ k c.
          logger_runs image 1 (record (timed w) { kernel = k }) c
            (rw g.level (omega (arith, many, p.level))) (λ e. absurd (omega (arith, p.level, e)))
            g.free)
        refl (omega (arith, p.level)) p.value

  pub display_ticks : due 0 ≢ 0 → due 1 ≢ 0 → due 2 ≡ 0 → Ticked image w (set due 2 4) d n (pos 2)
  display_ticks first second now =
      let (r, q, g) = p.flow in
      task_ticks pool_base p 2 3 d n (freed (timed w)) (omega arith) now
        (λ j h. elim (Bool-cases (j == 0)) [
          | inl e ↦ let only : 0 ≡ j = ground (arith, e) in subst (λ x. due x ≢ 0) only first
          | inr e ↦ let only : 1 ≡ j = ground (arith, e, h) in subst (λ x. due x ≢ 0) only second
        ])
        (λ k c. display_runs image 2 (record (timed w) { kernel = k }) c g.free) refl p.level
        p.value
