-- ===== src/Demo/Slots.antt =====
-- The situations of src/main.c, and the tick from each to the next.
use mini_rtos_sim.Base.{
  minus_one, ℤ, pos, ℕ, zero, suc, ◌+◌, ◌<◌, ◌≡◌, refl, subst, ◌≢◌, some, arith,
}
use mini_rtos_sim.Run.{World, Image}
use mini_rtos_sim.Scheduler.{cycle}
use mini_rtos_sim.Demo.{demo}
use mini_rtos_sim.Demo.Posture.{Dozes, Posture, one_less}
use mini_rtos_sim.Demo.Step.{Ticked, idle_ticks}
use mini_rtos_sim.Demo.Ticks.{sensor_ticks, logger_ticks, display_ticks}

-- The situations that the system goes through: before the first tick, and after each of six ticks
-- that repeat.
pub data Slot : Type 0 where
  started sensed logged shown sensed_again logged_again idled : Slot

abbrev pub next : Slot → Slot
next started = sensed
next sensed = logged
next logged = shown
next shown = sensed_again
next sensed_again = logged_again
next logged_again = idled
next idled = sensed

abbrev pub triple : ℕ → ℕ → ℕ → ℕ → ℕ
triple a b c zero = a
triple a b c (suc zero) = b
triple a b c (suc (suc j)) = c

-- The ticks for which the sensor, the logger and the display still sleep.
abbrev pub ticks_left : Slot → ℕ → ℕ
ticks_left started = triple 0 0 0
ticks_left sensed = triple 3 0 0
ticks_left logged = triple 2 2 0
ticks_left shown = triple 1 1 4
ticks_left sensed_again = triple 3 0 3
ticks_left logged_again = triple 2 2 2
ticks_left idled = triple 1 1 1

-- A sample is in the queue just after it has been sent.
abbrev pub sends : Slot → ℕ
sends sensed = 1
sends sensed_again = 1
sends _ = 0

-- The task that was the last to run.
abbrev pub runs : Slot → ℤ
runs started = minus_one
runs sensed = pos 0
runs logged = pos 1
runs shown = pos 2
runs sensed_again = pos 0
runs logged_again = pos 1
runs idled = pos 1

abbrev pub Seen : Slot → ℕ → World → Type 0
Seen s n w = Posture (ticks_left s) (sends s) n w × (w.kernel.current_task_index ≡ runs s)

Posture-cong :
    {l l' : ℕ → ℕ} {d n : ℕ} {w : World}
    → ((j : ℕ) → j < 3 → l j ≡ l' j)
    → Posture l d n w
    → Posture l' d n w
Posture-cong {l} {l'} {d} {n} {w} same p = record {
  rests = p.rests;
  unarmed = p.unarmed;
  count = p.count;
  dozes = λ j h. subst (λ m. Dozes m (w.kernel.tasks j)) (same j h) (p.dozes j h);
  priority = p.priority;
  code = p.code;
  flow = p.flow;
  level = p.level;
  value = p.value;
}

pub by_three : (P : ℕ → Type 0) → P 0 → P 1 → P 2 → (j : ℕ) → j < 3 → P j
by_three P a b c zero h = a
by_three P a b c (suc zero) h = b
by_three P a b c (suc (suc zero)) h = c
by_three P a b c (suc (suc (suc j))) h = absurd (omega arith)

module _ (pool_base : ℕ) where
  abbrev image : Image
  image = demo pool_base

  becomes :
      {l : ℕ → ℕ} (s : Slot) (n m : ℕ) (w : World)
      → l 0 ≡ ticks_left s 0
      → l 1 ≡ ticks_left s 1
      → l 2 ≡ ticks_left s 2
      → m ≡ n + sends s
      → Ticked image w l (sends s) m (runs s)
      → (w' : World) × (cycle image w ≡ some w') × Seen s (n + sends s) w'
  becomes {l} s n m w a b c same (w', e, p, now) =
      let p' = subst (λ x. Posture l (sends s) x w') same p in
      (w', e, (Posture-cong (by_three (λ j. l j ≡ ticks_left s j) a b c) p', now))

  pub cycle-Seen :
      (s : Slot) (n : ℕ) (w : World)
      → Seen s n w
      → (w' : World) × (cycle image w ≡ some w') × Seen (next s) (n + sends (next s)) w'
  cycle-Seen started n w (p, c) =
      becomes sensed n (suc n) w refl refl refl (omega arith)
        (sensor_ticks pool_base p refl (omega arith))
  cycle-Seen sensed n w (p, c) =
      becomes logged n n w refl refl refl (omega arith)
        (logger_ticks pool_base p (λ e. absurd (omega arith)) refl (omega arith))
  cycle-Seen logged n w (p, c) =
      becomes shown n n w refl refl refl (omega arith)
        (display_ticks pool_base p (λ e. absurd (omega arith)) (λ e. absurd (omega arith)) refl)
  cycle-Seen shown n w (p, c) =
      becomes sensed_again n (suc n) w refl refl refl (omega arith)
        (sensor_ticks pool_base p refl (omega arith))
  cycle-Seen sensed_again n w (p, c) =
      becomes logged_again n n w refl refl refl (omega arith)
        (logger_ticks pool_base p (λ e. absurd (omega arith)) refl (omega arith))
  cycle-Seen logged_again n w (p, c) = becomes idled n n w refl refl refl (omega arith) (
      subst (Ticked image w _ 0 n) c (
        idle_ticks pool_base p (
          by_three (λ j. one_less (triple 2 2 2 j) ≢ 0) (λ e. absurd (omega arith))
            (λ e. absurd (omega arith)) (λ e. absurd (omega arith)))))
  cycle-Seen idled n w (p, c) =
      becomes sensed n (suc n) w refl refl refl (omega arith)
        (sensor_ticks pool_base p refl (omega arith))
