-- ===== src/Demo/Stage.antt =====
-- The objects of src/main.c from call to call: what the sensor produces, and what the queue holds.
use mini_rtos_sim.Demo.{add_five}
use mini_rtos_sim.Base.{
  zero, suc, ℤ, length, window, length-window, pos, ℕ, ◌+◌, ◌≡◌, sym, ap, ◌∙◌, false, List, [], ◌∷◌,
}
use mini_rtos_sim.Kernel.{Kernel}
use mini_rtos_sim.MessageQueue.Ring.{IsRing, contents, length-contents}
use mini_rtos_sim.Timer.{Timer}
use mini_rtos_sim.Run.{World}

-- The value number `i` of the sensor: 100, 105, 110, …, as far as `int` goes.
abbrev pub sample : ℕ → ℤ
sample zero = pos 100
sample (suc i) = add_five (sample i)

-- `received` values have left the queue, which holds the next `queued` ones in their order; the
-- logger has last stored the value before the number `logged`, if it has stored any; the semaphore
-- counts `signalled`; the sensor's next value has the number `next`; nobody has the mutex.
pub record Stage (received logged queued signalled next : ℕ) (w : World) : Type 0 where
  pub ring : IsRing (w.queues 0)
  pub held : contents (w.queues 0) ≡ window sample received queued
  pub level : (w.semaphores 0).count ≡ pos signalled
  pub value : w.variables 0 ≡ sample next
  pub stored : (i : ℕ) → logged ≡ suc i → w.variables 1 ≡ sample i
  pub free : (w.mutexes 0).locked ≡ false

abbrev pub rest_of : List ℤ → List ℤ
rest_of [] = []
rest_of (x ∷ xs) = xs

-- Between ticks.
abbrev pub Flow : World → Type 0
Flow w = (r : ℕ) × (d : ℕ) × Stage r r d d (r + d) w

module _ {r l d s p : ℕ} {w : World} (g : Stage r l d s p w) where
  pub count-queued : (w.queues 0).count ≡ d
  count-queued = sym (length-contents (w.queues 0)) ∙ ap length g.held ∙ length-window sample r d

  pub with_kernel : (k : Kernel) → Stage r l d s p (record w { kernel = k })
  with_kernel k = record {
    ring = g.ring;
    held = g.held;
    level = g.level;
    value = g.value;
    stored = g.stored;
    free = g.free;
  }

  pub with_timer : (timer : Timer) → Stage r l d s p (record w { timer = timer })
  with_timer timer = record {
    ring = g.ring;
    held = g.held;
    level = g.level;
    value = g.value;
    stored = g.stored;
    free = g.free;
  }
