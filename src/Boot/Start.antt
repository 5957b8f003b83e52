-- ===== src/Boot/Start.antt =====
-- The state that `rtos_init` leaves.
use mini_rtos_sim.Kernel.Invariant.{IsValid}
use mini_rtos_sim.Base.{ℕ, ◌≡◌, refl, false, none, [], arith}
use mini_rtos_sim.Ready.{entries}
use mini_rtos_sim.Kernel.{rtos_current_task}
use mini_rtos_sim.Memory.Chain.{FreeList, all_blocks, memory_init-FreeList}
use mini_rtos_sim.Run.{World}
use mini_rtos_sim.Timer.{timer_now, timer_init}
use mini_rtos_sim.MessageQueue.Ring.{IsRing}
use mini_rtos_sim.Scheduler.Dispatch.{Rests}
use mini_rtos_sim.Boot.{rtos_init}

-- The application's objects before they are used: no mutex is locked, each queue is a ring, and
-- nobody waits for event flags. Objects that are zero are so.
pub record Fresh (w : World) : Type 0 where
  pub unlocked : (m : ℕ) → (w.mutexes m).locked ≡ false
  pub rings : (q : ℕ) → IsRing (w.queues q)
  pub no_waiters : (e : ℕ) → (w.events e).waiter_count ≡ 0

-- Whatever the world was before, `rtos_init` leaves a valid kernel with no task, no current task and
-- an empty ready queue, the clock at 0, software timers that are all free, and a pool whose free list
-- has all blocks. Semaphores, mutexes, queues, event groups and variables stay as they are.
pub rtos_init_lem :
    (w : World)
    → let w' = rtos_init w in
      IsValid w'.kernel
      × (w'.kernel.task_count ≡ 0)
      × (rtos_current_task w'.kernel ≡ none)
      × (entries w'.kernel.queue ≡ [])
      × (timer_now w'.timer ≡ 0)
      × ((s : ℕ) → (w'.timer.soft_timers s).in_use ≡ false)
      × FreeList w'.pool all_blocks
      × (w'.semaphores ≡ w.semaphores)
      × (w'.mutexes ≡ w.mutexes)
      × (w'.queues ≡ w.queues)
      × (w'.events ≡ w.events)
      × (w'.variables ≡ w.variables)
unfolding rtos_init rtos_current_task timer_init timer_now
rtos_init_lem w = (
  record {
    bound = refl;
    count_le = omega arith;
    current_lt = ground arith;
    numbered = λ i h. absurd (omega arith);
    queued = record { exact = λ i. ground arith; distinct = ground arith };
  },
  refl,
  refl,
  refl,
  refl,
  (λ s. refl),
  memory_init-FreeList w.pool,
  refl,
  refl,
  refl,
  refl,
  refl,
)

-- Where the objects of the application are fresh, the world is then at rest.
pub rtos_init-Rests : (w : World) → Fresh w → Rests (rtos_init w)
unfolding rtos_init timer_init
rtos_init-Rests w f = record {
  valid = (rtos_init_lem w).0;
  paused = λ i h. absurd (omega arith);
  entry = λ i h. absurd (omega arith);
  loaded = λ i e. absurd (ground (arith, e));
  sound = record {
    timers = λ i u. absurd (cc u);
    blocks = (all_blocks, memory_init-FreeList w.pool);
    owned = λ m e. absurd (ground (arith, f.unlocked m, e));
    rings = f.rings;
    groups = λ e. record {
      few = omega (arith, f.no_waiters e);
      waiter = λ j h. absurd (omega (arith, f.no_waiters e));
    };
  };
}
