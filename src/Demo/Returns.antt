-- ===== src/Demo/Returns.antt =====
-- src/main.c as a whole.
use mini_rtos_sim.Base.{◌<◌, arith, ℤ, set_each, pos, ℕ, ◌≡◌, some}
use Prim.Native.String.{String}
use mini_rtos_sim.Tasks.Progress.{create_task-Progress}
use mini_rtos_sim.Run.{World}
use mini_rtos_sim.Sync.{mutex_init}
use mini_rtos_sim.Sync.Mutexes.{IsOwned}
use mini_rtos_sim.MessageQueue.{queue_init}
use mini_rtos_sim.MessageQueue.Ring.{IsRing, queue_init-IsRing}
use mini_rtos_sim.Run.Sound.{IsSound, kernel-IsSound}
use mini_rtos_sim.Scheduler.Dispatch.{Rests}
use mini_rtos_sim.Scheduler.Cycle.{Progress-Rests, rtos_run_total}
use mini_rtos_sim.Boot.{rtos_init}
use mini_rtos_sim.Boot.Start.{Fresh, rtos_init-Rests}
use mini_rtos_sim.Demo.{demo, created, initialised, set_up, main}

pub created-Rests :
    (name : String) (priority : ℤ) (address : ℕ) (w : World)
    → 0 < address
    → Rests w
    → Rests (created name priority address w)
created-Rests name priority address w some_code r =
    let p = create_task-Progress name priority address some_code r.valid in
    Progress-Rests w (created name priority address w) p (kernel-IsSound w p r.sound) r

-- The objects that `main` initialises.
initialised-IsSound : (w : World) → IsSound w → IsSound (initialised w)
unfolding queue_init mutex_init
initialised-IsSound w s = record {
  timers = s.timers;
  blocks = s.blocks;
  owned =
      set_each (IsOwned w.kernel.task_count) w.mutexes 0 mutex_init s.owned (λ e. absurd (cc e));
  rings =
      set_each IsRing w.queues 0 (queue_init (w.queues 0)) s.rings
        (queue_init-IsRing (w.queues 0)).0;
  groups = s.groups;
}

pub set_up-Rests : (w : World) → Fresh w → Rests (set_up w)
unfolding set_up
set_up-Rests w f =
    let r = rtos_init-Rests w f in
    created-Rests "Display Task" (pos 1) 3 _ (omega arith) (
      created-Rests "Logger Task" (pos 2) 2 _ (omega arith) (
        created-Rests "Sensor Task" (pos 3) 1 _ (omega arith) (record {
          valid = r.valid;
          paused = r.paused;
          entry = r.entry;
          loaded = r.loaded;
          sound = initialised-IsSound (rtos_init w) r.sound;
        })))

-- The demonstration never faults: if at the start no mutex is locked, each queue is a ring and
-- nobody waits for event flags, and whatever the memory holds otherwise, all 25 ticks run. At the
-- end the kernel is valid with no task RUNNING, the registers are in place, and all objects are
-- well formed.
pub main_returns :
    (pool_base : ℕ) (w : World) → Fresh w → (w' : World) × (main pool_base w ≡ some w') × Rests w'
unfolding main
main_returns pool_base w f =
    rtos_run_total (demo pool_base) (λ callback arg. _) 25 (set_up w) (set_up-Rests w f)
