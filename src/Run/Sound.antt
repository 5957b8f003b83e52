-- ===== src/Run/Sound.antt =====
-- The invariant of all modules' data, apart from the kernel's, and how one object's change keeps it.
use mini_rtos_sim.Base.{set, set_each, ℕ, ◌≤◌, Option, none, some, List, arith}
use mini_rtos_sim.Kernel.{Kernel}
use mini_rtos_sim.Kernel.Progress.{Progress}
use mini_rtos_sim.Timer.{Timer}
use mini_rtos_sim.Timer.Armed.{AreTimers}
use mini_rtos_sim.Event.{EventFlags}
use mini_rtos_sim.Event.Group.{IsGroup, IsGroup-mono, Behind}
use mini_rtos_sim.Memory.{Pool}
use mini_rtos_sim.Memory.Chain.{FreeList}
use mini_rtos_sim.Sync.{Mutex}
use mini_rtos_sim.Sync.Mutexes.{IsOwned}
use mini_rtos_sim.MessageQueue.{MessageQueue}
use mini_rtos_sim.MessageQueue.Ring.{IsRing}
use mini_rtos_sim.Run.{World}
use mini_rtos_sim.Run.Exec.{put_event}

pub record Objects (count : ℕ) (timer : Timer) (pool : Pool) (mutexes : ℕ → Mutex)
    (queues : ℕ → MessageQueue) (events : ℕ → EventFlags) : Type 0 where
  pub timers : AreTimers timer
  pub blocks : (xs : List ℕ) × FreeList pool xs
  pub owned : (m : ℕ) → IsOwned count (mutexes m)
  pub rings : (q : ℕ) → IsRing (queues q)
  pub groups : (e : ℕ) → IsGroup count (events e)

abbrev pub IsSound : World → Type 0
IsSound w = Objects w.kernel.task_count w.timer w.pool w.mutexes w.queues w.events

pub IsOwned-mono : (m n : ℕ) (mutex : Mutex) → m ≤ n → IsOwned m mutex → IsOwned n mutex
IsOwned-mono m n mutex h o e = let (i, p, q) = o e in (i, omega arith, q)

-- More tasks do no harm.
pub Objects-mono :
    (m n : ℕ) {timer : Timer} {pool : Pool} {mutexes : ℕ → Mutex} {queues : ℕ → MessageQueue}
    {events : ℕ → EventFlags}
    → m ≤ n
    → Objects m timer pool mutexes queues events
    → Objects n timer pool mutexes queues events
Objects-mono m n {mutexes} {events} h o = record {
  timers = o.timers;
  blocks = o.blocks;
  owned = λ i. IsOwned-mono m n (mutexes i) h (o.owned i);
  rings = o.rings;
  groups = λ e. IsGroup-mono m n (events e) h (o.groups e);
}

module _ (w : World) {k : Kernel} (p : Progress w.kernel k) (s : IsSound w) where
  pub kernel-IsSound : IsSound (record w { kernel = k })
  kernel-IsSound = Objects-mono w.kernel.task_count k.task_count p.count_le s

  pub mutex-IsSound :
      (m : ℕ) (mutex : Mutex)
      → IsOwned w.kernel.task_count mutex
      → IsSound (record w { kernel = k; mutexes = set w.mutexes m mutex })
  mutex-IsSound m mutex o =
      let s' = kernel-IsSound in
      record {
        timers = s'.timers;
        blocks = s'.blocks;
        owned =
            set_each (IsOwned k.task_count) w.mutexes m mutex s'.owned
              (IsOwned-mono w.kernel.task_count k.task_count mutex p.count_le o);
        rings = s'.rings;
        groups = s'.groups;
      }

  pub queue-IsSound :
      (q : ℕ) (queue : MessageQueue)
      → (IsRing (w.queues q) → IsRing queue)
      → IsSound (record w { kernel = k; queues = set w.queues q queue })
  queue-IsSound q queue r =
      let s' = kernel-IsSound in
      record {
        timers = s'.timers;
        blocks = s'.blocks;
        owned = s'.owned;
        rings = set_each IsRing w.queues q queue s'.rings (r (s.rings q));
        groups = s'.groups;
      }

pub event-IsSound :
    (w : World) (e : ℕ) (ef : Option EventFlags)
    → IsSound w
    → Behind (IsGroup w.kernel.task_count) ef
    → IsSound (put_event w e ef)
event-IsSound w e none s g = s
event-IsSound w e (some ef) s g = record {
  timers = s.timers;
  blocks = s.blocks;
  owned = s.owned;
  rings = s.rings;
  groups = set_each (IsGroup w.kernel.task_count) w.events e ef s.groups g;
}

pub timer-IsSound :
    (w : World) (timer : Timer) → IsSound w → AreTimers timer → IsSound (record w { timer = timer })
timer-IsSound w timer s a = record {
  timers = a;
  blocks = s.blocks;
  owned = s.owned;
  rings = s.rings;
  groups = s.groups;
}

pub pool-IsSound :
    (w : World) (pool : Pool)
    → IsSound w
    → (xs : List ℕ) × FreeList pool xs
    → IsSound (record w { pool = pool })
pool-IsSound w pool s b = record {
  timers = s.timers;
  blocks = b;
  owned = s.owned;
  rings = s.rings;
  groups = s.groups;
}
