-- ===== src/Scheduler/Tireless.antt =====
-- Programs that never block: the most urgent task runs in every tick.
use mini_rtos_sim.Base.{◌==◌, ==_refl, pos, ℕ, suc, ◌≡◌, ap, subst, true, false, some, arith}
use mini_rtos_sim.Kernel.{Kernel}
use mini_rtos_sim.Kernel.Invariant.{IsValid}
use mini_rtos_sim.Sync.{Holds-map}
use mini_rtos_sim.Run.{World, Image}
use mini_rtos_sim.Run.Exec.{exec}
use mini_rtos_sim.Scheduler.{scheduler_run}
use mini_rtos_sim.Scheduler.Soft.{QuietCallbacks}
use mini_rtos_sim.Scheduler.Bystander.{Spared, core}
use mini_rtos_sim.Task.{is_running, is_blocked}
use mini_rtos_sim.Scheduler.Busy.{Busy, runs_on}
use mini_rtos_sim.Run.Tireless.{Tireless, Tireless-Undisturbed}
use mini_rtos_sim.Scheduler.Lead.{Keeps}
use mini_rtos_sim.Kernel.Peers.{Unblocked}

-- The group of the task alone.
running_Unblocked :
    (i : ℕ) (k : Kernel) → is_running (k.tasks i).state ≡ true → Unblocked (λ j. j == i) k
running_Unblocked i k runs j h e =
    let same : i ≡ j = ground (arith, e) in
    subst (λ x. is_blocked (k.tasks x).state ≡ false) same (ground (arith, runs))

Tireless-Keeps : (image : Image) (i f : ℕ) → Tireless (image.task_code f) → Keeps image i f
Tireless-Keeps image i f all w v s t h runs =
    Holds-map _ (λ w'. Spared i w w' × IsValid w'.kernel) (exec image (image.task_code f) w)
      (λ w' (q, v', timer). (
        record {
          task = ap core (q.peers i (==_refl i));
          count = q.count;
          priority = λ j p. q.priority j;
          timer = timer;
        },
        v',
      ))
      (Tireless-Undisturbed image (λ j. j == i) (image.task_code f) w all v s t
        (running_Unblocked i w.kernel runs))

-- A task that never blocks starves the others: let a world rest (`Rests`: also no task's
-- function is NULL), where the task `i` with the code `f` is READY, every other task has a
-- lower priority, and no software timer is armed. On every path, let its code make only these
-- calls: signals of semaphores, unlocks of mutexes, clears and reads of event flags, calls on
-- the block pool, the queries of task states, of the ready queue and of the clock, and accesses
-- to variables. Let callbacks make no call that needs a current task. Then the scheduler runs
-- for any number of ticks, at least one, and at the end `i` is the current task and the world
-- is such a one again, whatever the code of the others is.
pub urgent_starves :
    (image : Image) (i f n : ℕ) (w : World)
    → QuietCallbacks image
    → Tireless (image.task_code f)
    → Busy i f w
    → (w' : World) × (scheduler_run image (suc n) w ≡ some w')
      × Busy i f w'
      × (w'.kernel.current_task_index ≡ pos i)
urgent_starves image i f n w quiet all b =
    runs_on image quiet i f (Tireless-Keeps image i f all) n w b
