-- ===== src/Tests/Objects.antt =====
-- Semaphores, mutexes and message queues at concrete inputs.
use mini_rtos_sim.Base.{All, pos, ℕ, ◌<◌, ◌≡◌, refl, Bool, true, some, List, [], ◌∷◌, arith}
use mini_rtos_sim.Tests.Worlds.{zero_queue, three, three-IsValid, below_three, in_first}
use mini_rtos_sim.Kernel.{Kernel, scheduler_set_task_state, rtos_current_task}
use mini_rtos_sim.Kernel.Invariant.{IsValid}
use mini_rtos_sim.Sync.{Semaphore, Mutex, mutex_init, rtos_mutex_lock}
use mini_rtos_sim.Sync.Semaphores.{SemOp, wait, signal, sem_run, Conserves, sem_run-Conserves}
use mini_rtos_sim.Sync.Mutexes.{id_of}
use mini_rtos_sim.Sync.Exclusion.{Reach, here, next, locks, start, after_lock, mutual_exclusion}
use mini_rtos_sim.Tasks.{rtos_create_task}
use mini_rtos_sim.Boot.{rtos_init}
use mini_rtos_sim.Demo.{set_up}
use mini_rtos_sim.MessageQueue.{MessageQueue, queue_init}
use mini_rtos_sim.MessageQueue.Fifo
use mini_rtos_sim.MessageQueue.Fifo.{Call, send, receive, Reply}
use mini_rtos_sim.MessageQueue.Ring.{IsRing, contents, queue_init-IsRing}
use mini_rtos_sim.MessageQueue.Refine.{queue_run, queue_run_refines}

abbrev one : Semaphore
one = record { count = pos 1 }

callers : All (λ i. i < three.task_count) (0 ∷ 1 ∷ 2 ∷ [])
callers =
    (below_three 0 (omega arith), (below_three 1 (omega arith), (below_three 2 (omega arith), tt)))

-- Two tasks wait, and the third one signals.
abbrev calls : List (ℕ × SemOp)
calls = (0, wait) ∷ (1, wait) ∷ (2, signal) ∷ []

sem_run-Conserves_example : Conserves three.task_count 1 one three (sem_run calls one three)
sem_run-Conserves_example =
    sem_run-Conserves calls one three three-IsValid callers (omega arith) (omega arith)

abbrev first_task : ℕ
first_task = 0

abbrev taken_by_first : Bool × Mutex × Kernel
taken_by_first = (true, record { locked = true; owner = id_of 0 }, in_first)

first_locks : rtos_mutex_lock mutex_init in_first ≡ some taken_by_first
unfolding rtos_mutex_lock mutex_init set_up rtos_init rtos_create_task scheduler_set_task_state
    rtos_current_task
first_locks = refl

first_enters : Reach (start three) (after_lock (start three) 0 taken_by_first)
first_enters = next here (locks 0 taken_by_first (below_three 0 (omega arith)) first_locks)

mutual_exclusion_example :
    (first_task ≡ 0) × (taken_by_first.1.locked ≡ true) × (taken_by_first.1.owner ≡ id_of 0)
mutual_exclusion_example = mutual_exclusion 0 0 three-IsValid first_enters refl refl

abbrev empty_queue : MessageQueue
empty_queue = queue_init zero_queue

abbrev traffic : List Call
traffic = send 0 (pos 5) ∷ receive 1 ∷ receive 2 ∷ []

queue_run_refines_example :
    (rs : List Reply) × (q' : MessageQueue) × (k' : Kernel) × (queue_run traffic empty_queue three
      ≡ some (rs, q', k'))
    × (Fifo.run traffic (contents empty_queue) ≡ (rs, contents q'))
    × IsRing q'
    × IsValid k'
queue_run_refines_example =
    queue_run_refines traffic empty_queue three (queue_init-IsRing zero_queue).0 three-IsValid
      callers
