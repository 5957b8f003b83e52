-- ===== src/Demo.antt =====
-- src/main.c: the sensor, logger and display tasks, and the set-up of the demonstration. The
-- static `sample` of the sensor is the variable 0; the semaphore, the mutex and the queue are the
-- objects 0 of their kinds. The variable 1 keeps the number in the last line `Logger Task stored
-- sample=%d`; the other lines that only print have no counterpart.
pub mod Returns
pub mod Effects
pub mod Stage
pub mod Calls
pub mod Flow
pub mod Code
pub mod Posture
pub mod Step
pub mod Ticks
pub mod Slots
pub mod Schedule
use mini_rtos_sim.Base.{inc_int, ◌==◌, if◌then◌else◌, ℤ, set, pos, ℕ, not, Option}
use Prim.Native.String.{String}
use mini_rtos_sim.Sync.{semaphore_init, mutex_init}
use mini_rtos_sim.MessageQueue.{queue_init}
use mini_rtos_sim.Tasks.{rtos_create_task}
use mini_rtos_sim.Run.{
  World, Op, Program, done, call, Image, queue_send, queue_receive, sem_wait, sem_signal,
  mutex_lock, mutex_unlock, task_sleep, read_variable, write_variable,
}
use mini_rtos_sim.Scheduler.{rtos_run}
use mini_rtos_sim.Boot.{rtos_init}

-- A call whose result is not used.
abbrev pub then_do : Op → Program → Program
then_do op p = call op λ r. p

-- `sample += 5`
abbrev pub add_five : ℤ → ℤ
add_five x = inc_int (inc_int (inc_int (inc_int (inc_int x))))

abbrev produced : Program → Program
produced p =
    call (read_variable 0)
      λ sample. then_do (write_variable 0 (add_five sample.value)) (then_do (sem_signal 0) p)

unfoldable pub sensor_task : Program
sensor_task =
    let sleep = then_do (task_sleep (pos 3)) done in
    call (read_variable 0)
      λ sample. call (queue_send 0 sample.value) λ sent. (if sent.ok then produced sleep else sleep)

abbrev if_ok : Op → Program → Program
if_ok op p = call op λ r. (if not r.ok then done else p)

-- The logger's line, printed under the mutex.
abbrev pub print_stored : ℤ → Program → Program
print_stored sample p = then_do (write_variable 1 sample) (then_do (mutex_unlock 0) p)

unfoldable pub logger_task : Program
logger_task = if_ok (sem_wait 0) (
    call (queue_receive 0) λ sample.
      (if not sample.ok
        then done
        else if_ok (mutex_lock 0) (print_stored sample.value (then_do (task_sleep (pos 2)) done))))

unfoldable pub display_task : Program
display_task = if_ok (mutex_lock 0) (then_do (mutex_unlock 0) (then_do (task_sleep (pos 4)) done))

-- The addresses of the three functions are 1, 2 and 3; there are no timer callbacks.
abbrev pub code_at : ℕ → Program
code_at address =
    if address == 1
    then sensor_task
    else if address == 2
    then logger_task
    else if address == 3
    then display_task
    else done

abbrev pub demo : ℕ → Image
demo pool_base = record {
  task_code = code_at;
  callback_code = λ callback arg. done;
  pool_base = pool_base;
}

abbrev pub created : String → ℤ → ℕ → World → World
created name priority address w = record w {
  kernel = (rtos_create_task name priority address w.kernel).1;
}

-- The semaphore, the mutex, the queue, and the static `sample`.
abbrev pub initialised : World → World
initialised w = record w {
  semaphores = set w.semaphores 0 (semaphore_init (pos 0));
  mutexes = set w.mutexes 0 mutex_init;
  queues = set w.queues 0 (queue_init (w.queues 0));
  variables = set w.variables 0 (pos 100);
}

unfoldable pub set_up : World → World
set_up w =
    let w1 = initialised (rtos_init w) in
    created "Display Task" (pos 1) 3
      (created "Logger Task" (pos 2) 2 (created "Sensor Task" (pos 3) 1 w1))

unfoldable pub main : ℕ → World → Option World
main pool_base w = rtos_run (demo pool_base) 25 (set_up w)
