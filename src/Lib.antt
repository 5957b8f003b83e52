-- ===== src/Lib.antt =====
-- Mini RTOS simulator: a priority scheduler with time slices, tasks, semaphores, mutexes, message
-- queues, event flags, software timers and a block pool, on a PC. Tasks run to completion: a tick of
-- `scheduler_run` chooses a task and calls its function, which returns.
--
-- The parts and their modules:
--   Context       src/context.c: the simulated registers. `Contexts` is the store of all CPUContext
--                 objects, so that calls may alias; the context of task `i` is the object `i`.
--   Task          include/rtos.h: states, block reasons, the control block.
--   Ready         src/scheduler.c: the array `ready_queue` with `ready_count`. Remove, Peek
--                 and Leader relate it to the list of its entries.
--   Kernel        src/scheduler.c: the task table with `scheduler_set_task_state`,
--                 `scheduler_set_current_task_state`, `scheduler_unblock_one`. Invariant has
--                 `IsValid`: the queue holds just the READY tasks, each once. Transition, Unblock,
--                 Progress and Enter are about these functions, Peers about the tasks that they leave
--                 alone.
--   Tasks         src/rtos.c: `rtos_create_task`, sleep, suspend, resume and the queries.
--   Sync          src/rtos.c: semaphores and mutexes; Exclusion has a mutex as a system of steps.
--   MessageQueue  src/rtos.c: message queues. Fifo is the list that they implement.
--   Memory        src/memory.c: the pool, byte by byte. Chain says what its free list is.
--   Timer         src/timer.c: clock, sleepers, the pool of software timers. Armed says when a timer
--                 is well formed.
--   Event         src/event.c: event flags and their waiters. Group says when the table of waiters is
--                 well formed; Table forgets its order, and Refine has what a set promises.
--                 Suspended is about a waiter that is suspended.
--   Run           the state of all modules, task code as a tree of kernel calls (`Program`), and the
--                 interpreter `exec` that stands for a call through a function pointer. Sound has the
--                 invariant of all objects (`IsSound`), Total is about every call, Errors about the
--                 calls that report an error, Frame, Others and Isolation about the tasks that a call
--                 leaves alone, Tireless about programs that never block.
--   Scheduler     src/scheduler.c and src/timer.c: `timer_update_soft`, `do_context_switch`,
--                 `scheduler_run`. A cycle is a `Decision` and its execution `act`. Turn, Rotate and
--                 Rounds are about tasks of one priority, Soft, Countdown, Periodic, Own and Chain about
--                 software timers. Dispatch has the invariant between ticks (`Rests`). Preserve has the
--                 interface by which an application shows an invariant of its own objects
--                 (`IsKept`); Clock and Demo fill it. Call is about the call through a task's
--                 function pointer, Chosen has how a dispatch enters its task, and Doze is about a task
--                 that then goes to sleep.
--                 Gentle is about applications whose tasks spare the most urgent one; Timed,
--                 Bystander, Spare and Deadline follow that one while it sleeps, Lead, Busy and
--                 Tireless while it does not block.
--   Boot          `rtos_init` and `scheduler_init`.
--   Log           src/rtos.c and src/scheduler.c: `uart_log` and `state_name`. Stamp reads lines back.
--   Demo          src/main.c: the three tasks and `main`. Stage, Calls and Flow are about the samples on
--                 their way from the sensor to the logger; Code, Posture, Step, Ticks, Slots and
--                 Schedule are about which task runs in which tick.
--   Base          arithmetic, arrays and lists; Tests: the theorems at concrete inputs.
--
-- How the state corresponds. An array is a function of its index; the bounds that keep accesses
-- inside it are theorems. A pointer to a task is its index, `none` is NULL or -1. `bound` of the kernel
-- says that `scheduler_init` has set the pointers of scheduler.c and timer.c. A function that reads
-- or calls through a NULL pointer answers `none`, so a theorem that it answers `some` says that it does not
-- fault. An `int` is an integer; where nothing bounds the arithmetic on it, in `sem->count++` and
-- `sample += 5`, it wraps round from `INT_MAX` to `INT_MIN` (`inc_int`), as compilers do it that do not
-- take the overflow for undefined; elsewhere the code's own tests keep it in range. `uint32_t` wraps at
-- 2^32, and the conversion to `int` in `block_index` is written out. Pointers to the block pool are addresses below no particular bound on a 64-bit
-- little-endian host. The code at an address is a parameter (`Image`): a task function is a finite
-- program that makes calls of `Op` and branches on the answers; a task that never returns stops the
-- simulator too, and is not a program. `Op` has the calls on tasks, semaphores, mutexes, queues, event
-- flags, software timers, the pool and the clock. They are given objects that exist, not NULL, but for
-- software timers, where NULL is tested; and a task is created with a function that is not NULL, at the
-- address after the given number. What `main` calls before it runs the scheduler is no call of a task:
-- `rtos_init`, `rtos_run`, the initialisers of objects; nor are the calls inside the kernel, as
-- `timer_tick` or those on contexts, and the queries that only read: of stacks and of the pool.
--
-- Loops are structural recursion on the number of rounds, which the source fixes before the loop; the
-- scan of the peek makes one round for each entry, since a round either moves on or removes an entry.
-- `scheduler_run` recurses on its number of ticks. No other fuel is used.
--
-- Not modelled: which lines the functions print, and what they format, but for the sample that the
-- logger of main.c stores, which a variable keeps; `puts` in `main`; and the files of tests/.
pub mod Base
pub mod Context
pub mod Task
pub mod Ready
pub mod Kernel
pub mod Tasks
pub mod Memory
pub mod Timer
pub mod Sync
pub mod MessageQueue
pub mod Event
pub mod Run
pub mod Scheduler
pub mod Boot
pub mod Log
pub mod Demo
pub mod Tests
