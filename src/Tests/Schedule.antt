-- ===== src/Tests/Schedule.antt =====
-- The scheduler's loop at concrete inputs.
use mini_rtos_sim.Kernel.Invariant.{IsValid}
use mini_rtos_sim.Base.{set, true, pos, ℕ, ◌≡◌, false, none, some, []}
use mini_rtos_sim.Tests.Worlds.{zero_world, ready_world, ready_world-Rests, in_first, in_first_lem}
use mini_rtos_sim.Ready.{entries}
use mini_rtos_sim.Kernel.{rtos_current_task}
use mini_rtos_sim.Run.{World, Image}
use mini_rtos_sim.Run.Exec.{exec}
use mini_rtos_sim.Run.Total.{Ended, exec-Ended}
use mini_rtos_sim.Timer.{timer_now, timer_tick}
use mini_rtos_sim.Scheduler.{timer_update_sleep, cycle, rtos_run}
use mini_rtos_sim.Scheduler.Decide.{Best, decision, chosen}
use mini_rtos_sim.Scheduler.Soft.{QuietCallbacks}
use mini_rtos_sim.Scheduler.Dispatch.{Rests}
use mini_rtos_sim.Scheduler.Act.{Acted}
use mini_rtos_sim.Scheduler.Cycle.{cycle_runs-Best, rtos_run_total}
use mini_rtos_sim.Boot.{rtos_init}
use mini_rtos_sim.Boot.Start.{rtos_init_lem}
use mini_rtos_sim.Memory.Chain.{FreeList, all_blocks}
use mini_rtos_sim.Demo.{demo, sensor_task}

abbrev image : Image
image = demo 1000

quiet : QuietCallbacks image
quiet callback arg = _

cycle_runs-Best_example :
    (timed : World) × (timer_update_sleep image
        (record ready_world { timer = timer_tick ready_world.timer })
      ≡ some timed)
    × Rests timed
    × Best timed.kernel (chosen (decision timed.kernel))
    × Acted (chosen (decision timed.kernel)) (cycle image ready_world)
cycle_runs-Best_example = cycle_runs-Best image quiet ready_world ready_world-Rests

rtos_run_total_example : (w' : World) × (rtos_run image 7 ready_world ≡ some w') × Rests w'
rtos_run_total_example = rtos_run_total image quiet 7 ready_world ready_world-Rests

abbrev in_sensor : World
in_sensor = record ready_world { kernel = in_first }

exec-Ended_example : Ended in_sensor (exec image sensor_task in_sensor)
exec-Ended_example =
    exec-Ended image sensor_task in_sensor in_first_lem.0 ready_world-Rests.sound
      (0, in_first_lem.1)

-- The first mutex is locked.
abbrev locked_world : World
locked_world = record zero_world {
  mutexes = set zero_world.mutexes 0 (record { locked = true; owner = pos 1 });
}

rtos_init_lem_example :
    let w' = rtos_init locked_world in
    IsValid w'.kernel
    × (w'.kernel.task_count ≡ 0)
    × (rtos_current_task w'.kernel ≡ none)
    × (entries w'.kernel.queue ≡ [])
    × (timer_now w'.timer ≡ 0)
    × ((s : ℕ) → (w'.timer.soft_timers s).in_use ≡ false)
    × FreeList w'.pool all_blocks
    × (w'.semaphores ≡ locked_world.semaphores)
    × (w'.mutexes ≡ locked_world.mutexes)
    × (w'.queues ≡ locked_world.queues)
    × (w'.events ≡ locked_world.events)
    × (w'.variables ≡ locked_world.variables)
rtos_init_lem_example = rtos_init_lem locked_world
