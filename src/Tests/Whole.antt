-- ===== src/Tests/Whole.antt =====
-- The whole system at concrete inputs.
use mini_rtos_sim.Base.{pos, ℕ, suc, ◌+◌, ◌%◌, ◌^◌, ◌<◌, ◌≡◌, refl, ◌≢◌, none, some, arith}
use mini_rtos_sim.Tests.Worlds.{
  zero_world, zero_world-Fresh, ready_world, ready_world-Rests, three, three-IsValid,
}
use mini_rtos_sim.Task.{suspended}
use mini_rtos_sim.Timer.{timer_init, timer_now}
use mini_rtos_sim.Tasks.{rtos_resume_task}
use mini_rtos_sim.Tasks.Queries.{Answers, queries_lem}
use mini_rtos_sim.Run.{World, Reply, Image, resume_task}
use mini_rtos_sim.Run.Exec.{exec_op, reply}
use mini_rtos_sim.Run.Total.{Ended}
use mini_rtos_sim.Run.Errors.{Answered, exec_op-errors}
use mini_rtos_sim.Boot.{rtos_init, scheduler_init}
use mini_rtos_sim.Scheduler.{timer_update_soft, rtos_run}
use mini_rtos_sim.Scheduler.Soft.{QuietCallbacks, update_soft-Ended}
use mini_rtos_sim.Scheduler.Dispatch.{Rests}
use mini_rtos_sim.Scheduler.Clock.{clock_exact}
use mini_rtos_sim.Scheduler.Preserve.{rtos_run_keeps}
use mini_rtos_sim.Demo.{demo, set_up}
use mini_rtos_sim.Demo.Stage.{Flow}
use mini_rtos_sim.Demo.Slots.{Seen, sensed}
use mini_rtos_sim.Demo.Schedule.{demo_schedule}
use mini_rtos_sim.Demo.Flow.{demo-IsKept, set_up-Flow, demo_flows}

abbrev image : Image
image = demo 1000

quiet : QuietCallbacks image
quiet callback arg = _

update_soft-Ended_example : Ended ready_world (timer_update_soft image ready_world)
update_soft-Ended_example =
    update_soft-Ended image quiet ready_world ready_world-Rests.valid ready_world-Rests.sound

rtos_run_keeps_example :
    (w' : World) × (rtos_run image 7 ready_world ≡ some w') × Rests w' × Flow w'
rtos_run_keeps_example =
    rtos_run_keeps (demo-IsKept 1000) 7 0 ready_world quiet ready_world-Rests
      (set_up-Flow zero_world)

demo_flows_example :
    (w' : World) × (rtos_run image 7 (set_up zero_world) ≡ some w') × Rests w' × Flow w'
demo_flows_example = demo_flows 1000 7 zero_world zero_world-Fresh

at_zero : timer_now ready_world.timer ≡ 0
unfolding timer_now set_up rtos_init scheduler_init timer_init
at_zero = refl

clock_exact_example :
    (w' : World) × (rtos_run image 7 ready_world ≡ some w')
    × (timer_now w'.timer ≡ (timer_now ready_world.timer + 7) % 2 ^ 32)
clock_exact_example =
    clock_exact image quiet 7 ready_world ready_world-Rests (omega (arith, at_zero))

-- The answer to `rtos_resume_task(9)`, where no task has the identifier 9.
abbrev resumed : Reply × World
resumed =
    let r = rtos_resume_task (pos 9) three in
    (reply r.0 (pos 0), record ready_world { kernel = r.1 })

resumed-eq : exec_op image (resume_task (pos 9)) ready_world ≡ some resumed
unfolding exec_op
resumed-eq = refl

exec_op-errors_example : Answered (resume_task (pos 9)) ready_world resumed
exec_op-errors_example =
    exec_op-errors image (omega arith) (resume_task (pos 9)) ready_world resumed
      ready_world-Rests.valid ready_world-Rests.sound resumed-eq

queries_lem_example :
    ((i : ℕ)
      → i < three.task_count
      → pos 2 ≡ pos (suc i)
      → Answers three
          (pos 2)
          (three.tasks i).state
          (some (i, 0))
          (some (i, (three.tasks i).stack_pointer))
          (three.tasks i).stack_bytes)
    × (((i : ℕ) → i < three.task_count → pos 2 ≢ pos (suc i))
        → Answers three (pos 2) suspended none none 0)
queries_lem_example = queries_lem (pos 2) three-IsValid

demo_schedule_example :
    (w' : World) × (rtos_run image 25 (set_up zero_world) ≡ some w') × Seen sensed 9 w'
demo_schedule_example = demo_schedule 1000 25 zero_world zero_world-Fresh
