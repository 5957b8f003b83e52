-- ===== src/Tests/Calls.antt =====
-- Calls of one task and their effect on another, at concrete inputs.
use mini_rtos_sim.Base.{inr, pos, ◌≡◌, refl, false, some, arith}
use mini_rtos_sim.Tests.Worlds.{ready_world-Rests, ready_world, below_three, in_first, in_first_lem}
use mini_rtos_sim.Run.{World, Reply, task_sleep}
use mini_rtos_sim.Run.Exec.{exec_op}
use mini_rtos_sim.Run.Isolation.{calls_isolate}
use mini_rtos_sim.Event.{EventFlags, free_slot, satisfied, and32, event_flags_wait}
use mini_rtos_sim.Event.Suspended.{Overridden, set_overrides_suspend}
use mini_rtos_sim.Demo.{demo}

-- The sensor task runs.
abbrev working : World
working = record ready_world { kernel = in_first }

calls_isolate_example :
    (x : Reply × World) × (exec_op (demo 1000) (task_sleep (pos 5)) working ≡ some x)
    × (x.1.kernel.tasks 1 ≡ working.kernel.tasks 1)
    × (x.1.kernel.contexts.objects 1 ≡ working.kernel.contexts.objects 1)
calls_isolate_example =
    calls_isolate (demo 1000) working 1 in_first_lem.0 (below_three 1 (omega arith))
      (λ e. ground (arith, e)) (task_sleep (pos 5)) ready_world-Rests.sound
      (inr (0, in_first_lem.1)) (λ n. n)

abbrev idle_group : EventFlags
idle_group = record { flags = 4; waiters = λ i. free_slot; waiter_count = 0 }

unset : satisfied 4 1 ≡ false
unfolding satisfied and32
unset = refl

set_overrides_suspend_example : Overridden 0 1 (event_flags_wait (some idle_group) 1 in_first)
set_overrides_suspend_example =
    set_overrides_suspend idle_group 1 0 (omega arith) refl unset in_first_lem.0 in_first_lem.1
