-- ===== src/Boot.antt =====
-- src/rtos.c and src/scheduler.c, initialisation: `rtos_init` and the modules that it resets.
pub mod Start
use mini_rtos_sim.Base.{minus_one, true}
use mini_rtos_sim.Memory.{memory_init}
use mini_rtos_sim.Timer.{timer_init}
use mini_rtos_sim.Run.{World}

-- The scheduler's pointers are bound to the variables of rtos.c, and so are the timer's.
unfoldable pub scheduler_init : World → World
scheduler_init w = record w {
  kernel = record w.kernel { bound = true; queue = record w.kernel.queue { count = 0 } };
  timer = timer_init;
}

unfoldable pub rtos_init : World → World
unfolding scheduler_init
rtos_init w =
    let reset = record w {
      kernel = record w.kernel { task_count = 0; current_task_index = minus_one };
    } in
    let bound = scheduler_init reset in record bound { pool = memory_init bound.pool }
