-- ===== src/Scheduler/Call.antt =====
-- The call of a task's function.
use mini_rtos_sim.Base.{ℕ, zero, suc, ◌<◌, ◌≡◌, refl, arith}
use mini_rtos_sim.Sync.{Holds}
use mini_rtos_sim.Run.{World, Image}
use mini_rtos_sim.Run.Exec.{exec}
use mini_rtos_sim.Scheduler.{call_function}

-- A function that is not NULL runs its code.
pub call_function-exec :
    (image : Image) (f : ℕ) (w : World)
    → 0 < f
    → call_function image f w ≡ exec image (image.task_code f) w
unfolding call_function
call_function-exec image zero w h = absurd (omega arith)
call_function-exec image (suc f) w h = refl

-- What its code keeps when it ends, a call keeps when it ends.
pub call_function-Holds :
    (P : World → Type 0) (image : Image) (f : ℕ) (w : World)
    → Holds P (exec image (image.task_code f) w)
    → Holds P (call_function image f w)
unfolding call_function
call_function-Holds P image zero w h = _
call_function-Holds P image (suc f) w h = h
