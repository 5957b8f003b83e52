-- ===== src/Scheduler/Bystander.antt =====
-- A change of one task as a bystander sees it, and what a bystander asks of code.
use mini_rtos_sim.Base.{
  ==_iff, Bool-cases, pos, ℕ, ◌<◌, ◌≡◌, refl, sym, ◌∙◌, subst, ◌≢◌, inl, inr, true, false, arith,
}
use mini_rtos_sim.Task.{
  Tcb, TaskState, BlockReason, ready, block_none, block_sleep, is_ready, is_running,
}
use mini_rtos_sim.Kernel.{waits_for, scheduler_set_task_state}
use mini_rtos_sim.Kernel.Invariant.{IsValid}
use mini_rtos_sim.Kernel.Progress.{InTask}
use mini_rtos_sim.Sync.{Holds}
use mini_rtos_sim.Run.{World, Image}
use mini_rtos_sim.Run.Exec.{exec}
use mini_rtos_sim.Run.Sound.{IsSound}
use mini_rtos_sim.Scheduler.{slice, requeue}

-- A task apart from its slice counter.
abbrev pub core : Tcb → Tcb
core t = record t { slice_ticks_used = 0 }

-- The task `i` is as it was, no task is new, priorities are as they were, and so are the timers.
pub record Spared (i : ℕ) (w w' : World) : Type 0 where
  pub task : core (w'.kernel.tasks i) ≡ core (w.kernel.tasks i)
  pub count : w'.kernel.task_count ≡ w.kernel.task_count
  pub priority :
      (j : ℕ) → j < w.kernel.task_count → (w'.kernel.tasks j).priority ≡ (w.kernel.tasks j).priority
  pub timer : w'.timer ≡ w.timer

pub Spared-refl : (i : ℕ) (w : World) → Spared i w w
Spared-refl i w = record { task = refl; count = refl; priority = λ j h. refl; timer = refl }

pub Spared-trans : (i : ℕ) (w w' w'' : World) → Spared i w w' → Spared i w' w'' → Spared i w w''
Spared-trans i w w' w'' s t = record {
  task = t.task ∙ s.task;
  count = t.count ∙ s.count;
  priority = λ j h. t.priority j (omega (arith, s.count)) ∙ s.priority j h;
  timer = t.timer ∙ s.timer;
}

-- A change of the state of another task, in any kernel.
pub set-Spared :
    (i c : ℕ) (state : TaskState) (reason : BlockReason) (w : World)
    → c ≢ i
    → Spared i w (record w { kernel = scheduler_set_task_state (pos c) state reason w.kernel })
unfolding scheduler_set_task_state
set-Spared i c state reason w ne = record {
  task = ground (arith, ==_iff i c);
  count = ground arith;
  priority = λ j h. ground (arith, ==_iff j c);
  timer = refl;
}

pub requeue-Spared :
    (i c : ℕ) (w : World) → c ≢ i → Spared i w (record w { kernel = requeue c w.kernel })
requeue-Spared i c w ne = elim (Bool-cases (is_running (w.kernel.tasks c).state)) [
  | inl e ↦ simp e (set-Spared i c ready block_none w ne)
  | inr e ↦ simp e (Spared-refl i w)
]

pub slice-Spared :
    (i c : ℕ) (f : ℕ → ℕ) (w : World) → Spared i w (record w { kernel = slice c f w.kernel })
slice-Spared i c f w = record {
  task = ground (arith, ==_iff i c);
  count = refl;
  priority = λ j h. ground (arith, ==_iff j c);
  timer = refl;
}

-- What is asked of the code of tasks: a run of it spares the task `i` if that one sleeps and does not
-- run itself.
abbrev pub Spares : Image → ℕ → Type 0
Spares image i =
    (f : ℕ) (w : World)
    → IsValid w.kernel
    → IsSound w
    → InTask w.kernel
    → i < w.kernel.task_count
    → w.kernel.current_task_index ≢ pos i
    → waits_for block_sleep (w.kernel.tasks i) ≡ true
    → Holds (Spared i w) (exec image (image.task_code f) w)

pub core_waits :
    (i : ℕ) (w w' : World)
    → Spared i w w'
    → waits_for block_sleep (w.kernel.tasks i) ≡ true
    → waits_for block_sleep (w'.kernel.tasks i) ≡ true
unfolding waits_for
core_waits i w w' s e = subst (λ t. waits_for block_sleep t ≡ true) (sym s.task) e

pub sleeper_not_ready : (t : Tcb) → waits_for block_sleep t ≡ true → is_ready t.state ≡ false
unfolding waits_for
sleeper_not_ready t e = ground (arith, e)
