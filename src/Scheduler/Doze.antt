-- ===== src/Scheduler/Doze.antt =====
-- A run of a task that ends in `rtos_task_sleep`.
use mini_rtos_sim.Scheduler.Call.{call_function-exec}
use mini_rtos_sim.Base.{
  ◌<◌, ==_iff, ==_refl, pos, ℕ, ◌≡◌, refl, ap, ◌∙◌, subst, ◌≢◌, true, false, some, arith,
}
use mini_rtos_sim.Task.{Tcb, block_sleep, is_running}
use mini_rtos_sim.Kernel.{Kernel, waits_for}
use mini_rtos_sim.Kernel.Enter.{ValidBut, entered, entered_frame, entered_tasks, entered-IsValid}
use mini_rtos_sim.Tasks.{rtos_task_sleep}
use mini_rtos_sim.Tasks.Suspend.{task_sleep_lem}
use mini_rtos_sim.Timer.Sleep.{Asleep}
use mini_rtos_sim.Sync.{bind-some}
use mini_rtos_sim.Run.{World, Image}
use mini_rtos_sim.Run.Exec.{exec}
use mini_rtos_sim.Scheduler.{call_function, requeue, run_task}
use mini_rtos_sim.Scheduler.Dispatch.{entered_current}

-- The task `i` has gone to sleep, and is the current one; the others are as they were.
pub record Slept (i n : ℕ) (k k' : Kernel) : Type 0 where
  pub asleep : Asleep (k'.tasks i) n
  pub others : (j : ℕ) → j ≢ i → k'.tasks j ≡ k.tasks j
  pub count : k'.task_count ≡ k.task_count
  pub priority : (k'.tasks i).priority ≡ (k.tasks i).priority
  pub code : (k'.tasks i).task_function ≡ (k.tasks i).task_function
  pub current : k'.current_task_index ≡ pos i

not_running : (t : Tcb) → waits_for block_sleep t ≡ true → is_running t.state ≡ false
unfolding waits_for
not_running t e = ground (arith, e)

entered-Slept :
    (i n : ℕ) {k : Kernel} (v : ValidBut i k) → Slept i n k (rtos_task_sleep (pos n) (entered i v))
entered-Slept i n {k} v =
    let at = entered_tasks i v in
    let f = entered_frame i v in
    let s = task_sleep_lem i (pos n) (entered-IsValid i v) (entered_current i k v) in
    record {
      asleep = (s.1, s.2);
      others = λ j ne. s.4 j ne ∙ ground (arith, at j, ==_iff j i);
      count = s.5 ∙ f.1;
      priority = s.6 ∙ ground (arith, at i, ==_refl i);
      code = s.7 ∙ ground (arith, at i, ==_refl i);
      current = s.8 ∙ f.2 ∙ v.current;
    }

-- The code makes the world `x`, and goes to sleep at the end.
pub run_task-Slept :
    (image : Image) (i n : ℕ) (w x : World) (v : ValidBut i w.kernel)
    → 0 < (w.kernel.tasks i).task_function
    → exec image
        (image.task_code (w.kernel.tasks i).task_function)
        (record w { kernel = entered i v })
      ≡ some (record x { kernel = rtos_task_sleep (pos n) (entered i v) })
    → (k' : Kernel) × (run_task image i w ≡ some (record x { kernel = k' })) × Slept i n w.kernel k'
unfolding run_task
run_task-Slept image i n w x v some_code e =
    let start = entered i v in
    let k' = rtos_task_sleep (pos n) start in
    let s = entered-Slept i n v in
    let same : (w.kernel.tasks i).task_function ≡ (start.tasks i).task_function =
      ground (arith, entered_tasks i v i, ==_refl i) in
    let stays = not_running (k'.tasks i) s.asleep.0 in
    let kept : requeue i k' ≡ k' = simp stays refl in
    (
      k',
      bind-some _ (record x { kernel = k' })
            (subst
              (λ f.
                call_function image f (record w { kernel = start })
                ≡ some (record x { kernel = k' }))
              same (call_function-exec image _ (record w { kernel = start }) some_code ∙ e))
          ∙ ap (λ k. some (record x { kernel = k })) kept,
      s,
    )
