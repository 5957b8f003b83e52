-- ===== src/Scheduler/Turn.antt =====
-- A run of a task of a group, by code that does not block.
use mini_rtos_sim.Scheduler.Call.{call_function-Holds}
use mini_rtos_sim.Base.{
  ==_iff, ==_refl, has, erase, select, select-append, select-erase_in, ℕ, ◌<◌, ◌≡◌, refl, ap, ap₂,
  ◌∙◌, subst, ◌≢◌, Bool, true, List, [], ◌∷◌, ◌++◌, arith,
}
use mini_rtos_sim.Task.{Tcb, ready, block_none, is_ready, is_running}
use mini_rtos_sim.Ready.{entries}
use mini_rtos_sim.Kernel.{Kernel}
use mini_rtos_sim.Kernel.Invariant.{IsValid}
use mini_rtos_sim.Kernel.Transition.{
  entries-set_task_state, tasks-set_task_state, frame-set_task_state,
}
use mini_rtos_sim.Kernel.Enter.{
  ValidBut, entered, entered_entries, entered_tasks, entered_frame, entered-IsValid,
}
use mini_rtos_sim.Kernel.Peers.{Undisturbed, Unblocked}
use mini_rtos_sim.Sync.{Holds, Holds-bind}
use mini_rtos_sim.Run.{World, Image}
use mini_rtos_sim.Run.Sound.{IsSound, Objects-mono}
use mini_rtos_sim.Run.Tireless.{Tireless, Tireless-Undisturbed}
use mini_rtos_sim.Scheduler.{call_function, requeue, run_task}
use mini_rtos_sim.Scheduler.Dispatch.{in_task}

-- What the run leaves: the task is READY at the end of the queue, and the others of the group are as
-- they were.
pub record Turned (group : ℕ → Bool) (i : ℕ) (w w' : World) : Type 0 where
  pub queue :
      select group (entries w'.kernel.queue)
      ≡ erase i (erase i (select group (entries w.kernel.queue))) ++ (i ∷ [])
  pub again : is_ready (w'.kernel.tasks i).state ≡ true
  pub code : (w'.kernel.tasks i).task_function ≡ (w.kernel.tasks i).task_function
  pub slice : (w'.kernel.tasks i).slice_ticks_used ≡ (w.kernel.tasks i).slice_ticks_used
  pub peers : (j : ℕ) → group j ≡ true → j ≢ i → w'.kernel.tasks j ≡ w.kernel.tasks j
  pub count : w'.kernel.task_count ≡ w.kernel.task_count
  pub priority : (j : ℕ) → (w'.kernel.tasks j).priority ≡ (w.kernel.tasks j).priority
  pub timer : w'.timer ≡ w.timer

module _ (group : ℕ → Bool) (i : ℕ) (member : group i ≡ true) where
  requeued-Turned :
      (w w' : World) (v : ValidBut i w.kernel)
      → Undisturbed group (entered i v) w'.kernel
      → IsValid w'.kernel
      → w'.timer ≡ w.timer
      → Turned group i w (record w' { kernel = requeue i w'.kernel })
  requeued-Turned w w' v u v' timer =
      let f = entered_frame i v in
      let in_start = entered_tasks i v in
      let h : i < w'.kernel.task_count = omega (arith, u.count, f.1, v.index_lt) in
      let at = tasks-set_task_state v' i h ready block_none in
      let mine : w'.kernel.tasks i ≡ (entered i v).tasks i = u.peers i member in
      let runs : is_running (w'.kernel.tasks i).state ≡ true =
        ap (λ (t : Tcb). is_running t.state) mine ∙ ground (arith, in_start i, ==_refl i) in
      simp runs (record {
        queue =
            ap (select group) (entries-set_task_state v' i h ready block_none)
            ∙ select-append group (erase i (entries w'.kernel.queue)) (i ∷ [])
            ∙ ap₂ ◌++◌
                (select-erase_in group i (entries w'.kernel.queue) member
                  ∙ ap (erase i) (
                      u.queue
                      ∙ ap (select group) (entered_entries i v)
                      ∙ select-erase_in group i (entries w.kernel.queue) member))
                (rw member refl);
        again = ground (arith, at i, ==_refl i);
        code =
            ground (arith, at i, ==_refl i)
            ∙ ap (λ (t : Tcb). t.task_function) mine
            ∙ ground (arith, in_start i, ==_refl i);
        slice =
            ground (arith, at i, ==_refl i)
            ∙ ap (λ (t : Tcb). t.slice_ticks_used) mine
            ∙ ground (arith, in_start i, ==_refl i);
        peers = λ j g ne.
            ground (arith, at j, ==_iff j i) ∙ u.peers j g ∙ ground (arith, in_start j, ==_iff j i);
        count = (frame-set_task_state v' i h ready block_none).1 ∙ u.count ∙ f.1;
        priority = λ j.
            ground (arith, at j, ==_iff j i)
            ∙ u.priority j
            ∙ ground (arith, in_start j, ==_iff j i);
        timer = timer;
      })

  entered-Unblocked :
      (k : Kernel) (v : ValidBut i k)
      → ((j : ℕ) → j < k.task_count → group j ≡ true → is_ready (k.tasks j).state ≡ true)
      → Unblocked group (entered i v)
  entered-Unblocked k v able j h g =
      let h' : j < k.task_count = omega (arith, (entered_frame i v).1) in
      ground (arith, entered_tasks i v j, able j h' g)

  pub run_task-Turned :
      (image : Image) (w : World)
      → ValidBut i w.kernel
      → IsSound w
      → Tireless (image.task_code (w.kernel.tasks i).task_function)
      → ((j : ℕ)
          → j < w.kernel.task_count
          → group j ≡ true
          → is_ready (w.kernel.tasks j).state ≡ true)
      → Holds (Turned group i w) (run_task image i w)
  unfolding run_task
  run_task-Turned image w v sound tireless able =
      let start = entered i v in
      let started = record w { kernel = start } in
      let f = entered_frame i v in
      let same : (w.kernel.tasks i).task_function ≡ (start.tasks i).task_function =
        ground (arith, entered_tasks i v i, ==_refl i) in
      Holds-bind (Turned group i w) (call_function image (start.tasks i).task_function started) _
        (call_function-Holds _ image (start.tasks i).task_function started (
          Tireless-Undisturbed image group (image.task_code (start.tasks i).task_function) started
            (subst (λ c. Tireless (image.task_code c)) same tireless) (entered-IsValid i v)
            (Objects-mono w.kernel.task_count start.task_count (omega (arith, f.1)) sound)
            (in_task image i w.kernel v) (entered-Unblocked w.kernel v able)))
        λ w' (u, v', timer). requeued-Turned w w' v u v' timer

-- The last of a list that is not empty.
abbrev pub last_of : ℕ → List ℕ → ℕ
last_of x [] = x
last_of x (y ∷ ys) = last_of y ys

pub last_of-has : (x : ℕ) (xs : List ℕ) → has (last_of x xs) (x ∷ xs) ≡ true
last_of-has x [] = rw (==_refl x)
last_of-has x (y ∷ ys) = ground (arith, last_of-has y ys)

pub last_of-append : (x i : ℕ) (xs : List ℕ) → last_of x (xs ++ (i ∷ [])) ≡ i
last_of-append x i [] = refl
last_of-append x i (y ∷ ys) = last_of-append y i ys
