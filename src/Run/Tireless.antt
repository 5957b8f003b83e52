-- ===== src/Run/Tireless.antt =====
-- Programs that never block, and the groups of tasks that they leave alone.
use mini_rtos_sim.Base.{
  Bool-cases, Option-cases, eqb_ℤ, pos, ℕ, ◌≡◌, refl, sym, ◌∙◌, subst, inl, inr, Bool, true, false,
  not, ◌||◌, some,
}
use mini_rtos_sim.Task.{block_semaphore, block_mutex}
use mini_rtos_sim.Kernel.Invariant.{IsValid}
use mini_rtos_sim.Kernel.Progress.{InTask, Progress-InTask}
use mini_rtos_sim.Event.{event_flags_clear}
use mini_rtos_sim.Run.{
  World, Op, Reply, Program, Image, create_task, task_sleep, suspend_task, resume_task,
  get_task_state, ready_count, sem_wait, sem_signal, mutex_lock, mutex_unlock, queue_send,
  queue_receive, event_set, event_clear, event_wait, event_get, soft_create, soft_start, soft_stop,
  soft_delete, mem_alloc, mem_free, now, read_variable, write_variable, done, call,
}
use mini_rtos_sim.Run.Exec.{exec_op, exec}
use mini_rtos_sim.Run.Sound.{IsSound}
use mini_rtos_sim.Run.Total.{exec_op-Returned}
use mini_rtos_sim.Kernel.Peers.{
  Undisturbed, Unblocked, Undisturbed-refl, Undisturbed-trans, Undisturbed-Unblocked,
  unblock_one-Undisturbed,
}
use mini_rtos_sim.Kernel.{Kernel, rtos_current_task, scheduler_unblock_one}
use mini_rtos_sim.Sync.{
  ◌>>=◌, Holds, Holds-bind, Holds-map, rtos_sem_signal, rtos_mutex_unlock, Semaphore, Mutex,
}
use mini_rtos_sim.Run.Others.{put-kernel, put-timer}
use mini_rtos_sim.Timer.{Timer}

-- A call that cannot block its caller, creates no task, and changes no software timer. Suspensions
-- and sets of event flags are left out too, since they can change any task.
abbrev pub tireless : Op → Bool
tireless (get_task_state id) = true
tireless ready_count = true
tireless (sem_signal s) = true
tireless (mutex_unlock m) = true
tireless (event_clear e mask) = true
tireless (event_get e) = true
tireless mem_alloc = true
tireless (mem_free ptr) = true
tireless now = true
tireless (read_variable x) = true
tireless (write_variable x y) = true
tireless _ = false

-- A program of such calls, on every path.
abbrev pub Tireless : Program → Type 0
Tireless done = Unit
Tireless (call op next) = (tireless op ≡ true) × ((r : Reply) → Tireless (next r))

module _ (group : ℕ → Bool) {k : Kernel} (v : IsValid k) (u : Unblocked group k) where
  sem_signal-Undisturbed :
      (sem : Semaphore) → Holds (λ x. Undisturbed group k x.1) (rtos_sem_signal sem k)
  unfolding rtos_sem_signal
  sem_signal-Undisturbed sem =
      Holds-bind (λ (x : Semaphore × Kernel). Undisturbed group k x.1)
        (scheduler_unblock_one block_semaphore k) _
        (unblock_one-Undisturbed group block_semaphore v u) λ k' h. h

  mutex_unlock-Undisturbed :
      (mutex : Mutex) → Holds (λ x. Undisturbed group k x.1) (rtos_mutex_unlock mutex k)
  unfolding rtos_mutex_unlock
  mutex_unlock-Undisturbed mutex = elim (Option-cases (rtos_current_task k)) [
    | inl e ↦ rw e _
    | inr (i, e) ↦
        elim (Bool-cases (not mutex.locked || not (eqb_ℤ mutex.owner (pos (k.tasks i).task_id)))) [
          | inl refused ↦ rw (e, refused) (Undisturbed-refl group k)
          | inr mine ↦
              rw (e, mine)
                (Holds-bind (λ (x : Mutex × Kernel). Undisturbed group k x.1)
                  (scheduler_unblock_one block_mutex k) _
                  (unblock_one-Undisturbed group block_mutex v u) λ k' h. h)
        ]
  ]

module _ (image : Image) (group : ℕ → Bool) (w : World) (v : IsValid w.kernel)
    (u : Unblocked group w.kernel) where
  abbrev Calm : Reply × World → Type 0
  Calm x = Undisturbed group w.kernel x.1.kernel × (x.1.timer ≡ w.timer)

  tireless-Calm : (op : Op) → tireless op ≡ true → Holds Calm (exec_op image op w)
  unfolding exec_op
  tireless-Calm (create_task name priority f) g = absurd (cc g)
  tireless-Calm (task_sleep ticks) g = absurd (cc g)
  tireless-Calm (suspend_task id) g = absurd (cc g)
  tireless-Calm (resume_task id) g = absurd (cc g)
  tireless-Calm (get_task_state id) g = (Undisturbed-refl group w.kernel, refl)
  tireless-Calm ready_count g = (Undisturbed-refl group w.kernel, refl)
  tireless-Calm (sem_wait s) g = absurd (cc g)
  tireless-Calm (sem_signal s) g =
      Holds-bind Calm (rtos_sem_signal (w.semaphores s) w.kernel) _
        (sem_signal-Undisturbed group v u (w.semaphores s)) λ x h. (h, refl)
  tireless-Calm (mutex_lock m) g = absurd (cc g)
  tireless-Calm (mutex_unlock m) g =
      Holds-bind Calm (rtos_mutex_unlock (w.mutexes m) w.kernel) _
        (mutex_unlock-Undisturbed group v u (w.mutexes m)) λ x h. (h, refl)
  tireless-Calm (queue_send q x) g = absurd (cc g)
  tireless-Calm (queue_receive q) g = absurd (cc g)
  tireless-Calm (event_set e mask) g = absurd (cc g)
  tireless-Calm (event_clear e mask) g =
      let ef = event_flags_clear (some (w.events e)) mask in
      (
        subst (Undisturbed group w.kernel) (sym (put-kernel w e ef))
            (Undisturbed-refl group w.kernel),
        put-timer w e ef,
      )
  tireless-Calm (event_wait e mask) g = absurd (cc g)
  tireless-Calm (event_get e) g = (Undisturbed-refl group w.kernel, refl)
  tireless-Calm (soft_create n m p c a) g = absurd (cc g)
  tireless-Calm (soft_start s) g = absurd (cc g)
  tireless-Calm (soft_stop s) g = absurd (cc g)
  tireless-Calm (soft_delete s) g = absurd (cc g)
  tireless-Calm mem_alloc g = (Undisturbed-refl group w.kernel, refl)
  tireless-Calm (mem_free ptr) g = (Undisturbed-refl group w.kernel, refl)
  tireless-Calm now g = (Undisturbed-refl group w.kernel, refl)
  tireless-Calm (read_variable x) g = (Undisturbed-refl group w.kernel, refl)
  tireless-Calm (write_variable x y) g = (Undisturbed-refl group w.kernel, refl)

-- A run of such a program.
pub Tireless-Undisturbed :
    (image : Image) (group : ℕ → Bool) (p : Program) (w : World)
    → Tireless p
    → IsValid w.kernel
    → IsSound w
    → InTask w.kernel
    → Unblocked group w.kernel
    → Holds
        (λ w'. Undisturbed group w.kernel w'.kernel × IsValid w'.kernel × (w'.timer ≡ w.timer))
        (exec image p w)
unfolding exec
Tireless-Undisturbed image group done w g v s t u = (Undisturbed-refl group w.kernel, v, refl)
Tireless-Undisturbed image group (call op next) w (g, rest) v s t u =
    let (x, e, p, s') = exec_op-Returned image op w v s (inr t) in
    let (calm, timer) =
      subst (Holds (Calm image group w v u)) e (tireless-Calm image group w v u op g) in
    let later =
      Tireless-Undisturbed image group (next x.0) x.1 (rest x.0) p.valid s' (Progress-InTask p t)
        (Undisturbed-Unblocked group w.kernel x.1.kernel calm u) in
    let After : Kernel → Timer → World → Type 0 =
      λ k timer w'. Undisturbed group k w'.kernel × IsValid w'.kernel × (w'.timer ≡ timer) in
    subst (λ r. Holds (After w.kernel w.timer) (r >>= λ y. exec image (next y.0) y.1)) (sym e)
      (Holds-map (After x.1.kernel x.1.timer) (After w.kernel w.timer) (exec image (next x.0) x.1)
        (λ w' (q, v', same).
          (Undisturbed-trans group w.kernel x.1.kernel w'.kernel calm q, v', same ∙ timer))
        later)
