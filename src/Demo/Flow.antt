-- ===== src/Demo/Flow.antt =====
-- src/main.c between any two ticks of a run of any length.
use mini_rtos_sim.Base.{
  ◌==◌, Bool-cases, ℤ, set, pos, ℕ, suc, ◌+◌, ◌≡◌, refl, ap, ◌∙◌, subst, inl, inr, true, some,
  arith,
}
use mini_rtos_sim.MessageQueue.{queue_init}
use mini_rtos_sim.MessageQueue.Ring.{queue_init-IsRing}
use mini_rtos_sim.Run.{
  mutex_unlock, World, Reply, Program, done, call, Image, queue_send, queue_receive, sem_wait,
  task_sleep, read_variable,
}
use mini_rtos_sim.Run.Exec.{exec_op, exec, reply}
use mini_rtos_sim.Timer.{put, timer_tick}
use mini_rtos_sim.Scheduler.{rtos_run}
use mini_rtos_sim.Scheduler.Dispatch.{Rests}
use mini_rtos_sim.Scheduler.Preserve.{IsKept, rtos_run_keeps}
use mini_rtos_sim.Sync.{◌>>=◌, Holds, rtos_sem_signal, semaphore_init, mutex_init, Holds-bind}
use mini_rtos_sim.Boot.{rtos_init}
use mini_rtos_sim.Boot.Start.{Fresh}
use mini_rtos_sim.Demo.{
  print_stored, demo, code_at, set_up, sensor_task, logger_task, display_task, produced, then_do,
  add_five,
}
use mini_rtos_sim.Demo.Returns.{set_up-Rests}
use mini_rtos_sim.Demo.Stage.{count-queued, sample, Stage, Flow, with_kernel, with_timer}
use mini_rtos_sim.Demo.Calls.{send-Stage, receive-Stage, wait-Stage, signal-Stage, critical-Stage}

-- The logger stores the value that it has just received.
stored-Stage :
    {r d s p : ℕ} {w : World} {v : ℤ}
    → Stage (suc r) r d s p w
    → v ≡ sample r
    → Stage (suc r) (suc r) d s p (record w { variables = set w.variables 1 v })
stored-Stage {r} g e = record {
  ring = g.ring;
  held = g.held;
  level = g.level;
  value = g.value;
  stored = λ i same. let here : r ≡ i = omega (arith, same) in e ∙ ap sample here;
  free = g.free;
}

module _ (image : Image) where
  sleep-Flow :
      (ticks : ℤ) (r d : ℕ) (w : World)
      → Stage r r d d (r + d) w
      → Holds Flow (exec image (then_do (task_sleep ticks) done) w)
  unfolding exec exec_op
  sleep-Flow ticks r d w g = (r, d, with_kernel g _)

  exec-read :
      (x : ℕ) (next : Reply → Program) (w : World)
      → exec image (call (read_variable x) next) w
        ≡ exec image (next (reply true (w.variables x))) w
  unfolding exec exec_op
  exec-read x next w = refl

  exec-stored :
      (v : ℤ) (next : Program) (w : World)
      → exec image (print_stored v next) w
        ≡ exec image (then_do (mutex_unlock 0) next) (record w { variables = set w.variables 1 v })
  unfolding exec exec_op
  exec-stored v next w = refl

  -- `sample += 5; rtos_sem_signal(...)`, after the value has been sent.
  produced-Flow :
      (ticks : ℤ) (r d : ℕ) (w : World)
      → Stage r r (suc d) d (r + d) w
      → Holds Flow (exec image (produced (then_do (task_sleep ticks) done)) w)
  unfolding exec
  produced-Flow ticks r d w g =
      let w1 = record w { variables = set w.variables 0 (add_five (w.variables 0)) } in
      let next : suc (r + d) ≡ r + suc d = omega arith in
      let g1 : Stage r r (suc d) d (r + suc d) w1 = record {
        ring = g.ring;
        held = g.held;
        level = g.level;
        value = ap add_five g.value ∙ ap sample next;
        stored = g.stored;
        free = g.free;
      } in
      unfold exec_op in
      Holds-bind Flow (rtos_sem_signal (w1.semaphores 0) w1.kernel >>= _) _
        (unfold exec_op in signal-Stage g1 image (omega (arith, g.ring.count_le, count-queued g)))
        λ x g2. sleep-Flow ticks r (suc d) x.1 g2

  sensor-Flow : (w : World) → Flow w → Holds Flow (exec image sensor_task w)
  unfolding sensor_task
  sensor-Flow w (r, d, g) = rw (exec-read 0 _ w) (
      unfold exec in
      Holds-bind Flow (exec_op image (queue_send 0 (w.variables 0)) w) _ (send-Stage g image refl)
        λ x h. elim h [
          | inr (full, g') ↦ rw full (sleep-Flow (pos 3) r d x.1 g')
          | inl (ok, g') ↦ rw ok (produced-Flow (pos 3) r d x.1 g')
        ])

  logger-Flow : (w : World) → Flow w → Holds Flow (exec image logger_task w)
  unfolding logger_task exec
  logger-Flow w (r, d, g) =
      Holds-bind Flow (exec_op image (sem_wait 0) w) _ (wait-Stage g image) λ x h. elim h [
        | inr (blocked, g') ↦ rw blocked (r, d, g')
        | inl (ok, (s, e, g')) ↦ rw ok (
            Holds-bind Flow (exec_op image (queue_receive 0) x.1) _ (receive-Stage g' image) λ y h'.
              elim h' [
                | inr (empty, refused) ↦ absurd (omega (arith, e, empty))
                | inl (ok', got, (d', e', g'')) ↦ rw ok' (
                    let same : s ≡ d' = omega arith in
                    let moved : r + d ≡ suc r + d' = omega arith in
                    let g3 =
                      subst (λ s. Stage (suc r) r d' s (suc r + d') y.1) same
                        (subst (λ p. Stage (suc r) r d' s p y.1) moved g'') in
                    critical-Stage g3 image Flow _ (then_do (task_sleep (pos 2)) done)
                      (set y.1.variables 1 y.0.value) (stored-Stage g3 got)
                      (λ ms.
                        exec-stored y.0.value (then_do (task_sleep (pos 2)) done)
                          (record y.1 { mutexes = ms }))
                      (λ w' g. sleep-Flow (pos 2) (suc r) d' w' g))
              ])
      ]

  display-Flow : (w : World) → Flow w → Holds Flow (exec image display_task w)
  unfolding display_task
  display-Flow w (r, d, g) =
      critical-Stage g image Flow _ _ w.variables g (λ ms. refl)
        (λ w' g'. sleep-Flow (pos 4) r d w' g')

  code-Flow : (f : ℕ) (w : World) → Flow w → Holds Flow (exec image (code_at f) w)
  unfolding exec
  code-Flow f w g = elim (Bool-cases (f == 1)) [
    | inl e ↦ rw e (sensor-Flow w g)
    | inr a ↦ elim (Bool-cases (f == 2)) [
      | inl e ↦ rw (a, e) (logger-Flow w g)
      | inr b ↦ elim (Bool-cases (f == 3)) [
        | inl e ↦ rw (a, b, e) (display-Flow w g)
        | inr c ↦ rw (a, b, c) g
      ]
    ]
  ]

pub demo-IsKept : (pool_base : ℕ) → IsKept (demo pool_base) (λ n. Flow)
unfolding exec
demo-IsKept pool_base = record {
  stable = λ n w k (r, d, g). (r, d, with_kernel g k);
  slots = λ n w s t (r, d, g). (r, d, with_timer g (put w.timer s t));
  tick = λ n w (r, d, g). (r, d, with_timer g (timer_tick w.timer));
  tasks = λ f n w g. code-Flow (demo pool_base) f w g;
  callbacks = λ callback arg n w g. g;
}

pub set_up-Flow : (w : World) → Flow (set_up w)
unfolding set_up queue_init semaphore_init mutex_init
set_up-Flow w =
    let (ring, empty) = queue_init-IsRing ((rtos_init w).queues 0) in
    (
      0,
      0,
      record {
        ring = ring;
        held = empty;
        level = refl;
        value = refl;
        stored = λ i e. absurd (cc e);
        free = refl;
      },
    )

-- The demonstration, if at the start no mutex is locked, each queue is a ring and nobody waits for
-- event flags: for any number of ticks the run returns, and the whole system is well formed between
-- ticks. There is then a number `r` of samples that have been received, such that the value that the
-- logger has stored last, if `r` is not 0, is the sample before the number `r` of 100, 105, 110, …
-- (added up as `int`s that wrap round), the queue holds just the samples from the number `r` on, in
-- this order, and the sensor's next value is the one after them. The semaphore counts just the samples
-- in the queue, and nobody holds the mutex.
pub demo_flows :
    (pool_base ticks : ℕ) (w : World)
    → Fresh w
    → (w' : World) × (rtos_run (demo pool_base) ticks (set_up w) ≡ some w') × Rests w' × Flow w'
demo_flows pool_base ticks w f =
    rtos_run_keeps (demo-IsKept pool_base) ticks 0 (set_up w) (λ callback arg. _) (set_up-Rests w f)
      (set_up-Flow w)
