-- ===== src/Scheduler/Preserve.antt =====
-- Invariants of the application's objects over a run of the scheduler.
use mini_rtos_sim.Scheduler.Call.{call_function-Holds}
use mini_rtos_sim.Base.{
  ◌==◌, Bool-cases, pos, ℕ, zero, suc, ◌+◌, ◌%◌, ◌^◌, ◌≡◌, subst, inl, inr, Option, none, some,
  arith,
}
use mini_rtos_sim.Kernel.{Kernel}
use mini_rtos_sim.Timer.{SoftTimer, timer_tick, soft_timer_count, put}
use mini_rtos_sim.Sync.{◌>>=◌, Holds, Holds-bind}
use mini_rtos_sim.Run.{World, Image}
use mini_rtos_sim.Run.Exec.{exec}
use mini_rtos_sim.Scheduler.Cycle.{rtos_run_total}
use mini_rtos_sim.Scheduler.Soft.{QuietCallbacks}
use mini_rtos_sim.Scheduler.Dispatch.{Rests}
use mini_rtos_sim.Scheduler.{
  call_function, Decision, idle, first, forced, preempted, expired, continued, countdown, armed,
  rearm, soft_round, soft_loop, timer_update_soft, timer_update_sleep, run_task, requeue, pop_best,
  slice, load_context, do_context_switch, act, dispatch, cycle, scheduler_run, rtos_run,
}

-- What an application shows of its code, to have a property of its objects and of the number of
-- ticks so far between any two ticks: it does not depend on the kernel and the slots of timers, each
-- task and each callback that ends keeps it, and a tick of the clock leads from it to the next.
pub record IsKept (image : Image) (J : ℕ → World → Type 0) : Type 0 where
  pub stable : (n : ℕ) (w : World) (k : Kernel) → J n w → J n (record w { kernel = k })
  pub slots :
      (n : ℕ) (w : World) (s : ℕ) (t : SoftTimer)
      → J n w
      → J n (record w { timer = put w.timer s t })
  pub tick : (n : ℕ) (w : World) → J n w → J (suc n) (record w { timer = timer_tick w.timer })
  pub tasks : (f n : ℕ) (w : World) → J n w → Holds (J n) (exec image (image.task_code f) w)
  pub callbacks :
      (callback arg n : ℕ) (w : World)
      → J n w
      → Holds (J n) (exec image (image.callback_code callback arg) w)

module _ {image : Image} {J : ℕ → World → Type 0} (i : IsKept image J) (n : ℕ) where
  round-Holds : (s : ℕ) (w : World) → J n w → Holds (J n) (soft_round image s w)
  unfolding soft_round
  round-Holds s w h = elim (Bool-cases (armed (w.timer.soft_timers s))) [
    | inr off ↦ rw off h
    | inl on ↦
        let t = countdown (w.timer.soft_timers s) in
        let counted = record w { timer = put w.timer s t } in
        let h' : J n counted = i.slots n w s t h in
        elim (Bool-cases (t.remaining == 0)) [
          | inr waits ↦ rw (on, waits) h'
          | inl fires ↦ elim (Bool-cases (t.callback == 0)) [
            | inl fault ↦ rw (on, fires, fault) _
            | inr some_code ↦
                rw (on, fires, some_code)
                  (Holds-bind (J n) (exec image (image.callback_code t.callback t.arg) counted) _
                    (i.callbacks t.callback t.arg n counted h')
                    λ w' p. i.slots n w' s (rearm (w'.timer.soft_timers s)) p)
          ]
        ]
  ]

  loop-Holds : (rounds s : ℕ) (w : World) → J n w → Holds (J n) (soft_loop image rounds s w)
  unfolding soft_loop
  loop-Holds zero s w h = h
  loop-Holds (suc rounds) s w h =
      Holds-bind (J n) (soft_round image s w) _ (round-Holds s w h) (loop-Holds rounds (suc s))

  run_task-Holds : (t : ℕ) (w : World) → J n w → Holds (J n) (run_task image t w)
  unfolding run_task
  run_task-Holds t w h =
      Holds-bind (J n) (call_function image _ _) _
        (call_function-Holds (J n) image _ _ (i.tasks _ n _ (i.stable n w _ h)))
        λ w' p. i.stable n w' _ p

  switch-Holds :
      (outgoing : Option ℕ) (t : ℕ) (w : World) (k : Kernel)
      → J n w
      → Holds (J n) (do_context_switch image outgoing t (record w { kernel = k }))
  unfolding do_context_switch
  switch-Holds outgoing t w k h =
      run_task-Holds t
        (record w {
          kernel =
              slice t (λ s. 1) (record (load_context outgoing t k) { current_task_index = pos t });
        })
        (i.stable n w _ h)

  act-Holds : (at : Option ℕ) (d : Decision) (w : World) → J n w → Holds (J n) (act image at d w)
  unfolding act
  act-Holds none idle w h = h
  act-Holds (some c) idle w h = i.stable n w (slice c (λ s. 0) w.kernel) h
  act-Holds at (first b) w h = switch-Holds none b w (pop_best b w.kernel) h
  act-Holds at (forced c b) w h = switch-Holds (some c) b w (pop_best b w.kernel) h
  act-Holds at (preempted c b) w h = switch-Holds (some c) b w (pop_best b (requeue c w.kernel)) h
  act-Holds at (expired c b) w h = switch-Holds (some c) b w (pop_best b (requeue c w.kernel)) h
  act-Holds at (continued c) w h =
      run_task-Holds c (record w { kernel = slice c (λ s. (s + 1) % 2 ^ 32) w.kernel })
        (i.stable n w _ h)

  -- A cycle after its tick.
  ticked-Holds : (w : World) → J n w → Holds (J n) (timer_update_sleep image w >>= dispatch image)
  unfolding dispatch timer_update_sleep timer_update_soft
  ticked-Holds w h =
      Holds-bind (J n) (soft_loop image soft_timer_count 0 _) _
        (loop-Holds soft_timer_count 0 _ (i.stable n w _ h))
        λ w' p. act-Holds _ _ _ (i.stable n w' _ p)

module _ {image : Image} {J : ℕ → World → Type 0} (i : IsKept image J) where
  pub cycle-Holds : (n : ℕ) (w : World) → J n w → Holds (J (suc n)) (cycle image w)
  unfolding cycle
  cycle-Holds n w h =
      ticked-Holds i (suc n) (record w { timer = timer_tick w.timer }) (i.tick n w h)

  run-Holds :
      (ticks n : ℕ) (w : World) → J n w → Holds (J (n + ticks)) (scheduler_run image ticks w)
  unfolding scheduler_run
  run-Holds zero n w h = let same : n ≡ n + 0 = omega arith in subst (λ m. J m w) same h
  run-Holds (suc ticks) n w h =
      let same : suc n + ticks ≡ n + suc ticks = omega arith in
      subst (λ m. Holds (J m) (cycle image w >>= scheduler_run image ticks)) same
        (Holds-bind (J (suc n + ticks)) (cycle image w) _ (cycle-Holds n w h)
          (run-Holds ticks (suc n)))

  -- Without regard to whether it returns.
  rtos_run-Holds :
      (ticks n : ℕ) (w : World) → J n w → Holds (J (n + ticks)) (rtos_run image ticks w)
  unfolding rtos_run
  rtos_run-Holds ticks n w h = run-Holds ticks n w h

  -- Let a property of the world and a number not depend on the kernel or on the slots of
  -- software timers, pass to the next number by a tick of the clock, and be kept by all code of
  -- tasks and callbacks, made of calls of `Op`, when that returns. If it holds of a world at
  -- rest (`Rests`: also no task's function is NULL) and `n`, and callbacks make no call that
  -- needs a current task, then the scheduler runs for any number of ticks without a fault and
  -- ends at rest, and the property holds of the end and `n` plus that number.
  pub rtos_run_keeps :
      (ticks n : ℕ) (w : World)
      → QuietCallbacks image
      → Rests w
      → J n w
      → (w' : World) × (rtos_run image ticks w ≡ some w') × Rests w' × J (n + ticks) w'
  rtos_run_keeps ticks n w quiet rests h =
      let (w', e, r) = rtos_run_total image quiet ticks w rests in
      (w', e, r, subst (Holds (J (n + ticks))) e (rtos_run-Holds ticks n w h))
