-- ===== src/Demo/Calls.antt =====
-- The kernel calls of the three tasks, and the stage of the samples.
use mini_rtos_sim.Base.{
  ℤ, List, inc_int, inc_int-pos, ◌<ℤ◌, pred_ℤ, pred_ℤ_pos, set, window, window-end, pos, ℕ, suc,
  ◌+◌, ◌-◌, ◌<◌, ◌≡◌, sym, ap, ap₂, ◌∙◌, subst, ◌⊎◌, inl, inr, true, false, [], ◌∷◌, ◌++◌, arith,
}
use mini_rtos_sim.Task.{queue_size}
use mini_rtos_sim.MessageQueue.{rtos_queue_send, rtos_queue_receive}
use mini_rtos_sim.MessageQueue.Ring.{
  contents, contents-enqueued, enqueued-IsRing, contents-dequeued, dequeued-IsRing,
}
use mini_rtos_sim.Run.{
  World, Reply, Program, Image, queue_send, queue_receive, sem_wait, sem_signal, mutex_lock,
  mutex_unlock,
}
use mini_rtos_sim.Run.Exec.{or_zero, is_some, exec_op, exec}
use mini_rtos_sim.Sync.{
  Semaphore, Mutex, ◌>>=◌, Holds, rtos_sem_wait, rtos_sem_signal, rtos_mutex_lock,
  rtos_mutex_unlock, Holds-bind,
}
use mini_rtos_sim.Demo.{then_do, if_ok}
use mini_rtos_sim.Demo.Effects.{
  send-Holds, receive-Holds, wait-Holds, signal-Holds, lock-Holds, unlock-Holds, MineIn,
}
use mini_rtos_sim.Demo.Stage.{sample, Stage, rest_of, count-queued}

abbrev head_or : ℤ → List ℤ → ℤ
head_or x [] = x
head_or x (y ∷ ys) = y

-- The first element of a list that is known in two ways.
first_of : {x y : ℤ} {xs ys zs : List ℤ} → zs ≡ x ∷ xs → zs ≡ y ∷ ys → x ≡ y
first_of e f = ap (head_or (pos 0)) (sym e ∙ f)

module _ {r l d s p : ℕ} {w : World} (g : Stage r l d s p w) (image : Image) where
  pub send-Stage :
      p ≡ r + d
      → Holds
          (λ x.
            ((x.0.ok ≡ true) × Stage r l (suc d) s p x.1)
            ⊎ ((x.0.ok ≡ false) × Stage r l d s p x.1))
          (exec_op image (queue_send 0 (w.variables 0)) w)
  unfolding exec_op
  send-Stage e =
      Holds-bind _ (rtos_queue_send (w.queues 0) (w.variables 0) w.kernel) _
        (send-Holds (w.queues 0) (w.variables 0) w.kernel)
        λ x h. elim h [
          | inl (room, ok, q) ↦
              let room' : (w.queues 0).count < queue_size = omega (arith, g.ring.count_le, room) in
              inl (
                ok,
                record {
                  ring = rw q (enqueued-IsRing (w.queues 0) g.ring (w.variables 0) room');
                  held =
                      ap contents q
                      ∙ contents-enqueued (w.queues 0) g.ring (w.variables 0) room'
                      ∙ ap₂ (λ xs v. xs ++ (v ∷ [])) g.held (g.value ∙ ap sample e)
                      ∙ sym (window-end sample r d);
                  level = g.level;
                  value = g.value;
                  stored = g.stored;
                  free = g.free;
                },
              )
          | inr (full, q) ↦ inr (
            full,
            record {
              ring = rw q g.ring;
              held = ap contents q ∙ g.held;
              level = g.level;
              value = g.value;
              stored = g.stored;
              free = g.free;
            },
          )
        ]

  pub receive-Stage :
      Holds
        (λ x.
          ((x.0.ok ≡ true)
            × (x.0.value ≡ sample r)
            × ((d' : ℕ) × (d ≡ suc d') × Stage (suc r) l d' s p x.1))
          ⊎ ((d ≡ 0) × (x.0.ok ≡ false)))
        (exec_op image (queue_receive 0) w)
  unfolding exec_op
  receive-Stage =
      Holds-bind _ (rtos_queue_receive (w.queues 0) w.kernel) _
        (receive-Holds (w.queues 0) w.kernel)
        λ x h. elim h [
          | inl (left, v, q) ↦
              let one_less : d ≡ suc (d - 1) = omega (arith, count-queued, left) in
              inl (
                ap is_some v,
                ap or_zero v
                    ∙ first_of (contents-dequeued (w.queues 0) g.ring left)
                        (g.held ∙ ap (window sample r) one_less),
                (
                  d - 1,
                  one_less,
                  record {
                    ring = rw q (dequeued-IsRing (w.queues 0) g.ring left);
                    held =
                        ap contents q
                        ∙ (ap rest_of (
                            sym (contents-dequeued (w.queues 0) g.ring left)
                            ∙ g.held
                            ∙ ap (window sample r) one_less));
                    level = g.level;
                    value = g.value;
                    stored = g.stored;
                    free = g.free;
                  },
                ),
              )
          | inr (empty, nothing_there, q) ↦
              inr (omega (arith, count-queued, empty), ap is_some nothing_there)
        ]

  pub wait-Stage :
      Holds
        (λ x.
          ((x.0.ok ≡ true) × ((s' : ℕ) × (s ≡ suc s') × Stage r l d s' p x.1))
          ⊎ ((x.0.ok ≡ false) × Stage r l d s p x.1))
        (exec_op image (sem_wait 0) w)
  unfolding exec_op
  wait-Stage =
      Holds-bind _ (rtos_sem_wait (w.semaphores 0) w.kernel) _
        (wait-Holds (w.semaphores 0) w.kernel)
        λ x h. elim h [
          | inl (left, ok, m) ↦
              let one_less : s ≡ suc (s - 1) =
                omega (arith, subst (λ c. pos 0 <ℤ c) g.level left) in
              inl (
                ok,
                (
                  s - 1,
                  one_less,
                  record {
                    ring = g.ring;
                    held = g.held;
                    level =
                        ap (λ (m : Semaphore). m.count) m
                        ∙ ap pred_ℤ (g.level ∙ ap pos one_less)
                        ∙ pred_ℤ_pos (s - 1);
                    value = g.value;
                    stored = g.stored;
                    free = g.free;
                  },
                ),
              )
          | inr (none_left, m) ↦ inr (
            none_left,
            record {
              ring = g.ring;
              held = g.held;
              level = ap (λ (m : Semaphore). m.count) m ∙ g.level;
              value = g.value;
              stored = g.stored;
              free = g.free;
            },
          )
        ]

  pub signal-Stage :
      suc s < 2147483648 → Holds (λ x. Stage r l d (suc s) p x.1) (exec_op image (sem_signal 0) w)
  unfolding exec_op
  signal-Stage fits =
      Holds-bind _ (rtos_sem_signal (w.semaphores 0) w.kernel) _
        (signal-Holds (w.semaphores 0) w.kernel)
        λ x h. record {
          ring = g.ring;
          held = g.held;
          level = ap (λ (m : Semaphore). m.count) h ∙ ap inc_int g.level ∙ inc_int-pos s fits;
          value = g.value;
          stored = g.stored;
          free = g.free;
        }

  -- A critical section of main.c sets variables at most.
  pub critical-Stage :
      {l' : ℕ} (J : World → Type 0) (body next : Program) (variables : ℕ → ℤ)
      → Stage r l' d s p (record w { variables = variables })
      → ((mutexes : ℕ → Mutex)
          → exec image body (record w { mutexes = mutexes })
            ≡ exec image
                (then_do (mutex_unlock 0) next)
                (record w { mutexes = mutexes; variables = variables }))
      → ((w' : World) → Stage r l' d s p w' → Holds J (exec image next w'))
      → Holds J (exec image (if_ok (mutex_lock 0) body) w)
  unfolding exec exec_op
  critical-Stage {l' = l'} J body next variables g1 prints rest =
      Holds-bind J (rtos_mutex_lock (w.mutexes 0) w.kernel >>= _) _
        (Holds-bind
          (λ (x : Reply × World).
            (x.0.ok ≡ true)
            × ((m : Mutex) × MineIn w.kernel m × (x.1 ≡ record w { mutexes = set w.mutexes 0 m })))
          (rtos_mutex_lock (w.mutexes 0) w.kernel) _ (lock-Holds (w.mutexes 0) w.kernel g.free)
          λ x h.
            (h.0, (x.1, h.2, ap (λ k. record w { kernel = k; mutexes = set w.mutexes 0 x.1 }) h.1)))
        λ x h.
          let (ok, (m, mine, e)) = h in
          let w1 = record w { mutexes = set w.mutexes 0 m } in
          let inside : Holds J
              (exec image (then_do (mutex_unlock 0) next) (record w1 { variables = variables })) =
            Holds-bind J (rtos_mutex_unlock m w.kernel >>= _) _
              (Holds-bind (λ (x : Reply × World). Stage r l' d s p x.1)
                (rtos_mutex_unlock m w.kernel) _ (unlock-Holds m w.kernel mine)
                λ x free. record {
                  ring = g1.ring;
                  held = g1.held;
                  level = g1.level;
                  value = g1.value;
                  stored = g1.stored;
                  free = free;
                })
              λ x g'. rest x.1 g' in
          rw ok (
            subst (λ w'. Holds J (exec image body w')) (sym e)
              (subst (Holds J) (sym (prints (set w.mutexes 0 m))) inside))
