-- ===== src/MessageQueue/Progress.antt =====
-- What the calls on message queues keep of the kernel.
use mini_rtos_sim.Base.{
  ◌==◌, Bool-cases, ℤ, ◌≡◌, refl, inl, inr, true, false, Option, none, some, arith,
}
use mini_rtos_sim.Task.{blocked, block_queue_full, block_queue_empty, queue_size}
use mini_rtos_sim.Kernel.Invariant.{IsValid}
use mini_rtos_sim.Kernel.{Kernel, scheduler_set_current_task_state}
use mini_rtos_sim.Kernel.Progress.{Progress, set_current-Progress, unblock-Progress, InTask}
use mini_rtos_sim.MessageQueue.Ring.{IsRing, enqueued-IsRing, dequeued-IsRing}
use mini_rtos_sim.MessageQueue.{
  MessageQueue, enqueued, dequeued, rtos_queue_send, rtos_queue_receive,
}

module _ {k : Kernel} (v : IsValid k) (queue : MessageQueue) where
  -- It returns; the kernel makes progress, and a ring stays one.
  abbrev pub Keeps : {A : Type 0} → Option A → (A → Kernel) → (A → MessageQueue) → Type 0
  Keeps {A} r kernel ring =
      (a : A) × (r ≡ some a) × Progress k (kernel a) × (IsRing queue → IsRing (ring a))

  pub queue_send-Returns :
      (value : ℤ) → InTask k → Keeps (rtos_queue_send queue value k) (λ r. r.2) (λ r. r.1)
  unfolding rtos_queue_send
  queue_send-Returns value (i, e) = elim (Bool-cases (queue.count == queue_size)) [
    | inl full ↦ (
      (false, queue, scheduler_set_current_task_state blocked block_queue_full k),
      ground (arith, e, full),
      set_current-Progress blocked block_queue_full v refl,
      (λ ring. ring),
    )
    | inr free ↦
        let (k', e', p) = unblock-Progress block_queue_empty v in
        (
          (true, enqueued queue value, k'),
          ground (arith, e, free, e'),
          p,
          λ ring. enqueued-IsRing queue ring value (ground (arith, ring.count_le)),
        )
  ]

  pub queue_receive-Returns : InTask k → Keeps (rtos_queue_receive queue k) (λ r. r.2) (λ r. r.1)
  unfolding rtos_queue_receive
  queue_receive-Returns (i, e) = elim (Bool-cases (queue.count == 0)) [
    | inl empty ↦ (
      (none, queue, scheduler_set_current_task_state blocked block_queue_empty k),
      ground (arith, e, empty),
      set_current-Progress blocked block_queue_empty v refl,
      (λ ring. ring),
    )
    | inr left ↦
        let (k', e', p) = unblock-Progress block_queue_full v in
        (
          (some (queue.buffer queue.front), dequeued queue, k'),
          ground (arith, e, left, e'),
          p,
          λ ring. dequeued-IsRing queue ring (ground arith),
        )
  ]
