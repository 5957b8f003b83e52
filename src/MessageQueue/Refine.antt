-- ===== src/MessageQueue/Refine.antt =====
-- The calls on a ring against the first-in first-out list.
use mini_rtos_sim.Sync.{◌>>=◌}
use mini_rtos_sim.Base.{
  ◌==◌, Bool-cases, ℤ, All, ℕ, ◌<◌, ◌≡◌, refl, sym, subst, ◌≢◌, inl, inr, true, false, Option, none,
  some, List, [], ◌∷◌, arith,
}
use mini_rtos_sim.Task.{blocked, block_queue_full, block_queue_empty, queue_size}
use mini_rtos_sim.Kernel.{Kernel, scheduler_set_current_task_state}
use mini_rtos_sim.Kernel.Invariant.{IsValid}
use mini_rtos_sim.Kernel.Unblock.{Woken}
use mini_rtos_sim.Sync.Block.{
  Blocks, set_current-Blocks, unblock-some, as_current, as_current-IsValid,
}
use mini_rtos_sim.MessageQueue.{
  MessageQueue, enqueued, dequeued, rtos_queue_send, rtos_queue_receive,
}
use mini_rtos_sim.MessageQueue.Fifo
use mini_rtos_sim.MessageQueue.Fifo.{Fifo, Call, send, receive, caller, Reply, sent, received}
use mini_rtos_sim.MessageQueue.Ring.{
  IsRing, contents, length-contents, contents-enqueued, enqueued-IsRing, contents-dequeued,
  dequeued-IsRing,
}

-- What the call does to the kernel, by what it answered.
abbrev pub Effect : Kernel → ℕ → Call → Reply → Kernel → Type 0
Effect k i (send j v) (sent true) k' = Woken block_queue_empty k (some k')
Effect k i (send j v) (sent false) k' = Blocks k i block_queue_full k'
Effect k i (send j v) (received o) k' = ⊥
Effect k i (receive j) (received none) k' = Blocks k i block_queue_empty k'
Effect k i (receive j) (received (some x)) k' = Woken block_queue_full k (some k')
Effect k i (receive j) (sent b) k' = ⊥

-- The call of a task as the client writes it.
unfoldable pub queue_call : Call → MessageQueue → Kernel → Option (Reply × MessageQueue × Kernel)
queue_call (send i value) queue k = do
  (ok, queue', k') ← rtos_queue_send queue value (as_current i k)
  some (sent ok, queue', k')
queue_call (receive i) queue k = do
  (value, queue', k') ← rtos_queue_receive queue (as_current i k)
  some (received value, queue', k')

-- A call that refines the list operation, and its effect on the tasks.
pub record Refined (c : Call) (q : MessageQueue) (k : Kernel)
    (r : Option (Reply × MessageQueue × Kernel)) : Type 0 where
  pub reply : Reply
  pub queue : MessageQueue
  pub kernel : Kernel
  pub returns : r ≡ some (reply, queue, kernel)
  pub refines : Fifo.apply c (contents q) ≡ (reply, contents queue)
  pub IsRing_kept : IsRing queue
  pub valid : IsValid kernel
  pub count : kernel.task_count ≡ k.task_count
  pub effect : Effect (as_current (caller c) k) (caller c) c reply kernel

module _ (q : MessageQueue) {k : Kernel} (i : ℕ) (ring : IsRing q) (v : IsValid k)
    (h : i < k.task_count) where
  send-Refined : (value : ℤ) → Refined (send i value) q k (queue_call (send i value) q k)
  unfolding queue_call rtos_queue_send Fifo.apply
  send-Refined value =
      let (v', e) = as_current-IsValid i v h in
      elim (Bool-cases (q.count == queue_size)) [
        | inl full ↦
            let b = set_current-Blocks i block_queue_full v' e in
            record {
              reply = sent false;
              queue = q;
              kernel = scheduler_set_current_task_state blocked block_queue_full (as_current i k);
              returns = ground (arith, e, full);
              refines = ground (arith, length-contents q, full);
              IsRing_kept = ring;
              valid = b.valid;
              count = b.count;
              effect = b;
            }
        | inr free ↦
            let (k', e', w, v'', n, c) = unblock-some block_queue_empty (as_current i k) v' in
            let room : q.count < queue_size = ground (arith, ring.count_le) in
            record {
              reply = sent true;
              queue = enqueued q value;
              kernel = k';
              returns = ground (arith, e, free, e');
              refines =
                  ground (arith, length-contents q, free, contents-enqueued q ring value room);
              IsRing_kept = enqueued-IsRing q ring value room;
              valid = v'';
              count = n;
              effect = w;
            }
      ]

  receive-Refined : Refined (receive i) q k (queue_call (receive i) q k)
  unfolding queue_call rtos_queue_receive Fifo.apply
  receive-Refined =
      let (v', e) = as_current-IsValid i v h in
      elim (Bool-cases (q.count == 0)) [
        | inl empty ↦
            let b = set_current-Blocks i block_queue_empty v' e in
            let nil : contents q ≡ [] = ground (arith, empty) in
            record {
              reply = received none;
              queue = q;
              kernel = scheduler_set_current_task_state blocked block_queue_empty (as_current i k);
              returns = ground (arith, e, empty);
              refines = rw nil;
              IsRing_kept = ring;
              valid = b.valid;
              count = b.count;
              effect = b;
            }
        | inr some_left ↦
            let (k', e', w, v'', n, c) = unblock-some block_queue_full (as_current i k) v' in
            let left : q.count ≢ 0 = ground arith in
            record {
              reply = received (some (q.buffer q.front));
              queue = dequeued q;
              kernel = k';
              returns = ground (arith, e, some_left, e');
              refines = rw (contents-dequeued q ring left);
              IsRing_kept = dequeued-IsRing q ring left;
              valid = v'';
              count = n;
              effect = w;
            }
      ]

-- From a valid kernel and a valid ring, `rtos_queue_send` and `rtos_queue_receive`, called
-- while a task of the table runs, do not fault and answer as the bounded list of the queue's
-- values does, which they update in the same way. A call that succeeds wakes the best task that
-- waits for the opposite condition; one that fails blocks its caller. Ring and kernel stay
-- valid.
pub queue_call-Refined :
    (c : Call) (q : MessageQueue) {k : Kernel}
    → IsRing q
    → IsValid k
    → caller c < k.task_count
    → Refined c q k (queue_call c q k)
queue_call-Refined (send i value) q ring v h = send-Refined q i ring v h value
queue_call-Refined (receive i) q ring v h = receive-Refined q i ring v h

-- All the calls in turn.
unfoldable pub queue_run :
    List Call → MessageQueue → Kernel → Option (List Reply × MessageQueue × Kernel)
queue_run [] q k = some ([], q, k)
queue_run (c ∷ cs) q k = do
  (r, q', k') ← queue_call c q k
  (rs, q'', k'') ← queue_run cs q' k'
  some (r ∷ rs, q'', k'')

-- From a valid kernel and a valid ring, no sequence of calls of `rtos_queue_send` and
-- `rtos_queue_receive` by tasks of the table faults, or tells the ring from the bounded
-- first-in first-out list of its values: every answer is the list's, and so are the values
-- left; ring and kernel stay valid.
pub queue_run_refines :
    (cs : List Call) (q : MessageQueue) (k : Kernel)
    → IsRing q
    → IsValid k
    → All (λ c. caller c < k.task_count) cs
    → (rs : List Reply) × (q' : MessageQueue) × (k' : Kernel) × (queue_run cs q k
        ≡ some (rs, q', k'))
      × (Fifo.run cs (contents q) ≡ (rs, contents q'))
      × IsRing q'
      × IsValid k'
unfolding queue_run Fifo.run
queue_run_refines [] q k ring v h = ([], q, k, refl, refl, ring, v)
queue_run_refines (c ∷ cs) q k ring v h =
    let s = queue_call-Refined c q ring v h.0 in
    let callers : All (λ x. caller x < s.kernel.task_count) cs =
      subst (λ l. All (λ x. caller x < l) cs) (sym s.count) h.1 in
    let (rs, q', k', e, f, ring', v') =
      queue_run_refines cs s.queue s.kernel s.IsRing_kept s.valid callers in
    (s.reply ∷ rs, q', k', rw s.returns (rw e), rw s.refines (rw f), ring', v')
