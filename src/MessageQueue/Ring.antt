-- ===== src/MessageQueue/Ring.antt =====
-- The ring: its invariant, and the list that it holds.
use mini_rtos_sim.Base.{
  ℤ, set, length, ℕ, zero, suc, ◌+◌, ◌-◌, ◌%◌, ◌≤◌, ◌<◌, ◌≡◌, refl, ap, ap₂, ◌∙◌, ◌≢◌, [], ◌∷◌,
  ◌++◌, arith,
}
use mini_rtos_sim.Task.{queue_size}
use mini_rtos_sim.MessageQueue.{MessageQueue, enqueued, dequeued, queue_init}
use mini_rtos_sim.MessageQueue.Fifo.{Fifo}

-- Every index lies inside the buffer, and `rear` is `count` places behind `front`.
pub record IsRing (q : MessageQueue) : Type 0 where
  pub front_lt : q.front < queue_size
  pub rear_eq : q.rear ≡ (q.front + q.count) % queue_size
  pub count_le : q.count ≤ queue_size

-- The `n` values from index `f` on, going round.
abbrev pub ring : (ℕ → ℤ) → ℕ → ℕ → Fifo
ring buffer f zero = []
ring buffer f (suc n) = buffer f ∷ ring buffer ((f + 1) % queue_size) n

abbrev pub contents : MessageQueue → Fifo
contents q = ring q.buffer q.front q.count

length-ring : (buffer : ℕ → ℤ) (f n : ℕ) → length (ring buffer f n) ≡ n
length-ring buffer f zero = refl
length-ring buffer f (suc n) = ap suc (length-ring buffer ((f + 1) % queue_size) n)

pub length-contents : (q : MessageQueue) → length (contents q) ≡ q.count
length-contents q = length-ring q.buffer q.front q.count

-- A write just behind the values adds one.
ring-set :
    (buffer : ℕ → ℤ) (v : ℤ) (n f e : ℕ)
    → f < queue_size
    → n < queue_size
    → e ≡ (f + n) % queue_size
    → ring (set buffer e v) f (suc n) ≡ ring buffer f n ++ (v ∷ [])
ring-set buffer v zero f e hf hn h = let same : f ≡ e = omega arith in ground (arith, same)
ring-set buffer v (suc n) f e hf hn h =
    let apart : f ≢ e = omega arith in
    ap₂ ◌∷◌ (ground arith)
      (ring-set buffer v n ((f + 1) % queue_size) e (omega arith) (omega arith) (omega arith))

module _ (q : MessageQueue) (v : IsRing q) where
  pub contents-enqueued :
      (value : ℤ) → q.count < queue_size → contents (enqueued q value) ≡ contents q ++ (value ∷ [])
  contents-enqueued value h =
      let e : q.count + 1 ≡ suc q.count = omega arith in
      ap (ring (set q.buffer q.rear value) q.front) e
      ∙ ring-set q.buffer value q.count q.front q.rear v.front_lt h v.rear_eq

  pub enqueued-IsRing : (value : ℤ) → q.count < queue_size → IsRing (enqueued q value)
  enqueued-IsRing value h = record {
    front_lt = v.front_lt;
    rear_eq = omega (arith, v.rear_eq);
    count_le = omega arith;
  }

  pub contents-dequeued : q.count ≢ 0 → contents q ≡ q.buffer q.front ∷ contents (dequeued q)
  contents-dequeued h =
      let e : q.count ≡ suc (q.count - 1) = omega arith in ap (ring q.buffer q.front) e

  pub dequeued-IsRing : q.count ≢ 0 → IsRing (dequeued q)
  dequeued-IsRing h = record {
    front_lt = omega arith;
    rear_eq = omega (arith, v.rear_eq, v.front_lt);
    count_le = omega (arith, v.count_le);
  }

pub queue_init-IsRing : (q : MessageQueue) → IsRing (queue_init q) × (contents (queue_init q) ≡ [])
unfolding queue_init
queue_init-IsRing q = (omega arith, refl)
