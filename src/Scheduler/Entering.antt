-- ===== src/Scheduler/Entering.antt =====
-- The kernel that a task is entered with, from each decision.
use mini_rtos_sim.Base.{
  ◌==◌, ==_iff, Bool-cases, ℤ, set, has, Distinct, has-erase_ne, erase-Distinct, pos, negsuc, ℕ,
  ◌<◌, ◌≡◌, refl, ◌∙◌, ◌≢◌, inl, inr, Option, none, some, arith,
}
use mini_rtos_sim.Context.{Contexts, context_restore, context_copy, context_switch}
use mini_rtos_sim.Kernel.Progress.{kept-AtEntry, AtEntry}
use mini_rtos_sim.Ready.{ReadyQueue, entries, ready_queue_pop}
use mini_rtos_sim.Ready.Remove.{entries-pop}
use mini_rtos_sim.Kernel.{Kernel, current_in}
use mini_rtos_sim.Kernel.Invariant.{IsValid}
use mini_rtos_sim.Kernel.Enter.{ValidBut}
use mini_rtos_sim.Scheduler.{
  Decision, idle, first, forced, preempted, expired, continued, slice, load_context, current_of,
}
use mini_rtos_sim.Scheduler.Decide.{Paused}
use mini_rtos_sim.Scheduler.Dispatch.{InPlace}

-- The kernel that a task is entered with.
abbrev pub entering : Kernel → ℕ → ℤ → ReadyQueue → Contexts → (ℕ → ℕ) → Kernel
entering k i current q contexts f =
    slice i f (record k { current_task_index = current; queue = q; contexts = contexts })

module _ {k : Kernel} (v : IsValid k) (i : ℕ) where
  pub entering-ValidBut :
      (current : ℤ) (q : ReadyQueue) (contexts : Contexts) (f : ℕ → ℕ)
      → i < k.task_count
      → current ≡ pos i
      → ((j : ℕ) → j ≢ i → has j (entries q) ≡ has j (entries k.queue))
      → Distinct (entries q)
      → ValidBut i (entering k i current q contexts f)
  entering-ValidBut current q contexts f h e others distinct = record {
    bound = v.bound;
    count_le = v.count_le;
    index_lt = h;
    current = e;
    numbered = λ j p. ground (arith, v.numbered j p, ==_iff j i);
    exact = λ j p. ground (arith, others j p, v.queued.exact j, ==_iff j i);
    distinct = distinct;
  }

  pub popped-ValidBut :
      (contexts : Contexts)
      → i < k.task_count
      → ValidBut i (entering k i (pos i) (ready_queue_pop i k.queue) contexts (λ s. 1))
  popped-ValidBut contexts h =
      entering-ValidBut (pos i) (ready_queue_pop i k.queue) contexts (λ s. 1) h refl
        (λ j p. rw (entries-pop i k.queue) (has-erase_ne j i (entries k.queue) p))
        (rw (entries-pop i k.queue) (erase-Distinct i (entries k.queue) v.queued.distinct))

  pub slice-Paused : (f : ℕ → ℕ) → Paused k → Paused (slice i f k)
  slice-Paused f paused j h = ground (arith, paused j h, ==_iff j i)

current_in-pos : (c : ℤ) (count i : ℕ) → current_in c count ≡ some i → c ≡ pos i
current_in-pos (pos n) count i e = ground arith
current_in-pos (negsuc n) count i e = absurd (ground arith)

pub current_of-pos : (k : Kernel) (i : ℕ) → current_of k ≡ some i → k.current_task_index ≡ pos i
current_of-pos k i e = ground (arith, current_in-pos k.current_task_index k.task_count i)

-- The decision names tasks of the table, and continues only the current one.
abbrev pub Fits : Kernel → Decision → Type 0
Fits k idle = Unit
Fits k (first b) = b < k.task_count
Fits k (forced c b) = (c < k.task_count) × (b < k.task_count) × (k.current_task_index ≡ pos c)
Fits k (preempted c b) = (c < k.task_count) × (b < k.task_count) × (k.current_task_index ≡ pos c)
Fits k (expired c b) = (c < k.task_count) × (b < k.task_count) × (k.current_task_index ≡ pos c)
Fits k (continued c) = (c < k.task_count) × (k.current_task_index ≡ pos c)

-- A task's slice counter does not matter to its contexts.
pub slice-AtEntry : (i : ℕ) (f : ℕ → ℕ) (k : Kernel) → AtEntry k → AtEntry (slice i f k)
slice-AtEntry i f k entry j h = kept-AtEntry refl (ground (arith, ==_iff j i)) (entry j h)

-- The switch saves the live registers where they came from, and loads those of the incoming task.
pub load-InPlace :
    (outgoing : Option ℕ) (i current : ℕ) (q : ReadyQueue) (k : Kernel)
    → AtEntry k
    → ((o : ℕ) → outgoing ≡ some o → k.contexts.active_context ≡ k.contexts.objects o)
    → InPlace i (entering k i (pos current) q (load_context outgoing i k).contexts (λ s. 1))
unfolding context_restore context_switch context_copy
load-InPlace none i current q k entry live = (slice-AtEntry i (λ s. 1) k entry, refl)
load-InPlace (some o) i current q k entry live =
    let same : (j : ℕ)
        → set k.contexts.objects o k.contexts.active_context j ≡ k.contexts.objects j =
      λ j. elim (Bool-cases (j == o)) [
        | inl e ↦ let e' : j ≡ o = (==_iff j o).0 e in rw (e, live o refl, e') refl
        | inr e ↦ rw e refl
      ] in
    ((λ j h. let e = slice-AtEntry i (λ s. 1) k entry j h in (same j ∙ e.0, e.1)), refl)
