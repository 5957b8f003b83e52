-- ===== src/Scheduler/Decide.antt =====
-- Which task a cycle runs.
use mini_rtos_sim.Base.{
  leb, ◌==◌, Bool-cases, ◌≤ℤ◌, ltb_ℤ, eqb_ℤ, ℤ, has, pos, negsuc, ℕ, ◌<◌, ◌≡◌, refl, ◌↔◌, inl, inr,
  true, false, not, ◌&&◌, Option, none, some, arith,
}
use mini_rtos_sim.Task.{is_ready, is_running, time_slice_ticks}
use mini_rtos_sim.Ready.{entries}
use mini_rtos_sim.Ready.Peek.{first_highest, first_highest_bounds, first_highest-none}
use mini_rtos_sim.Kernel.{Kernel, current_in}
use mini_rtos_sim.Kernel.Invariant.{IsValid, entry_bounds}
use mini_rtos_sim.Scheduler.{
  Decision, idle, first, forced, preempted, expired, continued, decide_between, decide, current_of,
}

-- The task that the decision puts on the processor.
abbrev pub chosen : Decision → Option ℕ
chosen idle = none
chosen (first best) = some best
chosen (forced cur best) = some best
chosen (preempted cur best) = some best
chosen (expired cur best) = some best
chosen (continued cur) = some cur

-- The decision of a cycle for a valid kernel, where the peek evicts nothing.
abbrev pub decision : Kernel → Decision
decision k = decide k.tasks (current_of k) (first_highest k.tasks (entries k.queue))

abbrev pub Runnable : Kernel → ℕ → Type 0
Runnable k i = (i < k.task_count) × (is_ready (k.tasks i).state ≡ true)

-- No task is RUNNING, as between cycles.
abbrev pub Paused : Kernel → Type 0
Paused k = (i : ℕ) → i < k.task_count → is_running (k.tasks i).state ≡ false

current_in-lt : (c : ℤ) (count i : ℕ) → current_in c count ≡ some i → i < count
current_in-lt (pos n) count i e = ground arith
current_in-lt (negsuc n) count i e = absurd (ground arith)

pub current_of-lt : (k : Kernel) (i : ℕ) → current_of k ≡ some i → i < k.task_count
current_of-lt k i e = ground (arith, current_in-lt k.current_task_index k.task_count i)

-- What is said of the task that is put on the processor.
abbrev pub Best : Kernel → Option ℕ → Type 0
Best k none = (j : ℕ) → ¬ Runnable k j
Best k (some i) =
    Runnable k i × ((j : ℕ) → Runnable k j → (k.tasks j).priority ≤ℤ (k.tasks i).priority)

module _ {k : Kernel} (v : IsValid k) (paused : Paused k) where
  pub queued-Runnable : (i : ℕ) → (has i (entries k.queue) ≡ true) ↔ Runnable k i
  queued-Runnable i = (entry_bounds v.queued i, λ r. ground (arith, v.queued.exact i))

  pub first-Best : (best : Option ℕ) → first_highest k.tasks (entries k.queue) ≡ best → Best k best
  first-Best none e =
      λ j r. cc ((queued-Runnable j).1 r, first_highest-none k.tasks (entries k.queue) j e)
  first-Best (some b) e =
      let (mem, top) = first_highest_bounds k.tasks (entries k.queue) b e in
      ((queued-Runnable b).0 mem, λ j r. top j ((queued-Runnable j).1 r))

  between-Best :
      (c b : ℕ) → c < k.task_count → Best k (some b) → Best k (chosen (decide_between k.tasks c b))
  unfolding decide_between
  between-Best c b h best = elim (Bool-cases (is_ready (k.tasks c).state)) [
    | inr stopped ↦ rw (paused c h, stopped) best
    | inl runnable ↦ elim (Bool-cases (ltb_ℤ (k.tasks c).priority (k.tasks b).priority)) [
      | inl outranked ↦ rw (paused c h, runnable, outranked) best
      | inr top ↦
          elim (Bool-cases (
            eqb_ℤ (k.tasks b).priority (k.tasks c).priority
            && leb time_slice_ticks (k.tasks c).slice_ticks_used
            && not (b == c))) [
              | inl over ↦ rw (paused c h, runnable, top, over) best
              | inr again ↦
                  rw (paused c h, runnable, top, again)
                    ((h, runnable), λ j r. ground (arith, best.1 j r, top))
            ]
    ]
  ]

  chosen-Best :
      (cur best : Option ℕ)
      → ((c : ℕ) → cur ≡ some c → c < k.task_count)
      → Best k best
      → Best k (chosen (decide k.tasks cur best))
  unfolding decide
  chosen-Best none none h b = b
  chosen-Best (some c) none h b = b
  chosen-Best none (some i) h b = b
  chosen-Best (some c) (some i) h b = between-Best c i (h c refl) b

  -- In a valid kernel with no task RUNNING, the task that a cycle puts on the processor is
  -- READY and no READY task has a higher priority; the cycle idles only if no task is READY.
  pub highest_priority_runs : Best k (chosen (decision k))
  highest_priority_runs =
      let best = first_highest k.tasks (entries k.queue) in
      chosen-Best (current_of k) best (current_of-lt k) (first-Best best refl)
