-- ===== src/Sync/Shared.antt =====
-- `scheduler_unblock_one` and the several objects of a kind.
use mini_rtos_sim.Base.{
  inc_int, ◌==◌, ==_iff, ==_refl, Bool-cases, ◌<ℤ◌, ℕ, ◌≡◌, ◌≢◌, inl, inr, true, some, arith,
}
use mini_rtos_sim.Task.{block_semaphore, is_ready}
use mini_rtos_sim.Kernel.{Kernel}
use mini_rtos_sim.Kernel.Invariant.{IsValid}
use mini_rtos_sim.Kernel.Unblock.{Waits, Woken, nobody, woken}
use mini_rtos_sim.Sync.{Semaphore, bind-some, rtos_sem_signal}
use mini_rtos_sim.Sync.Block.{unblock-some}

-- The waiter `b` outranks the other waiters for any semaphore.
abbrev pub Top : Kernel → ℕ → Type 0
Top k b =
    Waits block_semaphore k b
    × ((j : ℕ) → j ≢ b → Waits block_semaphore k j → (k.tasks j).priority <ℤ (k.tasks b).priority)

Top-Woken :
    (k k' : Kernel) (b : ℕ)
    → Top k b
    → Woken block_semaphore k (some k')
    → (is_ready (k'.tasks b).state ≡ true) × ((j : ℕ) → j ≢ b → k'.tasks j ≡ k.tasks j)
Top-Woken k k' b (w, top) (nobody none_waits) = absurd (none_waits b w)
Top-Woken k k' b (w, top) (woken c c_waits best r others cur n v) = elim (Bool-cases (c == b)) [
  | inl e ↦ let same : c ≡ b = (==_iff c b).0 e in rw (← same) (r, others)
  | inr e ↦
      let ne : c ≢ b = λ p. ground (arith, p, ==_refl b) in
      absurd (omega (arith, best b w, top c ne c_waits))
]

-- From a valid kernel in which the task `b` waits for a semaphore, whichever it is, and has a
-- higher priority than every other task that waits for one, a signal of any semaphore at all
-- makes `b` READY and leaves every other waiter blocked as it was.
pub sem_signal_wakes_any :
    (sem : Semaphore) {k : Kernel} (b : ℕ)
    → IsValid k
    → Top k b
    → (k' : Kernel) × (rtos_sem_signal sem k ≡ some (record { count = inc_int sem.count }, k'))
      × (is_ready (k'.tasks b).state ≡ true)
      × ((j : ℕ) → j ≢ b → k'.tasks j ≡ k.tasks j)
unfolding rtos_sem_signal
sem_signal_wakes_any sem {k} b v top =
    let (k', e, w, v', n, c) = unblock-some block_semaphore k v in
    let (r, others) = Top-Woken k k' b top w in (k', bind-some _ k' e, r, others)
