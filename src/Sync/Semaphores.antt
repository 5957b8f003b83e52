-- ===== src/Sync/Semaphores.antt =====
-- `rtos_sem_wait` and `rtos_sem_signal`.
use mini_rtos_sim.Base.{
  inc_int, inc_int_nonneg, if◌then◌else◌, Bool-cases, pos_part, ◌≤ℤ◌, ◌<ℤ◌, ltb_ℤ, pred_ℤ, suc_ℤ,
  suc-pred, suc_ℤ_pos, All, pos, ℕ, suc, ◌+◌, ◌<◌, ◌≡◌, refl, sym, ap, ◌∙◌, subst, inl, inr, Bool,
  true, false, Option, some, List, [], ◌∷◌, arith,
}
use mini_rtos_sim.Task.{blocked, block_semaphore}
use mini_rtos_sim.Kernel.{Kernel, scheduler_set_current_task_state, rtos_current_task}
use mini_rtos_sim.Kernel.Invariant.{IsValid}
use mini_rtos_sim.Sync.{Semaphore, ◌>>=◌, rtos_sem_wait, rtos_sem_signal}
use mini_rtos_sim.Sync.Block.{
  Blocks, set_current-Blocks, unblock-some, as_current, as_current-IsValid,
}

-- What a wait promises: a unit is taken and the kernel left alone, or none is there and the
-- caller blocks, with the semaphore left alone.
pub data Waited (sem : Semaphore) (k : Kernel) (i : ℕ)
    : Option (Bool × Semaphore × Kernel) → Type 0 where
  acquired :
      {sem' : Semaphore}
      → pos 0 <ℤ sem.count
      → suc_ℤ sem'.count ≡ sem.count
      → Waited sem k i (some (true, sem', k))
  refused :
      {k' : Kernel}
      → sem.count ≤ℤ pos 0
      → Blocks k i block_semaphore k'
      → Waited sem k i (some (false, sem, k'))

-- From a valid kernel with the current task `i`, `rtos_sem_wait` does not fault. It takes one
-- unit, with no change of the kernel, if the count is positive; otherwise it blocks the caller
-- on the semaphore, which stays as it is.
pub sem_wait-Waited :
    (sem : Semaphore) {k : Kernel} (i : ℕ)
    → IsValid k
    → rtos_current_task k ≡ some i
    → Waited sem k i (rtos_sem_wait sem k)
unfolding rtos_sem_wait
sem_wait-Waited sem {k} i v e = elim (Bool-cases (ltb_ℤ (pos 0) sem.count)) [
  | inl some_left ↦ rw (eq, some_left) (acquired (ground arith) (suc-pred sem.count))
  | inr none_left ↦
      rw (eq, none_left) (refused (ground arith) (set_current-Blocks i block_semaphore v e))
]
  where
    eq : rtos_sem_wait sem k ≡ (
        if ltb_ℤ (pos 0) sem.count
        then some (true, record { count = pred_ℤ sem.count }, k)
        else some (false, sem, scheduler_set_current_task_state blocked block_semaphore k))
    eq = rw (e, rtos_sem_wait)

-- Calls on one semaphore, each made while the task named with it runs.
pub data SemOp : Type 0 where
  wait signal : SemOp

unfoldable pub sem_call : SemOp → Semaphore → Kernel → Option (ℕ × Semaphore × Kernel)
sem_call wait sem k = do
  (got, sem', k') ← rtos_sem_wait sem k
  some ((if got then 1 else 0), sem', k')
sem_call signal sem k = do (sem', k') ← rtos_sem_signal sem k; some (0, sem', k')

-- All of them in turn, with the number of successful waits.
unfoldable pub sem_run : List (ℕ × SemOp) → Semaphore → Kernel → Option (ℕ × Semaphore × Kernel)
sem_run [] sem k = some (0, sem, k)
sem_run ((i, op) ∷ ops) sem k = do
  (n, sem', k') ← sem_call op sem (as_current i k)
  (m, sem'', k'') ← sem_run ops sem' k'
  some (n + m, sem'', k'')

abbrev pub signals : List (ℕ × SemOp) → ℕ
signals [] = 0
signals ((i, wait) ∷ ops) = signals ops
signals ((i, signal) ∷ ops) = suc (signals ops)

-- The state after a call: a valid kernel, and no unit lost or made up.
abbrev pub Conserves : ℕ → ℕ → Semaphore → Kernel → Option (ℕ × Semaphore × Kernel) → Type 0
Conserves limit added sem k r =
    (n : ℕ) × (sem' : Semaphore) × (k' : Kernel) × (r ≡ some (n, sem', k'))
    × IsValid k'
    × (k'.task_count ≡ limit)
    × (pos 0 ≤ℤ sem'.count)
    × (pos_part sem'.count + n ≡ pos_part sem.count + added)

Waited-Conserves :
    (sem : Semaphore) (k : Kernel) (i : ℕ) (r : Option (Bool × Semaphore × Kernel))
    → IsValid k
    → pos 0 ≤ℤ sem.count
    → Waited sem k i r
    → Conserves k.task_count 0 sem k (r >>= λ w. some ((if w.0 then 1 else 0), w.1, w.2))
Waited-Conserves sem k i _ v nonneg (acquired {sem'} p e) =
    let u = suc_ℤ_pos sem'.count (rw e p) in
    (1, sem', k, refl, v, refl, u.0, omega (arith, u.1, ap pos_part e))
Waited-Conserves sem k i _ v nonneg (refused {k'} p b) =
    (0, sem, k', refl, b.valid, b.count, nonneg, omega arith)

module _ (sem : Semaphore) {k : Kernel} (i : ℕ) (v : IsValid k) (e : rtos_current_task k ≡ some i)
    (nonneg : pos 0 ≤ℤ sem.count) where
  wait-Conserves : Conserves k.task_count 0 sem k (sem_call wait sem k)
  unfolding sem_call
  wait-Conserves =
      Waited-Conserves sem k i (rtos_sem_wait sem k) v nonneg (sem_wait-Waited sem i v e)

  signal-Conserves :
      suc (pos_part sem.count) < 2147483648 → Conserves k.task_count 1 sem k (sem_call signal sem k)
  unfolding sem_call rtos_sem_signal
  signal-Conserves fits =
      let (k', e', w, v', n, c) = unblock-some block_semaphore k v in
      let s = inc_int_nonneg sem.count nonneg fits in
      (
        0,
        record { count = inc_int sem.count },
        k',
        ground (arith, e'),
        v',
        n,
        s.0,
        omega (arith, s.1),
      )

call-Conserves :
    (op : SemOp) (sem : Semaphore) {k : Kernel} (i : ℕ)
    → IsValid k
    → i < k.task_count
    → pos 0 ≤ℤ sem.count
    → pos_part sem.count + signals ((i, op) ∷ []) < 2147483648
    → Conserves k.task_count (signals ((i, op) ∷ [])) sem k (sem_call op sem (as_current i k))
call-Conserves wait sem i v h nonneg fits =
    let c = as_current-IsValid i v h in wait-Conserves sem i c.0 c.1 nonneg
call-Conserves signal sem i v h nonneg fits =
    let c = as_current-IsValid i v h in signal-Conserves sem i c.0 c.1 nonneg (omega arith)

signals-cons :
    (i : ℕ) (op : SemOp) (ops : List (ℕ × SemOp))
    → signals ((i, op) ∷ ops) ≡ signals ((i, op) ∷ []) + signals ops
signals-cons i wait ops = omega arith
signals-cons i signal ops = omega arith

-- A semaphore counts: from a valid kernel and a count that is not negative, and as long as the
-- count at the start together with the signals is at most `INT_MAX`, whatever tasks of the table
-- wait and signal, in whatever order, no call faults, the kernel stays valid, the count at the end
-- is not negative, and together with the waits that succeeded it makes up the count at the start
-- together with the signals.
pub sem_run-Conserves :
    (ops : List (ℕ × SemOp)) (sem : Semaphore) (k : Kernel)
    → IsValid k
    → All (λ c. c.0 < k.task_count) ops
    → pos 0 ≤ℤ sem.count
    → pos_part sem.count + signals ops < 2147483648
    → Conserves k.task_count (signals ops) sem k (sem_run ops sem k)
unfolding sem_run
sem_run-Conserves [] sem k v h nonneg fits = (0, sem, k, refl, v, refl, nonneg, omega arith)
sem_run-Conserves ((i, op) ∷ ops) sem k v h nonneg fits =
    let (n, sem', k', e, v', c, nonneg', sum) =
      call-Conserves op sem i v h.0 nonneg (omega (arith, signals-cons i op ops)) in
    let (m, sem'', k'', e', v'', c', nonneg'', sum') =
      sem_run-Conserves ops sem' k' v' (subst (λ l. All (λ u. u.0 < l) ops) (sym c) h.1) nonneg'
        (omega (arith, signals-cons i op ops, sum)) in
    (n + m, sem'', k'', rw e (rw e'), v'', c' ∙ c, nonneg'', omega (arith, signals-cons i op ops))
