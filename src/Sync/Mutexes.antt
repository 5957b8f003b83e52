-- ===== src/Sync/Mutexes.antt =====
-- `rtos_mutex_lock` and `rtos_mutex_unlock`.
use mini_rtos_sim.Base.{
  if◌then◌else◌, Bool-cases, minus_one, eqb_ℤ, eqb→eq, eqb_refl, ℤ, pos, ℕ, suc, ◌<◌, ◌≡◌, refl,
  subst, ◌≢◌, inl, inr, Bool, true, false, not, ◌||◌, Option, some, arith,
}
use mini_rtos_sim.Task.{blocked, block_mutex}
use mini_rtos_sim.Kernel.{
  Kernel, scheduler_set_current_task_state, rtos_current_task, scheduler_unblock_one,
}
use mini_rtos_sim.Kernel.Invariant.{IsValid}
use mini_rtos_sim.Kernel.Unblock.{Woken}
use mini_rtos_sim.Kernel.Progress.{InTask}
use mini_rtos_sim.Kernel.Transition.{set_current-eq}
use mini_rtos_sim.Sync.{Holds, Mutex, ◌>>=◌, rtos_mutex_lock, rtos_mutex_unlock}
use mini_rtos_sim.Sync.Block.{Blocks, set_current-Blocks, unblock-some}

-- The identifier of the task at index `i`.
abbrev pub id_of : ℕ → ℤ
id_of i = pos (suc i)

-- What a lock promises the caller `i`.
pub data Locked (m : Mutex) (k : Kernel) (i : ℕ) : Option (Bool × Mutex × Kernel) → Type 0 where
  taken :
      m.locked ≡ false → Locked m k i (some (true, record { locked = true; owner = id_of i }, k))
  again : m.locked ≡ true → m.owner ≡ id_of i → Locked m k i (some (true, m, k))
  refused :
      {k' : Kernel}
      → m.locked ≡ true
      → m.owner ≢ id_of i
      → Blocks k i block_mutex k'
      → Locked m k i (some (false, m, k'))

-- What an unlock promises.
pub data Unlocked (m : Mutex) (k : Kernel) (i : ℕ) : Option (Mutex × Kernel) → Type 0 where
  ignored : (m.locked ≡ true → m.owner ≢ id_of i) → Unlocked m k i (some (m, k))
  released :
      {k' : Kernel}
      → m.locked ≡ true
      → m.owner ≡ id_of i
      → Woken block_mutex k (some k')
      → IsValid k'
      → k'.task_count ≡ k.task_count
      → Unlocked m k i (some (record { locked = false; owner = minus_one }, k'))

module _ (m : Mutex) {k : Kernel} (i : ℕ) (v : IsValid k) (e : rtos_current_task k ≡ some i) where
  id_lem : (k.tasks i).task_id ≡ suc i
  id_lem = v.numbered i (set_current-eq v blocked block_mutex i e).0

  lock-eq : rtos_mutex_lock m k ≡ (
      if not m.locked
      then some (true, record { locked = true; owner = id_of i }, k)
      else if eqb_ℤ m.owner (id_of i)
      then some (true, m, k)
      else some (false, m, scheduler_set_current_task_state blocked block_mutex k))
  unfolding rtos_mutex_lock
  lock-eq = rw (e, id_lem)

  -- From a valid kernel with the current task `i`, `rtos_mutex_lock` does not fault. A free
  -- mutex becomes the caller's; the owner may lock again; anybody else is blocked on it, and
  -- the mutex stays as it is.
  pub mutex_lock-Locked : Locked m k i (rtos_mutex_lock m k)
  mutex_lock-Locked = rw lock-eq (elim (Bool-cases m.locked) [
    | inl held ↦ elim (Bool-cases (eqb_ℤ m.owner (id_of i))) [
      | inl own ↦ simp (held, own) (again held (eqb→eq m.owner (id_of i) own))
      | inr other ↦
          simp (held, other)
            (refused held (λ p. ground (arith, p, eqb_refl m.owner))
              (set_current-Blocks i block_mutex v e))
    ]
    | inr free ↦ simp free (taken free)
  ])

  unlock-eq : rtos_mutex_unlock m k ≡ (
      if not m.locked || not (eqb_ℤ m.owner (id_of i))
      then some (m, k)
      else (scheduler_unblock_one block_mutex k >>= λ k'.
          some (record { locked = false; owner = minus_one }, k')))
  unfolding rtos_mutex_unlock
  unlock-eq = rw (e, id_lem)

  -- From a valid kernel with the current task `i`, `rtos_mutex_unlock` does not fault. The
  -- owner of a locked mutex releases it, which wakes the best waiter; any other call changes
  -- nothing.
  pub mutex_unlock-Unlocked : Unlocked m k i (rtos_mutex_unlock m k)
  mutex_unlock-Unlocked =
      let (k', e', w, v', n, c) = unblock-some block_mutex k v in
      rw unlock-eq (elim (Bool-cases m.locked) [
        | inl held ↦ elim (Bool-cases (eqb_ℤ m.owner (id_of i))) [
          | inl own ↦ simp (held, own, e') (released held (eqb→eq m.owner (id_of i) own) w v' n)
          | inr other ↦ simp (held, other) (ignored λ h p. ground (arith, p, eqb_refl m.owner))
        ]
        | inr free ↦ simp free (ignored λ h. ground arith)
      ])

-- A locked mutex belongs to a task of the table.
abbrev pub IsOwned : ℕ → Mutex → Type 0
IsOwned count m = m.locked ≡ true → (i : ℕ) × (i < count) × (m.owner ≡ id_of i)

module _ (count : ℕ) (m : Mutex) (k : Kernel) (i : ℕ) (h : i < count) (o : IsOwned count m) where
  pub Locked-IsOwned :
      (r : Option (Bool × Mutex × Kernel)) → Locked m k i r → Holds (λ x. IsOwned count x.1) r
  Locked-IsOwned _ (taken free) = λ e. (i, h, refl)
  Locked-IsOwned _ (again held own) = o
  Locked-IsOwned _ (refused held other b) = o

  pub Unlocked-IsOwned :
      (r : Option (Mutex × Kernel)) → Unlocked m k i r → Holds (λ x. IsOwned count x.0) r
  Unlocked-IsOwned _ (ignored other) = o
  Unlocked-IsOwned _ (released held own w v n) = λ e. absurd (cc e)

-- A result of the code is one of what it promises.
module _ (m : Mutex) {k : Kernel} (v : IsValid k) (t : InTask k) (o : IsOwned k.task_count m) where
  pub lock-IsOwned :
      (r : Bool × Mutex × Kernel) → rtos_mutex_lock m k ≡ some r → IsOwned k.task_count r.1
  lock-IsOwned r e =
      let (i, at) = t in
      subst (Holds (λ x. IsOwned k.task_count x.1)) e (
        Locked-IsOwned k.task_count m k i (set_current-eq v blocked block_mutex i at).0 o _
          (mutex_lock-Locked m i v at))

  pub unlock-IsOwned :
      (r : Mutex × Kernel) → rtos_mutex_unlock m k ≡ some r → IsOwned k.task_count r.0
  unlock-IsOwned r e =
      let (i, at) = t in
      subst (Holds (λ x. IsOwned k.task_count x.0)) e (
        Unlocked-IsOwned k.task_count m k i (set_current-eq v blocked block_mutex i at).0 o _
          (mutex_unlock-Unlocked m i v at))
