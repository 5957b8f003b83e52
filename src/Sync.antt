-- ===== src/Sync.antt =====
-- src/rtos.c, semaphores and mutexes. A call takes the object and the kernel and returns both;
-- `none` is the fault of a call outside a task, where `rtos_current_task()` is NULL and its fields
-- are read on every path.
pub mod Block
pub mod Semaphores
pub mod Shared
pub mod Mutexes
pub mod Exclusion
pub mod Progress
use mini_rtos_sim.Base.{
  inc_int, if◌then◌else◌, minus_one, ltb_ℤ, eqb_ℤ, pred_ℤ, ℤ, pos, ◌≡◌, ap, Bool, true, false, not,
  ◌||◌, Option, none, some,
}
use mini_rtos_sim.Task.{blocked, block_semaphore, block_mutex}
use mini_rtos_sim.Kernel.{
  Kernel, scheduler_set_current_task_state, scheduler_unblock_one, rtos_current_task,
}

pub record Semaphore : Type 0 where
  pub count : ℤ

pub record Mutex : Type 0 where
  pub locked : Bool
  pub owner : ℤ

infixl 5 ◌>>=◌
abbrev pub ◌>>=◌ {ℓ κ} : {A : Type ℓ} {B : Type κ} → Option A → (A → Option B) → Option B
none >>= f = none
some a >>= f = f a

unfoldable pub semaphore_init : ℤ → Semaphore
semaphore_init initial_count = record { count = initial_count }

unfoldable pub mutex_init : Mutex
mutex_init = record { locked = false; owner = minus_one }

unfoldable pub rtos_sem_wait : Semaphore → Kernel → Option (Bool × Semaphore × Kernel)
rtos_sem_wait sem k = do
  task ← rtos_current_task k
  if ltb_ℤ (pos 0) sem.count
      then some (true, record { count = pred_ℤ sem.count }, k)
      else some (false, sem, scheduler_set_current_task_state blocked block_semaphore k)

unfoldable pub rtos_sem_signal : Semaphore → Kernel → Option (Semaphore × Kernel)
rtos_sem_signal sem k = do
  k' ← scheduler_unblock_one block_semaphore k
  some (record { count = inc_int sem.count }, k')

unfoldable pub rtos_mutex_lock : Mutex → Kernel → Option (Bool × Mutex × Kernel)
rtos_mutex_lock mutex k = do
  task ← rtos_current_task k
  let id = pos (k.tasks task).task_id
  if not mutex.locked
      then some (true, record { locked = true; owner = id }, k)
      else if eqb_ℤ mutex.owner id
      then some (true, mutex, k)
      else some (false, mutex, scheduler_set_current_task_state blocked block_mutex k)

unfoldable pub rtos_mutex_unlock : Mutex → Kernel → Option (Mutex × Kernel)
rtos_mutex_unlock mutex k = do
  task ← rtos_current_task k
  if not mutex.locked || not (eqb_ℤ mutex.owner (pos (k.tasks task).task_id))
      then some (mutex, k)
      else do
        k' ← scheduler_unblock_one block_mutex k
        some (record { locked = false; owner = minus_one }, k')

-- A chain whose first part returns.
pub bind-some {ℓ κ} :
    {A : Type ℓ} {B : Type κ} {m : Option A} (f : A → Option B) (a : A)
    → m ≡ some a
    → (m >>= f) ≡ f a
bind-some f a e = ap (λ o. o >>= f) e

-- A predicate of the result of a call that does not fault.
abbrev pub Holds : {A : Type 0} → (A → Type 0) → Option A → Type 0
Holds P none = Unit
Holds P (some a) = P a

-- A chain whose parts do what they should.
pub Holds-bind :
    {A B : Type 0} {P : A → Type 0} (Q : B → Type 0) (m : Option A) (f : A → Option B)
    → Holds P m
    → ((a : A) → P a → Holds Q (f a))
    → Holds Q (m >>= f)
Holds-bind Q none f h g = _
Holds-bind Q (some a) f h g = g a h

-- What holds of all results.
pub Holds-any : {A : Type 0} (P : A → Type 0) → ((a : A) → P a) → (r : Option A) → Holds P r
Holds-any P all none = _
Holds-any P all (some a) = all a

-- A weaker statement of the result.
pub Holds-map :
    {A : Type 0} (P Q : A → Type 0) (r : Option A) → ((a : A) → P a → Q a) → Holds P r → Holds Q r
Holds-map P Q none f h = _
Holds-map P Q (some a) f h = f a h
