-- ===== src/Sync/Exclusion.antt =====
-- A mutex shared by any tasks, as a system of steps.
use mini_rtos_sim.Base.{
  if◌then◌else◌, set, ℕ, ◌<◌, ◌≡◌, sym, ◌∙◌, subst, Bool, true, false, Option, some, arith,
}
use mini_rtos_sim.Kernel.{Kernel}
use mini_rtos_sim.Kernel.Invariant.{IsValid}
use mini_rtos_sim.Sync.{Holds, Mutex, mutex_init, rtos_mutex_lock, rtos_mutex_unlock}
use mini_rtos_sim.Sync.Block.{as_current, as_current-IsValid}
use mini_rtos_sim.Sync.Mutexes.{
  id_of, Locked, taken, again, refused, Unlocked, ignored, released, mutex_lock-Locked,
  mutex_unlock-Unlocked,
}

-- The tasks and one mutex, with the tasks that are in their critical sections: a task enters when
-- its lock succeeds, and leaves when it unlocks.
pub record System : Type 0 where
  pub mutex : Mutex
  pub kernel : Kernel
  pub inside : ℕ → Bool

abbrev pub after_lock : System → ℕ → Bool × Mutex × Kernel → System
after_lock s i (got, m, k) = record {
  mutex = m;
  kernel = k;
  inside = if got then set s.inside i true else s.inside;
}

abbrev pub after_unlock : System → ℕ → Mutex × Kernel → System
after_unlock s i (m, k) = record { mutex = m; kernel = k; inside = set s.inside i false }

-- Any task of the table may call at any time.
pub data Step (s : System) : System → Type 0 where
  locks :
      (i : ℕ) (r : Bool × Mutex × Kernel)
      → i < s.kernel.task_count
      → rtos_mutex_lock s.mutex (as_current i s.kernel) ≡ some r
      → Step s (after_lock s i r)
  unlocks :
      (i : ℕ) (r : Mutex × Kernel)
      → i < s.kernel.task_count
      → rtos_mutex_unlock s.mutex (as_current i s.kernel) ≡ some r
      → Step s (after_unlock s i r)

pub data Reach (s : System) : System → Type 0 where
  here : Reach s s
  next : {t u : System} → Reach s t → Step t u → Reach s u

abbrev pub start : Kernel → System
start k = record { mutex = mutex_init; kernel = k; inside = λ i. false }

-- Who is inside owns the locked mutex.
record Owned (s : System) : Type 0 where
  valid : IsValid s.kernel
  owner : (i : ℕ) → s.inside i ≡ true → (s.mutex.locked ≡ true) × (s.mutex.owner ≡ id_of i)

start-Owned : (k : Kernel) → IsValid k → Owned (start k)
start-Owned k v = record { valid = v; owner = λ i e. absurd (ground arith) }

id_of-injective : (i j : ℕ) → id_of i ≡ id_of j → i ≡ j
id_of-injective i j e = ground arith

module _ (s : System) (i : ℕ) (o : Owned s) (h : i < s.kernel.task_count) where
  Locked-Owned :
      (r : Option (Bool × Mutex × Kernel))
      → Locked s.mutex (as_current i s.kernel) i r
      → Holds (λ x. Owned (after_lock s i x)) r
  Locked-Owned _ (taken free) = record {
    valid = (as_current-IsValid i o.valid h).0;
    owner = λ j e. ground (arith, o.owner j);
  }
  Locked-Owned _ (again held own) = record {
    valid = (as_current-IsValid i o.valid h).0;
    owner = λ j e. ground (arith, o.owner j);
  }
  Locked-Owned _ (refused held other b) = record { valid = b.valid; owner = o.owner }

  Unlocked-Owned :
      (r : Option (Mutex × Kernel))
      → Unlocked s.mutex (as_current i s.kernel) i r
      → Holds (λ x. Owned (after_unlock s i x)) r
  Unlocked-Owned _ (ignored other) = record {
    valid = (as_current-IsValid i o.valid h).0;
    owner = λ j e. ground (arith, o.owner j);
  }
  Unlocked-Owned _ (released held own w v n) = record {
    valid = v;
    owner = λ j e. absurd (ground (arith, o.owner j, id_of-injective i j));
  }

Step-Owned : {s t : System} → Owned s → Step s t → Owned t
Step-Owned {s} o (locks i r h e) =
    let c = as_current-IsValid i o.valid h in
    subst (Holds (λ x. Owned (after_lock s i x))) e (
      Locked-Owned s i o h (rtos_mutex_lock s.mutex (as_current i s.kernel))
        (mutex_lock-Locked s.mutex i c.0 c.1))
Step-Owned {s} o (unlocks i r h e) =
    let c = as_current-IsValid i o.valid h in
    subst (Holds (λ x. Owned (after_unlock s i x))) e (
      Unlocked-Owned s i o h (rtos_mutex_unlock s.mutex (as_current i s.kernel))
        (mutex_unlock-Unlocked s.mutex i c.0 c.1))

Reach-Owned : {s t : System} → Owned s → Reach s t → Owned t
Reach-Owned o here = o
Reach-Owned o (next r st) = Step-Owned (Reach-Owned o r) st

-- Mutual exclusion: from a valid kernel, whatever tasks of the table lock and unlock a mutex
-- from `mutex_init` on, in whatever order, two tasks are never in their critical sections at
-- once, and the task that is inside owns the locked mutex.
pub mutual_exclusion :
    {k : Kernel} {s : System} (i j : ℕ)
    → IsValid k
    → Reach (start k) s
    → s.inside i ≡ true
    → s.inside j ≡ true
    → (i ≡ j) × (s.mutex.locked ≡ true) × (s.mutex.owner ≡ id_of i)
mutual_exclusion {k} i j v r p q =
    let o = Reach-Owned (start-Owned k v) r in
    let a = o.owner i p in let b = o.owner j q in (id_of-injective i j (sym a.1 ∙ b.1), a.0, a.1)
