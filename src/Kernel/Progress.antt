-- ===== src/Kernel/Progress.antt =====
-- What every kernel call keeps, whatever it does otherwise.
use mini_rtos_sim.Base.{
  ltb, ltb→lt, ==_iff, Bool-cases, Option-cases, ℤ, pos, negsuc, ℕ, ◌≤◌, ◌<◌, ◌≡◌, refl, sym, ap,
  ◌∙◌, inl, inr, true, false, none, some, arith,
}
use mini_rtos_sim.Task.{Tcb, TaskState, BlockReason, ready, block_none, is_running}
use mini_rtos_sim.Context.{Contexts, CpuContext, initial_context}
use mini_rtos_sim.Kernel.{
  Kernel, scheduler_set_task_state, scheduler_set_current_task_state, rtos_current_task,
  scheduler_unblock_one, unblock_scan, current_in,
}
use mini_rtos_sim.Kernel.Invariant.{IsValid, retask-IsValid}
use mini_rtos_sim.Kernel.Transition.{
  tasks-set_task_state, frame-set_task_state, set_task_state-IsValid, moved,
}

-- The function of every task of the table is not NULL, and its saved context is the one that starts
-- it.
abbrev pub AtEntry : Kernel → Type 0
AtEntry k =
    (i : ℕ)
    → i < k.task_count
    → (k.contexts.objects i ≡ initial_context (k.tasks i).task_function)
      × (0 < (k.tasks i).task_function)

-- So it stays where the context and the function stay.
pub kept-AtEntry :
    {c c' : CpuContext} {f f' : ℕ}
    → c' ≡ c
    → f' ≡ f
    → (c ≡ initial_context f) × (0 < f)
    → (c' ≡ initial_context f') × (0 < f')
kept-AtEntry saved function e =
    (saved ∙ e.0 ∙ ap initial_context (sym function), omega (arith, function, e.1))

-- The kernel stays valid, tasks are only added, the current task stays the current one, no task
-- becomes RUNNING, and the tasks keep their priorities and their contexts.
pub record Progress (k k' : Kernel) : Type 0 where
  pub valid : IsValid k'
  pub count_le : k.task_count ≤ k'.task_count
  pub current : k'.current_task_index ≡ k.current_task_index
  pub running :
      (i : ℕ)
      → i < k'.task_count
      → is_running (k'.tasks i).state ≡ true
      → (i < k.task_count) × (is_running (k.tasks i).state ≡ true)
  pub priority : (i : ℕ) → i < k.task_count → (k'.tasks i).priority ≡ (k.tasks i).priority
  pub active : k'.contexts.active_context ≡ k.contexts.active_context
  pub saved : (i : ℕ) → i < k.task_count → k'.contexts.objects i ≡ k.contexts.objects i
  pub entry : AtEntry k → AtEntry k'

pub Progress-refl : {k : Kernel} → IsValid k → Progress k k
Progress-refl v = record {
  valid = v;
  count_le = omega arith;
  current = refl;
  running = λ i h e. (h, e);
  priority = λ i h. refl;
  active = refl;
  saved = λ i h. refl;
  entry = λ e. e;
}

pub Progress-trans : {k k' k'' : Kernel} → Progress k k' → Progress k' k'' → Progress k k''
Progress-trans p q = record {
  valid = q.valid;
  count_le = omega (arith, p.count_le, q.count_le);
  current = q.current ∙ p.current;
  running = λ i h e. let r = q.running i h e in p.running i r.0 r.1;
  priority = λ i h. q.priority i (omega (arith, p.count_le)) ∙ p.priority i h;
  active = q.active ∙ p.active;
  saved = λ i h. q.saved i (omega (arith, p.count_le)) ∙ p.saved i h;
  entry = λ e. q.entry (p.entry e);
}

moved_running :
    (state : TaskState) (reason : BlockReason) (t : Tcb)
    → is_running (moved state reason t).state ≡ is_running state
moved_running state reason t = ground arith

moved_priority :
    (state : TaskState) (reason : BlockReason) (t : Tcb)
    → (moved state reason t).priority ≡ t.priority
moved_priority state reason t = ground arith

pub moved_function :
    (state : TaskState) (reason : BlockReason) (t : Tcb)
    → (moved state reason t).task_function ≡ t.task_function
moved_function state reason t = ground arith

at-Progress :
    {k : Kernel} (i : ℕ) (state : TaskState) (reason : BlockReason)
    → IsValid k
    → i < k.task_count
    → is_running state ≡ false
    → Progress k (scheduler_set_task_state (pos i) state reason k)
at-Progress {k} i state reason v h quiet =
    let f = frame-set_task_state v i h state reason in
    let at = tasks-set_task_state v i h state reason in
    record {
      valid = set_task_state-IsValid v i h state reason;
      count_le = omega (arith, f.1);
      current = f.2;
      running = λ j p e. (
        omega (arith, f.1),
        ground (arith, at j, moved_running state reason (k.tasks i), ==_iff j i),
      );
      priority = λ j p. ground (arith, at j, moved_priority state reason (k.tasks i), ==_iff j i);
      active = ap (λ (c : Contexts). c.active_context) f.3;
      saved = λ j p. ap (λ (c : Contexts). c.objects j) f.3;
      entry = λ e j p.
          kept-AtEntry (ap (λ (c : Contexts). c.objects j) f.3)
            (ground (arith, at j, moved_function state reason (k.tasks i), ==_iff j i))
            (e j (omega (arith, f.1)));
    }

pub set_beyond :
    (k : Kernel) (i : ℕ) (state : TaskState) (reason : BlockReason)
    → ltb i k.task_count ≡ false
    → scheduler_set_task_state (pos i) state reason k ≡ k
unfolding scheduler_set_task_state
set_beyond k i state reason h = ground arith

-- Whatever index is given.
pub set_task_state-Progress :
    {k : Kernel} (c : ℤ) (state : TaskState) (reason : BlockReason)
    → IsValid k
    → is_running state ≡ false
    → Progress k (scheduler_set_task_state c state reason k)
set_task_state-Progress {k} (pos i) state reason v quiet = elim (Bool-cases (ltb i k.task_count)) [
  | inl h ↦ at-Progress i state reason v (ltb→lt i k.task_count h) quiet
  | inr h ↦ rw (set_beyond k i state reason h) (Progress-refl v)
]
set_task_state-Progress (negsuc n) state reason v quiet =
    unfold scheduler_set_task_state in Progress-refl v

pub set_current-Progress :
    {k : Kernel} (state : TaskState) (reason : BlockReason)
    → IsValid k
    → is_running state ≡ false
    → Progress k (scheduler_set_current_task_state state reason k)
unfolding scheduler_set_current_task_state
set_current-Progress {k} state reason v quiet =
    simp v.bound (set_task_state-Progress k.current_task_index state reason v quiet)

-- A change of the table alone that keeps states, identifiers, priorities and code.
pub retask-Progress :
    {k : Kernel} (tasks : ℕ → Tcb)
    → IsValid k
    → ((i : ℕ) → (tasks i).state ≡ (k.tasks i).state)
    → ((i : ℕ) → (tasks i).task_id ≡ (k.tasks i).task_id)
    → ((i : ℕ) → (tasks i).priority ≡ (k.tasks i).priority)
    → ((i : ℕ) → (tasks i).task_function ≡ (k.tasks i).task_function)
    → Progress k (record k { tasks = tasks })
retask-Progress tasks v states ids priorities functions = record {
  valid = retask-IsValid tasks v states ids;
  count_le = omega arith;
  current = refl;
  running = λ i h e. (h, sym (ap is_running (states i)) ∙ e);
  priority = λ i h. priorities i;
  active = refl;
  saved = λ i h. refl;
  entry = λ e i h. kept-AtEntry refl (functions i) (e i h);
}

-- A wake-up does not fault, and keeps all this.
pub unblock-Progress :
    {k : Kernel} (reason : BlockReason)
    → IsValid k
    → (k' : Kernel) × (scheduler_unblock_one reason k ≡ some k') × Progress k k'
unfolding scheduler_unblock_one
unblock-Progress {k} reason v =
    elim (Option-cases (unblock_scan k.task_count 0 none reason k.tasks)) [
      | inl e ↦ (k, ground (arith, v.bound, e), Progress-refl v)
      | inr (b, e) ↦ (
        scheduler_set_task_state (pos b) ready block_none k,
        ground (arith, v.bound, e),
        set_task_state-Progress (pos b) ready block_none v refl,
      )
    ]

-- A task runs: the kernel knows a current task.
abbrev pub InTask : Kernel → Type 0
InTask k = (i : ℕ) × (rtos_current_task k ≡ some i)

-- It stays so.
pub Progress-InTask : {k k' : Kernel} → Progress k k' → InTask k → InTask k'
unfolding rtos_current_task
Progress-InTask {k} {k'} p (i, e) = (i, split k.current_task_index refl e)
  where
    split :
        (c : ℤ)
        → k.current_task_index ≡ c
        → current_in c k.task_count ≡ some i
        → rtos_current_task k' ≡ some i
    split (pos n) q h = rw (p.current, q) (ground (arith, p.count_le))
    split (negsuc n) q h = absurd (ground arith)
