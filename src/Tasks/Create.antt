-- ===== src/Tasks/Create.antt =====
-- `rtos_create_task` and `task_index_from_id`.
use mini_rtos_sim.Base.{
  ==_refl, ==_ne, ltb, leb, ◌==◌, if◌then◌else◌, lt→leb, Bool-cases, minus_one, eqb_ℤ, eqb→eq, ℤ,
  set, has, erase_absent, pos, ℕ, zero, suc, ◌+◌, ◌%◌, ◌^◌, ◌≤◌, ◌<◌, ◌≡◌, refl, ap, ◌∙◌, inl, inr,
  true, false, ◌&&◌, some, [], ◌∷◌, ◌++◌, arith,
}
use Prim.Native.String.{String}
use mini_rtos_sim.Task.{Tcb, ready, block_none, is_ready, max_tasks, stack_words}
use mini_rtos_sim.Ready.{entries}
use mini_rtos_sim.Context.{Contexts, object, context_init}
use mini_rtos_sim.Kernel.{Kernel, scheduler_set_task_state}
use mini_rtos_sim.Kernel.Invariant.{IsValid}
use mini_rtos_sim.Kernel.Transition.{
  entries-set_task_state, tasks-set_task_state, frame-set_task_state, set_task_state-IsValid, moved,
}
use mini_rtos_sim.Tasks.{index_loop, task_index_from_id, zero_stack, new_task, rtos_create_task}

-- The search runs up to the index whose task has the identifier.
index_loop-found :
    (n i j : ℕ) (tasks : ℕ → Tcb)
    → ((m : ℕ) → i ≤ m → m < i + n → (tasks m).task_id ≡ suc m)
    → i ≤ j
    → j < i + n
    → index_loop n i (pos (suc j)) tasks ≡ some j
unfolding index_loop
index_loop-found zero i j tasks h p q = absurd (omega arith)
index_loop-found (suc n) i j tasks h p q =
    let id = h i (omega arith) (omega arith) in
    elim (Bool-cases (i == j)) [
      | inl e ↦ let e' : i ≡ j = ground arith in rw e' (ground (arith, rw e' at id))
      | inr e ↦ ground (
        arith,
        id,
        index_loop-found n (suc i) j tasks (λ m a b. h m (omega arith) (omega arith)) (ground arith)
            (omega arith),
      )
    ]

-- In a valid kernel the identifier `j + 1` names the task at index `j`, for each task of the table.
pub task_index_from_id_lem :
    {k : Kernel} (j : ℕ)
    → IsValid k
    → j < k.task_count
    → task_index_from_id (pos (suc j)) k ≡ some j
unfolding task_index_from_id
task_index_from_id_lem {k} j v h =
    index_loop-found k.task_count 0 j k.tasks (λ m a b. v.numbered m (omega arith)) (omega arith)
      (omega arith)

-- A search that succeeds names an index of the table that has the identifier.
index_loop_sound :
    (n i j : ℕ) (id : ℤ) (tasks : ℕ → Tcb)
    → index_loop n i id tasks ≡ some j
    → (j < i + n) × (pos (tasks j).task_id ≡ id)
unfolding index_loop
index_loop_sound zero i j id tasks e = absurd (ground arith)
index_loop_sound (suc n) i j id tasks e = elim (Bool-cases (eqb_ℤ (pos (tasks i).task_id) id)) [
  | inl hit ↦
      let same : i ≡ j = ground (arith, hit) in
      rw (← same) (omega arith, eqb→eq (pos (tasks i).task_id) id hit)
  | inr miss ↦ let r = index_loop_sound n (suc i) j id tasks (rw miss at e) in (omega arith, r.1)
]

pub task_index_from_id_sound :
    (k : Kernel) (j : ℕ) (id : ℤ)
    → task_index_from_id id k ≡ some j
    → (j < k.task_count) × (pos (k.tasks j).task_id ≡ id)
unfolding task_index_from_id
task_index_from_id_sound k j id e =
    let r = index_loop_sound k.task_count 0 j id k.tasks e in (omega arith, r.1)

zero_stack_lem :
    (n i j : ℕ) (memory : ℕ → ℕ)
    → zero_stack n i memory j ≡ (if leb i j && ltb j (i + n) then 0 else memory j)
unfolding zero_stack
zero_stack_lem zero i j memory = ground arith
zero_stack_lem (suc n) i j memory = ground (arith, zero_stack_lem n (suc i) j (set memory i 0))

module _ {k : Kernel} (v : IsValid k) (name : String) (priority : ℤ) (task_function : ℕ) where
  abbrev pub entered : Kernel
  entered = record k {
    tasks =
        set k.tasks k.task_count
          (new_task k.task_count name priority task_function (k.tasks k.task_count));
    contexts = context_init (object k.task_count) task_function k.contexts;
    task_count = suc k.task_count;
  }

  not_queued : has k.task_count (entries k.queue) ≡ false
  not_queued = ground (arith, v.queued.exact k.task_count)

  pub entered-IsValid : k.task_count < max_tasks → IsValid entered
  unfolding new_task
  entered-IsValid h = record {
    bound = v.bound;
    count_le = h;
    current_lt = omega (arith, v.current_lt);
    numbered = λ i p. ground (arith, v.numbered i);
    queued = record { exact = λ i. ground (arith, v.queued.exact i); distinct = v.queued.distinct };
  }

  -- From a valid kernel with room in the table, `rtos_create_task` returns the identifier after
  -- the last one, and leaves a valid kernel with one task more. The new task is READY, at the
  -- end of the queue, with the priority and code given, and an empty stack of zeros. Its saved
  -- registers are 0, but for the link register 0xFFFFFFFD, the status register 0x01000000, and the
  -- program counter, which has the low 32 bits of the address of its code. No task that was there
  -- changes, nor do its saved registers or the live ones.
  pub create_task_lem :
      k.task_count < max_tasks
      → let (id, k') = rtos_create_task name priority task_function k in
        let t = k'.tasks k.task_count in
        (id ≡ pos (suc k.task_count))
        × IsValid k'
        × (k'.task_count ≡ suc k.task_count)
        × (entries k'.queue ≡ entries k.queue ++ (k.task_count ∷ []))
        × ((j : ℕ) → j < k.task_count → k'.tasks j ≡ k.tasks j)
        × (is_ready t.state ≡ true)
        × (t.priority ≡ priority)
        × (t.task_function ≡ task_function)
        × ((j : ℕ) → j < stack_words → t.stack_memory j ≡ 0)
        × (t.stack_pointer ≡ stack_words)
        × (k'.contexts.objects k.task_count ≡ record {
          r0 = 0;
          r1 = 0;
          r2 = 0;
          r3 = 0;
          r4 = 0;
          r5 = 0;
          r6 = 0;
          r7 = 0;
          r8 = 0;
          r9 = 0;
          r10 = 0;
          r11 = 0;
          r12 = 0;
          lr = 0xFFFFFFFD;
          pc = task_function % 2 ^ 32;
          xpsr = 0x01000000;
        })
        × ((j : ℕ) → j < k.task_count → k'.contexts.objects j ≡ k.contexts.objects j)
        × (k'.contexts.active_context ≡ k.contexts.active_context)
  unfolding rtos_create_task context_init
  create_task_lem h =
      let e = entered-IsValid h in
      let n = k.task_count in
      let at = tasks-set_task_state e n (omega arith) ready block_none in
      let f = frame-set_task_state e n (omega arith) ready block_none in
      let made = new_task n name priority task_function (k.tasks n) in
      let self : (scheduler_set_task_state (pos n) ready block_none entered).tasks n
          ≡ moved ready block_none made =
        ground (arith, at n) in
      rw (lt→leb n max_tasks h) (
        refl,
        set_task_state-IsValid e n (omega arith) ready block_none,
        f.1,
        entries-set_task_state e n (omega arith) ready block_none
            ∙ ap (λ xs. xs ++ (n ∷ [])) (erase_absent n (entries k.queue) not_queued),
        (λ j p. ground (arith, at j)),
        ap (λ (t : Tcb). is_ready t.state) self,
        ap (λ (t : Tcb). t.priority) self,
        ap (λ (t : Tcb). t.task_function) self,
        (λ j p.
            ap (λ (t : Tcb). t.stack_memory j) self
            ∙ ground (arith, zero_stack_lem stack_words 0 j (k.tasks n).stack_memory)),
        ap (λ (t : Tcb). t.stack_pointer) self,
        ap (λ (c : Contexts). c.objects n) f.3 ∙ (rw (==_refl n) refl),
        (λ j p. ap (λ (c : Contexts). c.objects j) f.3 ∙ (rw (==_ne j n (omega arith)) refl)),
        ap (λ (c : Contexts). c.active_context) f.3,
      )

  -- With a full table it returns -1 and changes nothing.
  pub create_task_full :
      max_tasks ≤ k.task_count → rtos_create_task name priority task_function k ≡ (minus_one, k)
  unfolding rtos_create_task
  create_task_full h = ground arith
