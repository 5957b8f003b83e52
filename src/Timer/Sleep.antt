-- ===== src/Timer/Sleep.antt =====
-- The countdown of sleeping tasks.
use mini_rtos_sim.Base.{
  ltb, leb, ◌==◌, if◌then◌else◌, ==_iff, Bool-cases, ltb_ℤ, pred_ℤ, pred_ℤ_pos, set, pos, ℕ, zero,
  suc, ◌+◌, ◌-◌, ◌≤◌, ◌<◌, ◌≡◌, refl, ap, ◌∙◌, inl, inr, true, not, ◌&&◌, arith,
}
use mini_rtos_sim.Task.{Tcb, ready, block_none, block_sleep, is_ready}
use mini_rtos_sim.Kernel.{Kernel, waits_for}
use mini_rtos_sim.Context.{Contexts}
use mini_rtos_sim.Kernel.Progress.{kept-AtEntry, Progress}
use mini_rtos_sim.Kernel.Invariant.{IsValid, retask-IsValid}
use mini_rtos_sim.Kernel.Transition.{
  tasks-set_task_state, frame-set_task_state, set_task_state-IsValid, moved,
}
use mini_rtos_sim.Timer.{sleep_round, sleep_loop, update_sleep}

-- A sleeping task after one tick: one tick less, or awake when that was the last.
abbrev pub ticked : Tcb → Tcb
ticked t =
    let left = pred_ℤ t.sleep_ticks in
    if not (waits_for block_sleep t)
    then t
    else if ltb_ℤ (pos 0) left
    then record t { sleep_ticks = left }
    else moved ready block_none (record t { sleep_ticks = left })

-- What a part of the update keeps.
pub record Kept (k k' : Kernel) : Type 0 where
  pub valid : IsValid k'
  pub count : k'.task_count ≡ k.task_count
  pub current : k'.current_task_index ≡ k.current_task_index
  pub contexts : k'.contexts ≡ k.contexts

module _ {k : Kernel} (v : IsValid k) (i : ℕ) (h : i < k.task_count) where
  abbrev pub counted : Kernel
  counted = record k {
    tasks = set k.tasks i (record (k.tasks i) { sleep_ticks = pred_ℤ (k.tasks i).sleep_ticks });
  }

  pub counted-IsValid : IsValid counted
  counted-IsValid =
      retask-IsValid counted.tasks v (λ j. ground (arith, ==_iff j i))
        (λ j. ground (arith, ==_iff j i))

  pub round-Kept : Kept k (sleep_round i k)
  unfolding sleep_round
  round-Kept = elim (Bool-cases (waits_for block_sleep (k.tasks i))) [
    | inr awake ↦ rw awake (record { valid = v; count = refl; current = refl; contexts = refl })
    | inl asleep ↦ elim (Bool-cases (ltb_ℤ (pos 0) (pred_ℤ (k.tasks i).sleep_ticks))) [
      | inl more ↦
          rw (asleep, more)
            (record { valid = counted-IsValid; count = refl; current = refl; contexts = refl })
      | inr over ↦
          let f = frame-set_task_state counted-IsValid i h ready block_none in
          rw (asleep, over)
            (record {
              valid = set_task_state-IsValid counted-IsValid i h ready block_none;
              count = f.1;
              current = f.2;
              contexts = f.3;
            })
    ]
  ]

  round-ticked :
      (j : ℕ) → (sleep_round i k).tasks j ≡ (if j == i then ticked (k.tasks i) else k.tasks j)
  unfolding sleep_round
  round-ticked j =
      ground (arith, tasks-set_task_state counted-IsValid i h ready block_none j, ==_iff j i)

-- The rounds before `i` and the round `i` together.
pub if-range {ℓ} :
    {A : Type ℓ} (f : A → A) (a : ℕ → A) (i n j : ℕ)
    → (if leb (suc i) j && ltb j (suc i + n)
        then f (if j == i then f (a i) else a j)
        else (if j == i then f (a i) else a j))
      ≡ (if leb i j && ltb j (i + suc n) then f (a j) else a j)
if-range f a i n j = elim (Bool-cases (j == i)) [
  | inl e ↦ let e' : j ≡ i = ground arith in rw e' (ground arith)
  | inr e ↦ ground arith
]

pub below {ℓ} :
    {A : Type ℓ} (f : A → A) (a : ℕ → A) (n j : ℕ)
    → j < n
    → (if leb 0 j && ltb j (0 + n) then f (a j) else a j) ≡ f (a j)
below f a n j h = ground arith

loop-ticked :
    (n i : ℕ) {k : Kernel}
    → IsValid k
    → i + n ≡ k.task_count
    → Kept k (sleep_loop n i k)
      × ((j : ℕ)
          → (sleep_loop n i k).tasks j
            ≡ (if leb i j && ltb j (i + n) then ticked (k.tasks j) else k.tasks j))
unfolding sleep_loop
loop-ticked zero i v e =
    (record { valid = v; count = refl; current = refl; contexts = refl }, λ j. ground arith)
loop-ticked (suc n) i {k} v e =
    let r = round-Kept v i (omega arith) in
    let (s, at) = loop-ticked n (suc i) r.valid (omega (arith, r.count)) in
    (
      record {
        valid = s.valid;
        count = s.count ∙ r.count;
        current = s.current ∙ r.current;
        contexts = s.contexts ∙ r.contexts;
      },
      λ j.
          at j
          ∙ ap (λ t. if leb (suc i) j && ltb j (suc i + n) then ticked t else t)
              (round-ticked v i (omega arith) j)
          ∙ if-range ticked k.tasks i n j,
    )

pub update_sleep_lem :
    {k : Kernel}
    → IsValid k
    → Kept k (update_sleep k)
      × ((j : ℕ) → j < k.task_count → (update_sleep k).tasks j ≡ ticked (k.tasks j))
unfolding update_sleep
update_sleep_lem {k} v =
    let (s, at) = loop-ticked k.task_count 0 v (omega arith) in
    simp v.bound (s, λ j h. at j ∙ below ticked k.tasks k.task_count j h)

-- So it keeps all that a kernel call keeps.
pub update_sleep-Progress : {k : Kernel} → IsValid k → Progress k (update_sleep k)
update_sleep-Progress {k} v =
    let (kept, at) = update_sleep_lem v in
    let same : (j : ℕ) → j < (update_sleep k).task_count → j < k.task_count =
      λ j h. omega (arith, kept.count) in
    record {
      valid = kept.valid;
      count_le = omega (arith, kept.count);
      current = kept.current;
      running = λ j h e. (same j h, ground (arith, at j (same j h), e));
      priority = λ j h. ground (arith, at j h);
      active = ap (λ (c : Contexts). c.active_context) kept.contexts;
      saved = λ j h. ap (λ (c : Contexts). c.objects j) kept.contexts;
      entry = λ e j h.
          kept-AtEntry (ap (λ (c : Contexts). c.objects j) kept.contexts)
            (ground (arith, at j (same j h))) (e j (same j h));
    }

-- `n` ticks.
unfoldable pub updates : ℕ → Kernel → Kernel
updates zero k = k
updates (suc n) k = updates n (update_sleep k)

-- Asleep for `ticks` more ticks.
abbrev pub Asleep : Tcb → ℕ → Type 0
Asleep t ticks = (waits_for block_sleep t ≡ true) × (t.sleep_ticks ≡ pos ticks)

pred_last : pred_ℤ (pos 1) ≡ pos 0
pred_last = pred_ℤ_pos 0

pub Asleep-ticked : (t : Tcb) (n : ℕ) → Asleep t (suc (suc n)) → Asleep (ticked t) (suc n)
unfolding waits_for
Asleep-ticked t n (w, e) =
    let left : pred_ℤ t.sleep_ticks ≡ pos (suc n) = rw e (pred_ℤ_pos (suc n)) in
    let more : ltb_ℤ (pos 0) (pred_ℤ t.sleep_ticks) ≡ true = rw left (ground arith) in
    let kept : ticked t ≡ record t { sleep_ticks = pred_ℤ t.sleep_ticks } = simp (w, more) in
    rw kept (w, left)

pub wakes-ticked : (t : Tcb) → Asleep t 1 → is_ready (ticked t).state ≡ true
wakes-ticked t (w, e) = let left : pred_ℤ t.sleep_ticks ≡ pos 0 = rw e pred_last in simp (w, left)

-- From a valid kernel, a task of the table that is asleep for `n + 1` ticks sleeps through the
-- first `n` updates, with one tick less after each, and is READY after the next one.
pub sleep_exact :
    (n : ℕ) {k : Kernel} (i : ℕ)
    → IsValid k
    → i < k.task_count
    → Asleep (k.tasks i) (suc n)
    → ((m : ℕ) → m ≤ n → Asleep ((updates m k).tasks i) (suc n - m))
      × (is_ready ((updates (suc n) k).tasks i).state ≡ true)
unfolding updates
sleep_exact zero {k} i v h a =
    let (s, at) = update_sleep_lem v in (now, rw (at i h) (wakes-ticked (k.tasks i) a))
  where
    now : (m : ℕ) → m ≤ 0 → Asleep ((updates m k).tasks i) (1 - m)
    now zero p = a
    now (suc m) p = absurd (omega arith)
sleep_exact (suc n) {k} i v h a =
    let (s, at) = update_sleep_lem v in
    let a' : Asleep ((update_sleep k).tasks i) (suc n) =
      rw (at i h) (Asleep-ticked (k.tasks i) n a) in
    let (during, wakes) = sleep_exact n i s.valid (omega (arith, s.count)) a' in
    (later during, wakes)
  where
    later :
        ((m : ℕ) → m ≤ n → Asleep ((updates m (update_sleep k)).tasks i) (suc n - m))
        → (m : ℕ) → m ≤ suc n
        → Asleep ((updates m k).tasks i) (suc (suc n) - m)
    later d zero p = let e : suc (suc n) - 0 ≡ suc (suc n) = omega arith in rw e a
    later d (suc m) p =
        let e : suc (suc n) - suc m ≡ suc n - m = omega arith in rw e (d m (omega arith))
