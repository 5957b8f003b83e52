-- ===== src/Ready/Remove.antt =====
-- The array operations against the list of queued indices.
use mini_rtos_sim.Base.{
  ℕ, zero, suc, ◌+◌, ◌-◌, ◌<◌, ◌≡◌, refl, ap, ap₂, ◌∙◌, inl, inr, false, [], ◌∷◌, ◌++◌, arith, set,
  window, window_cong, window-set_end, length, length-window, ◌==◌, has, erase, Bool-cases,
}
use mini_rtos_sim.Task.{max_tasks}
use mini_rtos_sim.Ready.{
  ReadyQueue, entries, contains_loop, ready_queue_contains, shift, remove_loop, ready_queue_remove,
  ready_queue_pop, append_entry,
}

contains_loop-has :
    (n i x : ℕ) (slots : ℕ → ℕ) → contains_loop n i slots x ≡ has x (window slots i n)
unfolding contains_loop
contains_loop-has zero i x slots = refl
contains_loop-has (suc n) i x slots = ground (arith, contains_loop-has n (suc i) x slots)

pub contains-has : (q : ReadyQueue) (x : ℕ) → ready_queue_contains q x ≡ has x (entries q)
unfolding ready_queue_contains
contains-has q x = contains_loop-has q.count 0 x q.slots

-- The shift leaves what stands before `j`,
shift_before : (n j k : ℕ) (slots : ℕ → ℕ) → k < j → shift n j slots k ≡ slots k
unfolding shift
shift_before zero j k slots h = refl
shift_before (suc n) j k slots h =
    ground (arith, shift_before n (suc j) k (set slots j (slots (suc j))))

-- and moves the `n` elements behind `j` down by one.
window-shift : (n j : ℕ) (slots : ℕ → ℕ) → window (shift n j slots) j n ≡ window slots (suc j) n
unfolding shift
window-shift zero j slots = refl
window-shift (suc n) j slots =
    let slots' = set slots j (slots (suc j)) in
    ap₂ ◌∷◌ (ground (arith, shift_before n (suc j) j slots')) (
      window-shift n (suc j) slots'
      ∙ window_cong slots' slots (suc (suc j)) n λ k p q. ground arith)

-- The loop from position `i` on erases the first occurrence in the rest of the queue.
record Removed (q q' : ReadyQueue) (x i n : ℕ) : Type 0 where
  count : q'.count ≡ i + length (erase x (window q.slots i n))
  before : (k : ℕ) → k < i → q'.slots k ≡ q.slots k
  rest : window q'.slots i (length (erase x (window q.slots i n))) ≡ erase x (window q.slots i n)

remove_loop-Removed :
    (n i x : ℕ) (q : ReadyQueue) → i + n ≡ q.count → Removed q (remove_loop n i x q) x i n
unfolding remove_loop
remove_loop-Removed zero i x q h = record { count = omega arith; before = λ k p. refl; rest = refl }
remove_loop-Removed (suc n) i x q h = elim (Bool-cases (q.slots i == x)) [
  | inl e ↦
      let erased : erase x (window q.slots i (suc n)) ≡ window q.slots (suc i) n = rw e in
      let len : length (window q.slots (suc i) n) ≡ n = length-window q.slots (suc i) n in
      let left : q.count - 1 - i ≡ n = omega arith in
      rw e (record {
        count = rw erased (omega arith);
        before = λ k p. shift_before (q.count - 1 - i) i k q.slots p;
        rest = rw (erased, len, left) (window-shift n i q.slots);
      })
  | inr e ↦
      let r = remove_loop-Removed n (suc i) x q (omega arith) in
      let kept : erase x (window q.slots i (suc n))
          ≡ q.slots i ∷ erase x (window q.slots (suc i) n) =
        rw e in
      rw e (record {
        count = rw kept (omega (arith, r.count));
        before = λ k p. r.before k (omega arith);
        rest = rw kept (ap₂ ◌∷◌ (r.before i (omega arith)) r.rest);
      })
]

-- Removing an index erases its first occurrence in the list of queued indices, and keeps the
-- order of the others; an index that is not queued changes nothing.
pub entries-remove :
    (x : ℕ) (q : ReadyQueue) → entries (ready_queue_remove x q) ≡ erase x (entries q)
unfolding ready_queue_remove
entries-remove x q =
    let r = remove_loop-Removed q.count 0 x q (omega arith) in
    ap (window (ready_queue_remove x q).slots 0) (omega (arith, r.count)) ∙ r.rest

pub entries-pop : (x : ℕ) (q : ReadyQueue) → entries (ready_queue_pop x q) ≡ erase x (entries q)
unfolding ready_queue_pop
entries-pop x q = entries-remove x q

-- An index that is not queued goes to the end, if there is room.
pub entries-append :
    (x : ℕ) (q : ReadyQueue)
    → has x (entries q) ≡ false
    → q.count < max_tasks
    → entries (append_entry x q) ≡ entries q ++ (x ∷ [])
unfolding append_entry
entries-append x q h room =
    ground (arith, contains-has q x, window-set_end q.slots 0 q.count q.count x (omega arith))
