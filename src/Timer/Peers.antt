-- ===== src/Timer/Peers.antt =====
-- The update of the sleepers, and a group of tasks that do not sleep.
use mini_rtos_sim.Base.{
  ◌==◌, ==_iff, Bool-cases, ltb_ℤ, pred_ℤ, pos, ℕ, zero, suc, ◌+◌, ◌<◌, ◌≡◌, refl, ap, inl, inr,
  Bool, true, false, arith,
}
use mini_rtos_sim.Task.{ready, block_none, block_sleep}
use mini_rtos_sim.Kernel.{Kernel, waits_for}
use mini_rtos_sim.Kernel.Invariant.{IsValid}
use mini_rtos_sim.Kernel.Peers.{
  Undisturbed, Unblocked, Undisturbed-refl, Undisturbed-trans, Undisturbed-Unblocked,
  set-Undisturbed,
}
use mini_rtos_sim.Timer.{sleep_round, sleep_loop, update_sleep}
use mini_rtos_sim.Timer.Sleep.{counted, counted-IsValid, round-Kept}

sleeper_outside :
    (group : ℕ → Bool) (k : Kernel) (i : ℕ)
    → Unblocked group k
    → i < k.task_count
    → waits_for block_sleep (k.tasks i) ≡ true
    → group i ≡ false
unfolding waits_for
sleeper_outside group k i u h e = elim (Bool-cases (group i)) [
  | inl g ↦ ground (arith, u i h g, e)
  | inr out ↦ out
]

counted-Undisturbed :
    (group : ℕ → Bool) {k : Kernel} (v : IsValid k) (i : ℕ) (h : i < k.task_count)
    → group i ≡ false
    → Undisturbed group k (counted v i h)
counted-Undisturbed group {k} v i h out = record {
  queue = refl;
  peers = λ j g. elim (Bool-cases (j == i)) [
    | inl e ↦ absurd (cc (g, out, ap group ((==_iff j i).0 e)))
    | inr e ↦ rw e refl
  ];
  count = refl;
  priority = λ j. ground (arith, ==_iff j i);
}

sleep_round-Undisturbed :
    (group : ℕ → Bool) {k : Kernel} (v : IsValid k) (i : ℕ) (h : i < k.task_count)
    → Unblocked group k
    → Undisturbed group k (sleep_round i k)
unfolding sleep_round
sleep_round-Undisturbed group {k} v i h u = elim (Bool-cases (waits_for block_sleep (k.tasks i))) [
  | inr awake ↦ rw awake (Undisturbed-refl group k)
  | inl asleep ↦
      let out = sleeper_outside group k i u h asleep in
      let c = counted-Undisturbed group v i h out in
      elim (Bool-cases (ltb_ℤ (pos 0) (pred_ℤ (k.tasks i).sleep_ticks))) [
        | inl more ↦ rw (asleep, more) c
        | inr over ↦
            rw (asleep, over)
              (Undisturbed-trans group k (counted v i h) _ c
                (set-Undisturbed group i ready block_none (counted-IsValid v i h) h out))
      ]
]

sleep_loop-Undisturbed :
    (group : ℕ → Bool) (n i : ℕ) {k : Kernel}
    → IsValid k
    → i + n ≡ k.task_count
    → Unblocked group k
    → Undisturbed group k (sleep_loop n i k)
unfolding sleep_loop
sleep_loop-Undisturbed group zero i {k} v e u = Undisturbed-refl group k
sleep_loop-Undisturbed group (suc n) i {k} v e u =
    let h : i < k.task_count = omega arith in
    let r = round-Kept v i h in
    let q = sleep_round-Undisturbed group v i h u in
    Undisturbed-trans group k (sleep_round i k) _ q (
      sleep_loop-Undisturbed group n (suc i) r.valid (omega (arith, r.count))
        (Undisturbed-Unblocked group k (sleep_round i k) q u))

pub update_sleep-Undisturbed :
    (group : ℕ → Bool) {k : Kernel}
    → IsValid k
    → Unblocked group k
    → Undisturbed group k (update_sleep k)
unfolding update_sleep
update_sleep-Undisturbed group {k} v u =
    simp v.bound (sleep_loop-Undisturbed group k.task_count 0 v (omega arith) u)
