-- ===== src/Scheduler/Chain.antt =====
-- A callback that starts another software timer.
use mini_rtos_sim.Base.{
  ltb, leb, ◌==◌, if◌then◌else◌, ==_iff, ==_refl, ==_ne, Bool-cases, ℕ, zero, suc, ◌+◌, ◌-◌, ◌≤◌,
  ◌<◌, ◌≡◌, refl, sym, ◌∙◌, subst, ◌≢◌, inl, inr, true, false, ◌&&◌, some, arith,
}
use mini_rtos_sim.Timer.{one_shot, put, soft_timer_count, timer_soft_start}
use mini_rtos_sim.Sync.{bind-some}
use mini_rtos_sim.Run.{World, Image, call, done, soft_start}
use mini_rtos_sim.Run.Exec.{exec_op, exec}
use mini_rtos_sim.Scheduler.{armed, countdown, rearm, soft_round, soft_loop, timer_update_soft}

-- Only the timer in the slot `i` is armed; it is one-shot and due, and its callback just starts the
-- timer in the slot `j`, which is in use and has a period of at least two ticks.
pub record Chained (image : Image) (i j : ℕ) (w : World) : Type 0 where
  pub i_lt : i < soft_timer_count
  pub j_lt : j < soft_timer_count
  pub apart : i ≢ j
  pub on : armed (w.timer.soft_timers i) ≡ true
  pub mode : (w.timer.soft_timers i).mode ≡ one_shot
  pub last : (w.timer.soft_timers i).remaining ≡ 1
  pub callback : (w.timer.soft_timers i).callback ≢ 0
  pub code :
      image.callback_code (w.timer.soft_timers i).callback (w.timer.soft_timers i).arg
      ≡ call (soft_start (some j)) λ r. done
  pub used : (w.timer.soft_timers j).in_use ≡ true
  pub period : 2 ≤ (w.timer.soft_timers j).period_ticks
  pub others : (s : ℕ) → s ≢ i → armed (w.timer.soft_timers s) ≡ false

-- Only the timer in the slot `j` is armed, with so many ticks to go.
abbrev pub Only : ℕ → ℕ → World → Type 0
Only j ticks w =
    (armed (w.timer.soft_timers j) ≡ true)
    × ((w.timer.soft_timers j).remaining ≡ ticks)
    × ((s : ℕ) → s ≢ j → armed (w.timer.soft_timers s) ≡ false)

-- The rounds from `s` on count it down if they reach it.
sole_loop :
    (image : Image) (j ticks n s : ℕ) (w : World)
    → 2 ≤ ticks
    → Only j ticks w
    → (w' : World) × (soft_loop image n s w ≡ some w')
      × Only j (if leb s j && ltb j (s + n) then ticks - 1 else ticks) w'
unfolding soft_loop soft_round
sole_loop image j ticks zero s w h o =
    let out : (leb s j && ltb j (s + 0)) ≡ false = ground arith in (w, refl, rw out o)
sole_loop image j ticks (suc n) s w h o = elim (Bool-cases (s == j)) [
  | inl e ↦
      let same : s ≡ j = (==_iff s j).0 e in
      let inside : (leb s j && ltb j (s + suc n)) ≡ true = ground arith in
      let t = w.timer.soft_timers j in
      let w1 = record w { timer = put w.timer j (countdown t) } in
      let more : (t.remaining - 1 == 0) ≡ false = ground (arith, o.1) in
      let ran : soft_round image j w ≡ some w1 = unfold soft_round in rw (o.0, more) refl in
      let o1 : Only j (ticks - 1) w1 = (
        rw (==_refl j) o.0,
        rw (==_refl j) (omega (arith, o.1)),
        λ x ne. rw (==_ne x j ne) (o.2 x ne),
      ) in
      let past : (leb (suc s) j && ltb j (suc s + n)) ≡ false = ground arith in
      let (w2, e2, o2) = passed image j (ticks - 1) n (suc s) w1 (omega arith) o1 in
      rw inside
        (w2, bind-some _ w1 (subst (λ x. soft_round image x w ≡ some w1) (sym same) ran) ∙ e2, o2)
  | inr e ↦
      let idle : soft_round image s w ≡ some w = rw (o.2 s (ground (arith, e))) refl in
      let (w', e', o') = sole_loop image j ticks n (suc s) w h o in
      let same : (leb s j && ltb j (s + suc n)) ≡ (leb (suc s) j && ltb j (suc s + n)) =
        ground (arith, e) in
      (w', bind-some _ w idle ∙ e', rw same o')
]
  where
    passed :
        (image : Image) (j ticks n s : ℕ) (w : World)
        → j < s
        → Only j ticks w
        → (w' : World) × (soft_loop image n s w ≡ some w') × Only j ticks w'
    passed image j ticks zero s w h o = (w, refl, o)
    passed image j ticks (suc n) s w h o =
        let ne : s ≢ j = λ e. absurd (omega (arith, e)) in
        let idle : soft_round image s w ≡ some w = rw (o.2 s ne) refl in
        let (w', e', o') = passed image j ticks n (suc s) w (omega arith) o in
        (w', bind-some _ w idle ∙ e', o')

module _ (image : Image) (i j : ℕ) where
  chain_round :
      (w : World)
      → Chained image i j w
      → (w' : World) × (soft_round image i w ≡ some w')
        × Only j (w.timer.soft_timers j).period_ticks w'
  unfolding soft_round exec exec_op timer_soft_start
  chain_round w c =
      let t = w.timer.soft_timers i in
      let b = w.timer.soft_timers j in
      let counted = record w { timer = put w.timer i (countdown t) } in
      let apart : (j == i) ≡ false = ==_ne j i (λ e. c.apart (sym e)) in
      let apart' : (i == j) ≡ false = ==_ne i j c.apart in
      let running = record b { remaining = b.period_ticks; active = true } in
      let after = record counted { timer = put counted.timer j running } in
      let ran : exec image (call (soft_start (some j)) λ r. done) counted ≡ some after =
        rw apart (rw c.used refl) in
      let now : (t.remaining - 1 == 0) ≡ true = ground (arith, c.last) in
      let real : (t.callback == 0) ≡ false = ==_ne t.callback 0 c.callback in
      let w' = record after { timer = put after.timer i (rearm (after.timer.soft_timers i)) } in
      (
        w',
        rw (c.on, now, real)
            (bind-some _ after (subst (λ p. exec image p counted ≡ some after) (sym c.code) ran)),
        (
          rw (apart, ==_refl j) (rw c.used refl),
          rw (apart, ==_refl j) refl,
          λ s ne. elim (Bool-cases (s == i)) [
            | inl e ↦ rw (e, apart', ==_refl i) (rw c.mode (ground arith))
            | inr e ↦ rw (e, ==_ne s j ne) (c.others s (ground (arith, e)))
          ],
        ),
      )

  chain_loop :
      (n s : ℕ) (w : World)
      → s ≤ i
      → i < s + n
      → j < s + n
      → Chained image i j w
      → let p = (w.timer.soft_timers j).period_ticks in
        (w' : World) × (soft_loop image n s w ≡ some w') × Only j (if ltb i j then p - 1 else p) w'
  unfolding soft_loop
  chain_loop zero s w low high end c = absurd (omega arith)
  chain_loop (suc n) s w low high end c = elim (Bool-cases (s == i)) [
    | inl e ↦
        let same : i ≡ s = ground (arith, e) in
        let (w1, e1, o) = chain_round w c in
        let (w2, e2, o2) =
          sole_loop image j (w.timer.soft_timers j).period_ticks n (suc s) w1 c.period o in
        let reached : (leb (suc s) j && ltb j (suc s + n)) ≡ ltb i j = ground (arith, same, end) in
        (
          w2,
          bind-some _ w1 (subst (λ x. soft_round image x w ≡ some w1) same e1) ∙ e2,
          rw reached at o2,
        )
    | inr e ↦
        let idle : soft_round image s w ≡ some w =
          unfold soft_round in rw (c.others s (ground (arith, e))) refl in
        let (w', e', o) =
          chain_loop n (suc s) w (ground (arith, e)) (omega arith) (omega arith) c in
        (w', bind-some _ w idle ∙ e', o)
  ]

  -- The order of the slots: let one one-shot timer be armed and due, and let its callback just start
  -- another timer, with a period of at least two ticks. Then the update of the software timers does
  -- not fault, and afterwards just the other timer is armed. If its slot comes before that of the
  -- first one it has its whole period to go; if it comes behind, the same update has already taken
  -- one tick off.
  pub started_early :
      (w : World)
      → Chained image i j w
      → let p = (w.timer.soft_timers j).period_ticks in
        (w' : World) × (timer_update_soft image w ≡ some w')
        × Only j (if ltb i j then p - 1 else p) w'
  unfolding timer_update_soft
  started_early w c =
      chain_loop soft_timer_count 0 w (omega arith) (omega (arith, c.i_lt)) (omega (arith, c.j_lt))
        c
