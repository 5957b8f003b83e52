-- ===== src/Context/Switch.antt =====
-- What a context switch saves, loads and leaves alone.
use mini_rtos_sim.Base.{ℕ, ◌≡◌, ◌≢◌, arith}
use mini_rtos_sim.Context.{
  load, context_active, CpuContext, Contexts, object, context_save, context_restore, context_switch,
}

-- After `context_switch(a, b)` of two different objects, the object `a` holds the registers
-- that were live, the live registers are those that `b` held, and every object but `a` is as it
-- was.
pub context_switch_lem :
    (a b : ℕ) (m : Contexts)
    → a ≢ b
    → let m' = context_switch (object a) (object b) m in
      (m'.objects a ≡ m.active_context)
      × (m'.active_context ≡ m.objects b)
      × ((c : ℕ) → c ≢ a → m'.objects c ≡ m.objects c)
unfolding context_switch
context_switch_lem a b m h = (ground arith, ground arith, λ c p. ground arith)

-- For two different objects, switching from `a` to `b` and back resumes `a` exactly: the live
-- registers are again those of before, also when `b` has changed its live registers to `work`
-- meanwhile, which the object `b` then holds. The live registers are those that
-- `context_active()` points at.
pub context_switch_resumes :
    (a b : ℕ) (m : Contexts) (work : CpuContext)
    → a ≢ b
    → let live = record (context_switch (object a) (object b) m) { active_context = work } in
      let m' = context_switch (object b) (object a) live in
      (load m' context_active ≡ load m context_active) × (m'.objects b ≡ work)
unfolding context_switch
context_switch_resumes a b m work h = (ground arith, ground arith)

-- Saving the live registers in an object and restoring from it changes nothing but that object.
pub context_restore-save :
    (a : ℕ) (m : Contexts)
    → (context_restore (object a) (context_save (object a) m)).active_context ≡ m.active_context
unfolding context_restore context_save
context_restore-save a m = ground arith
