-- ===== src/Context.antt =====
-- src/context.c and include/context.h: the simulated registers, and copying them between objects.
-- Every CPUContext object has a place in `Contexts`, so that a call may alias its arguments.
pub mod Switch
use mini_rtos_sim.Base.{ℕ, ◌%◌, ◌^◌, ◌||◌, Bool, true, false, set, if◌then◌else◌}

pub record CpuContext : Type 0 where
  pub r0 : ℕ
  pub r1 : ℕ
  pub r2 : ℕ
  pub r3 : ℕ
  pub r4 : ℕ
  pub r5 : ℕ
  pub r6 : ℕ
  pub r7 : ℕ
  pub r8 : ℕ
  pub r9 : ℕ
  pub r10 : ℕ
  pub r11 : ℕ
  pub r12 : ℕ
  pub lr : ℕ
  pub pc : ℕ
  pub xpsr : ℕ

-- A `CPUContext *`: NULL, `&active_context`, or the object number `i`, which is
-- `&task_list[i].context` for an index of the task table.
pub data ContextPtr : Type 0 where
  null : ContextPtr
  active : ContextPtr
  object : ℕ → ContextPtr

pub record Contexts : Type 0 where
  pub active_context : CpuContext
  pub objects : ℕ → CpuContext

abbrev pub context_initial_xpsr : ℕ
context_initial_xpsr = 0x01000000

abbrev pub context_initial_lr : ℕ
context_initial_lr = 0xFFFFFFFD

abbrev pub is_null : ContextPtr → Bool
is_null null = true
is_null active = false
is_null (object i) = false

-- `*p`; NULL is never read, since each function below tests for it.
abbrev pub load : Contexts → ContextPtr → CpuContext
load m null = m.active_context
load m active = m.active_context
load m (object i) = m.objects i

-- `*p = c`
abbrev pub store : Contexts → ContextPtr → CpuContext → Contexts
store m null c = m
store m active c = record m { active_context = c }
store m (object i) c = record m { objects = set m.objects i c }

abbrev pub context_clear : CpuContext
context_clear = record {
  r0 = 0;
  r1 = 0;
  r2 = 0;
  r3 = 0;
  r4 = 0;
  r5 = 0;
  r6 = 0;
  r7 = 0;
  r8 = 0;
  r9 = 0;
  r10 = 0;
  r11 = 0;
  r12 = 0;
  lr = 0;
  pc = 0;
  xpsr = 0;
}

-- What `context_init` stores. `entry_point` is an address; the program counter keeps its low 32 bits.
abbrev pub initial_context : ℕ → CpuContext
initial_context entry_point = record context_clear {
  lr = context_initial_lr;
  pc = entry_point % 2 ^ 32;
  xpsr = context_initial_xpsr;
}

unfoldable pub context_init : ContextPtr → ℕ → Contexts → Contexts
context_init context entry_point m =
    if is_null context
    then m
    else store m context (record context_clear {
      lr = context_initial_lr;
      pc = entry_point % 2 ^ 32;
      xpsr = context_initial_xpsr;
    })

unfoldable pub context_copy : ContextPtr → ContextPtr → Contexts → Contexts
context_copy destination source m =
    if is_null destination || is_null source then m else store m destination (load m source)

unfoldable pub context_save : ContextPtr → Contexts → Contexts
unfolding context_copy
context_save destination m = if is_null destination then m else context_copy destination active m

unfoldable pub context_restore : ContextPtr → Contexts → Contexts
unfolding context_copy
context_restore source m = if is_null source then m else context_copy active source m

abbrev pub context_active : ContextPtr
context_active = active

-- Phase 1 saves the live registers in `outgoing`, phase 2 loads those of `incoming`.
unfoldable pub context_switch : ContextPtr → ContextPtr → Contexts → Contexts
unfolding context_copy
context_switch outgoing incoming m =
    if is_null outgoing || is_null incoming
    then m
    else context_copy active incoming (context_copy outgoing active m)
