-- ===== src/Tests/Kernels.antt =====
-- Tasks, the ready queue and contexts at concrete inputs.
use mini_rtos_sim.Base.{
  erase, pos, ℕ, suc, ◌+◌, ◌%◌, ◌^◌, ◌<◌, ◌≡◌, ◌≢◌, true, false, [], ◌∷◌, ◌++◌, arith,
}
use mini_rtos_sim.Tests.Worlds.{
  three, three-IsValid, three_count, below_three, asleep, asleep-IsValid,
}
use mini_rtos_sim.Task.{suspended, block_none, block_sleep, is_ready, is_suspended, stack_words}
use mini_rtos_sim.Ready.{ReadyQueue, entries, ready_queue_remove, ready_queue_peek_highest_priority}
use mini_rtos_sim.Ready.Remove.{entries-remove}
use mini_rtos_sim.Ready.Peek.{first_highest, peek-first_highest}
use mini_rtos_sim.Kernel.{scheduler_set_task_state, scheduler_unblock_one}
use mini_rtos_sim.Kernel.Invariant.{IsValid, entries_ready}
use mini_rtos_sim.Kernel.Transition.{set_task_state-IsValid}
use mini_rtos_sim.Kernel.Unblock.{Woken, unblock_one-Woken}
use mini_rtos_sim.Context.{load, context_active, Contexts, object, context_switch, context_clear}
use mini_rtos_sim.Context.Switch.{context_switch_resumes}
use mini_rtos_sim.Tasks.{rtos_create_task, rtos_resume_task}
use mini_rtos_sim.Tasks.Create.{create_task_lem}
use mini_rtos_sim.Tasks.Suspend.{resume_task_lem}

-- Two entries, of which the first one is removed.
abbrev two : ReadyQueue
two = record { slots = λ i. i + 4; count = 2 }

entries-remove_example : entries (ready_queue_remove 4 two) ≡ erase 4 (entries two)
entries-remove_example = entries-remove 4 two

peek-first_highest_example :
    ready_queue_peek_highest_priority three.tasks three.queue
    ≡ (first_highest three.tasks (entries three.queue), three.queue)
peek-first_highest_example =
    peek-first_highest three.tasks three.queue (entries_ready three-IsValid.queued)

set_task_state-IsValid_example :
    IsValid (scheduler_set_task_state (pos 1) suspended block_none three)
set_task_state-IsValid_example =
    set_task_state-IsValid three-IsValid 1 (below_three 1 (omega arith)) suspended block_none

unblock_one-Woken_example : Woken block_sleep asleep (scheduler_unblock_one block_sleep asleep)
unblock_one-Woken_example = unblock_one-Woken block_sleep asleep asleep-IsValid

create_task_lem_example :
    let (id, k') = rtos_create_task "extra" (pos 9) 77 three in
    let t = k'.tasks three.task_count in
    (id ≡ pos (suc three.task_count))
    × IsValid k'
    × (k'.task_count ≡ suc three.task_count)
    × (entries k'.queue ≡ entries three.queue ++ (three.task_count ∷ []))
    × ((j : ℕ) → j < three.task_count → k'.tasks j ≡ three.tasks j)
    × (is_ready t.state ≡ true)
    × (t.priority ≡ pos 9)
    × (t.task_function ≡ 77)
    × ((j : ℕ) → j < stack_words → t.stack_memory j ≡ 0)
    × (t.stack_pointer ≡ stack_words)
    × (k'.contexts.objects three.task_count ≡ record {
      r0 = 0;
      r1 = 0;
      r2 = 0;
      r3 = 0;
      r4 = 0;
      r5 = 0;
      r6 = 0;
      r7 = 0;
      r8 = 0;
      r9 = 0;
      r10 = 0;
      r11 = 0;
      r12 = 0;
      lr = 0xFFFFFFFD;
      pc = 77 % 2 ^ 32;
      xpsr = 0x01000000;
    })
    × ((j : ℕ) → j < three.task_count → k'.contexts.objects j ≡ three.contexts.objects j)
    × (k'.contexts.active_context ≡ three.contexts.active_context)
create_task_lem_example =
    create_task_lem three-IsValid "extra" (pos 9) 77 (omega (arith, three_count))

resume_task_lem_example :
    let (found, k') = rtos_resume_task (pos 2) three in
    (found ≡ is_suspended (three.tasks 1).state)
    × IsValid k'
    × (found ≡ true
        → (is_ready (k'.tasks 1).state ≡ true)
          × (entries k'.queue ≡ entries three.queue ++ (1 ∷ []))
          × ((j : ℕ) → j ≢ 1 → k'.tasks j ≡ three.tasks j))
    × (found ≡ false → k' ≡ three)
resume_task_lem_example = resume_task_lem 1 three-IsValid (below_three 1 (omega arith))

-- Contexts that differ in their program counters.
abbrev numbered : Contexts
numbered = record {
  active_context = record context_clear { pc = 50 };
  objects = λ i. record context_clear { pc = i };
}

context_switch_resumes_example :
    let live = record (context_switch (object 0) (object 1) numbered) {
      active_context = context_clear;
    } in
    let m' = context_switch (object 1) (object 0) live in
    (load m' context_active ≡ load numbered context_active) × (m'.objects 1 ≡ context_clear)
context_switch_resumes_example = context_switch_resumes 0 1 numbered context_clear (omega arith)
