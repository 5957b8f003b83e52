-- ===== src/Tests/Turns.antt =====
-- Two tasks of one priority that never block, and one of a lower priority.
use mini_rtos_sim.Kernel.Progress.{kept-AtEntry}
use mini_rtos_sim.Base.{
  ==_iff, ◌<ℤ◌, set, has, pos, ℕ, zero, suc, ◌<◌, ◌≡◌, refl, ap, Bool, true, false, some, [], ◌∷◌,
  arith,
}
use mini_rtos_sim.Tests.Worlds.{zero_world, zero_world-Fresh}
use mini_rtos_sim.Ready.{append_entry, ready_queue_remove, ready_queue_contains}
use mini_rtos_sim.Kernel.{scheduler_set_task_state}
use mini_rtos_sim.Kernel.Invariant.{retask-IsValid}
use mini_rtos_sim.Tasks.{rtos_create_task}
use mini_rtos_sim.Sync.Block.{as_current, as_current-IsValid}
use mini_rtos_sim.Run.{World, Image, done, call, now, sem_signal}
use mini_rtos_sim.Boot.{rtos_init, scheduler_init}
use mini_rtos_sim.Timer.{timer_init}
use mini_rtos_sim.Task.{is_ready}
use mini_rtos_sim.Scheduler.Timed.{Unarmed}
use mini_rtos_sim.Boot.Start.{rtos_init-Rests}
use mini_rtos_sim.Demo.{created, then_do}
use mini_rtos_sim.Demo.Returns.{created-Rests}
use mini_rtos_sim.Scheduler.Dispatch.{Rests}
use mini_rtos_sim.Scheduler.Rotate.{InTurn}
use mini_rtos_sim.Scheduler.Rounds.{turns, round-InTurn}

abbrev pair : World
pair =
    created "third" (pos 0) 3
      (created "second" (pos 1) 2 (created "first" (pos 1) 1 (rtos_init zero_world)))

pair-Rests : Rests pair
pair-Rests = created-Rests "third" (pos 0) 3 _ (omega arith) (
    created-Rests "second" (pos 1) 2 _ (omega arith) (
      created-Rests "first" (pos 1) 1 _ (omega arith)
        (rtos_init-Rests zero_world zero_world-Fresh)))

pair_count : pair.kernel.task_count ≡ 3
unfolding rtos_init rtos_create_task scheduler_set_task_state
pair_count = refl

-- The second task has just had its turn.
abbrev after_second : World
after_second = record pair {
  kernel = record (as_current 1 pair.kernel) {
    contexts = record pair.kernel.contexts { active_context = pair.kernel.contexts.objects 1 };
    tasks = set pair.kernel.tasks 1 (record (pair.kernel.tasks 1) { slice_ticks_used = 1 });
  };
}

after_second-Rests : Rests after_second
after_second-Rests =
    let v =
      retask-IsValid after_second.kernel.tasks
        (as_current-IsValid 1 pair-Rests.valid (omega (arith, pair_count))).0
        (λ j. ground (arith, ==_iff j 1)) (λ j. ground (arith, ==_iff j 1)) in
    record {
      valid = record {
        bound = v.bound;
        count_le = v.count_le;
        current_lt = v.current_lt;
        numbered = v.numbered;
        queued = v.queued;
      };
      paused = λ j h. ground (arith, pair-Rests.paused j h, ==_iff j 1);
      entry = λ j h. kept-AtEntry refl (ground (arith, ==_iff j 1)) (pair-Rests.entry j h);
      loaded = λ i e. ap (λ x. pair.kernel.contexts.objects x) (ground (arith, e));
      sound = pair-Rests.sound;
    }

-- The two.
abbrev both : ℕ → Bool
both j = has j (0 ∷ 1 ∷ [])

member :
    (j : ℕ)
    → j < after_second.kernel.task_count
    → both j ≡ true
    → (is_ready (after_second.kernel.tasks j).state ≡ true)
      × ((after_second.kernel.tasks j).priority ≡ pos 1)
unfolding rtos_init rtos_create_task scheduler_set_task_state
member zero h g = (refl, refl)
member (suc zero) h g = (refl, refl)
member (suc (suc x)) h g = absurd (ground (arith, g))

below :
    (j : ℕ)
    → j < after_second.kernel.task_count
    → both j ≡ false
    → (after_second.kernel.tasks j).priority <ℤ pos 1
unfolding rtos_init rtos_create_task scheduler_set_task_state
below zero h g = absurd (cc g)
below (suc zero) h g = absurd (cc g)
below (suc (suc zero)) h g = omega arith
below (suc (suc (suc x))) h g = absurd (omega (arith, pair_count))

pair-Unarmed : Unarmed after_second
unfolding rtos_init scheduler_init timer_init
pair-Unarmed s = refl

-- Every task reads the clock and signals.
abbrev signalling : Image
signalling = record {
  task_code = λ f. call now λ r. then_do (sem_signal 0) done;
  callback_code = λ f a. done;
  pool_base = 1000;
}

after_second-InTurn : InTurn signalling (pos 1) both (0 ∷ 1 ∷ []) after_second
unfolding rtos_init rtos_create_task scheduler_set_task_state append_entry ready_queue_remove
    ready_queue_contains
after_second-InTurn = record {
  rests = after_second-Rests;
  queue = refl;
  able = λ j h g. (member j h g).0;
  same = λ j h g. (member j h g).1;
  lower = below;
  tireless = λ j h g. (refl, λ r. (refl, λ u. _));
  current = refl;
  slice = refl;
  unarmed = pair-Unarmed;
}

round-InTurn_example :
    (w' : World) × (turns signalling 2 after_second ≡ some (pos 0 ∷ pos 1 ∷ [], w'))
    × InTurn signalling (pos 1) both (0 ∷ 1 ∷ []) w'
round-InTurn_example =
    round-InTurn signalling (λ callback arg. _) (pos 1) both (0 ∷ 1 ∷ []) after_second (omega arith)
      after_second-InTurn
