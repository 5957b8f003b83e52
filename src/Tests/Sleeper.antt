-- ===== src/Tests/Sleeper.antt =====
-- The most urgent task, asleep and busy, at concrete inputs.
use mini_rtos_sim.Base.{
  ◌==◌, if◌then◌else◌, Bool-cases, pos, ℕ, zero, suc, ◌-◌, ◌≤◌, ◌≡◌, refl, ap, ◌∙◌, inl, inr, Bool,
  true, false, not, some, arith,
}
use mini_rtos_sim.Tests.Worlds.{
  ready_world, ready_world-Rests, three, three_count, below_three, in_first, in_first_lem, asleep,
}
use mini_rtos_sim.Task.{is_ready, is_running}
use mini_rtos_sim.Scheduler.Busy.{Busy}
use mini_rtos_sim.Scheduler.Tireless.{urgent_starves}
use mini_rtos_sim.Run.Tireless.{Tireless}
use mini_rtos_sim.Kernel.{scheduler_set_task_state}
use mini_rtos_sim.Tasks.{rtos_create_task}
use mini_rtos_sim.Tasks.Suspend.{task_sleep_lem}
use mini_rtos_sim.Tasks.Progress.{task_sleep-Progress}
use mini_rtos_sim.Timer.{timer_init}
use mini_rtos_sim.Kernel.Progress.{Progress}
use mini_rtos_sim.Boot.{rtos_init, scheduler_init}
use mini_rtos_sim.Run.{World, Image, Program, task_sleep, done, call, now, sem_signal}
use mini_rtos_sim.Run.Others.{task_sleep-other}
use mini_rtos_sim.Run.Sound.{Objects-mono}
use mini_rtos_sim.Scheduler.{scheduler_run}
use mini_rtos_sim.Scheduler.Soft.{QuietCallbacks}
use mini_rtos_sim.Scheduler.Dispatch.{Rests}
use mini_rtos_sim.Scheduler.Deadline.{Awaits}
use mini_rtos_sim.Scheduler.Timed.{Outranks, Unarmed}
use mini_rtos_sim.Scheduler.Gentle.{Gentle, urgent_on_time}
use mini_rtos_sim.Demo.{then_do, demo, set_up, code_at, sensor_task, logger_task, display_task}

abbrev image : Image
image = demo 1000

quiet : QuietCallbacks image
quiet callback arg = _

Gentle-if : (b : Bool) (p q : Program) → Gentle p → Gentle q → Gentle (if b then p else q)
Gentle-if false p q g h = h
Gentle-if true p q g h = g

-- All code of the demonstration is gentle.
code_at-Gentle : (f : ℕ) → Gentle (code_at f)
unfolding sensor_task logger_task display_task
code_at-Gentle f = elim (Bool-cases (f == 1)) [
  | inl e ↦
      let rest : Gentle (then_do (task_sleep (pos 3)) done) = (refl, λ r. _) in
      rw e (
        refl,
        λ r. (
          refl,
          λ x.
              Gentle-if x.ok _ (then_do (task_sleep (pos 3)) done)
                (refl, λ y. (refl, λ z. (refl, λ u. rest))) rest,
        ),
      )
  | inr a ↦ elim (Bool-cases (f == 2)) [
    | inl e ↦
        rw (a, e)
          (
            refl,
            λ x. Gentle-if (not x.ok) done _ _ (
              refl,
              λ y. Gentle-if (not y.ok) done _ _ (
                refl,
                λ z. Gentle-if (not z.ok) done _ _ (refl, λ t. (refl, λ u. (refl, λ r. _))),
              ),
            ),
          )
    | inr b ↦ elim (Bool-cases (f == 3)) [
      | inl e ↦ rw (a, b, e) (refl, λ z. Gentle-if (not z.ok) done _ _ (refl, λ u. (refl, λ r. _)))
      | inr c ↦ rw (a, b, c) _
    ]
  ]
]

slept : Progress in_first asleep
slept = task_sleep-Progress (pos 2) in_first_lem.0

-- The sensor task, the most urgent one, was the last to run and sleeps for two ticks.
abbrev dozing : World
dozing = record ready_world {
  kernel = record asleep {
    contexts = record asleep.contexts { active_context = asleep.contexts.objects 0 };
  };
}

dozing-Rests : Rests dozing
dozing-Rests =
    let v = slept.valid in
    record {
      valid = record {
        bound = v.bound;
        count_le = v.count_le;
        current_lt = v.current_lt;
        numbered = v.numbered;
        queued = v.queued;
      };
      paused = λ i h. elim (Bool-cases (is_running (asleep.tasks i).state)) [
        | inr e ↦ e
        | inl e ↦ let r = slept.running i h e in cc (r.1, ready_world-Rests.paused i r.0)
      ];
      entry = slept.entry ready_world-Rests.entry;
      loaded = λ i e.
          let same : 0 ≡ i = ground (arith, slept.current, e) in
          ap (λ j. asleep.contexts.objects j) same;
      sound =
          Objects-mono three.task_count asleep.task_count slept.count_le ready_world-Rests.sound;
    }

three_priorities :
    ((three.tasks 0).priority ≡ pos 3)
    × ((three.tasks 1).priority ≡ pos 2)
    × ((three.tasks 2).priority ≡ pos 1)
unfolding set_up rtos_init rtos_create_task scheduler_set_task_state
three_priorities = (refl, refl, refl)

count_three : asleep.task_count ≡ 3
count_three =
    (task_sleep-other in_first_lem.0 1 (below_three 1 (omega arith)) (pos 2)
      (λ e. ground (arith, e))).1
    ∙ three_count

dozing-Outranks : Outranks 0 dozing.kernel
dozing-Outranks zero h ne = absurd (ne refl)
dozing-Outranks (suc zero) h ne =
    rw
      (
        slept.priority 1 (below_three 1 (omega arith)),
        slept.priority 0 (below_three 0 (omega arith)),
        three_priorities.0,
        three_priorities.1,
      )
      (omega arith)
dozing-Outranks (suc (suc zero)) h ne =
    rw
      (
        slept.priority 2 (below_three 2 (omega arith)),
        slept.priority 0 (below_three 0 (omega arith)),
        three_priorities.0,
        three_priorities.2,
      )
      (omega arith)
dozing-Outranks (suc (suc (suc j))) h ne = absurd (omega (arith, count_three))

dozing-Unarmed : Unarmed dozing
unfolding set_up rtos_init scheduler_init timer_init
dozing-Unarmed s = refl

dozing-Awaits : Awaits 0 2 dozing
dozing-Awaits =
    let s = task_sleep_lem 0 (pos 2) in_first_lem.0 in_first_lem.1 in
    record {
      rests = dozing-Rests;
      index_lt = omega (arith, count_three);
      asleep = (s.1, s.2);
      top = dozing-Outranks;
      unarmed = dozing-Unarmed;
    }

urgent_on_time_example :
    ((m : ℕ)
      → m ≤ 1
      → (w' : World) × (scheduler_run image m dozing ≡ some w') × Awaits 0 (2 - m) w')
    × ((w' : World) × (scheduler_run image 2 dozing ≡ some w')
        × Rests w'
        × (w'.kernel.current_task_index ≡ pos 0))
urgent_on_time_example = urgent_on_time image 0 1 dozing quiet code_at-Gentle dozing-Awaits

-- The sensor task only reads the clock and signals now; the others are as they were.
abbrev signaller : Program
signaller = call now λ r. then_do (sem_signal 0) done

abbrev busy_image : Image
busy_image = record image { task_code = λ f. if f == 1 then signaller else code_at f }

signaller-Tireless : Tireless signaller
signaller-Tireless = (refl, λ r. (refl, λ s. _))

three-Outranks : Outranks 0 three
three-Outranks zero h ne = absurd (ne refl)
three-Outranks (suc zero) h ne = rw (three_priorities.0, three_priorities.1) (omega arith)
three-Outranks (suc (suc zero)) h ne = rw (three_priorities.0, three_priorities.2) (omega arith)
three-Outranks (suc (suc (suc j))) h ne = absurd (omega (arith, three_count))

sensor_ready : (is_ready (three.tasks 0).state ≡ true) × ((three.tasks 0).task_function ≡ 1)
unfolding set_up rtos_init rtos_create_task scheduler_set_task_state
sensor_ready = (refl, refl)

urgent_starves_example :
    (w' : World) × (scheduler_run busy_image 5 ready_world ≡ some w')
    × Busy 0 1 w'
    × (w'.kernel.current_task_index ≡ pos 0)
urgent_starves_example =
    urgent_starves busy_image 0 1 4 ready_world quiet signaller-Tireless (record {
      rests = ready_world-Rests;
      index_lt = below_three 0 (omega arith);
      able = sensor_ready.0;
      top = three-Outranks;
      code = sensor_ready.1;
      unarmed = dozing-Unarmed;
    })
