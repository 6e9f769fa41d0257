-- ===== src/Tests/Threads/Ended.antt =====
-- The simulator from its start to its end, with one process.
use hcmut_os_ossim_sierra.Prelude.{ℕ, ◌<◌, ◌≡◌, refl, true, none, [], arith, update, get_elem?}
use hcmut_os_ossim_sierra.Prelude.Loops.{for_range}
use hcmut_os_ossim_sierra.Queue.{enqueue_in, is_queued, empty, dequeue, shift}
use hcmut_os_ossim_sierra.Sched.{
  init_scheduler, get_proc, get_mlq_proc, search_loop, round, advance, take_from, add_proc,
  add_mlq_proc, get_slot,
}
use hcmut_os_ossim_sierra.Loader.{Loaded}
use hcmut_os_ossim_sierra.Timer.{
  Device, releasing, begin, count, tick, release, go_on, all_finished, exited, returned,
  current_time, released, detached, detach_event, again,
}
use hcmut_os_ossim_sierra.Cpu.{run}
use hcmut_os_ossim_sierra.Os.{ld_round, add_new, recheck, dispatch, run_slot, run_proc}
use hcmut_os_ossim_sierra.Os.Threads.{
  Simulator, boot, at, head, work, work_head, work_get, after_ld, enter, Reach, works, yields,
  detaches, loader, loader_yields, loader_detaches, in_next_slot, start, later, looping,
}
use hcmut_os_ossim_sierra.Os.Threads
use hcmut_os_ossim_sierra.Os.Threads.Effects.{NoKillall}
use hcmut_os_ossim_sierra.Os.Threads.Draining.{NoneReady}
use hcmut_os_ossim_sierra.Os.Threads.Draining.End.{ended-drained}
use hcmut_os_ossim_sierra.Tests.Rounds.{idle, one_calc}
use hcmut_os_ossim_sierra.Tests.Threads.{listed, booted, worked, outcome}

-- A process without instructions: it is loaded, dispatched and freed.
abbrev no_code : Loaded
no_code = record { pid = 1; priority = 0; path = []; code = []; pc = 0; bp = 0 }

-- One processor, each turn of one slot.
abbrev Ends : Simulator → Type 0
Ends = Reach [] 0 [] 1 1 listed (λ _. no_code) [] idle 64 (λ _. 64)

abbrev loads_next : Simulator → Simulator
loads_next s = after_ld s (
    outcome
      (ld_round (λ _. 0) [] one_calc.mm 0 listed (current_time s.timer) 5 no_code s.machine s.i))

calm_end : (i : ℕ) → NoKillall no_code.code
calm_end i k = refl

-- It is loaded, and the processor takes it and runs it for a slot.
abbrev started : Simulator
started = worked (worked (worked (worked (loads_next booted) 0) 0) 0) 0

started-Ends : Ends started
unfolding boot current_time ld_round add_new add_proc add_mlq_proc init_scheduler for_range
    enqueue_in is_queued work work_head work_get get_proc get_mlq_proc search_loop round advance
    take_from empty dequeue shift get_slot recheck dispatch run_slot run_proc run
started-Ends =
    later
      (later
        (later
          (later
            (later start (loader (λ _. 0) [] one_calc.mm 0 5 refl refl (omega arith) refl refl))
            (works 0 (omega arith) refl refl))
          (works 0 (omega arith) refl refl))
        (works 0 (omega arith) refl refl))
      (works 0 (omega arith) refl refl)

-- Both threads sleep; the timer counts them, advances the clock and wakes them.
abbrev slept : Simulator
slept = record started {
  cpu = update started.cpu 0 (at head (started.cpu 0).vars);
  ld_pc = looping;
  timer = enter (enter started.timer 1) 0;
}

slept-Ends : Ends slept
unfolding boot current_time ld_round add_new add_proc add_mlq_proc init_scheduler for_range
    enqueue_in is_queued work work_head work_get get_proc get_mlq_proc search_loop round advance
    take_from empty dequeue shift get_slot recheck dispatch run_slot run_proc run
slept-Ends = later (later started-Ends (yields 0 (omega arith) refl refl)) (loader_yields refl refl)

abbrev woken : ℕ → (ℕ → Device) → ℕ → Device
woken i device = update device i (released (device i))

abbrev back : ℕ → (ℕ → Device) → ℕ → Device
back i device = update device i (returned (device i))

abbrev second_slot : Simulator
second_slot = record slept {
  timer = record slept.timer {
    timer = releasing 2;
    ticks = 1;
    device = back 0 (back 1 (woken 1 (woken 0 slept.timer.device)));
  };
}

second_slot-Ends : Ends second_slot
unfolding boot current_time ld_round add_new add_proc
second_slot-Ends =
    later
      (later
        (later
          (later
            (later
              (later
                (later (later slept-Ends (Threads.timer (begin refl refl)))
                  (Threads.timer (count refl (omega arith) refl)))
                (Threads.timer (count refl (omega arith) refl)))
              (Threads.timer (tick refl (omega arith))))
            (Threads.timer (release refl (omega arith))))
          (Threads.timer (release refl (omega arith))))
        (in_next_slot 1 (omega arith) (λ q. cc) (go_on refl refl)))
      (in_next_slot 0 (omega arith) (λ q. cc) (go_on refl refl))

-- The loader is done; the processor frees the process and finds no other.
abbrev finishing : Simulator
finishing = worked (worked (worked (worked (worked (worked (loads_next second_slot) 0) 0) 0) 0) 0) 0

finishing-Ends : Ends finishing
unfolding boot current_time ld_round add_new add_proc add_mlq_proc init_scheduler for_range
    enqueue_in is_queued work work_head work_get get_proc get_mlq_proc search_loop round advance
    take_from empty dequeue shift get_slot recheck dispatch run_slot run_proc run
finishing-Ends =
    later
      (later
        (later
          (later
            (later
              (later
                (later second_slot-Ends
                  (loader (λ _. 0) [] one_calc.mm 0 6 refl refl (omega arith) refl refl))
                (works 0 (omega arith) refl refl))
              (works 0 (omega arith) refl refl))
            (works 0 (omega arith) refl refl))
          (works 0 (omega arith) refl refl))
        (works 0 (omega arith) refl refl))
      (works 0 (omega arith) refl refl)

-- Both detach, and the timer ends.
abbrev over : Simulator
over = record finishing {
  timer = record finishing.timer {
    device =
        update (update finishing.timer.device 0 (detached (finishing.timer.device 0))) 1
          (detached (finishing.timer.device 1));
    timer = exited;
  };
}

detached-Ends : Ends (record finishing { timer = detach_event (detach_event finishing.timer 0) 1 })
unfolding boot current_time ld_round add_new add_proc add_mlq_proc init_scheduler for_range
    enqueue_in is_queued work work_head work_get get_proc get_mlq_proc search_loop round advance
    take_from empty dequeue shift get_slot recheck dispatch run_slot run_proc run
detached-Ends =
    later (later finishing-Ends (loader_detaches refl refl)) (detaches 0 (omega arith) refl refl)

over-Ends : Ends over
unfolding boot current_time ld_round add_new add_proc
over-Ends =
    later
      (later
        (later
          (later (later detached-Ends (Threads.timer (again refl)))
            (Threads.timer (begin refl refl)))
          (Threads.timer (count refl (omega arith) refl)))
        (Threads.timer (count refl (omega arith) refl)))
      (Threads.timer (all_finished refl refl))

ended-drained_example :
    (over.done ≡ true)
    × (get_elem? listed over.i ≡ none)
    × ((k : ℕ) → k < 1 → (over.cpu k).vars.proc ≡ 0)
    × NoneReady over.machine
ended-drained_example = ended-drained (omega arith) calm_end over-Ends refl
