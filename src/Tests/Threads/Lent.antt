-- ===== src/Tests/Threads/Lent.antt =====
-- A processor puts its process back, and sleeps before it charges for the turn.
use hcmut_os_ossim_sierra.Prelude.{ℕ, ◌≡◌, refl, [], arith, update}
use hcmut_os_ossim_sierra.Prelude.Loops.{for_range}
use hcmut_os_ossim_sierra.Queue.{enqueue_in, is_queued, empty, dequeue, shift}
use hcmut_os_ossim_sierra.Sched.{
  init_scheduler, get_proc, get_mlq_proc, search_loop, round, advance, take_from, add_proc,
  add_mlq_proc, get_slot, put_proc,
}
use hcmut_os_ossim_sierra.Timer.{
  TimerPc, Device, releasing, begin, count, tick, release, go_on, returned, current_time, released,
  set_device,
}
use hcmut_os_ossim_sierra.Cpu.{run, execute, calc}
use hcmut_os_ossim_sierra.Os.{ld_round, add_new, recheck, dispatch, run_slot, run_proc}
use hcmut_os_ossim_sierra.Os.Threads.{
  Simulator, boot, at, head, work, work_head, work_get, put_back, enter, works, yields, loader,
  loader_yields, in_next_slot, start, later, looping,
}
use hcmut_os_ossim_sierra.Os.Threads
use hcmut_os_ossim_sierra.Os.Threads.Effects.{lent}
use hcmut_os_ossim_sierra.Os.Threads.Owners.{Usable}
use hcmut_os_ossim_sierra.Os.Threads.Exclusion.{lent_stays}
use hcmut_os_ossim_sierra.Tests.Rounds.{one_calc}
use hcmut_os_ossim_sierra.Tests.Threads.{listed, booted, worked, loaded, calm, Run}

-- One processor, from the start to the place where it has put the process back.
abbrev ran : Simulator
ran = worked (worked (worked (worked (loaded listed booted) 0) 0) 0) 0

abbrev slept : Simulator
slept = record ran {
  cpu = update ran.cpu 0 (at head (ran.cpu 0).vars);
  ld_pc = looping;
  timer = enter (enter ran.timer 1) 0;
}

abbrev timed : Simulator → TimerPc → ℕ → (ℕ → Device) → Simulator
timed s pc ticks device = record s {
  timer = record s.timer { timer = pc; ticks = ticks; device = device };
}

abbrev woken : ℕ → (ℕ → Device) → ℕ → Device
woken i device = update device i (released (device i))

abbrev ticked : Simulator
ticked = timed slept (releasing 2) 1 (woken 1 (woken 0 slept.timer.device))

abbrev next : Simulator
next = record ticked { timer = set_device ticked.timer 1 (returned (ticked.timer.device 1)) }

abbrev back : Simulator
back = worked next 0

ran-Run : Run 1 listed ran
unfolding boot current_time ld_round add_new add_proc add_mlq_proc init_scheduler for_range
    enqueue_in is_queued work work_head work_get get_proc get_mlq_proc search_loop round advance
    take_from empty dequeue shift get_slot recheck dispatch run_slot run_proc run execute calc
    put_back put_proc
ran-Run =
    later
      (later
        (later
          (later
            (later start (loader (λ _. 0) [] one_calc.mm 0 5 refl refl (omega arith) refl refl))
            (works 0 (omega arith) refl refl))
          (works 0 (omega arith) refl refl))
        (works 0 (omega arith) refl refl))
      (works 0 (omega arith) refl refl)

slept-Run : Run 1 listed slept
unfolding boot current_time ld_round add_new add_proc add_mlq_proc init_scheduler for_range
    enqueue_in is_queued work work_head work_get get_proc get_mlq_proc search_loop round advance
    take_from empty dequeue shift get_slot recheck dispatch run_slot run_proc run execute calc
    put_back put_proc
slept-Run = later (later ran-Run (yields 0 (omega arith) refl refl)) (loader_yields refl refl)

ticked-Run : Run 1 listed ticked
unfolding ld_round boot current_time add_new add_proc
ticked-Run =
    later
      (later
        (later
          (later
            (later (later slept-Run (Threads.timer (begin refl refl)))
              (Threads.timer (count refl (omega arith) refl)))
            (Threads.timer (count refl (omega arith) refl)))
          (Threads.timer (tick refl (omega arith))))
        (Threads.timer (release refl (omega arith))))
      (Threads.timer (release refl (omega arith)))

back-Run : Run 1 listed back
unfolding boot current_time ld_round add_new add_proc add_mlq_proc init_scheduler for_range
    enqueue_in is_queued work work_head work_get get_proc get_mlq_proc search_loop round advance
    take_from empty dequeue shift get_slot recheck dispatch run_slot run_proc run execute calc
    put_back put_proc
back-Run =
    later (later ticked-Run (in_next_slot 1 (omega arith) (λ q. cc) (go_on refl refl)))
      (works 0 (omega arith) refl refl)

lent_five : lent (back.cpu 0) ≡ 5
unfolding boot current_time ld_round add_new add_proc add_mlq_proc init_scheduler for_range
    enqueue_in is_queued work work_head work_get get_proc get_mlq_proc search_loop round advance
    take_from empty dequeue shift get_slot recheck dispatch run_slot run_proc run execute calc
    put_back put_proc
lent_five = refl

lent_stays_example : Usable back.machine.pcb (lent (back.cpu 0))
lent_stays_example = lent_stays calm 0 back-Run (omega arith) (omega (arith, lent_five))
