-- ===== src/Tests/Rounds.antt =====
-- A processor that runs a process of one CALC, and one that finds nothing to do.
use hcmut_os_ossim_sierra.Prelude.{
  ℕ, ◌<◌, ◌≡◌, refl, false, true, none, some, Option, [], ◌∷◌, arith, mem,
}
use hcmut_os_ossim_sierra.Prelude.Loops.{for_range}
use hcmut_os_ossim_sierra.Queue.{new_queue, enqueue_in, is_queued, empty, dequeue, shift}
use hcmut_os_ossim_sierra.Sched.{
  Sched, max_prio, init_scheduler, get_proc, get_mlq_proc, search_loop, round, advance, take_from,
  add_proc, add_mlq_proc, get_slot,
}
use hcmut_os_ossim_sierra.Sched.Ready.{init_scheduler-empty}
use hcmut_os_ossim_sierra.Queue.Contents.{contents}
use hcmut_os_ossim_sierra.Cpu.{calc_op, run, execute, calc}
use hcmut_os_ossim_sierra.Os.{
  Pcb, Machine, CpuState, cpu_start, Outcome, next_slot, stops, cpu_round, from_idle, pick_up,
  recheck, dispatch, run_slot, run_proc, add_new,
}
use hcmut_os_ossim_sierra.Os.Budget.{Within}
use hcmut_os_ossim_sierra.Os.OneCpu.{Reach, Reach-Within}
use hcmut_os_ossim_sierra.Os.Stopping.{Valid}
use hcmut_os_ossim_sierra.Prelude.{
  List, sym, subst, ◌==◌, if◌then◌else◌, Bool-cases, ◌⊎◌, inl, inr, ◌*◌, ◌/◌, length, get_elem?,
}
use hcmut_os_ossim_sierra.Prelude.Partial.{Gives}
use hcmut_os_ossim_sierra.Os.Calculating.{Waiting}
use hcmut_os_ossim_sierra.Os.Calculating.Rounds.{Live, GoesOn, cpu_round-Gives}
use hcmut_os_ossim_sierra.Mm.{Caller}
use hcmut_os_ossim_sierra.Report.{Line, pages, entry, print_pgtbl}
use hcmut_os_ossim_sierra.Report.Entries.{print_pgtbl-area}
use hcmut_os_ossim_sierra.Tests.Scheduling.{one_ready, one_ready-IsReady}
use hcmut_os_ossim_sierra.Tests.Machine.{process, in_frame_1}

abbrev pub idle_sched : Sched
idle_sched = record {
  ready_queue = new_queue;
  run_queue = new_queue;
  running_list = new_queue;
  mlq_ready_queue = λ _. new_queue;
  slot = λ _. 1;
}

abbrev pub idle : Machine
idle = record {
  sched = idle_sched;
  pcb = λ _. none;
  mram = (process (λ _. in_frame_1) 512 [] [] []).mram;
  mswp = (process (λ _. in_frame_1) 512 [] [] []).mswp;
}

abbrev machine_of : Option Outcome → Machine
machine_of none = idle
machine_of (some (next_slot m c)) = m
machine_of (some (stops m)) = m

stops_at_once : cpu_round [] 0 [] 2 true idle cpu_start ≡ some (stops idle)
unfolding cpu_round from_idle pick_up get_proc get_mlq_proc search_loop round advance empty
stops_at_once = refl

idle-Valid : Valid idle
idle-Valid = record {
  running = record { bounded = omega arith; distinct = tt; nonnull = refl };
  ready = λ i h. record {
    valid = record { bounded = omega arith; distinct = tt; nonnull = refl };
    only = λ p m. tt;
  };
}

-- A process of priority 0 and one instruction, loaded at address 5 and dispatched.
abbrev pub one_calc : Pcb
one_calc = record {
  path = [];
  code = record { opcode = calc_op; arg_0 = 0; arg_1 = 0; arg_2 = 0; arg_3 = 0 } ∷ [];
  pc = 0;
  prio = 0;
  mm = (process (λ _. in_frame_1) 512 [] [] []).mm;
  active_mswp = 0;
  active_mswp_id = 0;
}

abbrev booted : Machine
booted = record idle { sched = init_scheduler idle_sched; pcb = λ _. none }

abbrev got : Option Machine → Machine
got none = idle
got (some m) = m

abbrev with_calc : Machine
with_calc = got (add_new booted 5 one_calc)

abbrev state_of : Option Outcome → CpuState
state_of none = cpu_start
state_of (some (next_slot m c)) = c
state_of (some (stops m)) = cpu_start

abbrev first_round : Option Outcome
first_round = cpu_round [] 0 [] 2 false with_calc cpu_start

added : add_new booted 5 one_calc ≡ some with_calc
unfolding add_new add_proc add_mlq_proc
added = refl

ran : first_round ≡ some (next_slot (machine_of first_round) (state_of first_round))
unfolding cpu_round from_idle pick_up get_proc get_mlq_proc search_loop round advance take_from
    empty add_new add_proc add_mlq_proc init_scheduler for_range enqueue_in is_queued dequeue shift
    get_slot recheck dispatch run_slot run_proc run execute calc
ran = refl

calc_Reach : Reach [] 0 [] 2 idle (machine_of first_round) (state_of first_round)
calc_Reach = Reach.round false (Reach.load 5 one_calc Reach.start (omega arith) empties added) ran
  where
    empties : (i : ℕ) → i < max_prio → mem 5 (contents (booted.sched.mlq_ready_queue i)) ≡ false
    empties i h = ground (arith, init_scheduler-empty idle_sched i h)

Reach-Within_example : Within (machine_of first_round) (state_of first_round)
Reach-Within_example = Reach-Within [] 0 [] 2 (omega arith) (omega arith) calc_Reach

-- The same process of priority 3, ready in its queue.
abbrev calc_ready : Machine
calc_ready = record idle {
  sched = one_ready;
  pcb = λ p. if p == 5 then some (record one_calc { prio = 3 }) else none;
}

calc_ready-Live : Live calc_ready cpu_start
calc_ready-Live = (
  record {
    running = one_ready-IsReady.running;
    ready = λ i h. record {
      valid = one_ready-IsReady.ready i h;
      only = λ p m. only_five i p (Bool-cases (i == 3)) m;
    };
  },
  inl refl,
)
  where
    five_there : (p : ℕ) → p ≡ 5 → Waiting calc_ready.pcb 0 3 p
    five_there p e =
        subst (Waiting calc_ready.pcb 0 3) (sym e)
          ((record one_calc { prio = 3 }, refl, refl, (omega arith, (refl, tt))), omega arith)

    only_five :
        (i p : ℕ)
        → ((i == 3) ≡ true) ⊎ ((i == 3) ≡ false)
        → mem p (contents (one_ready.mlq_ready_queue i)) ≡ true
        → Waiting calc_ready.pcb 0 i p
    only_five i p (inl e) m =
        subst (λ j. Waiting calc_ready.pcb 0 j p) (ground (arith, e))
          (five_there p (ground (arith, e, m)))
    only_five i p (inr e) m = absurd (ground (arith, e, m))

cpu_round-Gives_example : Gives GoesOn (cpu_round [] 0 [] 2 false calc_ready cpu_start)
cpu_round-Gives_example = cpu_round-Gives [] 0 [] 2 false calc_ready cpu_start calc_ready-Live

abbrev small_area : Caller
small_area = process (λ _. in_frame_1) 512 [] [] []

print_pgtbl-area_example :
    (lines : List Line) × (print_pgtbl small_area 0 4294967295 ≡ some (0, pages 0 512 ∷ lines))
    × (length lines ≡ 512 / 256)
    × (get_elem? lines 1 ≡ some (entry (1 * 4) (small_area.mm.pgd 1)))
print_pgtbl-area_example =
    print_pgtbl-area small_area 512 1 (record { free = []; area = refl }) (omega arith)
      (omega arith)
