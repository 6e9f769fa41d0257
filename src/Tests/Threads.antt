-- ===== src/Tests/Threads.antt =====
-- The threads of the simulator: a process that a processor takes, and two that are given up.
mod Lent
mod Ended
use hcmut_os_ossim_sierra.Prelude.{
  ℕ, zero, suc, ◌<◌, ◌≡◌, ◌≢◌, ◌++◌, refl, true, false, none, some, Option, List, [], ◌∷◌, arith,
  update, ◌⊎◌,
}
use hcmut_os_ossim_sierra.Prelude.Loops.{for_range}
use hcmut_os_ossim_sierra.Queue.{enqueue_in, is_queued, empty, dequeue, shift}
use hcmut_os_ossim_sierra.Sched.{
  init_scheduler, get_proc, get_mlq_proc, search_loop, round, advance, take_from, add_proc,
  add_mlq_proc,
}
use hcmut_os_ossim_sierra.Sched.Apart.{Apart}
use hcmut_os_ossim_sierra.Loader.{Loaded}
use hcmut_os_ossim_sierra.Timer.{exited, current_time}
use hcmut_os_ossim_sierra.Os.{Machine, CpuState, LdProcess, LdOutcome, waits, ld_round, add_new}
use hcmut_os_ossim_sierra.Os.Threads.{
  Cpu, Simulator, boot, at, work, work_head, work_get, after_ld, Step, Reach, works, loader, start,
  later, charging, storing, expired, finished, after_update,
}
use hcmut_os_ossim_sierra.Os.Threads
use hcmut_os_ossim_sierra.Os.Threads.Effects.{NoKillall, owned}
use hcmut_os_ossim_sierra.Os.Threads.Owners.{Usable}
use hcmut_os_ossim_sierra.Os.Threads.Exclusion.{one_owner}
use hcmut_os_ossim_sierra.Os.Threads.Progress.NoDeadlock.{
  Priorities, BadInstruction, always_goes_on,
}
use hcmut_os_ossim_sierra.Os.Threads.Progress.NoUndefined.{no_undefined}
use hcmut_os_ossim_sierra.Mm.{VmRg, Mm}
use hcmut_os_ossim_sierra.Os.{run_proc}
use hcmut_os_ossim_sierra.Os.Threads.{rechecking, calling, leaving}
use hcmut_os_ossim_sierra.Os.Threads.Charging.{lost_charge}
use hcmut_os_ossim_sierra.Word.{sub32}
use hcmut_os_ossim_sierra.Tests.Rounds.{idle, one_calc}

abbrev pub two_calcs : Loaded
two_calcs = record {
  pid = 1;
  priority = 0;
  path = [];
  code = one_calc.code ++ one_calc.code;
  pc = 0;
  bp = 0;
}

abbrev pub listed : List LdProcess
listed = record { path = []; start_time = 0; prio = 0 } ∷ []

-- One processor or two, each turn of one slot, and one process of two CALCs.
abbrev pub Run : ℕ → List LdProcess → Simulator → Type 0
Run n processes = Reach [] 0 [] 1 n processes (λ _. two_calcs) [] idle 64 (λ _. 64)

abbrev pub booted : Simulator
booted = boot [] idle 64 (λ _. 64)

abbrev pub result : Machine → Cpu → Option (Machine × Cpu) → Machine × Cpu
result m c none = (m, c)
result m c (some r) = r

abbrev pub does : Simulator → ℕ → Machine × Cpu
does s k = result s.machine (s.cpu k) (work [] 0 [] 1 s.done s.machine (s.cpu k).pc (s.cpu k).vars)

abbrev pub worked : Simulator → ℕ → Simulator
worked s k = record s { machine = (does s k).0; cpu = update s.cpu k (does s k).1 }

abbrev pub outcome : Option LdOutcome → LdOutcome
outcome none = waits
outcome (some o) = o

abbrev pub ld_result : List LdProcess → Simulator → Option LdOutcome
ld_result processes s =
    ld_round (λ _. 0) [] one_calc.mm 0 processes (current_time s.timer) 5 two_calcs s.machine s.i

abbrev pub loaded : List LdProcess → Simulator → Simulator
loaded processes s = after_ld s (outcome (ld_result processes s))

pub calm : (i : ℕ) → NoKillall two_calcs.code
calm i zero = refl
calm i (suc zero) = refl
calm i (suc (suc k)) = refl

-- Two processors: the first takes the process.
abbrev taken : Simulator
taken = worked (worked (loaded listed booted) 0) 0

taken-Run : Run 2 listed taken
unfolding boot current_time ld_round add_new add_proc add_mlq_proc init_scheduler for_range
    enqueue_in is_queued work work_head work_get get_proc get_mlq_proc search_loop round advance
    take_from empty dequeue shift
taken-Run =
    later
      (later (later start (loader (λ _. 0) [] one_calc.mm 0 5 refl refl (omega arith) refl refl))
        (works 0 (omega arith) refl refl))
      (works 0 (omega arith) refl refl)

taken_five : owned (taken.cpu 0) ≡ 5
unfolding boot current_time ld_round add_new add_proc add_mlq_proc init_scheduler for_range
    enqueue_in is_queued work work_head work_get get_proc get_mlq_proc search_loop round advance
    take_from empty dequeue shift
taken_five = refl

one_owner_example :
    Usable taken.machine.pcb (owned (taken.cpu 0))
    × Apart taken.machine.sched (owned (taken.cpu 0))
    × ((j : ℕ) → j < 2 → j ≢ 0 → owned (taken.cpu j) ≢ owned (taken.cpu 0))
one_owner_example = one_owner calm 0 taken-Run (omega arith) (omega (arith, taken_five))

priorities : Priorities listed
priorities zero l e = ground arith
priorities (suc i) l e = absurd (cc)

always_goes_on_example :
    ((taken.timer.timer ≡ exited) × (taken.timer.timer_stop ≡ true))
    ⊎ ((t : Simulator) × Step [] 0 [] 1 2 listed (λ _. two_calcs) taken t)
    ⊎ BadInstruction [] 0 [] 2 taken
always_goes_on_example = always_goes_on (omega arith) calm priorities taken-Run

no_undefined_example :
    ((k : ℕ)
      → k < 2
      → (taken.cpu k).pc ≢ calling
      → (taken.cpu k).pc ≢ leaving
      → ((r : Machine × Cpu) × (work [] 0 [] 1 taken.done taken.machine
              (taken.cpu k).pc
              (taken.cpu k).vars
            ≡ some r))
        ⊎ (((taken.cpu k).pc ≡ rechecking)
            × ((taken.cpu k).vars.proc ≢ 0)
            × (run_proc [] 0 [] taken.machine (taken.cpu k).vars.proc ≡ none)))
    × ((uninit : ℕ → ℕ) (stale_list : List VmRg) (raw_mm : Mm) (unset_id address : ℕ)
        → (o : LdOutcome) × (ld_round uninit stale_list raw_mm unset_id listed
              (current_time taken.timer)
              address
              two_calcs
              taken.machine
              taken.i
            ≡ some o))
no_undefined_example = no_undefined (omega arith) calm priorities taken-Run

-- Two processes of priority 0, given up by two processors after one slot and after two.
abbrev both : Machine
both = record idle { pcb = λ _. some one_calc }

abbrev giving_up : ℕ → ℕ → CpuState
giving_up proc used = record { proc = proc; time_left = 0; use_time = used; remaining_slot = 2 }

lost_charge_example :
    (slot : ℕ) × (m₁ m₂ : Machine) × (both.sched.slot 0 ≡ slot)
    × (work [] 0 [] 1 false both (charging expired) (giving_up 5 1)
        ≡ some (both, at (storing expired 0 slot) (giving_up 5 1)))
    × (work [] 0 [] 1 false both (charging finished) (giving_up 6 2)
        ≡ some (both, at (storing finished 0 slot) (giving_up 6 2)))
    × (work [] 0 [] 1 false both (storing expired 0 slot) (giving_up 5 1)
        ≡ some (m₁, at (after_update expired) (giving_up 5 1)))
    × (work [] 0 [] 1 false m₁ (storing finished 0 slot) (giving_up 6 2)
        ≡ some (m₂, at (after_update finished) (giving_up 6 2)))
    × (m₂.sched.slot 0 ≡ sub32 slot 2)
lost_charge_example =
    lost_charge [] 0 [] 1 false both expired finished (giving_up 5 1) (giving_up 6 2) one_calc
      one_calc refl refl refl (omega arith)
