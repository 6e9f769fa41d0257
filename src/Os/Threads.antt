-- ===== src/Os/Threads.antt =====
-- src/os.c: all the threads of the simulator, with the timer between them. A step is what one thread
-- does under one lock or with one variable that the threads share: between two steps any other
-- thread may run. `run` of an instruction is one step, and so are `put_proc` and `add_proc`, which
-- take the lock of the scheduler twice.
pub mod Timing
pub mod Effects
pub mod Charging
pub mod Owners
pub mod Loads
pub mod Lending
pub mod Exclusion
pub mod Draining
pub mod Addresses
pub mod Progress
pub mod Rounds
use hcmut_os_ossim_sierra.Prelude.{
  ℕ, suc, ◌-◌, ◌<◌, ◌≡◌, ◌≢◌, Bool, true, false, Option, none, some, List, ◌==◌, if◌then◌else◌,
  update, ◌>>=◌, length,
}
use hcmut_os_ossim_sierra.Word.{sub32}
use hcmut_os_ossim_sierra.Sched.{init_scheduler, get_proc, put_proc, get_slot}
use hcmut_os_ossim_sierra.Memphy.{init_memphy}
use hcmut_os_ossim_sierra.Mm.{VmRg, Mm}
use hcmut_os_ossim_sierra.Loader.{Loaded}
use hcmut_os_ossim_sierra.Timer.{
  System, DevicePc, running, gone, NextSlot, called, detach_event, TimerRoutine, Unasked,
  wake_timer, current_time,
}
use hcmut_os_ossim_sierra.Timer
use hcmut_os_ossim_sierra.Os.{
  Machine, CpuState, cpu_start, Outcome, next_slot, stops, recheck, LdProcess, LdOutcome, waits,
  loads, all_done, ld_round,
}

-- The two branches of "Check the status of current process" that give up a process.
pub data Turn : Type 0 where
  finished : Turn
  expired : Turn

-- The calls of `get_proc`: without a process, or after one of these branches.
pub data Branch : Type 0 where
  idle : Branch
  after : Turn → Branch

-- Where a processor stands in `while (1)`: before `proc == NULL`; before `update_slot`, and before
-- its store, with what it has read; before `free`; before `get_proc`; before `get_slot`; at "Recheck
-- process status"; before `next_slot`; past the `break`.
pub data CpuPc : Type 0 where
  head : CpuPc
  charging : Turn → CpuPc
  storing : Turn → (prio slot : ℕ) → CpuPc
  freeing : CpuPc
  getting : Branch → CpuPc
  asking : CpuPc
  rechecking : CpuPc
  calling : CpuPc
  leaving : CpuPc

pub record Cpu : Type 0 where
  pub pc : CpuPc
  pub vars : CpuState

abbrev pub at : CpuPc → CpuState → Cpu
at pc c = record { pc = pc; vars = c }

abbrev pub after_update : Turn → CpuPc
after_update finished = freeing
after_update expired = getting (after expired)

-- `time_left = 0; use_time = 0;` after a process that has finished.
abbrev pub reset_times : Branch → CpuState → CpuState
reset_times idle c = c
reset_times (after finished) c = record c { time_left = 0; use_time = 0 }
reset_times (after expired) c = c

abbrev pub after_recheck : CpuState → Outcome → Machine × Cpu
after_recheck c (next_slot m c') = (m, at calling c')
after_recheck c (stops m) = (m, at leaving c)

abbrev pub store_slot : Machine → ℕ → ℕ → Machine
store_slot m prio v = record m { sched = record m.sched { slot = update m.sched.slot prio v } }

-- `time_slot` is the static variable of the configuration; the arguments before it are as in `Os`.
module _ (stale : List ℕ) (junk : ℕ) (stale_rg : List VmRg) (time_slot : ℕ) where
  unfoldable pub put_back : Machine → CpuState → ℕ → Option (Machine × Cpu)
  put_back m c prio = do
    s ← put_proc m.sched c.proc prio
    some (record m { sched = s }, at (charging expired) c)

  unfoldable pub work_head : Machine → CpuState → Option (Machine × Cpu)
  unfolding put_back
  work_head m c = if c.proc == 0 then some (m, at (getting idle) c) else do
    d ← m.pcb c.proc
    if d.pc == length d.code
        then some (m, at (charging finished) c)
        else if c.time_left == 0
        then put_back m c d.prio
        else some (m, at rechecking c)

  unfoldable pub work_get : Branch → Machine → CpuState → Option (Machine × Cpu)
  work_get b m c = do
    (p, s) ← get_proc m.sched
    some (
      record m { sched = s },
      at (if p == 0 then rechecking else asking) (reset_times b (record c { proc = p })),
    )

  -- What a processor does next, but for its calls of timer.c. `done` is what it reads at the recheck.
  unfoldable pub work : Bool → Machine → CpuPc → CpuState → Option (Machine × Cpu)
  unfolding work_head work_get
  work done m head c = work_head m c
  work done m (charging t) c = do
    d ← m.pcb c.proc
    v ← get_slot m.sched d.prio
    some (m, at (storing t d.prio v) c)
  work done m (storing t prio v) c =
      some (store_slot m prio (sub32 v c.use_time), at (after_update t) c)
  work done m freeing c =
      some (record m { pcb = update m.pcb c.proc none }, at (getting (after finished)) c)
  work done m (getting b) c = work_get b m c
  work done m asking c = do
    d ← m.pcb c.proc
    v ← get_slot m.sched d.prio
    some (m, at rechecking (record c { remaining_slot = v }))
  work done m rechecking c = do
    o ← recheck stale junk stale_rg time_slot done m c
    some (after_recheck c o)
  work done m calling c = none
  work done m leaving c = none

-- Where the loader stands: at its loops, before `next_slot`, or with `done` set.
pub data LdPc : Type 0 where
  looping : LdPc
  yielding : LdPc
  ending : LdPc

-- While a thread is in `next_slot` it stands where it goes on after it; whether it is there, or has
-- detached, is what its device in `timer` says.
pub record Simulator : Type 0 where
  pub machine : Machine
  pub done : Bool
  pub cpu : ℕ → Cpu
  pub ld_pc : LdPc
  pub i : ℕ
  pub timer : System

-- `attach_event` puts a device in front of the list, the loader's last.
abbrev pub ld_device : ℕ
ld_device = 0

abbrev pub enter : System → ℕ → System
enter t i = record t {
  device = update t.device i (called (t.device i));
  timer = wake_timer i t.timer;
}

abbrev pub after_ld : Simulator → LdOutcome → Simulator
after_ld s waits = record s { ld_pc = yielding }
after_ld s (loads m i) = record s { machine = m; i = i; ld_pc = yielding }
after_ld s all_done = record s { done = true; ld_pc = ending }

-- What `main` has made when the threads start: the devices of memory, from stale memory, and an empty
-- scheduler. The list of the timer is in `Os.Config`.
unfoldable pub boot : List ℕ → Machine → ℕ → (ℕ → ℕ) → Simulator
boot stale raw memramsz memswpsz = record {
  machine = record {
    sched = init_scheduler raw.sched;
    pcb = λ _. none;
    mram = init_memphy stale raw.mram memramsz 1;
    mswp = λ sit. init_memphy stale (raw.mswp sit) (memswpsz sit) 1;
  };
  done = false;
  cpu = λ _. at head cpu_start;
  ld_pc = looping;
  i = 0;
  timer = Timer.init;
}

-- `num_cpus` processors, the configuration, and the program that `load` gives for each path.
module _ (stale : List ℕ) (junk : ℕ) (stale_rg : List VmRg) (time_slot num_cpus : ℕ)
    (processes : List LdProcess) (program : ℕ → Loaded) where
  pub data Step (s : Simulator) : Simulator → Type 0 where
    works :
        {m : Machine} {c : Cpu} (k : ℕ)
        → k < num_cpus
        → (s.timer.device (num_cpus - k)).pc ≡ running
        → work stale junk stale_rg time_slot s.done s.machine (s.cpu k).pc (s.cpu k).vars
          ≡ some (m, c)
        → Step s (record s { machine = m; cpu = update s.cpu k c })
    yields :
        (k : ℕ)
        → k < num_cpus
        → (s.timer.device (num_cpus - k)).pc ≡ running
        → (s.cpu k).pc ≡ calling
        → Step s (record s {
          cpu = update s.cpu k (at head (s.cpu k).vars);
          timer = enter s.timer (num_cpus - k);
        })
    detaches :
        (k : ℕ)
        → k < num_cpus
        → (s.timer.device (num_cpus - k)).pc ≡ running
        → (s.cpu k).pc ≡ leaving
        → Step s (record s { timer = detach_event s.timer (num_cpus - k) })
    -- `malloc` gives an address where there is no process.
    loader :
        {o : LdOutcome} (raw : ℕ → ℕ) (stale_list : List VmRg) (raw_mm : Mm) (unset_id address : ℕ)
        → (s.timer.device ld_device).pc ≡ running
        → s.ld_pc ≡ looping
        → address ≢ 0
        → s.machine.pcb address ≡ none
        → ld_round raw stale_list raw_mm unset_id processes
            (current_time s.timer)
            address
            (program s.i)
            s.machine
            s.i
          ≡ some o
        → Step s (after_ld s o)
    loader_yields :
        (s.timer.device ld_device).pc ≡ running
        → s.ld_pc ≡ yielding
        → Step s (record s { ld_pc = looping; timer = enter s.timer ld_device })
    loader_detaches :
        (s.timer.device ld_device).pc ≡ running
        → s.ld_pc ≡ ending
        → Step s (record s { timer = detach_event s.timer ld_device })
    -- A thread inside `next_slot`, and the thread of the timer.
    in_next_slot :
        {t : System} (i : ℕ)
        → i < suc num_cpus
        → (s.timer.device i).pc ≢ running
        → NextSlot s.timer i t
        → Step s (record s { timer = t })
    timer : {t : System} → TimerRoutine (suc num_cpus) s.timer t → Step s (record s { timer = t })
    -- `main` calls `stop_timer` when it has joined the threads.
    stop_timer :
        ((i : ℕ) → i < suc num_cpus → (s.timer.device i).pc ≡ gone)
        → Step s (record s { timer = record s.timer { timer_stop = true } })

  -- From the start, with the memory that `main` finds.
  pub data Reach (stale_mem : List ℕ) (raw : Machine) (memramsz : ℕ) (memswpsz : ℕ → ℕ)
      : Simulator → Type 0 where
    start : Reach stale_mem raw memramsz memswpsz (boot stale_mem raw memramsz memswpsz)
    later :
        {s t : Simulator}
        → Reach stale_mem raw memramsz memswpsz s
        → Step s t
        → Reach stale_mem raw memramsz memswpsz t
    -- A wait that returns though nobody has signalled is no step of the program.
    unasked :
        {s : Simulator} {t : System}
        → Reach stale_mem raw memramsz memswpsz s
        → Unasked s.timer t
        → Reach stale_mem raw memramsz memswpsz (record s { timer = t })
