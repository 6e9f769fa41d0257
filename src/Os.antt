-- ===== src/Os.antt =====
-- src/os.c: a processor's loop and the loader, over the state that their threads share. Between two
-- calls of `next_slot` a thread is one step here; `Os.Threads` divides a
-- processor's round into the steps between which other threads run.
pub mod Running
pub mod Tags
pub mod Budget
pub mod OneCpu
pub mod Stopping
pub mod Config
pub mod Calculating
pub mod Threads
pub mod Queues
pub mod Main
use hcmut_os_ossim_sierra.Prelude.{
  ℕ, zero, suc, ◌+◌, ◌%◌, Bool, true, false, not, Option, none, some, List, [], ◌∷◌, ◌++◌, ◌==◌,
  ltb, leb, if◌then◌else◌, update, ◌>>=◌, ◌>>◌, require, ◌&&◌, ◌||◌, length, get_elem?, mem, slice,
}
use hcmut_os_ossim_sierra.Word.{add32, sub32, lt_int, u32}
use hcmut_os_ossim_sierra.Queue.{Queue}
use hcmut_os_ossim_sierra.Sched.{
  Sched, max_prio, get_proc, put_proc, add_proc, get_slot, update_slot,
}
use hcmut_os_ossim_sierra.Memphy.{Memphy}
use hcmut_os_ossim_sierra.Mm.{VmRg, Mm, Caller, init_mm}
use hcmut_os_ossim_sierra.Syscall.{Env}
use hcmut_os_ossim_sierra.Loader.{Loaded}
use hcmut_os_ossim_sierra.Cpu.{Inst, syscall_op, Process, run}

-- `struct pcb_t`, without the pointers to what is shared. `code` is the list of `text`.
pub record Pcb : Type 0 where
  pub path : List ℕ
  pub code : List Inst
  pub pc : ℕ
  pub prio : ℕ
  pub mm : Mm
  pub active_mswp : ℕ
  pub active_mswp_id : ℕ

-- What the threads share: the scheduler, the processes by address, and the devices of memory.
-- There is no process at an address before `malloc` and after `free`.
pub record Machine : Type 0 where
  pub sched : Sched
  pub pcb : ℕ → Option Pcb
  pub mram : Memphy
  pub mswp : ℕ → Memphy

-- The locals of `cpu_routine`; `proc` is 0 for NULL. The others are `int`.
pub record CpuState : Type 0 where
  pub proc : ℕ
  pub time_left : ℕ
  pub use_time : ℕ
  pub remaining_slot : ℕ

abbrev pub cpu_start : CpuState
cpu_start = record { proc = 0; time_left = 0; use_time = 0; remaining_slot = 0 }

-- How a round of `while (1)` ends: at a `next_slot`, or by the `break`.
pub data Outcome : Type 0 where
  next_slot : Machine → CpuState → Outcome
  stops : Machine → Outcome

abbrev pub path_at : Option Pcb → List ℕ
path_at none = []
path_at (some d) = d.path

abbrev pub is_live : Option Pcb → Bool
is_live none = false
is_live (some d) = true

-- Every process on a list is there to be read, as `killall` needs it.
unfoldable pub all_live : (ℕ → Option Pcb) → List ℕ → Bool
all_live pcb [] = true
all_live pcb (p ∷ ps) = is_live (pcb p) && all_live pcb ps

unfoldable pub queues_live : (ℕ → Option Pcb) → (ℕ → Queue) → ℕ → ℕ → Bool
unfolding all_live
queues_live pcb qs i zero = true
queues_live pcb qs i (suc n) =
    all_live pcb (slice (qs i).proc 0 (qs i).size) && queues_live pcb qs (suc i) n

abbrev pub free_all : List ℕ → (ℕ → Option Pcb) → ℕ → Option Pcb
free_all freed pcb p = if mem p freed then none else pcb p

abbrev is_killall : Option Inst → Bool
is_killall none = false
is_killall (some ins) = elim ins.opcode [ syscall_op ↦ ins.arg_0 == 101 | _ ↦ false ]

abbrev pub process_of : Machine → Pcb → Process
process_of m d = record {
  caller = record {
    mm = d.mm;
    mram = m.mram;
    mswp = m.mswp;
    active_mswp = d.active_mswp;
    active_mswp_id = d.active_mswp_id;
  };
  code = d.code;
  pc = d.pc;
}

-- What memory that was never set holds is an argument, as in `Libmem` and `Syscall`.
module _ (stale : List ℕ) (junk : ℕ) (stale_rg : List VmRg) where
  abbrev pub env_of : Machine → Env
  env_of m = record { path = λ p. path_at (m.pcb p); stale = stale; junk = junk }

  -- `run(proc)` on the shared state.
  unfoldable pub run_proc : Machine → ℕ → Option Machine
  run_proc m p = do
    d ← m.pcb p
    require (
        not (is_killall (get_elem? d.code d.pc))
        || (queues_live m.pcb m.sched.mlq_ready_queue 0 max_prio
            && queues_live m.pcb (λ _. m.sched.running_list) 0 1))
    (stat, s, proc', freed) ← run (env_of m) stale_rg m.sched (process_of m d)
    some (record {
      sched = s;
      pcb =
          free_all freed (update m.pcb p (some (record d { pc = proc'.pc; mm = proc'.caller.mm })));
      mram = proc'.caller.mram;
      mswp = proc'.caller.mswp;
    })

  -- `proc = get_proc(); if (proc) remaining_slot = get_slot(proc->prio);`
  unfoldable pub pick_up : Machine → CpuState → Option (Machine × CpuState)
  pick_up m c = do
    (p, s) ← get_proc m.sched
    let m' = record m { sched = s }
    if p == 0 then some (m', record c { proc = 0 }) else do
      d ← m.pcb p
      slot ← get_slot s d.prio
      some (m', record c { proc = p; remaining_slot = slot })

  -- `time_slot` is the static variable of the configuration.
  unfoldable pub dispatch : ℕ → CpuState → CpuState
  dispatch time_slot c = record c {
    time_left = if lt_int time_slot c.remaining_slot then time_slot else c.remaining_slot;
    use_time = 0;
  }

  unfoldable pub run_slot : Machine → CpuState → Option Outcome
  run_slot m c = do
    m' ← run_proc m c.proc
    some
        (next_slot m' (record c { time_left = sub32 c.time_left 1; use_time = add32 c.use_time 1 }))

  -- From the comment "Recheck process status" on.
  unfoldable pub recheck : ℕ → Bool → Machine → CpuState → Option Outcome
  recheck time_slot done m c =
      if c.proc == 0
      then some (if done then stops m else next_slot m c)
      else if c.time_left == 0
      then run_slot m (dispatch time_slot c)
      else run_slot m c

  -- The three branches of "Check the status of current process" that look for a process.
  unfoldable pub from_idle : ℕ → Bool → Machine → CpuState → Option Outcome
  from_idle time_slot done m c = do
    (m', c') ← pick_up m c
    if c'.proc == 0
        then some (if done then stops m' else next_slot m' c')
        else recheck time_slot done m' c'

  unfoldable pub from_finished : ℕ → Bool → Machine → CpuState → ℕ → Option Outcome
  from_finished time_slot done m c prio = do
    s ← update_slot m.sched prio c.use_time
    (m', c') ← pick_up (record m { sched = s; pcb = update m.pcb c.proc none }) c
    recheck time_slot done m' (record c' { time_left = 0; use_time = 0 })

  unfoldable pub from_expired : ℕ → Bool → Machine → CpuState → ℕ → Option Outcome
  from_expired time_slot done m c prio = do
    s ← put_proc m.sched c.proc prio
    s' ← update_slot s prio c.use_time
    (m', c') ← pick_up (record m { sched = s' }) c
    recheck time_slot done m' c'

  unfoldable pub go_on_with : ℕ → Bool → Machine → CpuState → Pcb → Option Outcome
  go_on_with time_slot done m c d =
      if d.pc == length d.code
      then from_finished time_slot done m c d.prio
      else if c.time_left == 0
      then from_expired time_slot done m c d.prio
      else recheck time_slot done m c

  -- One round of `while (1)`; `done` is the static variable that the loader sets.
  unfoldable pub cpu_round : ℕ → Bool → Machine → CpuState → Option Outcome
  cpu_round time_slot done m c =
      if c.proc == 0
      then from_idle time_slot done m c
      else do d ← m.pcb c.proc; go_on_with time_slot done m c d

-- `struct ld_args`, one entry for each process.
pub record LdProcess : Type 0 where
  pub path : List ℕ
  pub start_time : ℕ
  pub prio : ℕ

-- A round of the loader: it waits for the next slot, has made a process ready, or has made them all
-- ready, detaches, and sets `done`.
pub data LdOutcome : Type 0 where
  waits : LdOutcome
  loads : Machine → ℕ → LdOutcome
  all_done : LdOutcome

-- What the new process is given by `ld_routine`: `address` is what `malloc` has returned, `raw_mm` its
-- memory, where `init_mm` sets what it sets; `active_mswp_id` is never set.
abbrev pub new_pcb : (ℕ → ℕ) → List VmRg → Mm → ℕ → Loaded → ℕ → Pcb
new_pcb raw stale_list raw_mm unset_id proc prio = record {
  path = proc.path;
  code = proc.code;
  pc = proc.pc;
  prio = prio % 4294967296;
  mm = init_mm raw stale_list raw_mm;
  active_mswp = 0;
  active_mswp_id = unset_id;
}

unfoldable pub add_new : Machine → ℕ → Pcb → Option Machine
add_new m address d = do
  s ← add_proc m.sched address d.prio
  some (record m { sched = s; pcb = update m.pcb address (some d) })

-- The `while` on the clock, one test, for the entry `i` that there is, and what follows it.
ld_entry :
    (ℕ → ℕ)
    → List VmRg
    → Mm
    → ℕ
    → ℕ
    → ℕ
    → Loaded
    → Machine
    → ℕ
    → Option LdProcess
    → Option LdOutcome
ld_entry raw stale_list raw_mm unset_id current_time address proc m i none = some all_done
ld_entry raw stale_list raw_mm unset_id current_time address proc m i (some l) =
    if ltb current_time l.start_time then some waits else do
      m' ← add_new m address (new_pcb raw stale_list raw_mm unset_id proc l.prio)
      some (loads m' (i + 1))

-- One test of `while (i < num_processes)` and of the `while` on the clock inside it, for the process
-- that `load` has given.
unfoldable pub ld_round :
    (ℕ → ℕ) → List VmRg → Mm → ℕ → List LdProcess → ℕ → ℕ → Loaded → Machine → ℕ → Option LdOutcome
unfolding ld_entry
ld_round raw stale_list raw_mm unset_id processes current_time address proc m i =
    ld_entry raw stale_list raw_mm unset_id current_time address proc m i (get_elem? processes i)
