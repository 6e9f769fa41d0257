-- ===== src/Os/Threads/Effects.antt =====
-- What one step of a processor does to the processes: whom the processor has, and where they stand.
-- That every step does one of these is in `Effects.Work`.
pub mod Work
use hcmut_os_ossim_sierra.Prelude.{
  ℕ, ◌≡◌, ◌≢◌, ◌∙◌, false, none, some, List, ◌==◌, if◌then◌else◌, update, get_elem?, ◌>>=◌,
}
use hcmut_os_ossim_sierra.Sched.{Sched, get_proc, put_proc}
use hcmut_os_ossim_sierra.Timer.{Device, running}
use hcmut_os_ossim_sierra.Cpu.{Inst, run}
use hcmut_os_ossim_sierra.Cpu.Quiet.{kills}
use hcmut_os_ossim_sierra.Os.{Pcb, Machine}
use hcmut_os_ossim_sierra.Os.Threads.{
  finished, expired, CpuPc, head, charging, storing, freeing, getting, asking, rechecking, calling,
  leaving, Cpu, at,
}

-- The process that a processor at this place has for itself, 0 if none; `proc` is its variable.
abbrev pub owned_at : CpuPc → ℕ → ℕ
owned_at head proc = proc
owned_at (charging finished) proc = proc
owned_at (charging expired) proc = 0
owned_at (storing finished prio v) proc = proc
owned_at (storing expired prio v) proc = 0
owned_at freeing proc = proc
owned_at (getting b) proc = 0
owned_at asking proc = proc
owned_at rechecking proc = proc
owned_at calling proc = proc
owned_at leaving proc = 0

abbrev pub owned : Cpu → ℕ
owned c = owned_at c.pc c.vars.proc

-- The process that it has put back, and whose priority it has yet to read.
abbrev pub lent_at : CpuPc → ℕ → ℕ
lent_at (charging expired) proc = proc
lent_at head proc = 0
lent_at (charging finished) proc = 0
lent_at (storing t prio v) proc = 0
lent_at freeing proc = 0
lent_at (getting b) proc = 0
lent_at asking proc = 0
lent_at rechecking proc = 0
lent_at calling proc = 0
lent_at leaving proc = 0

abbrev pub lent : Cpu → ℕ
lent c = lent_at c.pc c.vars.proc

-- It has taken its process in the slot `slots`, and is still in that slot.
abbrev pub Late : CpuPc → Device → ℕ → Type 0
Late asking d slots = Unit
Late rechecking d slots = Unit
Late calling d slots = Unit
Late head d slots = (d.pc ≢ running) × (d.slots ≡ slots)
Late (charging t) d slots = ⊥
Late (storing t prio v) d slots = ⊥
Late freeing d slots = ⊥
Late (getting b) d slots = ⊥
Late leaving d slots = Unit

abbrev pub KeepsLate : CpuPc → CpuPc → Type 0
KeepsLate pc pc' = (d : Device) (slots : ℕ) → d.pc ≡ running → Late pc d slots → Late pc' d slots

abbrev pub SameQueues : Sched → Sched → Type 0
SameQueues s s' = (s'.mlq_ready_queue ≡ s.mlq_ready_queue) × (s'.running_list ≡ s.running_list)

-- `run` of an instruction that is no `killall`.
abbrev pub Ran : Machine → ℕ → Pcb → Machine → Type 0
Ran m p d m' =
    (m'.sched ≡ m.sched)
    × ((d' : Pcb) × (d'.prio ≡ d.prio) × (d'.code ≡ d.code) × (m'.pcb ≡ update m.pcb p (some d')))

abbrev pub NoKillall : List Inst → Type 0
NoKillall code = (i : ℕ) → kills (get_elem? code i) ≡ false

-- What a step does. `moves`: to the variables of the processor and the slots only.
pub data Effect (m : Machine) (c : Cpu) (m' : Machine) (c' : Cpu) : Type 0 where
  moves :
      m'.pcb ≡ m.pcb
      → SameQueues m.sched m'.sched
      → owned c' ≡ owned c
      → lent c' ≡ 0
      → KeepsLate c.pc c'.pc
      → Effect m c m' c'
  puts :
      (d : Pcb)
      → owned c ≢ 0
      → m.pcb (owned c) ≡ some d
      → m'.pcb ≡ m.pcb
      → put_proc m.sched (owned c) d.prio ≡ some m'.sched
      → owned c' ≡ 0
      → lent c' ≡ owned c
      → Effect m c m' c'
  frees :
      m'.pcb ≡ update m.pcb (owned c) none
      → m'.sched ≡ m.sched
      → owned c' ≡ 0
      → lent c' ≡ 0
      → ((d : Device) (slots : ℕ) → ¬ Late c.pc d slots)
      → Effect m c m' c'
  takes :
      get_proc m.sched ≡ some (owned c', m'.sched)
      → m'.pcb ≡ m.pcb
      → owned c ≡ 0
      → lent c' ≡ 0
      → ((d : Device) (slots : ℕ) → Late c'.pc d slots)
      → Effect m c m' c'
  runs :
      (d : Pcb)
      → owned c ≢ 0
      → m.pcb (owned c) ≡ some d
      → Ran m (owned c) d m'
      → owned c' ≡ owned c
      → lent c' ≡ 0
      → KeepsLate c.pc c'.pc
      → Effect m c m' c'
