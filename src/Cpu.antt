-- ===== src/Cpu.antt =====
-- src/cpu.c, as compiled with MM_PAGING: one instruction of a process. The opcodes and instructions
-- are those of include/common.h; a program holds no other opcode, so the default case is left out.
pub mod Progress
pub mod Memory
pub mod Queues
pub mod Quiet
use hcmut_os_ossim_sierra.Prelude.{
  ℕ, ◌+◌, Bool, true, false, Option, none, some, List, [], leb, if◌then◌else◌, ◌>>=◌, length,
  get_elem?,
}
use hcmut_os_ossim_sierra.Word.{byte_of}
use hcmut_os_ossim_sierra.Sched.{Sched}
use hcmut_os_ossim_sierra.Mm.{VmRg, Caller}
use hcmut_os_ossim_sierra.Libmem.{liballoc, libfree}
use hcmut_os_ossim_sierra.Libmem.Paging.{libread, libwrite}
use hcmut_os_ossim_sierra.Syscall.{Env, libsyscall}

pub data Opcode : Type 0 where
  calc_op : Opcode
  alloc_op : Opcode
  free_op : Opcode
  read_op : Opcode
  write_op : Opcode
  syscall_op : Opcode

pub record Inst : Type 0 where
  pub opcode : Opcode
  pub arg_0 : ℕ
  pub arg_1 : ℕ
  pub arg_2 : ℕ
  pub arg_3 : ℕ

-- A process as the processor sees it: `code` is the list of `text`, whose length is `size`.
pub record Process : Type 0 where
  pub caller : Caller
  pub code : List Inst
  pub pc : ℕ

-- `(unsigned long)proc & 0UL`
unfoldable pub calc : Caller → ℕ
calc c = 0

-- The `switch`: the status, the scheduler, the process and the processes that it has freed. `stale_rg` is as in `Libmem`. A READ
-- leaves its byte in a copy of the instruction, which is then dropped.
unfoldable pub execute :
    Env → List VmRg → Sched → Caller → Inst → Option (ℕ × Sched × Caller × List ℕ)
unfolding calc
execute env stale_rg s c ins = elim ins.opcode [
  | calc_op ↦ some (calc c, s, c, [])
  | alloc_op ↦ do
    (stat, addr, c') ← liballoc env.stale stale_rg c ins.arg_0 ins.arg_1 env.junk
    some (stat, s, c', [])
  | free_op ↦ do (stat, c') ← libfree stale_rg c ins.arg_0; some (stat, s, c', [])
  | read_op ↦ do
    (stat, destination, c') ← libread env.stale env.junk c ins.arg_0 ins.arg_1
    some (stat, s, c', [])
  | write_op ↦ do
    (stat, c') ← libwrite env.stale c (byte_of ins.arg_0) ins.arg_1 ins.arg_2
    some (stat, s, c', [])
  | syscall_op ↦ libsyscall env s c ins.arg_0 ins.arg_1 ins.arg_2 ins.arg_3
]

unfoldable pub run : Env → List VmRg → Sched → Process → Option (ℕ × Sched × Process × List ℕ)
unfolding execute
run env stale_rg s proc = if leb (length proc.code) proc.pc then some (1, s, proc, []) else do
  ins ← get_elem? proc.code proc.pc
  (stat, s', c', freed) ← execute env stale_rg s proc.caller ins
  some (stat, s', record proc { caller = c'; pc = proc.pc + 1 }, freed)
