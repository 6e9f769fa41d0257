-- ===== src/Syscall.antt =====
-- src/syscall.c, src/libstd.c, src/sys_listsyscall.c and src/sys_xxxhandler.c: the dispatch of system
-- calls by the numbers of src/syscall.tbl. What a call prints is left out.
pub mod Queues
pub mod Quiet
use mathlib.Core.Option
use hcmut_os_ossim_sierra.Prelude.{ℕ, Option, some, List, [], ◌==◌, if◌then◌else◌}
use hcmut_os_ossim_sierra.Word.{minus_one}
use hcmut_os_ossim_sierra.Sched.{Sched}
use hcmut_os_ossim_sierra.Mm.{Caller}
use hcmut_os_ossim_sierra.Memmap.{ScRegs, sys_memmap}
use hcmut_os_ossim_sierra.Killall.{sys_killall}

-- What every call gets besides its registers: the paths of the processes and what is in memory that
-- was never set, as in `Memmap` and `Killall`.
pub record Env : Type 0 where
  pub path : ℕ → List ℕ
  pub stale : List ℕ
  pub junk : ℕ

pub sys_ni_syscall : Sched → Caller → Option (ℕ × Sched × Caller)
sys_ni_syscall s c = some (minus_one, s, c)

pub sys_listsyscall : Sched → Caller → Option (ℕ × Sched × Caller)
sys_listsyscall s c = some (0, s, c)

pub sys_xxxhandler : Sched → Caller → ScRegs → Option (ℕ × Sched × Caller)
sys_xxxhandler s c regs = some (0, s, c)

-- These free no process.
abbrev freeing_none : Option (ℕ × Sched × Caller) → Option (ℕ × Sched × Caller × List ℕ)
freeing_none = Option.map (λ (status, s, c). (status, s, c, []))

-- The processes that the call has freed come last. The registers after the call are of use only to callers inside the library of memory.
pub syscall : Env → Sched → Caller → ℕ → ScRegs → Option (ℕ × Sched × Caller × List ℕ)
unfolding sys_ni_syscall sys_listsyscall sys_xxxhandler
syscall env s c nr regs =
    if nr == 0
    then freeing_none (sys_listsyscall s c)
    else if nr == 17
    then Option.map (λ (status, regs', c'). (status, s, c', [])) (sys_memmap env.stale c regs)
    else if nr == 101
    then sys_killall env.path env.stale env.junk s c regs.a1
    else if nr == 440
    then freeing_none (sys_xxxhandler s c regs)
    else freeing_none (sys_ni_syscall s c)

unfoldable pub libsyscall :
    Env → Sched → Caller → ℕ → ℕ → ℕ → ℕ → Option (ℕ × Sched × Caller × List ℕ)
libsyscall env s c syscall_idx a1 a2 a3 =
    syscall env s c syscall_idx (record { a1 = a1; a2 = a2; a3 = a3 })
