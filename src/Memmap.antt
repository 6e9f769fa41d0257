-- ===== src/Memmap.antt =====
-- src/sys_mem.c: system call 17, by which the memory library reaches the memories. `regs` are the
-- argument registers of include/syscall.h that the handlers of the program use.
pub mod Directions
use mathlib.Core.Option
use hcmut_os_ossim_sierra.Prelude.{
  ℕ, ◌+◌, Bool, Option, none, some, List, ◌==◌, if◌then◌else◌, ◌>>=◌, ◌>>◌, require,
}
use hcmut_os_ossim_sierra.Word.{u32, int_of_byte, byte_of}
use hcmut_os_ossim_sierra.Memphy.{Memphy, read, write}
use hcmut_os_ossim_sierra.Mm.{Caller}
use hcmut_os_ossim_sierra.Vm.{inc_vma_limit, mm_swap_page}

pub record ScRegs : Type 0 where
  pub a1 : ℕ
  pub a2 : ℕ
  pub a3 : ℕ

abbrev pub map_op : ℕ
map_op = 1

abbrev pub inc_op : ℕ
inc_op = 2

abbrev pub swp_op : ℕ
swp_op = 3

abbrev pub io_read : ℕ
io_read = 4

abbrev pub io_write : ℕ
io_write = 5

-- The status that a case of the handler gets from its callee is dropped: the call returns 0.
abbrev pub drop_status : ScRegs → ℕ × Caller → ℕ × ScRegs × Caller
drop_status regs (status, c) = (0, regs, c)

-- `MEMPHY_read(caller->mram, regs->a2, &value); regs->a3 = value;`, where `value` is read also if
-- the read has failed and left it unset.
pub mem_read : Caller → ScRegs → Option (ℕ × ScRegs × Caller)
mem_read c regs = do
  (status, value, ram) ← read c.mram regs.a2 0
  require (status == 0)
  some (0, record regs { a3 = int_of_byte value }, record c { mram = ram })

pub mem_write : Caller → ScRegs → Option (ℕ × ScRegs × Caller)
mem_write c regs = do
  (status, ram) ← write c.mram regs.a2 (byte_of regs.a3)
  some (0, regs, record c { mram = ram })

-- The status, the registers and the process after the call.
pub sys_memmap : List ℕ → Caller → ScRegs → Option (ℕ × ScRegs × Caller)
unfolding mem_read mem_write
sys_memmap stale c regs =
    if regs.a1 == inc_op
    then Option.map (drop_status regs) (inc_vma_limit stale c regs.a2 regs.a3)
    else if regs.a1 == swp_op
    then Option.map (drop_status regs) (mm_swap_page c regs.a2 regs.a3)
    else if regs.a1 == io_read
    then mem_read c regs
    else if regs.a1 == io_write
    then mem_write c regs
    else some (0, regs, c)
