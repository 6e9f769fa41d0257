-- ===== src/Cpu/Memory.antt =====
-- `run` on the instructions that use memory.
use hcmut_os_ossim_sierra.Sched.{Sched}
