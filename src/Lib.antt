-- ===== src/Lib.antt =====
-- A model of the operating system simulator: its scheduler and its memory management.
--
-- The parts and the files that model them:
--   Queue      src/queue.c, include/queue.h: the bounded queue of processes. `Queue` is
--              `struct queue_t`; `enqueue_in`, `dequeue` and `clear_queue` are the functions.
--   Sched      src/sched.c: the multi-level scheduler. `Sched` holds its static variables, and each
--              function (`get_mlq_proc`, `put_proc`, `add_proc`, ...) is a function on it.
--   Pte        include/mm.h, include/bitops.h and the entry functions of src/mm.c: page table
--              entries as 32-bit patterns; Pte/Address: virtual and physical addresses.
--   Memphy     src/mm-memphy.c: RAM and swap devices with their free frames.
--   Mm         src/mm.c, with the types of include/os-mm.h in Mm/Types: the memory of a process,
--              frame allocation with page replacement, mapping.
--              `Caller` is the memory side of `struct pcb_t` (include/common.h).
--   Vm         src/mm-vm.c: the areas, the overlap check and the growth of an area.
--   Memmap     src/sys_mem.c: system call 17, which links the library to the memories.
--   Libmem     src/libmem.c: regions and allocation; Libmem/Paging: pages, reads and writes;
--              Libmem/Usable: allocation, writing and reading together.
--   Killall    src/sys_killall.c: system call 101, which ends the processes of a name.
--   Syscall    src/syscall.c, src/libstd.c, src/sys_listsyscall.c, src/sys_xxxhandler.c: dispatch.
--   Cpu        src/cpu.c: one instruction of a process; the instructions of include/common.h.
--   Report     the functions of src/mm.c that print, as the lines that they print.
--   Timer      src/timer.c: the clock and the devices that it keeps in step, as a step relation on
--              `System`; a constructor is what one thread does under one lock. Timer/Release is
--              the end of `stop_timer`.
--   Os         src/os.c: the loop of a processor, the loader, the configuration (Os/Config).
--              `cpu_round` is one round of `cpu_routine`; `Machine` is what the threads share. In
--              Os/Threads all threads run together with the timer: `work` is one step of a processor
--              and `Step` one of any thread; Os/Main is `main` before they start,
--              and Os/Queues what all of them do to the scheduler.
--   Loader     src/loader.c: a process from its description, and what fscanf does with numbers.
--   Mem        src/mem.c and the four functions of src/cpu.c that call it: the memory that mm.c has
--              taken the place of.
--   Prelude, Word: shared names, and the integers of C as bit patterns. Tests: concrete runs.
--
-- How they interact: the threads of Os call the timer at the end of each slot, so that all of them
-- work in the same slot; in its slot a processor takes a process from the scheduler and runs one of
-- its instructions, and the loader makes new processes ready. A read or write of a region goes
-- through `pg_getpage`, which may call on system call 17 to move pages, and then through system
-- call 17 to the memory. The processor reaches the library with its instructions, and every system
-- call with SYSCALL. An allocation takes a free region or calls on system call 17 to grow the area,
-- which maps new pages with `vm_map_ram`.
--
-- Conventions. `int` and `uint32_t` are numbers below 2 ^ 32 with wrap-around, `unsigned long`
-- below 2 ^ 64, `BYTE` below 2 ^ 8 with its sign extended where C does. A process is the address of
-- its `pcb_t`, 0 is NULL. A C array is a function with its bound tested at each access, but for the
-- array of a queue, where the accesses lie in it while the size is at most MAX_QUEUE_SIZE. `none`
-- as the result of an `Option` is undefined behaviour: an access out of bounds, through NULL, or of
-- a variable that was never set. Memory from `malloc` never fails and has any content: an argument
-- `stale` where the code reads such content. A function under a lock is one step. The index of
-- `active_mswp` in `mswp` stands for that pointer; no frame has the number -1. In Loader, Os and
-- Mem the bytes of a file are a list, and what `malloc` returns is an argument; `Load` tells
-- undefined behaviour from `exit`. In Timer a wait may return unasked, and the counts `slots` and
-- `ticks` are kept for the statements only. Os/Threads has one step for each access to what the
-- threads share.
--
-- Bounds and fuel. The loops over arrays are counted. `get_mlq_proc` has fuel for two passes over
-- the 140 priorities, `clear_queue` for one round for each entry and `MEMPHY_mv_csr` for one for
-- each cell: see the modules Sched.Pick, Queue.Fifo and Memphy.Cells.
--
-- Not modelled: src/paging.c, which is in no target of the build, src/syscalltbl.sh, a script of
-- the build, the fixed texts that are printed, and the parts that the configuration in include/os-
-- cfg.h leaves out. In Os/Threads `run` of an instruction is one step, and so are `put_proc` and
-- `add_proc`, which take the lock twice; of the theorems there, those on ownership, on progress and
-- on the end are for programs that do not call `killall`, since that frees processes which others
-- have.
pub mod Prelude
pub mod Word
pub mod Queue
pub mod Sched
pub mod Pte
pub mod Memphy
pub mod Mm
pub mod Vm
pub mod Memmap
pub mod Libmem
pub mod Report
pub mod Killall
pub mod Syscall
pub mod Cpu
pub mod Timer
pub mod Mem
pub mod Loader
pub mod Os
mod Tests
