-- ===== src/Memmap/Directions.antt =====
-- System call 17: which memory each operation reads, and which it writes.
use mathlib.Core.Option
use hcmut_os_ossim_sierra.Prelude.{
  List, Bool, true, false, ℕ, ◌<◌, ◌≡◌, ◌≢◌, refl, subst, Option, none, some, ◌==◌, if◌then◌else◌,
  update, ◌>>=◌, ◌>>◌, require, ==-ne, lt→ltb,
}
use hcmut_os_ossim_sierra.Word.{int_of_byte, byte_of}
use hcmut_os_ossim_sierra.Memphy.{read, write}
use hcmut_os_ossim_sierra.Mm.{Caller}
use hcmut_os_ossim_sierra.Mm.Copy.{HasFrame}
use hcmut_os_ossim_sierra.Vm.{inc_vma_limit}
use hcmut_os_ossim_sierra.Vm.Swap.{swapped_to, mm_swap_page-swapped_to}
use hcmut_os_ossim_sierra.Memmap.{
  ScRegs, drop_status, swp_op, inc_op, io_read, io_write, mem_read, mem_write, sys_memmap,
}

pub sys_memmap-swp_op :
    (stale : List ℕ) (c : Caller) (from to : ℕ)
    → HasFrame c.mram from
    → HasFrame (c.mswp c.active_mswp) to
    → let regs : ScRegs = record { a1 = swp_op; a2 = from; a3 = to } in
      sys_memmap stale c regs ≡ some (0, regs, swapped_to c from to)
unfolding sys_memmap
sys_memmap-swp_op stale c from to h k = rw (mm_swap_page-swapped_to c from to h k)

pub sys_memmap-inc_op :
    (stale : List ℕ) (c : Caller) (vmaid size : ℕ)
    → let regs : ScRegs = record { a1 = inc_op; a2 = vmaid; a3 = size } in
      sys_memmap stale c regs ≡ Option.map (drop_status regs) (inc_vma_limit stale c vmaid size)
unfolding sys_memmap
sys_memmap-inc_op stale c vmaid size = refl

-- Reading a cell of a random access RAM.
pub sys_memmap-io_read :
    (stale : List ℕ) (c : Caller) (addr old : ℕ)
    → c.mram.rdmflg ≢ 0
    → addr < c.mram.maxsz
    → sys_memmap stale c (record { a1 = io_read; a2 = addr; a3 = old })
      ≡ some (0, record { a1 = io_read; a2 = addr; a3 = int_of_byte (c.mram.storage addr) }, c)
unfolding sys_memmap mem_read read
sys_memmap-io_read stale c addr old r h = rw (==-ne c.mram.rdmflg 0 r, lt→ltb addr c.mram.maxsz h)

abbrev pub stored : Caller → ℕ → ℕ → Caller
stored c addr value = record c {
  mram = record (c.mram) { storage = update c.mram.storage addr value };
}

pub sys_memmap-io_write :
    (stale : List ℕ) (c : Caller) (addr value : ℕ)
    → c.mram.rdmflg ≢ 0
    → addr < c.mram.maxsz
    → let regs : ScRegs = record { a1 = io_write; a2 = addr; a3 = value } in
      sys_memmap stale c regs ≡ some (0, regs, stored c addr (byte_of value))
unfolding sys_memmap mem_write write
sys_memmap-io_write stale c addr value r h =
    rw (==-ne c.mram.rdmflg 0 r, lt→ltb addr c.mram.maxsz h)

-- A call that, if it ends, answers 0.
abbrev Succeeds : Option (ℕ × ScRegs × Caller) → Type 0
Succeeds none = Unit
Succeeds (some r) = r.0 ≡ 0

map-Succeeds :
    (regs : ScRegs) (o : Option (ℕ × Caller)) → Succeeds (Option.map (drop_status regs) o)
map-Succeeds regs none = tt
map-Succeeds regs (some r) = refl

if-Succeeds :
    (b : Bool) (x y : Option (ℕ × ScRegs × Caller))
    → Succeeds x
    → Succeeds y
    → Succeeds (if b then x else y)
if-Succeeds true x y hx hy = hx
if-Succeeds false x y hx hy = hy

mem_read-Succeeds : (c : Caller) (regs : ScRegs) → Succeeds (mem_read c regs)
unfolding mem_read
mem_read-Succeeds c regs =
    elim (read c.mram regs.a2 0)
      as (λ o. Succeeds (
        o >>= λ r.
        require (r.0 == 0)
        >> some (0, record regs { a3 = int_of_byte r.1 }, record c { mram = r.2 }))) [
          | none ↦ tt
          | some r ↦
              elim (r.0 == 0)
                as (λ b. Succeeds (
                  require b
                  >> some (0, record regs { a3 = int_of_byte r.1 }, record c { mram = r.2 }))) [
                    | true ↦ refl
                    | false ↦ tt
                  ]
        ]

mem_write-Succeeds : (c : Caller) (regs : ScRegs) → Succeeds (mem_write c regs)
unfolding mem_write
mem_write-Succeeds c regs =
    elim (write c.mram regs.a2 (byte_of regs.a3))
      as (λ o. Succeeds (o >>= λ r. some (0, regs, record c { mram = r.1 }))) [
        | none ↦ tt
        | some r ↦ refl
      ]

sys_memmap-Succeeds :
    (stale : List ℕ) (c : Caller) (regs : ScRegs) → Succeeds (sys_memmap stale c regs)
unfolding sys_memmap
sys_memmap-Succeeds stale c regs = if-Succeeds (regs.a1 == inc_op) _ _ (map-Succeeds regs _) (
    if-Succeeds (regs.a1 == swp_op) _ _ (map-Succeeds regs _) (
      if-Succeeds (regs.a1 == io_read) _ _ (mem_read-Succeeds c regs)
        (if-Succeeds (regs.a1 == io_write) _ _ (mem_write-Succeeds c regs) refl)))

-- Whatever the operation and whether it succeeded, a system call 17 that ends answers 0: the status
-- of `inc_vma_limit` and of the accesses to the memory never reaches the caller.
pub sys_memmap-status :
    (stale : List ℕ) (c : Caller) (regs : ScRegs) {status : ℕ} {regs' : ScRegs} {c' : Caller}
    → sys_memmap stale c regs ≡ some (status, regs', c')
    → status ≡ 0
sys_memmap-status stale c regs e = subst Succeeds e (sys_memmap-Succeeds stale c regs)
