-- ===== src/Libmem.antt =====
-- src/libmem.c: what a process does with its memory. Each function runs under the lock of the
-- library, so it is one step. What `malloc` leaves unset is an argument, `stale`.
pub mod Regions
pub mod Alloc
pub mod Paging
pub mod Usable
use mathlib.Core.Option
use hcmut_os_ossim_sierra.Prelude.{
  ℕ, zero, suc, ◌+◌, ◌-◌, Bool, true, false, not, ◌||◌, Option, none, some, List, [], ◌∷◌, ltb, leb,
  ◌==◌, if◌then◌else◌, update, ◌>>=◌, ◌>>◌, require, get_elem?,
}
use hcmut_os_ossim_sierra.Word.{
  u32, add32, add64, sub64, ulong_of_int, int_of_byte, byte_of, is_negative, minus_one,
}
use hcmut_os_ossim_sierra.Pte.{is_present, fpn_of, swp_of, set_present, pte_set_swap, pte_set_fpn}
use hcmut_os_ossim_sierra.Pte.Address.{max_pgn, pgn_of, offst_of, phy_addr}
use hcmut_os_ossim_sierra.Memphy.{Memphy, get_freefp, put_freefp}
use hcmut_os_ossim_sierra.Mm.{VmRg, VmArea, Mm, Caller, find_victim_page, enlist_pgn_node}
use hcmut_os_ossim_sierra.Vm.{get_vma_by_num, vma_at, put_area}
use hcmut_os_ossim_sierra.Memmap.{ScRegs, inc_op, swp_op, io_read, io_write, sys_memmap}

abbrev pub max_symtbl_sz : ℕ
max_symtbl_sz = 30

abbrev pub set_mm : Caller → Mm → Caller
set_mm c mm = record c { mm = mm }

-- The list of the new first region; the link of a node that begins a list is never set.
abbrev pub link_region : List VmRg → List VmRg → VmRg → List VmRg
link_region stale [] rg = rg ∷ stale
link_region stale (r ∷ rs) rg = rg ∷ r ∷ rs

-- `mm->mmap->vm_freerg_list` reads through `mmap`.
pub enlist_vm_freerg_list : List VmRg → Mm → VmRg → Option (ℕ × Mm)
enlist_vm_freerg_list stale mm rg = elim mm.mmap [
  | [] ↦ none
  | a ∷ rest ↦ some (
      if leb rg.rg_end rg.rg_start then (minus_one, mm) else (
        0,
        record mm {
          mmap = record a { vm_freerg_list = link_region stale a.vm_freerg_list rg } ∷ rest;
        },
      ))
]

-- The index of the symbol, `none` for NULL.
pub get_symrg_byid : Mm → ℕ → Option ℕ
get_symrg_byid mm rgid = if is_negative rgid || ltb max_symtbl_sz rgid then none else some rgid

-- Reading or writing `symrgtbl[rgid]`.
abbrev pub in_symtbl : ℕ → Bool
in_symtbl rgid = ltb rgid max_symtbl_sz

-- `rg_end - rg_start + 1`, the size that the search takes a free region to have.
abbrev pub free_size : VmRg → ℕ
free_size r = add64 (sub64 r.rg_end r.rg_start) 1

-- `rgit` after its front has been taken, and whether it stays in the list.
abbrev pub shrink : VmRg → ℕ → VmRg
shrink r size = record r { rg_start = add64 r.rg_start size }

abbrev pub keep_rest : VmRg → List VmRg → List VmRg
keep_rest r rest = if ltb r.rg_end r.rg_start then rest else r ∷ rest

-- The walk over the free regions: the region that is handed out, and the list afterwards.
pub first_fit : List VmRg → ℕ → Option (VmRg × List VmRg)
first_fit [] size = none
first_fit (r ∷ rest) size =
    if leb size (free_size r)
    then some (
      record { rg_start = r.rg_start; rg_end = sub64 (add64 r.rg_start size) 1 },
      keep_rest (shrink r size) rest,
    )
    else Option.map (λ q. (q.0, r ∷ q.1)) (first_fit rest size)

-- The status, `*newrg` and the memory of the process. `size` is an `int`. The result -1 leaves
-- values in `*newrg` that no caller reads: the answer has no region then.
pub get_free_vmrg_area : Mm → ℕ → ℕ → Option (Option VmRg × Mm)
unfolding first_fit
get_free_vmrg_area mm vmaid size = do
  (i, a) ← vma_at mm vmaid
  some (elim (first_fit a.vm_freerg_list (ulong_of_int size)) [
    | none ↦ (none, mm)
    | some (rg, rest) ↦ (some rg, put_area mm i (record a { vm_freerg_list = rest }))
  ])

abbrev pub set_symbol : Mm → ℕ → VmRg → Mm
set_symbol mm rgid rg = record mm { symrgtbl = update mm.symrgtbl rgid rg }

-- The region `[old_sbrk, old_sbrk + size)` as the symbol records it.
abbrev pub symbol_at : ℕ → ℕ → VmRg
symbol_at old_sbrk size = record {
  rg_start = ulong_of_int old_sbrk;
  rg_end = ulong_of_int (add32 old_sbrk size);
}

-- What is left of the new pages becomes a free region.
pub enlist_rest : List VmRg → Mm → ℕ → ℕ → Option Mm
unfolding enlist_vm_freerg_list
enlist_rest stale mm cut vm_end =
    let rg : VmRg = record { rg_start = ulong_of_int cut; rg_end = vm_end } in
    if ltb (ulong_of_int cut) vm_end
    then Option.map (λ r. r.1) (enlist_vm_freerg_list stale mm rg)
    else some mm

-- The rest of `__alloc` after the system call, with the area behind the pointer taken before it.
pub commit_alloc : List VmRg → Caller → ℕ → ℕ → ℕ → ℕ → Option (ℕ × ℕ × Caller)
unfolding enlist_rest
commit_alloc stale_rg c i rgid size old_sbrk = do
  require (in_symtbl rgid)
  let mm = set_symbol c.mm rgid (symbol_at old_sbrk size)
  cur_vma ← get_elem? mm.mmap i
  mm' ← enlist_rest stale_rg mm (add32 old_sbrk size) cur_vma.vm_end
  some (0, old_sbrk, set_mm c mm')

-- `__alloc` when no free region fits: the limit is moved by system call 17. `addr` is what
-- `*alloc_addr` held. (The search for a free region has read through `cur_vma`: it is not NULL.)
pub alloc_at_brk : List ℕ → List VmRg → Caller → ℕ → ℕ → ℕ → ℕ → Option (ℕ × ℕ × Caller)
unfolding commit_alloc
alloc_at_brk stale stale_rg c vmaid rgid size addr = do
  (i, cur_vma) ← vma_at c.mm vmaid
  (status, regs, c') ← sys_memmap stale c (record { a1 = inc_op; a2 = vmaid; a3 = size })
  if status == 0
      then commit_alloc stale_rg c' i rgid size (u32 cur_vma.sbrk)
      else some (minus_one, addr, c')

-- The status, `*alloc_addr` and the process.
pub alloc : List ℕ → List VmRg → Caller → ℕ → ℕ → ℕ → ℕ → Option (ℕ × ℕ × Caller)
unfolding get_free_vmrg_area alloc_at_brk
alloc stale stale_rg c vmaid rgid size addr = do
  (found, mm) ← get_free_vmrg_area c.mm vmaid size
  elim found [
    | some rg ↦ do
      require (in_symtbl rgid)
      some (0, u32 rg.rg_start, set_mm c (set_symbol mm rgid rg))
    | none ↦ alloc_at_brk stale stale_rg c vmaid rgid size addr
  ]

-- `__free`. The entry of the symbol stays as it is, and the status of the list is dropped.
pub free : List VmRg → Caller → ℕ → ℕ → Option (ℕ × Caller)
unfolding enlist_vm_freerg_list
free stale_rg c vmaid rgid =
    if is_negative rgid || ltb max_symtbl_sz rgid
    then some (minus_one, c)
    else Option.map (λ r. (0, set_mm c r.1))
        (require (in_symtbl rgid) >> enlist_vm_freerg_list stale_rg c.mm (c.mm.symrgtbl rgid))

pub liballoc : List ℕ → List VmRg → Caller → ℕ → ℕ → ℕ → Option (ℕ × ℕ × Caller)
unfolding alloc
liballoc stale stale_rg proc size reg_index addr = alloc stale stale_rg proc 0 reg_index size addr

pub libfree : List VmRg → Caller → ℕ → Option (ℕ × Caller)
unfolding free
libfree stale_rg proc reg_index = free stale_rg proc 0 reg_index
