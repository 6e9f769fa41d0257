-- ===== src/Libmem/Paging.antt =====
-- src/libmem.c: the pages of a process in RAM, and reading and writing through them.
pub mod Swapping
pub mod Access
use mathlib.Core.Option
use hcmut_os_ossim_sierra.Prelude.{
  ℕ, zero, suc, ◌+◌, Bool, not, Option, none, some, List, [], ◌∷◌, ltb, ◌==◌, if◌then◌else◌, update,
  ◌>>=◌, ◌>>◌, require,
}
use hcmut_os_ossim_sierra.Word.{u32, add32, int_of_byte, byte_of, minus_one}
use hcmut_os_ossim_sierra.Pte.{is_present, fpn_of, swp_of, set_present, pte_set_swap, pte_set_fpn}
use hcmut_os_ossim_sierra.Pte.Address.{max_pgn, pgn_of, offst_of, phy_addr}
use hcmut_os_ossim_sierra.Memphy.{Memphy, get_freefp, put_freefp}
use hcmut_os_ossim_sierra.Mm.{Mm, Caller, find_victim_page, enlist_pgn_node}
use hcmut_os_ossim_sierra.Vm.{get_vma_by_num, vma_at}
use hcmut_os_ossim_sierra.Memmap.{ScRegs, swp_op, io_read, io_write, sys_memmap}
use hcmut_os_ossim_sierra.Libmem.{max_symtbl_sz, get_symrg_byid, in_symtbl, set_mm}

-- System call 17 with its operation and arguments.
abbrev pub memmap : List ℕ → Caller → ℕ → ℕ → ℕ → Option (ℕ × ScRegs × Caller)
memmap stale c op a2 a3 = sys_memmap stale c (record { a1 = op; a2 = a2; a3 = a3 })

-- The end of `pg_getpage` for a page that was not present: the two entries and the list of pages.
pub update_entries : Caller → ℕ → ℕ → ℕ → ℕ → ℕ × Caller
update_entries c pgn vicpgn vicfpn swpfpn =
    let vicpte = pte_set_swap (c.mm.pgd vicpgn) c.active_mswp_id swpfpn in
    let pte = set_present (pte_set_fpn (c.mm.pgd pgn) vicfpn) in
    (
      pte,
      set_mm c (record (c.mm) {
        pgd = update (update c.mm.pgd vicpgn vicpte) pgn pte;
        fifo_pgn = enlist_pgn_node c.mm.fifo_pgn pgn;
      }),
    )

-- The two copies through system call 17, each of which may end the function with -1.
pub swap_pages : List ℕ → Caller → ℕ → ℕ → ℕ → Option (ℕ × Caller)
swap_pages stale c vicfpn swpfpn tgtfpn = do
  (out_status, r1, c1) ← memmap stale c swp_op vicfpn swpfpn
  (in_status, r2, c2) ←
      if out_status == 0 then memmap stale c1 swp_op tgtfpn vicfpn else some (out_status, r1, c1)
  some (in_status, c2)

-- The page is not in RAM. The victim and the free swap frame are variables that stay unset if
-- there are none, and both are used: then the behaviour is undefined.
pub bring_in : List ℕ → Caller → ℕ → Option (ℕ × ℕ × Caller)
unfolding update_entries swap_pages
bring_in stale c pgn = do
  let tgtfpn = swp_of (c.mm.pgd pgn)
  let (found, vicpgn, mm) = find_victim_page c.mm 0
  let (got, swpfpn, swp) = get_freefp (c.mswp c.active_mswp) 0
  require (found == 0)
  require (got == 0)
  require (ltb vicpgn max_pgn)
  let vicfpn = fpn_of (mm.pgd vicpgn)
  let c0 = record c { mm = mm; mswp = update c.mswp c.active_mswp swp }
  (status, c') ← swap_pages stale c0 vicfpn swpfpn tgtfpn
  let (pte, c'') = update_entries c' pgn vicpgn vicfpn swpfpn
  some (if status == 0 then (0, fpn_of pte, c'') else (minus_one, 0, c'))

-- The status, `*fpn` and the process.
pub pg_getpage : List ℕ → Caller → ℕ → Option (ℕ × ℕ × Caller)
unfolding bring_in
pg_getpage stale c pgn = do
  require (ltb pgn max_pgn)
  if is_present (c.mm.pgd pgn) then some (0, fpn_of (c.mm.pgd pgn), c) else bring_in stale c pgn

-- The status, `*data` and the process; `data` is what the variable held.
pub pg_getval : List ℕ → Caller → ℕ → ℕ → Option (ℕ × ℕ × Caller)
pg_getval stale c addr data_in = do
  (status, fpn, c') ← pg_getpage stale c (pgn_of addr)
  (status', regs, c'') ←
      if status == 0
      then memmap stale c' io_read (phy_addr fpn (offst_of addr)) 0
      else some (minus_one, record { a1 = 0; a2 = 0; a3 = int_of_byte data_in }, c')
  some (if status' == 0 then (0, byte_of regs.a3, c'') else (minus_one, data_in, c''))

pub pg_setval : List ℕ → Caller → ℕ → ℕ → Option (ℕ × Caller)
pg_setval stale c addr value = do
  (status, fpn, c') ← pg_getpage stale c (pgn_of addr)
  (status', regs, c'') ←
      if status == 0
      then memmap stale c' io_write (phy_addr fpn (offst_of addr)) (int_of_byte value)
      else some (minus_one, record { a1 = 0; a2 = 0; a3 = 0 }, c')
  some (if status' == 0 then 0 else minus_one, c'')

-- The address that a symbol and an offset stand for: `rg_start + offset`, cut to `int`.
abbrev pub region_addr : Mm → ℕ → ℕ → ℕ
region_addr mm rgid offset = u32 ((mm.symrgtbl rgid).rg_start + offset)

-- The symbol, if both it and the area are there; `none` is the answer -1.
pub symbol_of : Mm → ℕ → ℕ → Option (Option ℕ)
symbol_of mm vmaid rgid = do
  place ← get_vma_by_num mm vmaid
  some (elim place [ none ↦ none | some i ↦ get_symrg_byid mm rgid ])

-- `__read`: the status, which is the byte as an `int`, the byte, and the process. The status of
-- `pg_getval` is dropped, and `*data` is read also if it has not been set.
pub read_region : List ℕ → Caller → ℕ → ℕ → ℕ → ℕ → Option (ℕ × ℕ × Caller)
unfolding pg_getval symbol_of
read_region stale c vmaid rgid offset data_in = do
  symbol ← symbol_of c.mm vmaid rgid
  elim symbol [
    | none ↦ some (minus_one, data_in, c)
    | some r ↦ do
      require (in_symtbl r)
      (status, value, c') ← pg_getval stale c (region_addr c.mm r offset) data_in
      some (int_of_byte value, value, c')
  ]

-- `__write`: the status of `pg_setval` is dropped.
pub write_region : List ℕ → Caller → ℕ → ℕ → ℕ → ℕ → Option (ℕ × Caller)
unfolding pg_setval symbol_of
write_region stale c vmaid rgid offset value = do
  symbol ← symbol_of c.mm vmaid rgid
  elim symbol [
    | none ↦ some (minus_one, c)
    | some r ↦ do
      require (in_symtbl r)
      (status, c') ← pg_setval stale c (region_addr c.mm r offset) value
      some (0, c')
  ]

-- The status, `*destination` and the process. `junk` is what the variable for the byte holds before.
pub libread : List ℕ → ℕ → Caller → ℕ → ℕ → Option (ℕ × ℕ × Caller)
unfolding read_region
libread stale junk proc source offset = do
  (val, value, proc') ← read_region stale proc 0 source offset junk
  some (val, int_of_byte value, proc')

pub libwrite : List ℕ → Caller → ℕ → ℕ → ℕ → Option (ℕ × Caller)
unfolding write_region
libwrite stale proc value destination offset = write_region stale proc 0 destination offset value

-- The loop of `free_pcb_memph`, from page `i` on, `n` pages.
pub free_pages : ℕ → ℕ → Caller → Caller
free_pages zero i c = c
free_pages (suc n) i c =
    let pte = c.mm.pgd i in
    let swap = c.active_mswp in
    free_pages n (suc i) (
      if is_present pte
      then record c { mswp = update c.mswp swap (put_freefp (c.mswp swap) (swp_of pte)) }
      else record c { mram = put_freefp c.mram (fpn_of pte) })

pub free_pcb_memph : Caller → Caller
unfolding free_pages
free_pcb_memph c = free_pages max_pgn 0 c
