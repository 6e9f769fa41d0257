-- ===== src/Libmem/Paging/Access.antt =====
-- `__read` and `__write` on a page that is in RAM.
use hcmut_os_ossim_sierra.Prelude.{
  ℕ, ◌+◌, ◌*◌, ◌≤◌, ◌<◌, ◌≡◌, ◌≢◌, refl, ap, List, true, none, some, arith, lt→ltb, update_self,
  update_ne,
}
use hcmut_os_ossim_sierra.Word.{int_of_byte, byte_of, minus_one}
use hcmut_os_ossim_sierra.Pte.{is_present, fpn_of}
use hcmut_os_ossim_sierra.Pte.Fields.{fpn_of_lem}
use hcmut_os_ossim_sierra.Pte.Address.{
  page_size, max_pgn, pgn_of, offst_of, phy_addr, address_split, phy_addr_split,
}
use hcmut_os_ossim_sierra.Mm.{Caller}
use hcmut_os_ossim_sierra.Mm.Copy.{HasFrame}
use hcmut_os_ossim_sierra.Vm.Overlap.{HasArea}
use hcmut_os_ossim_sierra.Vm.Limit.{get_vma_by_num-own}
use hcmut_os_ossim_sierra.Memmap.Directions.{sys_memmap-io_read, sys_memmap-io_write, stored}
use hcmut_os_ossim_sierra.Libmem.{get_symrg_byid, max_symtbl_sz}
use hcmut_os_ossim_sierra.Libmem.Paging.{
  libread, libwrite, pg_getpage, pg_getval, pg_setval, region_addr, symbol_of, read_region,
  write_region,
}

-- The page of an address is in RAM, in a frame of it.
pub record InRam (c : Caller) (addr : ℕ) : Type 0 where
  pub present : is_present (c.mm.pgd (pgn_of addr)) ≡ true
  pub frame : HasFrame c.mram (fpn_of (c.mm.pgd (pgn_of addr)))

-- The cell of RAM that an address leads to.
abbrev pub cell_of : Caller → ℕ → ℕ
cell_of c addr = fpn_of (c.mm.pgd (pgn_of addr)) * page_size + offst_of addr

getpage_present :
    (stale : List ℕ) (c : Caller) (addr : ℕ)
    → InRam c addr
    → pg_getpage stale c (pgn_of addr) ≡ some (0, fpn_of (c.mm.pgd (pgn_of addr)), c)
unfolding pg_getpage
getpage_present stale c addr h =
    let split = address_split addr in rw (lt→ltb (pgn_of addr) max_pgn split.0, h.present)

phy_cell :
    (c : Caller) (addr : ℕ)
    → InRam c addr
    → phy_addr (fpn_of (c.mm.pgd (pgn_of addr))) (offst_of addr) ≡ cell_of c addr
phy_cell c addr h =
    (phy_addr_split (fpn_of (c.mm.pgd (pgn_of addr))) (offst_of addr)
      (omega (arith, fpn_of_lem (c.mm.pgd (pgn_of addr)))) (address_split addr).1).0

cell_bound : (c : Caller) (addr : ℕ) → InRam c addr → cell_of c addr < c.mram.maxsz
cell_bound c addr h = let split = address_split addr in omega (arith, split.1, h.frame.inside)

pub pg_getval_lem :
    (stale : List ℕ) (c : Caller) (addr old : ℕ)
    → InRam c addr
    → c.mram.storage (cell_of c addr) < 256
    → pg_getval stale c addr old ≡ some (0, c.mram.storage (cell_of c addr), c)
unfolding pg_getval
pg_getval_lem stale c addr old h byte =
    let value = c.mram.storage (cell_of c addr) in
    let narrow : byte_of (int_of_byte value) ≡ value = ground arith in
    rw (
      getpage_present stale c addr h,
      phy_cell c addr h,
      sys_memmap-io_read stale c (cell_of c addr) 0 h.frame.random (cell_bound c addr h),
      narrow,
    )

pub pg_setval_lem :
    (stale : List ℕ) (c : Caller) (addr value : ℕ)
    → InRam c addr
    → value < 256
    → pg_setval stale c addr value ≡ some (0, stored c (cell_of c addr) value)
unfolding pg_setval
pg_setval_lem stale c addr value h byte =
    let narrow : byte_of (int_of_byte value) ≡ value = ground arith in
    rw (
      getpage_present stale c addr h,
      phy_cell c addr h,
      sys_memmap-io_write stale c (cell_of c addr) (int_of_byte value) h.frame.random
          (cell_bound c addr h),
      narrow,
    )

symbol_of-own :
    (c : Caller) (e rgid : ℕ)
    → HasArea c e
    → rgid < max_symtbl_sz
    → symbol_of c.mm 0 rgid ≡ some (some rgid)
unfolding symbol_of get_symrg_byid
symbol_of-own c e rgid h lt = rw (get_vma_by_num-own c e h) (ground arith)

-- Writing a byte through a region and reading it back, on a process with its one area and with the
-- page in RAM: both calls are defined; the read answers the byte, also as the status, with its sign
-- extended; the write reports success and changes the one cell of RAM that the page table leads to,
-- and nothing else of RAM, of the swaps or of the process.
pub read_region-write_region :
    (stale : List ℕ) (c : Caller) (e rgid offset value old : ℕ)
    → HasArea c e
    → rgid < max_symtbl_sz
    → InRam c (region_addr c.mm rgid offset)
    → value < 256
    → let cell = cell_of c (region_addr c.mm rgid offset) in
      (c' : Caller) × (write_region stale c 0 rgid offset value ≡ some (0, c'))
      × (read_region stale c' 0 rgid offset old ≡ some (int_of_byte value, value, c'))
      × ((a : ℕ) → a ≢ cell → c'.mram.storage a ≡ c.mram.storage a)
      × (c'.mm ≡ c.mm)
      × (c'.mswp ≡ c.mswp)
unfolding read_region write_region
read_region-write_region stale c e rgid offset value old h lt ram byte =
    let addr = region_addr c.mm rgid offset in
    let cell = cell_of c addr in
    let c' = stored c cell value in
    let back : c'.mram.storage cell ≡ value = update_self c.mram.storage cell value in
    let ram' : InRam c' addr = record {
      present = ram.present;
      frame = record {
        random = ram.frame.random;
        small = ram.frame.small;
        inside = ram.frame.inside;
      };
    } in
    (
      c',
      rw (
        symbol_of-own c e rgid h lt,
        lt→ltb rgid max_symtbl_sz lt,
        pg_setval_lem stale c addr value ram byte,
      ),
      rw
          (
            symbol_of-own c e rgid h lt,
            lt→ltb rgid max_symtbl_sz lt,
            pg_getval_lem stale c' addr old ram' (omega (arith, back)),
          )
          (ap (λ (v : ℕ). some (int_of_byte v, v, c')) back),
      λ a ne. update_ne c.mram.storage cell a value ne,
      refl,
      refl,
    )

pub libread-libwrite :
    (stale : List ℕ) (junk : ℕ) (c : Caller) (e rgid offset value : ℕ)
    → HasArea c e
    → rgid < max_symtbl_sz
    → InRam c (region_addr c.mm rgid offset)
    → value < 256
    → (c' : Caller) × (libwrite stale c value rgid offset ≡ some (0, c'))
      × (libread stale junk c' rgid offset ≡ some (int_of_byte value, int_of_byte value, c'))
unfolding libread libwrite
libread-libwrite stale junk c e rgid offset value h lt ram byte =
    let (c', written, back, others, same_mm, same_swap) =
      read_region-write_region stale c e rgid offset value junk h lt ram byte in
    (c', written, rw back)

-- Reading a byte on a page in RAM changes nothing.
pub libread_lem :
    (stale : List ℕ) (junk : ℕ) (c : Caller) (e rgid offset : ℕ)
    → HasArea c e
    → rgid < max_symtbl_sz
    → InRam c (region_addr c.mm rgid offset)
    → c.mram.storage (cell_of c (region_addr c.mm rgid offset)) < 256
    → let value = c.mram.storage (cell_of c (region_addr c.mm rgid offset)) in
      libread stale junk c rgid offset ≡ some (int_of_byte value, int_of_byte value, c)
unfolding libread read_region
libread_lem stale junk c e rgid offset h lt ram byte = rw (
  symbol_of-own c e rgid h lt,
  lt→ltb rgid max_symtbl_sz lt,
  pg_getval_lem stale c (region_addr c.mm rgid offset) junk ram byte,
)

-- The indices of regions: below 0 and above 30 `__read` and `__write` answer -1 and change nothing;
-- but 30 passes the test for a table of 30 entries, and both calls read past its end.
pub region_bounds :
    (stale : List ℕ) (c : Caller) (e rgid offset value : ℕ)
    → HasArea c e
    → max_symtbl_sz ≤ rgid
    → (rgid ≢ max_symtbl_sz
        → (read_region stale c 0 rgid offset value ≡ some (minus_one, value, c))
          × (write_region stale c 0 rgid offset value ≡ some (minus_one, c)))
      × (rgid ≡ max_symtbl_sz
          → (read_region stale c 0 rgid offset value ≡ none)
            × (write_region stale c 0 rgid offset value ≡ none))
unfolding read_region write_region symbol_of get_symrg_byid
region_bounds stale c e rgid offset value h le = (
  λ ne.
      (rw (get_vma_by_num-own c e h) (ground arith), rw (get_vma_by_num-own c e h) (ground arith)),
  λ eq.
      (rw (get_vma_by_num-own c e h) (ground arith), rw (get_vma_by_num-own c e h) (ground arith)),
)
