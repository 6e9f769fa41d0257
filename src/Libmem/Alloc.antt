-- ===== src/Libmem/Alloc.antt =====
-- `__alloc` when no free region fits: the area grows, or does not.
use mathlib.Core.List.{reverse}
use hcmut_os_ossim_sierra.Prelude.{
  ℕ, suc, ◌+◌, ◌*◌, ◌≤◌, ◌<◌, ◌≡◌, refl, sym, ap, update_self, ◌∙◌, List, [], ◌∷◌, ◌++◌, Option,
  none, some, arith, All, length, get_elem?, ltb, lt→ltb, if◌then◌else◌, ◌>>=◌,
}
use hcmut_os_ossim_sierra.Word.{add32, ulong_of_int, u32, minus_one}
use hcmut_os_ossim_sierra.Pte.{pte_set_fpn}
use hcmut_os_ossim_sierra.Pte.Address.{page_size, max_pgn}
use hcmut_os_ossim_sierra.Mm.{VmRg, VmArea, Mm, Caller}
use hcmut_os_ossim_sierra.Mm.Frames.{moved}
use hcmut_os_ossim_sierra.Mm.Mapping.{mapped, mapped_one, pgd-mapped_in}
use hcmut_os_ossim_sierra.Vm.Overlap.{HasArea, own_area}
use hcmut_os_ossim_sierra.Vm.Limit.{
  pages_for, vma_at-own, grown, inc_vma_limit_lem, inc_vma_limit-refuses,
}
use hcmut_os_ossim_sierra.Memmap.Directions.{sys_memmap-inc_op}
use hcmut_os_ossim_sierra.Libmem.{
  max_symtbl_sz, set_mm, link_region, enlist_vm_freerg_list, first_fit, set_symbol, symbol_at,
  enlist_rest, commit_alloc, alloc_at_brk, alloc,
}
use hcmut_os_ossim_sierra.Libmem.Regions.{TooSmall, first_fit_lem, get_free_vmrg_area-own}
use hcmut_os_ossim_sierra.Vm.{inc_vma_limit}

mmap-mapped : (fs : List ℕ) (base : ℕ) (mm : Mm) → (mapped base fs mm).mmap ≡ mm.mmap
mmap-mapped [] base mm = refl
mmap-mapped (f ∷ fs) base mm = mmap-mapped fs (suc base) (mapped_one base f mm)

-- The free regions when the area ends at `e` and the new symbol at `cut`.
abbrev pub regions_after : List VmRg → List VmRg → ℕ → ℕ → List VmRg
regions_after stale_rg free cut e =
    if ltb cut e then link_region stale_rg free (record { rg_start = cut; rg_end = e }) else free

enlist_rest-own :
    (stale_rg free : List VmRg) (mm : Mm) (e cut : ℕ)
    → cut < 2147483648
    → enlist_rest stale_rg (record mm { mmap = own_area e free ∷ [] }) cut e
      ≡ some (record mm { mmap = own_area e (regions_after stale_rg free cut e) ∷ [] })
unfolding enlist_rest enlist_vm_freerg_list
enlist_rest-own stale_rg free mm e cut small = ground arith

-- The end of `commit_alloc`, by what it computes first.
abbrev commit : List VmRg → Caller → Mm → ℕ → VmRg → ℕ → ℕ → Option (ℕ × ℕ × Caller)
commit stale_rg c mm rgid symbol cut old_sbrk = get_elem? mm.mmap 0 >>= λ v.
    enlist_rest stale_rg (set_symbol mm rgid symbol) cut v.vm_end >>= λ mm'.
    some (0, old_sbrk, set_mm c mm')

commit_alloc_lem :
    (stale_rg : List VmRg) (c : Caller) (e rgid size old_sbrk : ℕ) (h : HasArea c e)
    → rgid < max_symtbl_sz
    → old_sbrk + size < 2147483648
    → commit_alloc stale_rg c 0 rgid size old_sbrk
      ≡ some (
        0,
        old_sbrk,
        set_mm c (
            set_symbol
              (record (c.mm) {
                mmap = own_area e (regions_after stale_rg h.free (old_sbrk + size) e) ∷ [];
              })
              rgid
              (record { rg_start = old_sbrk; rg_end = old_sbrk + size })),
      )
unfolding commit_alloc
commit_alloc_lem stale_rg c e rgid size old_sbrk h lt small =
    let cut : add32 old_sbrk size ≡ old_sbrk + size = omega arith in
    let end : ulong_of_int (old_sbrk + size) ≡ old_sbrk + size = ground arith in
    let start : ulong_of_int old_sbrk ≡ old_sbrk = ground arith in
    let symbol : symbol_at old_sbrk size
        ≡ record { rg_start = old_sbrk; rg_end = old_sbrk + size } =
      ap (λ (x : ℕ). record { rg_start = ulong_of_int old_sbrk; rg_end = ulong_of_int x }) cut
      ∙ ap (λ (x : ℕ). record { rg_start = x; rg_end = ulong_of_int (old_sbrk + size) }) start
      ∙ ap (λ (x : ℕ). record { rg_start = old_sbrk; rg_end = x }) end in
    let symbol' : VmRg = record { rg_start = old_sbrk; rg_end = old_sbrk + size } in
    let mm' = set_symbol c.mm rgid symbol' in
    rw (lt→ltb rgid max_symtbl_sz lt) (
      ap (λ (r : VmRg). commit stale_rg c c.mm rgid r (add32 old_sbrk size) old_sbrk) symbol
      ∙ ap (λ (x : ℕ). commit stale_rg c c.mm rgid symbol' x old_sbrk) cut
      ∙ ap
          (λ (ms : List VmArea).
            commit stale_rg c (record (c.mm) { mmap = ms }) rgid symbol' (old_sbrk + size) old_sbrk)
          h.area
      ∙ ap (λ (o : Option Mm). o >>= λ m. some (0, old_sbrk, set_mm c m))
          (enlist_rest-own stale_rg h.free mm' e (old_sbrk + size) small))

-- The allocation goes to the break when no free region is large enough.
no_region :
    (stale : List ℕ) (stale_rg : List VmRg) (c : Caller) (e rgid size addr : ℕ) (h : HasArea c e)
    → All (TooSmall size) h.free
    → size < 2147483648
    → alloc stale stale_rg c 0 rgid size addr ≡ alloc_at_brk stale stale_rg c 0 rgid size addr
unfolding alloc
no_region stale stale_rg c e rgid size addr h small lt =
    let same : ulong_of_int size ≡ size = ground arith in
    let none_fits : first_fit h.free (ulong_of_int size) ≡ none =
      ap (first_fit h.free) same
      ∙ (first_fit_lem h.free [] (record { rg_start = 0; rg_end = 0 }) size small).1 in
    rw (get_free_vmrg_area-own c e size h, none_fits)

-- The allocation at the break `e` once the system call has returned.
at_brk_lem :
    (stale : List ℕ) (stale_rg : List VmRg) (c : Caller) (e rgid size addr : ℕ) (status : ℕ)
    (c' : Caller)
    → HasArea c e
    → e < 2147483648
    → inc_vma_limit stale c 0 size ≡ some (status, c')
    → alloc_at_brk stale stale_rg c 0 rgid size addr ≡ commit_alloc stale_rg c' 0 rgid size e
unfolding alloc_at_brk
at_brk_lem stale stale_rg c e rgid size addr status c' h small inc =
    let brk : u32 e ≡ e = omega arith in
    rw (vma_at-own c e h, sys_memmap-inc_op stale c 0 size, inc)
      (ap (commit_alloc stale_rg c' 0 rgid size) brk)

-- `__alloc` on a process whose area ends at a page, when no free region fits, RAM has a free frame
-- for each page needed, and the overlap check accepts the size. It succeeds with the old break as
-- the address; the symbol is the `size` bytes from there; the area ends at the fewest whole pages
-- that hold them, and what is left over is a free region; each new page has one of the frames taken,
-- which have left the free list; the swaps are as before, and so are the size and mode of RAM.
pub alloc-grows :
    (stale fs rest : List ℕ) (stale_rg : List VmRg) (c : Caller) (base rgid size addr : ℕ)
    (h : HasArea c (base * page_size))
    → All (TooSmall size) h.free
    → rgid < max_symtbl_sz
    → c.mram.free_fp_list ≡ fs ++ rest
    → length fs ≡ pages_for size
    → 0 < size
    → base + pages_for size ≤ max_pgn
    → base * page_size * (pages_for size * page_size) ≤ 2147483648
    → let e = base * page_size in
      let end = e + pages_for size * page_size in
      (c' : Caller) × (alloc stale stale_rg c 0 rgid size addr ≡ some (0, e, c'))
      × (c'.mm.symrgtbl rgid ≡ record { rg_start = e; rg_end = e + size })
      × (c'.mm.mmap ≡ own_area end (regions_after stale_rg h.free (e + size) end) ∷ [])
      × ((i f : ℕ)
          → get_elem? (reverse fs) i ≡ some f
          → c'.mm.pgd (base + i) ≡ pte_set_fpn (c.mm.pgd (base + i)) f)
      × (c'.mram.free_fp_list ≡ rest)
      × (c'.mswp ≡ c.mswp)
      × (c'.mram.maxsz ≡ c.mram.maxsz)
      × (c'.mram.rdmflg ≡ c.mram.rdmflg)
alloc-grows stale fs rest stale_rg c base rgid size addr h small lt free len pos fits product =
    let e = base * page_size in
    let end = e + pages_for size * page_size in
    let g = grown c end h.free in
    let used = reverse fs ++ c.mram.used_fp_list in
    let c1 = record (moved g rest used) { mm = mapped base (reverse fs) g.mm } in
    let h1 : HasArea c1 end = record { free = h.free; area = mmap-mapped (reverse fs) base g.mm } in
    let symbol : VmRg = record { rg_start = e; rg_end = e + size } in
    (
      set_mm c1 (
          set_symbol
            (record (c1.mm) {
              mmap = own_area end (regions_after stale_rg h.free (e + size) end) ∷ [];
            })
            rgid symbol),
      no_region stale stale_rg c e rgid size addr h small (omega arith)
          ∙ at_brk_lem stale stale_rg c e rgid size addr 0 c1 h (omega arith)
              (inc_vma_limit_lem stale fs rest c base size h free len pos fits product)
          ∙ commit_alloc_lem stale_rg c1 end rgid size e h1 lt (omega arith),
      update_self c1.mm.symrgtbl rgid symbol,
      refl,
      λ i f at. pgd-mapped_in base (reverse fs) g.mm i f at,
      refl,
      refl,
      refl,
      refl,
    )

-- `__alloc` when no free region fits and the overlap check refuses the size: the area, the pages and
-- RAM stay as they were, but the call reports success, and the symbol is `size` bytes past the end
-- of the area.
pub alloc-refused :
    (stale : List ℕ) (stale_rg : List VmRg) (c : Caller) (e rgid size addr : ℕ) (h : HasArea c e)
    → All (TooSmall size) h.free
    → rgid < max_symtbl_sz
    → e + pages_for size * page_size < 2147480000
    → 0 < size
    → 2147483648 < e * (pages_for size * page_size)
    → e * (pages_for size * page_size) ≤ 4294967296
    → (c' : Caller) × (alloc stale stale_rg c 0 rgid size addr ≡ some (0, e, c'))
      × (c'.mm.symrgtbl rgid ≡ record { rg_start = e; rg_end = e + size })
      × (c'.mm.mmap ≡ c.mm.mmap)
      × (c'.mm.pgd ≡ c.mm.pgd)
      × (c'.mram ≡ c.mram)
alloc-refused stale stale_rg c e rgid size addr h small lt bound pos lo hi =
    let symbol : VmRg = record { rg_start = e; rg_end = e + size } in
    let free_same : regions_after stale_rg h.free (e + size) e ≡ h.free = ground arith in
    (
      set_mm c (
          set_symbol
            (record (c.mm) { mmap = own_area e (regions_after stale_rg h.free (e + size) e) ∷ [] })
            rgid symbol),
      no_region stale stale_rg c e rgid size addr h small (omega arith)
          ∙ at_brk_lem stale stale_rg c e rgid size addr minus_one c h (omega arith)
              (inc_vma_limit-refuses stale c e size h bound pos lo hi)
          ∙ commit_alloc_lem stale_rg c e rgid size e h lt (omega arith),
      update_self c.mm.symrgtbl rgid symbol,
      ap (λ (free : List VmRg). own_area e free ∷ []) free_same ∙ sym h.area,
      refl,
      refl,
    )
