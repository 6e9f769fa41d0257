-- ===== src/Tests/Allocation.antt =====
-- System call 17, and allocating and freeing regions.
use mathlib.Core.List.{reverse}
use mathlib.Core.Option
use hcmut_os_ossim_sierra.Prelude.{
  ℕ, ◌+◌, ◌*◌, ◌-◌, ◌≡◌, refl, ap, ◌∙◌, [], ◌∷◌, some, arith, get_elem?, update,
}
use hcmut_os_ossim_sierra.Word.{minus_one, int_of_byte}
use hcmut_os_ossim_sierra.Pte.{pte_set_fpn}
use hcmut_os_ossim_sierra.Pte.Address.{page_size}
use hcmut_os_ossim_sierra.Mm.{VmRg, Caller}
use hcmut_os_ossim_sierra.Vm.Overlap.{own_area}
use hcmut_os_ossim_sierra.Vm.Limit.{pages_for, inc_vma_limit-refuses}
use hcmut_os_ossim_sierra.Memmap.{ScRegs, inc_op, drop_status, sys_memmap}
use hcmut_os_ossim_sierra.Memmap.Directions.{sys_memmap-inc_op}
use hcmut_os_ossim_sierra.Libmem.{alloc, free}
use hcmut_os_ossim_sierra.Libmem.Regions.{alloc-free}
use hcmut_os_ossim_sierra.Libmem.Paging.{read_region, write_region}
use hcmut_os_ossim_sierra.Libmem.Usable.{alloc-usable}
use hcmut_os_ossim_sierra.Libmem.Alloc.{regions_after, alloc-grows, alloc-refused}
use hcmut_os_ossim_sierra.Tests.Machine.{four_pages-HasFrame, process}

abbrev one_page : Caller
one_page = process (λ _. 0) 256 [] [] (2 ∷ 3 ∷ 0 ∷ [])

-- An area of 1 MB.
abbrev large : Caller
large = process (λ _. 0) 1048576 [] [] (2 ∷ 3 ∷ 0 ∷ [])

-- The call by which `large` asks for 2300 bytes more, which the overlap check refuses.
abbrev ask_more : ScRegs
ask_more = record { a1 = inc_op; a2 = 0; a3 = 2300 }

refused_call : sys_memmap [] large ask_more ≡ some (drop_status ask_more (minus_one, large))
refused_call =
    sys_memmap-inc_op [] large 0 2300
    ∙ ap (Option.map (drop_status ask_more)) (
        inc_vma_limit-refuses [] large 1048576 2300 (record { free = []; area = refl })
          (omega arith) (omega arith) (omega arith) (omega arith))

abbrev small : VmRg
small = record { rg_start = 10; rg_end = 20 }

abbrev wide : VmRg
wide = record { rg_start = 100; rg_end = 200 }

-- Symbol 4 is the region `wide`.
abbrev with_wide : Caller
with_wide = record one_page {
  mm = record (one_page.mm) { symrgtbl = update one_page.mm.symrgtbl 4 wide };
}

alloc-free_example :
    (c' c'' : Caller) × (free [] with_wide 0 4 ≡ some (0, c'))
    × (alloc [] [] c' 0 5 60 0 ≡ some (0, 100, c''))
    × (c''.mm.symrgtbl 5 ≡ record { rg_start = 100; rg_end = 100 + 60 - 1 })
    × (c''.mm.pgd ≡ with_wide.mm.pgd)
    × (c''.mram ≡ with_wide.mram)
alloc-free_example =
    alloc-free [] [] [] with_wide 256 4 5 60 0 (record { free = []; area = refl }) (omega arith)
      (omega arith) (omega arith) (omega arith) (omega arith) (omega arith)

alloc-grows_example :
    let e = 1 * page_size in
    let end = e + pages_for 300 * page_size in
    (c' : Caller) × (alloc [] [] one_page 0 3 300 0 ≡ some (0, e, c'))
    × (c'.mm.symrgtbl 3 ≡ record { rg_start = e; rg_end = e + 300 })
    × (c'.mm.mmap ≡ own_area end (regions_after [] [] (e + 300) end) ∷ [])
    × ((i f : ℕ)
        → get_elem? (reverse (2 ∷ 3 ∷ [])) i ≡ some f
        → c'.mm.pgd (1 + i) ≡ pte_set_fpn (one_page.mm.pgd (1 + i)) f)
    × (c'.mram.free_fp_list ≡ 0 ∷ [])
    × (c'.mswp ≡ one_page.mswp)
    × (c'.mram.maxsz ≡ one_page.mram.maxsz)
    × (c'.mram.rdmflg ≡ one_page.mram.rdmflg)
alloc-grows_example =
    alloc-grows [] (2 ∷ 3 ∷ []) (0 ∷ []) [] one_page 1 3 300 0 (record { free = []; area = refl })
      tt (omega arith) refl (omega arith) (omega arith) (omega arith) (omega arith)

alloc-usable_example :
    (c' c'' : Caller) × (alloc [] [] one_page 0 3 300 0 ≡ some (0, 1 * page_size, c'))
    × (write_region [] c' 0 3 299 77 ≡ some (0, c''))
    × (read_region [] c'' 0 3 299 0 ≡ some (int_of_byte 77, 77, c''))
alloc-usable_example =
    alloc-usable [] (2 ∷ 3 ∷ []) (0 ∷ []) [] one_page 1 3 300 0 299 77 0
      (record { free = []; area = refl }) tt (omega arith) refl (omega arith) (omega arith)
      (omega arith) (λ _. omega arith)
      (
        (four_pages-HasFrame 0 (2 ∷ 3 ∷ 0 ∷ []) 2 (omega arith), omega arith),
        ((four_pages-HasFrame 0 (2 ∷ 3 ∷ 0 ∷ []) 3 (omega arith), omega arith), tt),
      )
      (omega arith) (omega arith)

alloc-refused_example :
    (c' : Caller) × (alloc [] [] large 0 3 2300 0 ≡ some (0, 1048576, c'))
    × (c'.mm.symrgtbl 3 ≡ record { rg_start = 1048576; rg_end = 1048576 + 2300 })
    × (c'.mm.mmap ≡ large.mm.mmap)
    × (c'.mm.pgd ≡ large.mm.pgd)
    × (c'.mram ≡ large.mram)
alloc-refused_example =
    alloc-refused [] [] large 1048576 3 2300 0 (record { free = []; area = refl }) tt (omega arith)
      (omega arith) (omega arith) (omega arith) (omega arith)
