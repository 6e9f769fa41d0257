-- ===== src/Tests/Mapping.antt =====
-- Frames, pages and the overlap check.
use mathlib.Core.List.{reverse}
use hcmut_os_ossim_sierra.Prelude.{
  ℕ, ◌+◌, ◌*◌, ◌<◌, ◌≡◌, ◌≢◌, refl, true, [], ◌∷◌, ◌++◌, some, arith,
}
use hcmut_os_ossim_sierra.Word.{minus_one}
use hcmut_os_ossim_sierra.Pte.Address.{page_size}
use hcmut_os_ossim_sierra.Mm.{Caller, vm_map_ram}
use hcmut_os_ossim_sierra.Mm.Frames.{moved}
use hcmut_os_ossim_sierra.Mm.Mapping.{mapped, vm_map_ram_lem}
use hcmut_os_ossim_sierra.Mm.Replacement.{CanReplace, vm_map_ram-full, vm_map_ram-no_swap}
use hcmut_os_ossim_sierra.Pte.{is_present, fpn_of, pte_set_swap}
use hcmut_os_ossim_sierra.Vm.{validate_overlap_vm_area, inc_vma_limit}
use hcmut_os_ossim_sierra.Vm.Overlap.{HasArea, validate_overlap-refuses}
use hcmut_os_ossim_sierra.Vm.Limit.{pages_for, grown, inc_vma_limit_lem}
use hcmut_os_ossim_sierra.Tests.Machine.{
  four_pages, four_pages-HasFrame, process, process-HasArea, in_frame_1, in_frame_1-HasFrame,
}

-- One page in use, and the frames 2, 3 and 0 free.
abbrev one_page : Caller
one_page = process (λ _. 0) 256 [] [] (2 ∷ 3 ∷ 0 ∷ [])

one_page-HasArea : HasArea one_page 256
one_page-HasArea = process-HasArea (λ _. 0) 256 [] [] (2 ∷ 3 ∷ 0 ∷ [])

abbrev no_frames : Caller
no_frames = process (λ _. 0) 256 [] [] []

vm_map_ram_example :
    vm_map_ram [] one_page (1 * page_size) 2
    ≡ some (
      0,
      record (moved one_page (0 ∷ []) (reverse (2 ∷ 3 ∷ []) ++ one_page.mram.used_fp_list)) {
        mm = mapped 1 (reverse (2 ∷ 3 ∷ [])) one_page.mm;
      },
    )
vm_map_ram_example = vm_map_ram_lem [] (2 ∷ 3 ∷ []) (0 ∷ []) one_page 1 refl (omega arith)

-- An area of 1 MB.
abbrev large : Caller
large = process (λ _. 0) 1048576 [] [] (2 ∷ 3 ∷ 0 ∷ [])

large-HasArea : HasArea large 1048576
large-HasArea = process-HasArea (λ _. 0) 1048576 [] [] (2 ∷ 3 ∷ 0 ∷ [])

validate_overlap-refuses_example :
    validate_overlap_vm_area large 0 1048576 (1048576 + 2304) ≡ minus_one
validate_overlap-refuses_example =
    validate_overlap-refuses large 1048576 2304 large-HasArea (omega arith) (omega arith)
      (omega arith) (omega arith)

inc_vma_limit_example :
    let g = grown one_page (1 * page_size + pages_for 300 * page_size) [] in
    inc_vma_limit [] one_page 0 300
    ≡ some (
      0,
      record (moved g (0 ∷ []) (reverse (2 ∷ 3 ∷ []) ++ one_page.mram.used_fp_list)) {
        mm = mapped 1 (reverse (2 ∷ 3 ∷ [])) g.mm;
      },
    )
inc_vma_limit_example =
    inc_vma_limit_lem [] (2 ∷ 3 ∷ []) (0 ∷ []) one_page 1 300 (record { free = []; area = refl })
      refl (omega arith) (omega arith) (omega arith) (omega arith)

-- RAM is full; page 0 is the oldest, in frame 1.
abbrev crowded : Caller
crowded = process (λ _. in_frame_1) 256 [] (4 ∷ 0 ∷ []) []

crowded-CanReplace : CanReplace crowded
crowded-CanReplace = record {
  full = refl;
  others = 4 ∷ [];
  victim = 0;
  listed = refl;
  victim_bound = omega arith;
  swpfpn = 2;
  swap_rest = 3 ∷ [];
  free_frame = refl;
  from_ram = in_frame_1-HasFrame 0 [];
  to_swap = four_pages-HasFrame 7 (2 ∷ 3 ∷ []) 2 (omega arith);
}

vm_map_ram-full_example :
    let v = fpn_of in_frame_1 in
    (c' : Caller) × (vm_map_ram [] crowded (1 * page_size) 1 ≡ some (0, c'))
    × ((is_present (c'.mm.pgd 1) ≡ true) × (fpn_of (c'.mm.pgd 1) ≡ v))
    × (c'.mm.fifo_pgn ≡ 1 ∷ 4 ∷ [])
    × (c'.mm.pgd 0 ≡ pte_set_swap in_frame_1 0 2)
    × ((c'.mswp 0).free_fp_list ≡ 3 ∷ [])
    × ((i : ℕ)
        → i < page_size
        → (c'.mswp 0).storage (2 * page_size + i) ≡ crowded.mram.storage (v * page_size + i))
    × ((p : ℕ) → p ≢ 1 → p ≢ 0 → c'.mm.pgd p ≡ in_frame_1)
    × (c'.mram ≡ crowded.mram)
unfolding crowded-CanReplace
vm_map_ram-full_example =
    vm_map_ram-full [] crowded crowded-CanReplace 1 (omega arith) (omega arith) (omega arith)

-- No swap has a free frame either.
abbrev exhausted : Caller
exhausted = record crowded { mswp = λ _. four_pages 7 [] }

vm_map_ram-no_swap_example :
    vm_map_ram [] exhausted (1 * page_size) 2
    ≡ some (minus_one, record exhausted { mm = record (exhausted.mm) { fifo_pgn = 4 ∷ [] } })
vm_map_ram-no_swap_example =
    vm_map_ram-no_swap [] exhausted (4 ∷ []) 0 (1 * page_size) 1 refl refl (omega arith)
      (omega arith) (λ i lt. refl) (omega arith)
