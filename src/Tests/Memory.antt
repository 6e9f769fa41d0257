-- ===== src/Tests/Memory.antt =====
-- Physical memories, page table entries, and pages in RAM.
use hcmut_os_ossim_sierra.Prelude.{
  get_elem?, ℕ, ◌+◌, ◌*◌, ◌/◌, ◌%◌, ◌<◌, ◌≡◌, ◌≢◌, refl, [], ◌∷◌, none, some, true, false, arith,
  length, update,
}
use hcmut_os_ossim_sierra.Word.{minus_one, int_of_byte}
use hcmut_os_ossim_sierra.Pte.{
  is_present, is_swapped, fpn_of, swp_of, swptyp_of, pte_set_fpn, pte_set_swap,
}
use hcmut_os_ossim_sierra.Pte.Fields.{swp_of_lem, pte_set_fpn_fields, pte_set_swap_fields}
use hcmut_os_ossim_sierra.Pte.Address.{page_size}
use hcmut_os_ossim_sierra.Memphy.{Memphy, read, write, get_freefp, init_memphy}
use hcmut_os_ossim_sierra.Memphy.Cells.{sequential_refuses}
use hcmut_os_ossim_sierra.Memphy.Frames.{get_frames, init_memphy-get_frames}
use hcmut_os_ossim_sierra.Mm.{Caller}
use hcmut_os_ossim_sierra.Libmem.{max_symtbl_sz}
use hcmut_os_ossim_sierra.Libmem.Paging.{pg_getpage, read_region, write_region, region_addr}
use hcmut_os_ossim_sierra.Libmem.Paging.Swapping.{CanSwap, pg_getpage-absent}
use hcmut_os_ossim_sierra.Libmem.Paging.Access.{
  InRam, cell_of, read_region-write_region, region_bounds,
}
use hcmut_os_ossim_sierra.Tests.Machine.{
  four_pages, four_pages-HasFrame, process, process-HasArea, in_frame_1, in_frame_1-present,
  in_frame_1-HasFrame,
}

abbrev ram : Memphy
ram = four_pages 0 (0 ∷ 1 ∷ [])

abbrev tape : Memphy
tape = record ram { rdmflg = 0 }

sequential_refuses_example :
    (read tape 300 65 ≡ some (minus_one, 65, tape)) × (write tape 300 65 ≡ some (minus_one, tape))
sequential_refuses_example = sequential_refuses tape 300 65 refl

init_memphy-get_frames_example :
    let m = init_memphy [] tape 1024 1 in
    let (fs, last) = get_frames (1024 / page_size) m in
    (length fs ≡ 1024 / page_size)
    × ((i : ℕ) → i < 1024 / page_size → get_elem? fs i ≡ some i)
    × ((get_freefp last 0).0 ≡ minus_one)
init_memphy-get_frames_example = init_memphy-get_frames [] tape 1024 1 (omega arith)

pte_set_fpn_fields_example :
    let p = pte_set_fpn 3221225573 9 in
    (p < 4294967296)
    × (is_present p ≡ true)
    × (is_swapped p ≡ false)
    × (fpn_of p ≡ 9 % 8192)
    × (p / 8192 % 131072 ≡ 3221225573 / 8192 % 131072)
pte_set_fpn_fields_example = pte_set_fpn_fields 3221225573 9 (omega arith)

pte_set_swap_fields_example :
    let p = pte_set_swap 2147483657 2 77 in
    (p < 4294967296)
    × (is_swapped p ≡ true)
    × (swptyp_of p ≡ 2 % 32)
    × (swp_of p ≡ 77 % 2097152)
    × (is_present p ≡ true)
    × (fpn_of p ≡ 77 % 256 * 32 + 2 % 32)
pte_set_swap_fields_example = pte_set_swap_fields 2147483657 2 77 (omega arith)

-- Every page of this process is in frame 1.
abbrev online : Caller
online = process (λ _. in_frame_1) 512 [] (0 ∷ 1 ∷ []) []

online-InRam : InRam online (region_addr online.mm 4 20)
online-InRam = record { present = in_frame_1-present; frame = in_frame_1-HasFrame 0 [] }

read_region-write_region_example :
    let cell = cell_of online (region_addr online.mm 4 20) in
    (c' : Caller) × (write_region [] online 0 4 20 200 ≡ some (0, c'))
    × (read_region [] c' 0 4 20 0 ≡ some (int_of_byte 200, 200, c'))
    × ((a : ℕ) → a ≢ cell → c'.mram.storage a ≡ online.mram.storage a)
    × (c'.mm ≡ online.mm)
    × (c'.mswp ≡ online.mswp)
read_region-write_region_example =
    read_region-write_region [] online 512 4 20 200 0
      (process-HasArea (λ _. in_frame_1) 512 [] (0 ∷ 1 ∷ []) []) (omega arith) online-InRam
      (omega arith)

region_bounds_example :
    (◌≢◌ {A = ℕ} 30 max_symtbl_sz
      → (read_region [] online 0 30 20 0 ≡ some (minus_one, 0, online))
        × (write_region [] online 0 30 20 0 ≡ some (minus_one, online)))
    × (◌≡◌ {A = ℕ} 30 max_symtbl_sz
        → (read_region [] online 0 30 20 0 ≡ none) × (write_region [] online 0 30 20 0 ≡ none))
region_bounds_example =
    region_bounds [] online 512 30 20 0 (process-HasArea (λ _. in_frame_1) 512 [] (0 ∷ 1 ∷ []) [])
      (omega arith)

-- Page 0 is in frame 1, page 1 in frame 3 of the swap.
abbrev in_swap_3 : ℕ
in_swap_3 = 96

abbrev waiting : Caller
waiting = process (update (λ _. in_frame_1) 1 in_swap_3) 512 [] (0 ∷ []) []

in_swap_3-absent : is_present in_swap_3 ≡ false
unfolding is_present
in_swap_3-absent = refl

waiting-CanSwap : CanSwap waiting 1
waiting-CanSwap = record {
  others = [];
  victim = 0;
  listed = refl;
  victim_bound = omega arith;
  swpfpn = 2;
  swap_rest = 3 ∷ [];
  free_frame = refl;
  from_ram = in_frame_1-HasFrame 0 [];
  target_ram = rw (swp_of_lem in_swap_3) (four_pages-HasFrame 0 [] 3 (omega arith));
  to_swap = four_pages-HasFrame 7 (2 ∷ 3 ∷ []) 2 (omega arith);
  victim_swap = in_frame_1-HasFrame 7 (2 ∷ 3 ∷ []);
}

pg_getpage-absent_example :
    let v = fpn_of in_frame_1 in
    (c' : Caller) × (pg_getpage [] waiting 1 ≡ some (0, v, c'))
    × ((is_present (c'.mm.pgd 1) ≡ true) × (fpn_of (c'.mm.pgd 1) ≡ v))
    × (c'.mm.fifo_pgn ≡ 1 ∷ [])
    × (c'.mm.pgd 0 ≡ pte_set_swap in_frame_1 0 2)
    × (v ≢ 2
        → (i : ℕ) → i < page_size
        → (c'.mswp 0).storage (2 * page_size + i) ≡ waiting.mram.storage (v * page_size + i))
    × (c'.mram ≡ waiting.mram)
unfolding waiting-CanSwap
pg_getpage-absent_example =
    pg_getpage-absent [] waiting 1 waiting-CanSwap (omega arith) in_swap_3-absent (omega arith)
      (omega arith)
