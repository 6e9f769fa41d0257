-- ===== src/Tests/Machine.antt =====
-- A small machine: RAM of four pages, a swap of four pages, and a process with one area.
use hcmut_os_ossim_sierra.Prelude.{ℕ, ◌+◌, ◌%◌, ◌<◌, ◌≡◌, refl, List, [], ◌∷◌, true, arith}
use hcmut_os_ossim_sierra.Pte.{is_present, fpn_of}
use hcmut_os_ossim_sierra.Pte.Fields.{fpn_of_lem}
use hcmut_os_ossim_sierra.Memphy.{Memphy}
use hcmut_os_ossim_sierra.Mm.{VmRg, Caller}
use hcmut_os_ossim_sierra.Mm.Copy.{HasFrame}
use hcmut_os_ossim_sierra.Vm.Overlap.{HasArea, own_area}

-- A memory of four pages with the frames given free; cell `a` holds the low byte of `a + shift`.
abbrev pub four_pages : ℕ → List ℕ → Memphy
four_pages shift frames = record {
  storage = λ a. (a + shift) % 256;
  maxsz = 1024;
  rdmflg = 1;
  cursor = 0;
  free_fp_list = frames;
  used_fp_list = [];
}

pub four_pages-HasFrame :
    (shift : ℕ) (frames : List ℕ) (fpn : ℕ) → fpn < 4 → HasFrame (four_pages shift frames) fpn
four_pages-HasFrame shift frames fpn h = record {
  random = omega arith;
  small = omega arith;
  inside = omega arith;
}

abbrev pub no_symbols : ℕ → VmRg
no_symbols _ = record { rg_start = 0; rg_end = 0 }

-- A process with `pages` as its page table, an area up to `brk`, and the pages `fifo` listed.
abbrev pub process : (ℕ → ℕ) → ℕ → List VmRg → List ℕ → List ℕ → Caller
process pages brk regions fifo frames = record {
  mm = record {
    pgd = pages;
    mmap = own_area brk regions ∷ [];
    symrgtbl = no_symbols;
    fifo_pgn = fifo;
  };
  mram = four_pages 0 frames;
  mswp = λ _. four_pages 7 (2 ∷ 3 ∷ []);
  active_mswp = 0;
  active_mswp_id = 0;
}

pub process-HasArea :
    (pages : ℕ → ℕ) (brk : ℕ) (regions : List VmRg) (fifo frames : List ℕ)
    → HasArea (process pages brk regions fifo frames) brk
process-HasArea pages brk regions fifo frames = record { free = regions; area = refl }

-- The entry of a page that is in frame 1.
abbrev pub in_frame_1 : ℕ
in_frame_1 = 2147483649

pub in_frame_1-present : is_present in_frame_1 ≡ true
unfolding is_present
in_frame_1-present = refl

pub in_frame_1-HasFrame :
    (shift : ℕ) (frames : List ℕ) → HasFrame (four_pages shift frames) (fpn_of in_frame_1)
in_frame_1-HasFrame shift frames =
    rw (fpn_of_lem in_frame_1) (four_pages-HasFrame shift frames 1 (omega arith))
