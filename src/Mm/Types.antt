-- ===== src/Mm/Types.antt =====
-- The types of include/os-mm.h that belong to a process, and the functions of src/mm.c that make
-- them.
use hcmut_os_ossim_sierra.Prelude.{ℕ, List, [], ◌∷◌}
use hcmut_os_ossim_sierra.Word.{ulong_of_int}
use hcmut_os_ossim_sierra.Memphy.{Memphy}

pub record VmRg : Type 0 where
  pub rg_start : ℕ
  pub rg_end : ℕ

pub record VmArea : Type 0 where
  pub vm_id : ℕ
  pub vm_start : ℕ
  pub vm_end : ℕ
  pub sbrk : ℕ
  pub vm_freerg_list : List VmRg

-- `pgd` has PAGING_MAX_PGN entries and `symrgtbl` PAGING_MAX_SYMTBL_SZ.
pub record Mm : Type 0 where
  pub pgd : ℕ → ℕ
  pub mmap : List VmArea
  pub symrgtbl : ℕ → VmRg
  pub fifo_pgn : List ℕ

-- The memory side of `struct pcb_t`: its own `mm`, and the memories of the machine that its pointers
-- lead to. `active_mswp` is the index of the swap in `mswp` that the pointer of that name is.
pub record Caller : Type 0 where
  pub mm : Mm
  pub mram : Memphy
  pub mswp : ℕ → Memphy
  pub active_mswp : ℕ
  pub active_mswp_id : ℕ

abbrev pub max_mmswp : ℕ
max_mmswp = 4

pub init_vm_rg : ℕ → ℕ → VmRg
init_vm_rg rg_start rg_end = record {
  rg_start = ulong_of_int rg_start;
  rg_end = ulong_of_int rg_end;
}

pub enlist_vm_rg_node : List VmRg → VmRg → List VmRg
enlist_vm_rg_node rglist rgnode = rgnode ∷ rglist

-- `malloc` gives the page table, the area and its list with any content: `raw` and `stale_list` are
-- what was in memory. The symbol table and the list of pages are not set here.
pub init_mm : (ℕ → ℕ) → List VmRg → Mm → Mm
unfolding init_vm_rg enlist_vm_rg_node
init_mm raw stale_list mm = record mm {
  pgd = raw;
  mmap =
      record {
        vm_id = 1;
        vm_start = 0;
        vm_end = 0;
        sbrk = 0;
        vm_freerg_list = enlist_vm_rg_node stale_list (init_vm_rg 0 0);
      }
      ∷ [];
}
