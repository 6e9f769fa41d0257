-- ===== src/Vm.antt =====
-- src/mm-vm.c: the areas of a process. A pointer to an area is its place in `mmap`. The lock around
-- each function makes it one step.
pub mod Overlap
pub mod Limit
pub mod Swap
use mathlib.Core.Option
use hcmut_os_ossim_sierra.Prelude.{
  ℕ, zero, suc, ◌+◌, ◌-◌, ◌*◌, ◌/◌, Bool, true, false, not, ◌&&◌, ◌||◌, Option, none, some, List,
  [], ◌∷◌, ltb, leb, ◌==◌, if◌then◌else◌, update, ◌>>=◌, ◌>>◌, require, get_elem?,
}
use hcmut_os_ossim_sierra.Word.{
  u32, add32, sub32, add64, sub64, mul64, ulong_of_int, is_negative, lt_int, minus_one,
}
use hcmut_os_ossim_sierra.Pte.Address.{page_size}
use hcmut_os_ossim_sierra.Mm.{VmRg, VmArea, Mm, Caller, swap_cp_page, vm_map_ram}

-- `while (vmait < vmaid)` from the area at place `i` on; past the last one, `pvma->vm_id` is read
-- through NULL.
pub find_vma : List VmArea → ℕ → ℕ → Option (Option ℕ)
find_vma [] i vmaid = none
find_vma (a ∷ rest) i vmaid =
    if lt_int (u32 a.vm_id) vmaid then find_vma rest (suc i) vmaid else some (some i)

-- `some none` is the answer NULL.
pub get_vma_by_num : Mm → ℕ → Option (Option ℕ)
unfolding find_vma
get_vma_by_num mm vmaid = elim mm.mmap [ [] ↦ some none | a ∷ rest ↦ find_vma (a ∷ rest) 0 vmaid ]

-- The area behind a pointer that the code reads through without a test.
pub vma_at : Mm → ℕ → Option (ℕ × VmArea)
unfolding get_vma_by_num
vma_at mm vmaid = do
  place ← get_vma_by_num mm vmaid
  i ← place
  a ← get_elem? mm.mmap i
  some (i, a)

abbrev pub set_area : List VmArea → ℕ → VmArea → List VmArea
set_area [] i a = []
set_area (b ∷ bs) zero a = a ∷ bs
set_area (b ∷ bs) (suc i) a = b ∷ set_area bs i a

abbrev pub put_area : Mm → ℕ → VmArea → Mm
put_area mm i a = record mm { mmap = set_area mm.mmap i a }

-- `__mm_swap_page`: always from RAM to the active swap.
pub mm_swap_page : Caller → ℕ → ℕ → Option (ℕ × Caller)
mm_swap_page c vicfpn swpfpn = do
  (ram, swp) ← swap_cp_page c.mram vicfpn (c.mswp c.active_mswp) swpfpn
  some (0, record c { mram = ram; mswp = update c.mswp c.active_mswp swp })

-- The region from the break on; `none` for the answer NULL.
pub get_vm_area_node_at_brk : Caller → ℕ → ℕ → ℕ → Option (Option VmRg)
unfolding get_vma_by_num
get_vm_area_node_at_brk c vmaid size alignedsz = do
  place ← get_vma_by_num c.mm vmaid
  elim place [
    | none ↦ some none
    | some i ↦ do
      a ← get_elem? c.mm.mmap i
      some (some (record { rg_start = a.sbrk; rg_end = add64 a.sbrk (ulong_of_int alignedsz) }))
  ]

-- `(int)(x * y) >= 0`, with the product of two `unsigned long`.
abbrev pub product_ge_zero : ℕ → ℕ → Bool
product_ge_zero x y = not (is_negative (u32 (mul64 x y)))

-- The two tests of the loop of `validate_overlap_vm_area` for one area.
pub is_overlapping : VmArea → ℕ → ℕ → ℕ → Bool
is_overlapping vma vmaid vmastart vmaend =
    not (vma.vm_id == ulong_of_int vmaid)
    && not (vma.vm_start == vma.vm_end)
    && (product_ge_zero (sub64 (ulong_of_int (sub32 vmaend 1)) vma.vm_start)
          (sub64 (sub64 vma.vm_end 1) (ulong_of_int vmastart))
        || product_ge_zero (sub64 (ulong_of_int vmastart) vma.vm_start)
            (sub64 vma.vm_end (ulong_of_int vmaend)))

pub validate_overlap : List VmArea → ℕ → ℕ → ℕ → ℕ
unfolding is_overlapping
validate_overlap [] vmaid vmastart vmaend = 0
validate_overlap (vma ∷ rest) vmaid vmastart vmaend =
    if is_overlapping vma vmaid vmastart vmaend
    then minus_one
    else validate_overlap rest vmaid vmastart vmaend

pub validate_overlap_vm_area : Caller → ℕ → ℕ → ℕ → ℕ
unfolding validate_overlap
validate_overlap_vm_area c vmaid vmastart vmaend = validate_overlap c.mm.mmap vmaid vmastart vmaend

-- `n / 256` on `int`, towards 0.
abbrev pub div_page : ℕ → ℕ
div_page n = if is_negative n then sub32 0 ((4294967296 - n) / page_size) else n / page_size

-- PAGING_PAGE_ALIGNSZ on `int`
abbrev pub page_align : ℕ → ℕ
page_align sz = u32 (div_page (sub32 (add32 sz page_size) 1) * page_size)

-- `if (vm_map_ram(...) < 0) return -1; return 0;`
abbrev pub check_mapped : ℕ × Caller → ℕ × Caller
check_mapped (status, c) = (if is_negative status then minus_one else 0, c)

-- `cur_vma->vm_end` is read before the test of `cur_vma` against NULL, so that test never fails.
-- `stale` is as in `vm_map_ram`.
pub inc_vma_limit : List ℕ → Caller → ℕ → ℕ → Option (ℕ × Caller)
unfolding get_vm_area_node_at_brk validate_overlap_vm_area vma_at
inc_vma_limit stale c vmaid inc_sz = do
  let inc_amt = page_align inc_sz
  let incnumpage = div_page inc_amt
  node ← get_vm_area_node_at_brk c vmaid inc_sz inc_amt
  (i, cur_vma) ← vma_at c.mm vmaid
  area ← node
  let old_end = u32 cur_vma.vm_end
  let grown = record c {
    mm = put_area c.mm i (record cur_vma { sbrk = area.rg_end; vm_end = area.rg_end });
  }
  let status = validate_overlap_vm_area c vmaid (u32 area.rg_start) (u32 area.rg_end)
  if is_negative status
      then some (minus_one, c)
      else Option.map check_mapped (vm_map_ram stale grown old_end incnumpage)
