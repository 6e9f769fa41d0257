-- ===== src/Vm/Limit.antt =====
-- `inc_vma_limit`: how a process gets more memory.
use mathlib.Core.List.{reverse}
use mathlib.Core.Option
use hcmut_os_ossim_sierra.Prelude.{
  ℕ, ◌+◌, ◌*◌, ◌/◌, ◌≤◌, ◌<◌, ◌≡◌, sym, ap, ap₂, ◌∙◌, List, [], ◌∷◌, ◌++◌, Option, some, arith,
  length, if◌then◌else◌,
}
use hcmut_os_ossim_sierra.Word.{u32, minus_one, is_negative}
use hcmut_os_ossim_sierra.Pte.Address.{page_size, max_pgn}
use hcmut_os_ossim_sierra.Mm.{VmRg, VmArea, Caller, vm_map_ram}
use hcmut_os_ossim_sierra.Mm.Frames.{moved}
use hcmut_os_ossim_sierra.Mm.Mapping.{mapped, vm_map_ram_lem}
use hcmut_os_ossim_sierra.Vm.{
  page_align, div_page, get_vma_by_num, find_vma, vma_at, get_vm_area_node_at_brk, inc_vma_limit,
  check_mapped, set_area, validate_overlap_vm_area,
}
use hcmut_os_ossim_sierra.Vm.Overlap.{
  HasArea, own_area, validate_overlap-ok, validate_overlap-refuses,
}

-- The number of pages that hold `sz` bytes.
abbrev pub pages_for : ℕ → ℕ
pages_for sz = (sz + 255) / 256

pub page_align_lem :
    (sz : ℕ)
    → sz < 2147483000
    → (page_align sz ≡ pages_for sz * page_size) × (div_page (page_align sz) ≡ pages_for sz)
page_align_lem sz h = ground arith

pub get_vma_by_num-own : (c : Caller) (e : ℕ) → HasArea c e → get_vma_by_num c.mm 0 ≡ some (some 0)
unfolding get_vma_by_num find_vma
get_vma_by_num-own c e h = rw (h.area, get_vma_by_num)

pub vma_at-own :
    (c : Caller) (e : ℕ) (h : HasArea c e) → vma_at c.mm 0 ≡ some (0, own_area e h.free)
unfolding vma_at
vma_at-own c e h = rw (get_vma_by_num-own c e h, h.area)

node-own :
    (c : Caller) (e sz amt : ℕ)
    → HasArea c e
    → e + amt < 2147483648
    → get_vm_area_node_at_brk c 0 sz amt ≡ some (some (record { rg_start = e; rg_end = e + amt }))
unfolding get_vm_area_node_at_brk
node-own c e sz amt h s =
    rw (get_vma_by_num-own c e h, h.area)
      (ap (λ (x : ℕ). some (some (record { rg_start = e; rg_end = x }))) (ground arith))

-- The process with its area grown to the break `e`.
abbrev pub grown : Caller → ℕ → List VmRg → Caller
grown c e free = record c { mm = record (c.mm) { mmap = own_area e free ∷ [] } }

-- The end of `inc_vma_limit`, by what it hands to the check and to the mapping.
abbrev attempt : List ℕ → Caller → Caller → ℕ → ℕ → ℕ → ℕ → Option (ℕ × Caller)
attempt stale c g low high old_end n =
    if is_negative (validate_overlap_vm_area c 0 low high)
    then some (minus_one, c)
    else Option.map check_mapped (vm_map_ram stale g old_end n)

-- `inc_vma_limit` on the range of whole pages that it asks for, before the pages are mapped.
inc_vma_limit_step :
    (stale : List ℕ) (c : Caller) (e sz : ℕ) (h : HasArea c e)
    → e + pages_for sz * page_size < 2147483648
    → sz < 2147483000
    → inc_vma_limit stale c 0 sz ≡ (
        if is_negative (validate_overlap_vm_area c 0 e (e + pages_for sz * page_size))
        then some (minus_one, c)
        else Option.map check_mapped
            (vm_map_ram stale (grown c (e + pages_for sz * page_size) h.free) e (pages_for sz)))
unfolding inc_vma_limit
inc_vma_limit_step stale c e sz h s small =
    let (p0, p1) = page_align_lem sz small in
    let amt = pages_for sz * page_size in
    let node : get_vm_area_node_at_brk c 0 sz (page_align sz)
        ≡ some (some (record { rg_start = e; rg_end = e + amt })) =
      ap (λ (n : ℕ). get_vm_area_node_at_brk c 0 sz n) p0 ∙ node-own c e sz amt h s in
    let low : u32 e ≡ e = omega arith in
    let high : u32 (e + amt) ≡ e + amt = omega arith in
    let g = grown c (e + amt) h.free in
    rw (node, vma_at-own c e h)
      (ap
          (λ (ms : List VmArea).
            attempt stale c
              (record c { mm = record (c.mm) { mmap = set_area ms 0 (own_area (e + amt) h.free) } })
              (u32 e) (u32 (e + amt)) (u32 e) (div_page (page_align sz)))
          h.area
        ∙ ap₂ (λ (x y : ℕ). attempt stale c g x y (u32 e) (div_page (page_align sz))) low high
        ∙ ap₂ (λ (x y : ℕ). attempt stale c g e (e + amt) x y) low p1)

-- `inc_vma_limit` on a process whose area ends at a page, with enough free frames in RAM and while
-- the overlap check accepts the size: it succeeds, the area grows by the fewest whole pages that
-- hold `sz` bytes, and the new pages are mapped to the frames taken, the last frame first.
pub inc_vma_limit_lem :
    (stale fs rest : List ℕ) (c : Caller) (base sz : ℕ) (h : HasArea c (base * page_size))
    → c.mram.free_fp_list ≡ fs ++ rest
    → length fs ≡ pages_for sz
    → 0 < sz
    → base + pages_for sz ≤ max_pgn
    → base * page_size * (pages_for sz * page_size) ≤ 2147483648
    → let g = grown c (base * page_size + pages_for sz * page_size) h.free in
      inc_vma_limit stale c 0 sz
      ≡ some (
        0,
        record (moved g rest (reverse fs ++ c.mram.used_fp_list)) {
          mm = mapped base (reverse fs) g.mm;
        },
      )
inc_vma_limit_lem stale fs rest c base sz h free len pos fits small =
    let e = base * page_size in
    let g = grown c (e + pages_for sz * page_size) h.free in
    inc_vma_limit_step stale c e sz h (omega arith) (omega arith)
    ∙ ap
        (λ (v : ℕ).
          if is_negative v
          then some (minus_one, c)
          else Option.map check_mapped (vm_map_ram stale g e (pages_for sz)))
        (validate_overlap-ok c e (pages_for sz * page_size) h (omega arith) (omega arith) small)
    ∙ ap (λ (n : ℕ). Option.map check_mapped (vm_map_ram stale g e n)) (sym len)
    ∙ ap (Option.map check_mapped) (vm_map_ram_lem stale fs rest g base free (omega arith))

-- When the overlap check refuses the size, nothing changes, however much memory is free.
pub inc_vma_limit-refuses :
    (stale : List ℕ) (c : Caller) (e sz : ℕ)
    → HasArea c e
    → e + pages_for sz * page_size < 2147480000
    → 0 < sz
    → 2147483648 < e * (pages_for sz * page_size)
    → e * (pages_for sz * page_size) ≤ 4294967296
    → inc_vma_limit stale c 0 sz ≡ some (minus_one, c)
inc_vma_limit-refuses stale c e sz h s pos lo hi =
    let g = grown c (e + pages_for sz * page_size) h.free in
    inc_vma_limit_step stale c e sz h (omega arith) (omega arith)
    ∙ ap
        (λ (v : ℕ).
          if is_negative v
          then some (minus_one, c)
          else Option.map check_mapped (vm_map_ram stale g e (pages_for sz)))
        (validate_overlap-refuses c e (pages_for sz * page_size) h (omega arith) (omega arith) lo
          hi)
