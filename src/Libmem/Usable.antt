-- ===== src/Libmem/Usable.antt =====
-- Memory that has been allocated can be used.
use mathlib.Core.List.{reverse, reverse-cons}
use hcmut_os_ossim_sierra.Prelude.{
  ℕ, zero, suc, ◌+◌, ◌*◌, ◌/◌, ◌≤◌, ◌<◌, ◌≡◌, refl, sym, ap, subst, ◌∙◌, List, [], ◌∷◌, ◌++◌, some,
  arith, length, get_elem?, All, All-append,
}
use hcmut_os_ossim_sierra.Word.{int_of_byte}
use hcmut_os_ossim_sierra.Pte.{is_present, fpn_of, pte_set_fpn}
use hcmut_os_ossim_sierra.Pte.Fields.{pte_set_fpn_fields}
use hcmut_os_ossim_sierra.Pte.Address.{page_size, max_pgn, pgn_of, pgn_of_lem}
use hcmut_os_ossim_sierra.Memphy.{Memphy}
use hcmut_os_ossim_sierra.Mm.{VmRg, Caller}
use hcmut_os_ossim_sierra.Mm.Copy.{HasFrame}
use hcmut_os_ossim_sierra.Mm.Mapping.{length-reverse}
use hcmut_os_ossim_sierra.Vm.Overlap.{HasArea}
use hcmut_os_ossim_sierra.Vm.Limit.{pages_for}
use hcmut_os_ossim_sierra.Libmem.{max_symtbl_sz, alloc}
use hcmut_os_ossim_sierra.Libmem.Regions.{TooSmall}
use hcmut_os_ossim_sierra.Libmem.Alloc.{regions_after, alloc-grows}
use hcmut_os_ossim_sierra.Libmem.Paging.{region_addr, read_region, write_region}
use hcmut_os_ossim_sierra.Libmem.Paging.Access.{InRam, read_region-write_region}

-- A frame of RAM whose number fits the field of an entry.
abbrev pub IsFrame : Memphy → ℕ → Type 0
IsFrame mp f = HasFrame mp f × (f < 8192)

All-reverse : (P : ℕ → Type 0) (xs : List ℕ) → All P xs → All P (reverse xs)
All-reverse P [] h = tt
All-reverse P (x ∷ xs) h =
    subst (All P) (sym (reverse-cons x xs))
      (All-append P (reverse xs) (x ∷ []) (All-reverse P xs h.1) (h.0, tt))

All-get_elem? :
    {P : ℕ → Type 0} (xs : List ℕ) (i : ℕ)
    → All P xs
    → i < length xs
    → (x : ℕ) × (get_elem? xs i ≡ some x) × P x
All-get_elem? [] i h lt = absurd (omega arith)
All-get_elem? (x ∷ xs) zero h lt = (x, refl, h.0)
All-get_elem? (x ∷ xs) (suc i) h lt = All-get_elem? xs i h.1 (omega arith)

-- A page whose entry has just been given a frame.
mapped-InRam :
    (c : Caller) (addr page old f : ℕ)
    → pgn_of addr ≡ page
    → c.mm.pgd page ≡ pte_set_fpn old f
    → old < 4294967296
    → IsFrame c.mram f
    → InRam c addr
mapped-InRam c addr page old f at entry word frame =
    let fields = pte_set_fpn_fields old f word in
    let entry' = ap c.mm.pgd at ∙ entry in
    let fpn : fpn_of (c.mm.pgd (pgn_of addr)) ≡ f =
      ap fpn_of entry' ∙ fields.3 ∙ omega (arith, frame.1) in
    record {
      present = ap is_present entry' ∙ fields.1;
      frame = subst (HasFrame c.mram) (sym fpn) frame.0;
    }

-- An allocation that grows the area gives memory that can be used: under the conditions of the
-- growth, with 32-bit entries in the page table and frames that lie in RAM and fit an entry, each
-- byte of the region can be written and is then read back: all three calls succeed.
pub alloc-usable :
    (stale fs rest : List ℕ) (stale_rg : List VmRg) (c : Caller)
    (base rgid size addr offset value old : ℕ) (h : HasArea c (base * page_size))
    → All (TooSmall size) h.free
    → rgid < max_symtbl_sz
    → c.mram.free_fp_list ≡ fs ++ rest
    → length fs ≡ pages_for size
    → base + pages_for size ≤ max_pgn
    → base * page_size * (pages_for size * page_size) ≤ 2147483648
    → ((page : ℕ) → c.mm.pgd page < 4294967296)
    → All (IsFrame c.mram) fs
    → offset < size
    → value < 256
    → (c' c'' : Caller) × (alloc stale stale_rg c 0 rgid size addr ≡ some (0, base * page_size, c'))
      × (write_region stale c' 0 rgid offset value ≡ some (0, c''))
      × (read_region stale c'' 0 rgid offset old ≡ some (int_of_byte value, value, c''))
alloc-usable stale fs rest stale_rg c base rgid size addr offset value old h small lt free len fits
      product words frames inside byte =
    let e = base * page_size in
    let end = e + pages_for size * page_size in
    let (c', done, symbol, area, entries, left, swaps, maxsz, mode) =
      alloc-grows stale fs rest stale_rg c base rgid size addr h small lt free len
        (omega (arith, inside)) fits product in
    let (f, at, frame) =
      All-get_elem? (reverse fs) (offset / page_size) (All-reverse (IsFrame c.mram) fs frames)
        (omega (arith, length-reverse fs, len, inside)) in
    let start : (c'.mm.symrgtbl rgid).rg_start ≡ e = ap (λ (r : VmRg). r.rg_start) symbol in
    let address : region_addr c'.mm rgid offset ≡ e + offset = omega (arith, start, fits, inside) in
    let page : pgn_of (region_addr c'.mm rgid offset) ≡ base + offset / page_size =
      omega (arith, pgn_of_lem (region_addr c'.mm rgid offset), address, fits, inside) in
    let frame' : IsFrame c'.mram f = (
      record {
        random = λ zero_mode. frame.0.random (sym mode ∙ zero_mode);
        small = omega (arith, frame.0.small, maxsz);
        inside = omega (arith, frame.0.inside, maxsz);
      },
      frame.1,
    ) in
    let ram =
      mapped-InRam c' (region_addr c'.mm rgid offset) (base + offset / page_size)
        (c.mm.pgd (base + offset / page_size)) f page (entries (offset / page_size) f at)
        (words (base + offset / page_size)) frame' in
    let h' : HasArea c' end = record {
      free = regions_after stale_rg h.free (e + size) end;
      area = area;
    } in
    let (c'', written, back, others, same_mm, same_swap) =
      read_region-write_region stale c' end rgid offset value old h' lt ram byte in
    (c', c'', done, written, back)
