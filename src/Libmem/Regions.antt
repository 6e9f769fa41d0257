-- ===== src/Libmem/Regions.antt =====
-- The free regions of a process: the first fit, and `__free`.
use hcmut_os_ossim_sierra.Prelude.{
  ℕ, ◌+◌, ◌-◌, ◌≤◌, ◌<◌, ◌≡◌, refl, ap, fun_ext, update_self, ◌∙◌, List, [], ◌∷◌, ◌++◌, false,
  Option, none, some, arith, All, leb, lt→ltb,
}
use hcmut_os_ossim_sierra.Word.{add64, sub64, ulong_of_int, u32}
use hcmut_os_ossim_sierra.Mm.{VmRg, VmArea, Mm, Caller}
use hcmut_os_ossim_sierra.Vm.{set_area}
use hcmut_os_ossim_sierra.Vm.Overlap.{HasArea, own_area}
use hcmut_os_ossim_sierra.Vm.Limit.{vma_at-own}
use hcmut_os_ossim_sierra.Libmem.{
  max_symtbl_sz, set_mm, link_region, enlist_vm_freerg_list, free_size, shrink, keep_rest,
  first_fit, get_free_vmrg_area, free, alloc, set_symbol,
}

abbrev pub TooSmall : ℕ → VmRg → Type 0
TooSmall size r = free_size r < size

-- The walk takes the front of the first region that is large enough, and keeps the regions before
-- it and the rest of it, if there is one, in their places; it finds none if none is large enough.
pub first_fit_lem :
    (before after : List VmRg) (r : VmRg) (size : ℕ)
    → All (TooSmall size) before
    → (size ≤ free_size r
        → first_fit (before ++ r ∷ after) size
          ≡ some (
            record { rg_start = r.rg_start; rg_end = sub64 (add64 r.rg_start size) 1 },
            before ++ keep_rest (shrink r size) after,
          ))
      × (first_fit before size ≡ none)
unfolding first_fit
first_fit_lem [] after r size h = (λ le. ground arith, refl)
first_fit_lem (b ∷ bs) after r size h =
    let small : leb size (free_size b) ≡ false = ground (arith, h.0) in
    let rec = first_fit_lem bs after r size h.1 in (λ le. rw (small, rec.0 le), rw (small, rec.1))

link_region-cons :
    (stale free : List VmRg) (r : VmRg) → (rest : List VmRg) × (link_region stale free r ≡ r ∷ rest)
link_region-cons stale [] r = (stale, refl)
link_region-cons stale (f ∷ fs) r = (f ∷ fs, refl)

-- The process when the free regions of its area are those given.
abbrev pub with_regions : Caller → ℕ → List VmRg → Caller
with_regions c e regions = set_mm c (record (c.mm) { mmap = own_area e regions ∷ [] })

free_lem :
    (stale_rg : List VmRg) (c : Caller) (e rgid : ℕ) (h : HasArea c e)
    → rgid < max_symtbl_sz
    → (c.mm.symrgtbl rgid).rg_start < (c.mm.symrgtbl rgid).rg_end
    → free stale_rg c 0 rgid
      ≡ some (0, with_regions c e (link_region stale_rg h.free (c.mm.symrgtbl rgid)))
unfolding free enlist_vm_freerg_list
free_lem stale_rg c e rgid h lt ne = rw (h.area, lt→ltb rgid max_symtbl_sz lt) (ground arith)

pub get_free_vmrg_area-own :
    (c : Caller) (e size : ℕ) (h : HasArea c e)
    → get_free_vmrg_area c.mm 0 size
      ≡ some (elim (first_fit h.free (ulong_of_int size)) as (λ _. Option VmRg × Mm) [
        | none ↦ (none, c.mm)
        | some (rg, rest) ↦ (some rg, record (c.mm) { mmap = own_area e rest ∷ [] })
      ])
unfolding get_free_vmrg_area
get_free_vmrg_area-own c e size h = rw (vma_at-own c e h) (
    ap
      (λ (put : List VmRg → List VmArea).
        some (elim (first_fit h.free (ulong_of_int size)) as (λ _. Option VmRg × Mm) [
          | none ↦ (none, c.mm)
          | some (rg, rest) ↦ (some rg, record (c.mm) { mmap = put rest })
        ]))
      (fun_ext λ rest. ap (λ (ms : List VmArea). set_area ms 0 (own_area e rest)) h.area))

pub alloc_reuses :
    (stale : List ℕ) (stale_rg : List VmRg) (c : Caller) (e rgid size addr : ℕ) (r : VmRg)
    (rest : List VmRg) (h : HasArea c e)
    → rgid < max_symtbl_sz
    → h.free ≡ r ∷ rest
    → ulong_of_int size ≤ free_size r
    → let rg : VmRg = record {
      rg_start = r.rg_start;
      rg_end = sub64 (add64 r.rg_start (ulong_of_int size)) 1;
    } in
      alloc stale stale_rg c 0 rgid size addr
      ≡ some (
        0,
        u32 r.rg_start,
        set_mm c (
            set_symbol
              (record (c.mm) {
                mmap = own_area e (keep_rest (shrink r (ulong_of_int size)) rest) ∷ [];
              })
              rgid
              rg),
      )
unfolding alloc
alloc_reuses stale stale_rg c e rgid size addr r rest h lt eq fits = rw (
  get_free_vmrg_area-own c e size h,
  eq,
  (first_fit_lem [] rest r (ulong_of_int size) tt).0 fits,
  lt→ltb rgid max_symtbl_sz lt,
)

-- A region that has been freed is the first to be used again: `__free` succeeds, and an allocation of
-- at most the region's size plus one then answers the address of the region, whatever else was
-- free. The symbol records the last byte as its end. (The size plus one is accepted because the walk
-- takes the end of a free region to lie in it, where `__free` puts the first address past it.)
pub alloc-free :
    (stale : List ℕ) (stale_rg stale_rg' : List VmRg) (c : Caller) (e rgid rgid' size addr : ℕ)
    → HasArea c e
    → rgid < max_symtbl_sz
    → rgid' < max_symtbl_sz
    → (c.mm.symrgtbl rgid).rg_start < (c.mm.symrgtbl rgid).rg_end
    → (c.mm.symrgtbl rgid).rg_end < 2147483647
    → 0 < size
    → (c.mm.symrgtbl rgid).rg_start + size ≤ (c.mm.symrgtbl rgid).rg_end + 1
    → let r = c.mm.symrgtbl rgid in
      (c' c'' : Caller) × (free stale_rg c 0 rgid ≡ some (0, c'))
      × (alloc stale stale_rg' c' 0 rgid' size addr ≡ some (0, r.rg_start, c''))
      × (c''.mm.symrgtbl rgid' ≡ record { rg_start = r.rg_start; rg_end = r.rg_start + size - 1 })
      × (c''.mm.pgd ≡ c.mm.pgd)
      × (c''.mram ≡ c.mram)
alloc-free stale stale_rg stale_rg' c e rgid rgid' size addr h lt lt' ne small pos fits =
    let r = c.mm.symrgtbl rgid in
    let c' = with_regions c e (link_region stale_rg h.free r) in
    let (rest, cons) = link_region-cons stale_rg h.free r in
    let rg : VmRg = record {
      rg_start = r.rg_start;
      rg_end = sub64 (add64 r.rg_start (ulong_of_int size)) 1;
    } in
    let mm' = record (c.mm) {
      mmap = own_area e (keep_rest (shrink r (ulong_of_int size)) rest) ∷ [];
    } in
    let start : u32 r.rg_start ≡ r.rg_start = omega arith in
    let last : rg.rg_end ≡ r.rg_start + size - 1 = ground arith in
    (
      c',
      set_mm c (set_symbol mm' rgid' rg),
      free_lem stale_rg c e rgid h lt ne,
      alloc_reuses stale stale_rg' c' e rgid' size addr r rest
            (record { free = link_region stale_rg h.free r; area = refl }) lt' cons (ground arith)
          ∙ ap (λ (a : ℕ). some (0, a, set_mm c (set_symbol mm' rgid' rg))) start,
      update_self c.mm.symrgtbl rgid' rg
          ∙ ap (λ (x : ℕ). record { rg_start = r.rg_start; rg_end = x }) last,
      refl,
      refl,
    )
