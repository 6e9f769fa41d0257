-- ===== src/Mm/Replacement.antt =====
-- `alloc_pages_range` and `vm_map_ram` when RAM has no free frame: the oldest page gives up its own.
use hcmut_os_ossim_sierra.Prelude.{
  ℕ, ◌+◌, ◌*◌, ◌<◌, ◌≡◌, ◌≢◌, refl, sym, ap, ◌∙◌, List, [], ◌∷◌, ◌++◌, zero, suc, true, none, some,
  arith, lt→ltb, fun_ext, update, update_self, update_ne,
}
use hcmut_os_ossim_sierra.Word.{minus_one}
use hcmut_os_ossim_sierra.Pte.{is_present, fpn_of, pte_set_swap, pte_set_fpn}
use hcmut_os_ossim_sierra.Pte.Fields.{fpn_of_lem, pte_set_fpn_fields}
use hcmut_os_ossim_sierra.Pte.Address.{page_size, max_pgn}
use hcmut_os_ossim_sierra.Memphy.{Memphy, get_freefp}
use hcmut_os_ossim_sierra.Mm.{
  Caller, enlist_pgn_node, alloc_pages, alloc_pages_range, grant_one, take_victim, replace_page,
  max_mmswp, evict_any, evict, copy_to_swap, mark_swapped, vmap_page_range, map_page, map_pages,
  vm_map_ram,
}
use hcmut_os_ossim_sierra.Mm.Copy.{
  HasFrame, copied_frame, copied_frame_in, swap_cp_page-copied_frame,
}
use hcmut_os_ossim_sierra.Mm.Mapping.{mapped, page_at, rounds_lem}
use hcmut_os_ossim_sierra.Mm.Victim.{find_victim_page_lem}

-- RAM is full; the oldest listed page has a frame of RAM, and the active swap has a free one.
pub record CanReplace (c : Caller) : Type 0 where
  pub full : c.mram.free_fp_list ≡ []
  pub others : List ℕ
  pub victim : ℕ
  pub listed : c.mm.fifo_pgn ≡ others ++ victim ∷ []
  pub victim_bound : victim < max_pgn
  pub swpfpn : ℕ
  pub swap_rest : List ℕ
  pub free_frame : (c.mswp c.active_mswp).free_fp_list ≡ swpfpn ∷ swap_rest
  pub from_ram : HasFrame c.mram (fpn_of (c.mm.pgd victim))
  pub to_swap : HasFrame (c.mswp c.active_mswp) swpfpn

-- The active swap with the victim's bytes in the frame that it has given.
abbrev saved : (c : Caller) → CanReplace c → Memphy
saved c h =
    copied_frame c.mram (fpn_of (c.mm.pgd h.victim))
      (record (c.mswp c.active_mswp) { free_fp_list = h.swap_rest }) h.swpfpn

abbrev replaced : (c : Caller) → CanReplace c → Caller
replaced c h = record c {
  mm = record (c.mm) {
    fifo_pgn = h.others;
    pgd = update c.mm.pgd h.victim (pte_set_swap (c.mm.pgd h.victim) c.active_mswp h.swpfpn);
  };
  mswp = update c.mswp c.active_mswp (saved c h);
}

get_freefp_full :
    (mp : Memphy) (old : ℕ) → mp.free_fp_list ≡ [] → get_freefp mp old ≡ (minus_one, old, mp)
unfolding get_freefp
get_freefp_full mp old e = ground arith

get_freefp_first :
    (mp : Memphy) (f old : ℕ) (rest : List ℕ)
    → mp.free_fp_list ≡ f ∷ rest
    → get_freefp mp old ≡ (0, f, record mp { free_fp_list = rest })
unfolding get_freefp
get_freefp_first mp f old rest e = ground arith

update_twice {ℓ} :
    {A : Type ℓ} (a : ℕ → A) (i : ℕ) (u v : A) → update (update a i u) i v ≡ update a i v
update_twice a i u v = fun_ext λ j. ground arith

evict_lem :
    (c : Caller) (h : CanReplace c) (pgs : List ℕ)
    → let c0 : Caller = record c { mm = record (c.mm) { fifo_pgn = pgs } } in
      evict c0 (fpn_of (c.mm.pgd h.victim))
      ≡ some (
        some (c.active_mswp, h.swpfpn),
        record c0 { mswp = update c.mswp c.active_mswp (saved c h) },
      )
unfolding evict copy_to_swap
evict_lem c h pgs =
    let a = c.active_mswp in
    let taken : Memphy = record (c.mswp a) { free_fp_list = h.swap_rest } in
    let t = h.to_swap in
    rw (
      get_freefp_first (c.mswp a) h.swpfpn minus_one h.swap_rest h.free_frame,
      update_self c.mswp a taken,
      swap_cp_page-copied_frame c.mram taken (fpn_of (c.mm.pgd h.victim)) h.swpfpn h.from_ram
          (record { random = t.random; small = t.small; inside = t.inside }),
      update_twice c.mswp a taken (saved c h),
    )

alloc_one_full :
    (stale : List ℕ) (c : Caller) (h : CanReplace c)
    → alloc_pages_range stale c 1 [] ≡ some (0, fpn_of (c.mm.pgd h.victim) ∷ stale, replaced c h)
unfolding alloc_pages_range alloc_pages grant_one take_victim replace_page mark_swapped
alloc_one_full stale c h = rw (
  get_freefp_full c.mram 0 h.full,
  find_victim_page_lem c.mm h.others h.victim 0 h.listed,
  lt→ltb h.victim max_pgn h.victim_bound,
  evict_lem c h h.others,
)

map_one_full :
    (stale : List ℕ) (c : Caller) (h : CanReplace c) (base : ℕ)
    → base < max_pgn
    → let v = fpn_of (c.mm.pgd h.victim) in
      vm_map_ram stale c (base * page_size) 1
      ≡ some (0, record (replaced c h) { mm = mapped base (v ∷ []) (replaced c h).mm })
unfolding vm_map_ram vmap_page_range map_pages enlist_pgn_node
map_one_full stale c h base lt =
    let v = fpn_of (c.mm.pgd h.victim) in
    rw (alloc_one_full stale c h) (
      ap (λ (p : ℕ). some (0, map_page (replaced c h) p v))
        (omega (arith, page_at base 0 (omega arith))))

-- `vm_map_ram` of one page when RAM is full, the oldest page of the process has a frame of RAM, and
-- the active swap a free one. It succeeds, and moves no byte of RAM: the new page is present in the
-- frame of the oldest, and in front of the list; the oldest has left the list, and its entry names
-- the swap and the frame there, which is no longer free and holds the bytes that it had in RAM; the
-- entries of all other pages are as before.
pub vm_map_ram-full :
    (stale : List ℕ) (c : Caller) (h : CanReplace c) (base : ℕ)
    → base < max_pgn
    → base ≢ h.victim
    → c.mm.pgd base < 4294967296
    → let v = fpn_of (c.mm.pgd h.victim) in
      (c' : Caller) × (vm_map_ram stale c (base * page_size) 1 ≡ some (0, c'))
      × ((is_present (c'.mm.pgd base) ≡ true) × (fpn_of (c'.mm.pgd base) ≡ v))
      × (c'.mm.fifo_pgn ≡ base ∷ h.others)
      × (c'.mm.pgd h.victim ≡ pte_set_swap (c.mm.pgd h.victim) c.active_mswp h.swpfpn)
      × ((c'.mswp c.active_mswp).free_fp_list ≡ h.swap_rest)
      × ((i : ℕ)
          → i < page_size
          → (c'.mswp c.active_mswp).storage (h.swpfpn * page_size + i)
            ≡ c.mram.storage (v * page_size + i))
      × ((p : ℕ) → p ≢ base → p ≢ h.victim → c'.mm.pgd p ≡ c.mm.pgd p)
      × (c'.mram ≡ c.mram)
vm_map_ram-full stale c h base bound ne word =
    let a = c.active_mswp in
    let v = fpn_of (c.mm.pgd h.victim) in
    let taken : Memphy = record (c.mswp a) { free_fp_list = h.swap_rest } in
    let swapped = pte_set_swap (c.mm.pgd h.victim) a h.swpfpn in
    let pgd = (replaced c h).mm.pgd in
    let own = pte_set_fpn (pgd base) v in
    let entry = update_self pgd base own in
    let same = update_ne c.mm.pgd h.victim base swapped ne in
    let fields = pte_set_fpn_fields (pgd base) v (omega (arith, same, word)) in
    (
      record (replaced c h) { mm = mapped base (v ∷ []) (replaced c h).mm },
      map_one_full stale c h base bound,
      (
        ap is_present entry ∙ fields.1,
        ap fpn_of entry ∙ omega (arith, fields.3, fpn_of_lem (c.mm.pgd h.victim)),
      ),
      refl,
      update_ne pgd base h.victim own (λ e. ne (sym e)) ∙ update_self c.mm.pgd h.victim swapped,
      ap (λ (m : Memphy). m.free_fp_list) (update_self c.mswp a (saved c h)),
      λ i lt.
          ap (λ (m : Memphy). m.storage (h.swpfpn * page_size + i))
            (update_self c.mswp a (saved c h))
          ∙ copied_frame_in c.mram taken v h.swpfpn i lt,
      λ p other old. update_ne pgd base p own other ∙ update_ne c.mm.pgd h.victim p swapped old,
      refl,
    )

no_frame_left :
    (n i : ℕ) (c : Caller) (fpn : ℕ)
    → ((j : ℕ) → j < i + n → (c.mswp j).free_fp_list ≡ [])
    → evict_any n i c fpn ≡ some (none, c)
unfolding evict_any
no_frame_left zero i c fpn h = refl
no_frame_left (suc n) i c fpn h =
    rw (get_freefp_full (c.mswp i) minus_one (h i (omega arith)))
      (no_frame_left n (suc i) c fpn (λ j lt. h j (omega arith)))

-- `vm_map_ram` of one page or more when RAM and all the swaps are full: it fails, and no memory and
-- no entry of the page table changes. But the list of pages has lost its last entry, that of the
-- oldest page, though the page keeps its frame.
pub vm_map_ram-no_swap :
    (stale : List ℕ) (c : Caller) (others : List ℕ) (oldest mapstart n : ℕ)
    → c.mram.free_fp_list ≡ []
    → c.mm.fifo_pgn ≡ others ++ oldest ∷ []
    → oldest < max_pgn
    → c.active_mswp < max_mmswp
    → ((i : ℕ) → i < max_mmswp → (c.mswp i).free_fp_list ≡ [])
    → suc n < 2147483648
    → vm_map_ram stale c mapstart (suc n)
      ≡ some (minus_one, record c { mm = record (c.mm) { fifo_pgn = others } })
unfolding vm_map_ram alloc_pages_range alloc_pages grant_one take_victim replace_page evict
    mark_swapped
vm_map_ram-no_swap stale c others oldest mapstart n full listed bound active none_left small =
    let c' : Caller = record c { mm = record (c.mm) { fifo_pgn = others } } in
    rw
      (
        rounds_lem (suc n) small,
        get_freefp_full c.mram 0 full,
        find_victim_page_lem c.mm others oldest 0 listed,
        lt→ltb oldest max_pgn bound,
        get_freefp_full (c.mswp c.active_mswp) minus_one (none_left c.active_mswp active),
        no_frame_left max_mmswp 0 c' (fpn_of (c.mm.pgd oldest)) none_left,
      )
      refl
