-- ===== src/Libmem/Paging/Swapping.antt =====
-- `pg_getpage`: what becomes of a page that is asked for.
use hcmut_os_ossim_sierra.Prelude.{
  ℕ, ◌+◌, ◌*◌, ◌<◌, ◌≡◌, ◌≢◌, refl, sym, ap, ◌∙◌, List, [], ◌∷◌, ◌++◌, true, false, some, arith,
  lt→ltb, update, update_self, update_ne,
}
use hcmut_os_ossim_sierra.Pte.{is_present, fpn_of, swp_of, set_present, pte_set_swap, pte_set_fpn}
use hcmut_os_ossim_sierra.Pte.Fields.{fpn_of_lem, pte_set_fpn_fields, set_present_fields}
use hcmut_os_ossim_sierra.Pte.Address.{page_size, max_pgn}
use hcmut_os_ossim_sierra.Memphy.{Memphy, get_freefp}
use hcmut_os_ossim_sierra.Mm.{Caller, enlist_pgn_node}
use hcmut_os_ossim_sierra.Mm.Copy.{HasFrame, copied_frame, copied_frame_in, copied_frame_out}
use hcmut_os_ossim_sierra.Mm.Victim.{find_victim_page_lem}
use hcmut_os_ossim_sierra.Vm.Swap.{swapped_to, frame_stays}
use hcmut_os_ossim_sierra.Memmap.Directions.{sys_memmap-swp_op}
use hcmut_os_ossim_sierra.Libmem.Paging.{update_entries, swap_pages, bring_in, pg_getpage}

swap_pages_lem :
    (stale : List ℕ) (c : Caller) (vicfpn swpfpn tgtfpn : ℕ)
    → HasFrame c.mram vicfpn
    → HasFrame c.mram tgtfpn
    → HasFrame (c.mswp c.active_mswp) swpfpn
    → HasFrame (c.mswp c.active_mswp) vicfpn
    → swap_pages stale c vicfpn swpfpn tgtfpn
      ≡ some (0, swapped_to (swapped_to c vicfpn swpfpn) tgtfpn vicfpn)
unfolding swap_pages
swap_pages_lem stale c vicfpn swpfpn tgtfpn hv ht ks kv = rw (
  sys_memmap-swp_op stale c vicfpn swpfpn hv ks,
  sys_memmap-swp_op stale (swapped_to c vicfpn swpfpn) tgtfpn vicfpn ht
      (frame_stays c vicfpn swpfpn vicfpn kv),
)

-- What a page that is not in RAM needs to be served: the oldest listed page gives up its frame, the
-- active swap has a free one, and each number that is used as a frame is one, in RAM and in the swap.
pub record CanSwap (c : Caller) (pgn : ℕ) : Type 0 where
  pub others : List ℕ
  pub victim : ℕ
  pub listed : c.mm.fifo_pgn ≡ others ++ victim ∷ []
  pub victim_bound : victim < max_pgn
  pub swpfpn : ℕ
  pub swap_rest : List ℕ
  pub free_frame : (c.mswp c.active_mswp).free_fp_list ≡ swpfpn ∷ swap_rest
  pub from_ram : HasFrame c.mram (fpn_of (c.mm.pgd victim))
  pub target_ram : HasFrame c.mram (swp_of (c.mm.pgd pgn))
  pub to_swap : HasFrame (c.mswp c.active_mswp) swpfpn
  pub victim_swap : HasFrame (c.mswp c.active_mswp) (fpn_of (c.mm.pgd victim))

-- The process when the victim and the swap frame have been taken.
abbrev taken : (c : Caller) → List ℕ → List ℕ → Caller
taken c others swap_rest = record c {
  mm = record (c.mm) { fifo_pgn = others };
  mswp = update c.mswp c.active_mswp (record (c.mswp c.active_mswp) { free_fp_list = swap_rest });
}

get_freefp_lem :
    (mp : Memphy) (f old : ℕ) (rest : List ℕ)
    → mp.free_fp_list ≡ f ∷ rest
    → get_freefp mp old ≡ (0, f, record mp { free_fp_list = rest })
unfolding get_freefp
get_freefp_lem mp f old rest e = ground arith

taken_frame :
    (c : Caller) (others swap_rest : List ℕ) (f : ℕ)
    → HasFrame (c.mswp c.active_mswp) f
    → HasFrame ((taken c others swap_rest).mswp c.active_mswp) f
taken_frame c others swap_rest f h =
    rw
      (update_self c.mswp c.active_mswp
        (record (c.mswp c.active_mswp) { free_fp_list = swap_rest }))
      (record { random = h.random; small = h.small; inside = h.inside })

bring_in_lem :
    (stale : List ℕ) (c : Caller) (pgn : ℕ) (h : CanSwap c pgn)
    → let v = fpn_of (c.mm.pgd h.victim) in
      let c0 = taken c h.others h.swap_rest in
      let (pte, c') =
        update_entries
          (swapped_to (swapped_to c0 v h.swpfpn) (swp_of (c.mm.pgd pgn)) v)
          pgn
          h.victim
          v
          h.swpfpn in
      bring_in stale c pgn ≡ some (0, fpn_of pte, c')
unfolding bring_in
bring_in_lem stale c pgn h =
    let c0 = taken c h.others h.swap_rest in
    let v = fpn_of (c.mm.pgd h.victim) in
    rw (
      find_victim_page_lem c.mm h.others h.victim 0 h.listed,
      get_freefp_lem (c.mswp c.active_mswp) h.swpfpn 0 h.swap_rest h.free_frame,
      lt→ltb h.victim max_pgn h.victim_bound,
      swap_pages_lem stale c0 v h.swpfpn (swp_of (c.mm.pgd pgn)) h.from_ram h.target_ram
          (taken_frame c h.others h.swap_rest h.swpfpn h.to_swap)
          (taken_frame c h.others h.swap_rest v h.victim_swap),
    )

-- After both copies the frame given to the victim holds the victim's bytes, unless the second copy
-- went there.
victim_saved :
    (c : Caller) (v s t i : ℕ)
    → v ≢ s
    → i < page_size
    → ((swapped_to (swapped_to c v s) t v).mswp c.active_mswp).storage (s * page_size + i)
      ≡ c.mram.storage (v * page_size + i)
victim_saved c v s t i ne lt =
    let a = c.active_mswp in
    let first = copied_frame c.mram v (c.mswp a) s in
    let c1 = swapped_to c v s in
    ap (λ (m : Memphy). m.storage (s * page_size + i))
      (update_self c1.mswp a (copied_frame c.mram t (c1.mswp a) v))
    ∙ copied_frame_out c.mram (c1.mswp a) t v (s * page_size + i) (ground arith)
    ∙ ap (λ (m : Memphy). m.storage (s * page_size + i)) (update_self c.mswp a first)
    ∙ copied_frame_in c.mram (c.mswp a) v s i lt

-- `pg_getpage` for a page not in RAM, when there is a victim and room in the swap. It succeeds
-- with the victim's frame; the page is then present, in that frame, and in front of the list; the
-- victim has left the list and its entry names the swap and the swap frame, which holds the victim's
-- bytes (unless the two frames have the same number). But RAM is what it was before: the bytes of
-- the page are never loaded, and the caller gets those of the victim.
pub pg_getpage-absent :
    (stale : List ℕ) (c : Caller) (pgn : ℕ) (h : CanSwap c pgn)
    → pgn < max_pgn
    → is_present (c.mm.pgd pgn) ≡ false
    → pgn ≢ h.victim
    → c.mm.pgd pgn < 4294967296
    → let v = fpn_of (c.mm.pgd h.victim) in
      (c' : Caller) × (pg_getpage stale c pgn ≡ some (0, v, c'))
      × ((is_present (c'.mm.pgd pgn) ≡ true) × (fpn_of (c'.mm.pgd pgn) ≡ v))
      × (c'.mm.fifo_pgn ≡ pgn ∷ h.others)
      × (c'.mm.pgd h.victim ≡ pte_set_swap (c.mm.pgd h.victim) c.active_mswp_id h.swpfpn)
      × (v ≢ h.swpfpn
          → (i : ℕ) → i < page_size
          → (c'.mswp c.active_mswp).storage (h.swpfpn * page_size + i)
            ≡ c.mram.storage (v * page_size + i))
      × (c'.mram ≡ c.mram)
unfolding pg_getpage update_entries enlist_pgn_node
pg_getpage-absent stale c pgn h bound absent ne word =
    let v = fpn_of (c.mm.pgd h.victim) in
    let t = swp_of (c.mm.pgd pgn) in
    let c0 = taken c h.others h.swap_rest in
    let vicpte = pte_set_swap (c.mm.pgd h.victim) c.active_mswp_id h.swpfpn in
    let own = pte_set_fpn (c.mm.pgd pgn) v in
    let pgd1 = update c.mm.pgd h.victim vicpte in
    let fields = pte_set_fpn_fields (c.mm.pgd pgn) v word in
    let flags = set_present_fields own in
    let frame : fpn_of (set_present own) ≡ v =
      omega (arith, fields.3, flags.1, fpn_of_lem (c.mm.pgd h.victim)) in
    let entry = update_self pgd1 pgn (set_present own) in
    let c' =
      (update_entries (swapped_to (swapped_to c0 v h.swpfpn) t v) pgn h.victim v h.swpfpn).1 in
    (
      c',
      rw (lt→ltb pgn max_pgn bound, absent)
          (bring_in_lem stale c pgn h ∙ ap (λ (f : ℕ). some (0, f, c')) frame),
      (ap is_present entry ∙ flags.0, ap fpn_of entry ∙ frame),
      refl,
      update_ne pgd1 pgn h.victim (set_present own) (λ e. ne (sym e))
          ∙ update_self c.mm.pgd h.victim vicpte,
      λ d i lt. victim_saved c0 v h.swpfpn t i d lt,
      refl,
    )
