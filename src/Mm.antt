-- ===== src/Mm.antt =====
-- src/mm.c: the memory of a process and the mapping of its pages, over the types of `Types`. Linked lists are lists, NULL is the empty one.
mod Types
pub mod Copy
pub mod Victim
pub mod Replacement
pub mod Frames
pub mod Mapping
use mathlib.Core.Option
use hcmut_os_ossim_sierra.Prelude.{
  ℕ, zero, suc, ◌+◌, ◌-◌, ◌*◌, Bool, true, false, Option, none, some, List, [], ◌∷◌, ltb, ◌==◌,
  if◌then◌else◌, update, ◌>>=◌, ◌>>◌, require,
}
use hcmut_os_ossim_sierra.Word.{
  u32, u64, add32, mul32, sub32, add64, ulong_of_int, is_negative, minus_one,
}
use hcmut_os_ossim_sierra.Pte.{fpn_of, pte_set_fpn, pte_set_swap}
use hcmut_os_ossim_sierra.Pte.Address.{page_size, max_pgn, pgn_of}
use hcmut_os_ossim_sierra.Memphy.{Memphy, read, write, get_freefp}
pub use Types.{VmRg, VmArea, Mm, Caller, max_mmswp, init_vm_rg, enlist_vm_rg_node, init_mm}

unfoldable pub enlist_pgn_node : List ℕ → ℕ → List ℕ
enlist_pgn_node plist pgn = pgn ∷ plist

-- One round of `__swap_cp_page`: one byte from the source to the destination. The variable that
-- the byte passes through is not set if the read fails.
pub copy_cell : Memphy → ℕ → Memphy → ℕ → Option (Memphy × Memphy)
copy_cell src addrsrc dst addrdst = do
  (status, value, src') ← read src addrsrc 0
  require (status == 0)
  (done, dst') ← write dst addrdst value
  some (src', dst')

pub copy_cells : ℕ → ℕ → Memphy → ℕ → Memphy → ℕ → Option (Memphy × Memphy)
copy_cells zero cellidx src srcfpn dst dstfpn = some (src, dst)
copy_cells (suc n) cellidx src srcfpn dst dstfpn = do
  (src', dst') ←
      copy_cell src (add32 (mul32 srcfpn page_size) cellidx) dst
        (add32 (mul32 dstfpn page_size) cellidx)
  copy_cells n (suc cellidx) src' srcfpn dst' dstfpn

pub swap_cp_page : Memphy → ℕ → Memphy → ℕ → Option (Memphy × Memphy)
swap_cp_page src srcfpn dst dstfpn = copy_cells page_size 0 src srcfpn dst dstfpn

-- The last node of a list and the list without it: the walk to the second last node.
pub split_last : ℕ → List ℕ → ℕ × List ℕ
split_last p [] = (p, [])
split_last p (q ∷ rest) = let (last, front) = split_last q rest in (last, p ∷ front)

-- `find_victim_page` of src/libmem.c: the status, `*retpgn` and the memory of the process.
pub find_victim_page : Mm → ℕ → ℕ × ℕ × Mm
unfolding split_last
find_victim_page mm retpgn = elim mm.fifo_pgn [
  | [] ↦ (minus_one, retpgn, mm)
  | p ∷ rest ↦ let (last, front) = split_last p rest in (0, last, record mm { fifo_pgn = front })
]

-- `__swap_cp_page(caller->mram, srcfpn, caller->mswp + i, dstfpn)`
pub copy_to_swap : Caller → ℕ → ℕ → ℕ → Option Caller
unfolding swap_cp_page
copy_to_swap c srcfpn i dstfpn = do
  (ram, swp) ← swap_cp_page c.mram srcfpn (c.mswp i) dstfpn
  some (record c { mram = ram; mswp = update c.mswp i swp })

abbrev evicted : ℕ → ℕ → Option Caller → Option (Option (ℕ × ℕ) × Caller)
evicted i swpfpn none = none
evicted i swpfpn (some c) = some (some (i, swpfpn), c)

-- Where a victim was put: the index of the swap, and the frame there; `none` if no swap has a frame.
-- The loop tries the swaps from `i` on, `n` of them.
pub evict_any : ℕ → ℕ → Caller → ℕ → Option (Option (ℕ × ℕ) × Caller)
unfolding copy_to_swap
evict_any zero i c fpn = some (none, c)
evict_any (suc n) i c fpn =
    let (status, swpfpn, swp) = get_freefp (c.mswp i) minus_one in
    let rest = evict_any n (suc i) c fpn in
    if status == 0
    then evicted i swpfpn (copy_to_swap (record c { mswp = update c.mswp i swp }) fpn i swpfpn)
    else rest

-- The active swap first, and then all of them in order.
pub evict : Caller → ℕ → Option (Option (ℕ × ℕ) × Caller)
unfolding copy_to_swap evict_any
evict c fpn =
    let i = c.active_mswp in
    let (status, swpfpn, swp) = get_freefp (c.mswp i) minus_one in
    if status == 0
    then evicted i swpfpn (copy_to_swap (record c { mswp = update c.mswp i swp }) fpn i swpfpn)
    else evict_any max_mmswp 0 c fpn

abbrev pub out_of_memory : ℕ
out_of_memory = 4294964296

abbrev set_pgd : Caller → ℕ → ℕ → Caller
set_pgd c pgn pte = record c { mm = record (c.mm) { pgd = update c.mm.pgd pgn pte } }

-- What a round of the loop of `alloc_pages_range` leads to: `return`, or the next round.
pub data Grant : Type 0 where
  refused : ℕ → List ℕ → Caller → Grant
  granted : List ℕ → Caller → Grant

-- The entry of the victim is written only if some swap had a frame.
mark_swapped : List ℕ → ℕ → Option (ℕ × ℕ) × Caller → Grant
mark_swapped frm victim_pgn (none, c) = refused out_of_memory frm c
mark_swapped frm victim_pgn (some (i, swpfpn), c) =
    granted frm (set_pgd c victim_pgn (pte_set_swap (c.mm.pgd victim_pgn) i swpfpn))

-- `if (!*frm_lst) *frm_lst = node; else ...`
abbrev link_frame : List ℕ → List ℕ → ℕ → List ℕ
link_frame stale [] fpn = fpn ∷ stale
link_frame stale (f ∷ fs) fpn = fpn ∷ f ∷ fs

pub replace_page : List ℕ → Caller → List ℕ → ℕ → Option Grant
unfolding evict mark_swapped
replace_page stale c frm victim_pgn = do
  require (ltb victim_pgn max_pgn)
  let victim_fpn = fpn_of (c.mm.pgd victim_pgn)
  r ← evict c victim_fpn
  some (mark_swapped (link_frame stale frm victim_fpn) victim_pgn r)

-- The round where RAM has no free frame: the oldest page gives up its own. The `fp_next` of the
-- first node is then not set: `stale` is what it leads to.
pub take_victim : List ℕ → Caller → List ℕ → Option Grant
unfolding replace_page
take_victim stale c frm =
    let (found, victim_pgn, mm') = find_victim_page c.mm 0 in
    let replaced = replace_page stale (record c { mm = mm' }) frm victim_pgn in
    if found == 0 then replaced else some (refused minus_one frm c)

-- With a free frame, the new node is linked first to `*frm_lst` and then to `used_fp_list`, which
-- is what remains: the list that the caller gets runs on into the used frames.
pub grant_one : List ℕ → Caller → List ℕ → Option Grant
unfolding take_victim
grant_one stale c frm =
    let (status, fpn, ram) = get_freefp c.mram 0 in
    let chained = fpn ∷ ram.used_fp_list in
    if status == 0
    then some (granted chained (record c { mram = record ram { used_fp_list = chained } }))
    else take_victim stale c frm

-- The status, `*frm_lst` and the process.
pub alloc_pages : List ℕ → ℕ → Caller → List ℕ → Option (ℕ × List ℕ × Caller)
alloc_pages stale zero c frm = some (0, frm, c)
alloc_pages stale (suc n) c frm = do
  g ← grant_one stale c frm
  elim g [
    | refused status frm' c' ↦ some (status, frm', c')
    | granted frm' c' ↦ alloc_pages stale n c' frm'
  ]

abbrev pub rounds : ℕ → ℕ
rounds n = if is_negative n then 0 else n

pub alloc_pages_range : List ℕ → Caller → ℕ → List ℕ → Option (ℕ × List ℕ × Caller)
alloc_pages_range stale c req_pgnum frm = alloc_pages stale (rounds req_pgnum) c frm

-- `pte_set_fpn(&pgd[pgn], fpn); enlist_pgn_node(&fifo_pgn, pgn);`
abbrev pub map_page : Caller → ℕ → ℕ → Caller
map_page c pgn fpn = record c {
  mm = record (c.mm) {
    pgd = update c.mm.pgd pgn (pte_set_fpn (c.mm.pgd pgn) fpn);
    fifo_pgn = enlist_pgn_node c.mm.fifo_pgn pgn;
  };
}

-- The loop of `vmap_page_range`. `fpit` is a node, given by the list that follows it, or NULL, of
-- which `fp_next` cannot be read.
pub map_pages : ℕ → ℕ → Caller → ℕ → Option (List ℕ) → Option Caller
map_pages zero pgit c addr fpit = some c
map_pages (suc n) pgit c addr none = none
map_pages (suc n) pgit c addr (some []) = map_pages n (suc pgit) c addr none
map_pages (suc n) pgit c addr (some (f ∷ fs)) =
    map_pages n (suc pgit) (map_page c (pgn_of (add32 addr (mul32 pgit page_size))) f) addr
      (some fs)

-- The region that was mapped goes out through `ret_rg`.
pub vmap_page_range : Caller → ℕ → ℕ → List ℕ → Option (VmRg × Caller)
unfolding map_pages
vmap_page_range c addr pgnum frames = do
  c' ← map_pages (rounds pgnum) 0 c addr (some frames)
  let span = ulong_of_int (mul32 (sub32 (rounds pgnum) 1) page_size)
  some (record { rg_start = ulong_of_int addr; rg_end = add64 (ulong_of_int addr) span }, c')

pub vm_map_ram : List ℕ → Caller → ℕ → ℕ → Option (ℕ × Caller)
unfolding alloc_pages_range vmap_page_range
vm_map_ram stale c mapstart incpgnum = do
  (status, frames, c') ← alloc_pages_range stale c incpgnum []
  if status == 0
      then Option.map (λ r. (0, r.1)) (vmap_page_range c' mapstart incpgnum frames)
      else some (minus_one, c')
