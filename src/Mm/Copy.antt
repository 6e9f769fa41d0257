-- ===== src/Mm/Copy.antt =====
-- `__swap_cp_page`: the copy of a page between two memories.
use hcmut_os_ossim_sierra.Prelude.{
  ℕ, zero, suc, ◌+◌, ◌-◌, ◌*◌, ◌≤◌, ◌<◌, ◌≡◌, ◌≢◌, refl, ◌∙◌, ◌&&◌, some, arith, ltb, leb,
  if◌then◌else◌, update, fun_ext, ap, sym, ◌⊎◌,
}
use hcmut_os_ossim_sierra.Word.{add32, mul32}
use hcmut_os_ossim_sierra.Pte.Address.{page_size}
use hcmut_os_ossim_sierra.Memphy.{Memphy, read, write}
use hcmut_os_ossim_sierra.Mm.{copy_cell, copy_cells, swap_cp_page}

-- Frame `fpn` lies in a random access memory of less than 2 GB.
pub record HasFrame (mp : Memphy) (fpn : ℕ) : Type 0 where
  pub random : mp.rdmflg ≢ 0
  pub small : mp.maxsz < 2147483648
  pub inside : fpn * page_size + page_size ≤ mp.maxsz

copy_cell_lem :
    (src dst : Memphy) (a b : ℕ)
    → src.rdmflg ≢ 0
    → dst.rdmflg ≢ 0
    → a < src.maxsz
    → b < dst.maxsz
    → copy_cell src a dst b
      ≡ some (src, record dst { storage = update dst.storage b (src.storage a) })
unfolding copy_cell read write
copy_cell_lem src dst a b rs rd ha hb = ground arith

-- The destination after the copy: the frame's cells are those of the source, the others as before.
abbrev pub copied : (ℕ → ℕ) → ℕ → (ℕ → ℕ) → ℕ → ℕ → ℕ → ℕ → ℕ
copied from srcfpn to dstfpn i n a =
    if leb (dstfpn * page_size + i) a && ltb a (dstfpn * page_size + i + n)
    then from (srcfpn * page_size + (a - dstfpn * page_size))
    else to a

copied-suc :
    (from to : ℕ → ℕ) (srcfpn dstfpn i n : ℕ)
    → copied from srcfpn
        (update to (dstfpn * page_size + i) (from (srcfpn * page_size + i)))
        dstfpn
        (suc i)
        n
      ≡ copied from srcfpn to dstfpn i (suc n)
copied-suc from to srcfpn dstfpn i n = fun_ext λ a. ground arith

copied-zero : (from to : ℕ → ℕ) (srcfpn dstfpn i : ℕ) → copied from srcfpn to dstfpn i 0 ≡ to
copied-zero from to srcfpn dstfpn i = fun_ext λ a. ground arith

-- The address of cell `i` of a frame does not wrap.
pub cell_addr :
    (mp : Memphy) (fpn i : ℕ)
    → HasFrame mp fpn
    → i < page_size
    → add32 (mul32 fpn page_size) i ≡ fpn * page_size + i
cell_addr mp fpn i h lt = omega arith

copy_cells_lem :
    (n i : ℕ) (src dst : Memphy) (srcfpn dstfpn : ℕ)
    → HasFrame src srcfpn
    → HasFrame dst dstfpn
    → i + n ≡ page_size
    → copy_cells n i src srcfpn dst dstfpn
      ≡ some (src, record dst { storage = copied src.storage srcfpn dst.storage dstfpn i n })
unfolding copy_cells
copy_cells_lem zero i src dst srcfpn dstfpn hs hd e =
    ap (λ (st : ℕ → ℕ). some (src, record dst { storage = st }))
      (sym (copied-zero src.storage dst.storage srcfpn dstfpn i))
copy_cells_lem (suc n) i src dst srcfpn dstfpn hs hd e =
    let there = dstfpn * page_size + i in
    let dst' : Memphy = record dst {
      storage = update dst.storage there (src.storage (srcfpn * page_size + i));
    } in
    rw
      (
        cell_addr src srcfpn i hs (omega arith),
        cell_addr dst dstfpn i hd (omega arith),
        copy_cell_lem src dst (srcfpn * page_size + i) there hs.random hd.random (omega arith)
            (omega arith),
      )
      (copy_cells_lem n (suc i) src dst' srcfpn dstfpn hs
          (record { random = hd.random; small = hd.small; inside = hd.inside }) (omega arith)
        ∙ ap (λ (st : ℕ → ℕ). some (src, record dst { storage = st }))
            (copied-suc src.storage dst.storage srcfpn dstfpn i n))

-- The destination with the whole frame copied.
abbrev pub copied_frame : Memphy → ℕ → Memphy → ℕ → Memphy
copied_frame src srcfpn dst dstfpn = record dst {
  storage = copied src.storage srcfpn dst.storage dstfpn 0 page_size;
}

pub swap_cp_page-copied_frame :
    (src dst : Memphy) (srcfpn dstfpn : ℕ)
    → HasFrame src srcfpn
    → HasFrame dst dstfpn
    → swap_cp_page src srcfpn dst dstfpn ≡ some (src, copied_frame src srcfpn dst dstfpn)
unfolding swap_cp_page
swap_cp_page-copied_frame src dst srcfpn dstfpn hs hd =
    copy_cells_lem page_size 0 src dst srcfpn dstfpn hs hd refl

pub copied_frame_in :
    (src dst : Memphy) (srcfpn dstfpn i : ℕ)
    → i < page_size
    → (copied_frame src srcfpn dst dstfpn).storage (dstfpn * page_size + i)
      ≡ src.storage (srcfpn * page_size + i)
copied_frame_in src dst srcfpn dstfpn i h = ground arith

pub copied_frame_out :
    (src dst : Memphy) (srcfpn dstfpn a : ℕ)
    → (a < dstfpn * page_size) ⊎ (dstfpn * page_size + page_size ≤ a)
    → (copied_frame src srcfpn dst dstfpn).storage a ≡ dst.storage a
copied_frame_out src dst srcfpn dstfpn a out = ground arith

-- `__swap_cp_page` copies the 256 bytes of the source frame into the destination frame, in order,
-- and changes no other cell of the destination, nor the source.
pub swap_cp_page_lem :
    (src dst : Memphy) (srcfpn dstfpn : ℕ)
    → HasFrame src srcfpn
    → HasFrame dst dstfpn
    → (dst' : Memphy) × (swap_cp_page src srcfpn dst dstfpn ≡ some (src, dst'))
      × ((i : ℕ)
          → i < page_size
          → dst'.storage (dstfpn * page_size + i) ≡ src.storage (srcfpn * page_size + i))
      × ((a : ℕ)
          → (a < dstfpn * page_size) ⊎ (dstfpn * page_size + page_size ≤ a)
          → dst'.storage a ≡ dst.storage a)
      × (dst'.free_fp_list ≡ dst.free_fp_list)
swap_cp_page_lem src dst srcfpn dstfpn hs hd = (
  copied_frame src srcfpn dst dstfpn,
  swap_cp_page-copied_frame src dst srcfpn dstfpn hs hd,
  λ i lt. copied_frame_in src dst srcfpn dstfpn i lt,
  λ a out. copied_frame_out src dst srcfpn dstfpn a out,
  refl,
)
