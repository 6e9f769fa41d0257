-- ===== src/Memphy/Cells.antt =====
-- Reading and writing cells of a physical memory.
use hcmut_os_ossim_sierra.Prelude.{
  ℕ, zero, suc, ◌+◌, ◌%◌, ◌≤◌, ◌<◌, ◌≡◌, ◌≢◌, refl, none, some, arith, update,
}
use native.Mathlib.Nat.{mod-eq_of_lt}
use hcmut_os_ossim_sierra.Word.{minus_one}
use hcmut_os_ossim_sierra.Memphy.{Memphy, walk, mv_csr, read, write}

-- A random access memory returns the byte that was written, and writing changes no other cell, no
-- free frame and no setting.
pub read-write :
    (mp : Memphy) (addr value old other : ℕ)
    → mp.rdmflg ≢ 0
    → addr < mp.maxsz
    → (mp' : Memphy) × (write mp addr value ≡ some (0, mp'))
      × (read mp' addr old ≡ some (0, value, mp'))
      × (other ≢ addr → mp'.storage other ≡ mp.storage other)
      × (mp'.maxsz ≡ mp.maxsz)
      × (mp'.free_fp_list ≡ mp.free_fp_list)
unfolding read write
read-write mp addr value old other r h = (
  record mp { storage = update mp.storage addr value },
  ground arith,
  ground arith,
  λ ne. ground arith,
  refl,
  refl,
)

-- A sequential memory (`rdmflg` 0) can be neither read nor written: both calls answer -1 and change
-- nothing, at any address, since the sequential routines ask for the other mode.
pub sequential_refuses :
    (mp : Memphy) (addr value : ℕ)
    → mp.rdmflg ≡ 0
    → (read mp addr value ≡ some (minus_one, value, mp))
      × (write mp addr value ≡ some (minus_one, mp))
unfolding read write
sequential_refuses mp addr value h = (ground arith, ground arith)

-- A random access memory answers only inside its storage.
pub out_of_range :
    (mp : Memphy) (addr value : ℕ)
    → mp.rdmflg ≢ 0
    → mp.maxsz ≤ addr
    → (read mp addr value ≡ none) × (write mp addr value ≡ none)
unfolding read write
out_of_range mp addr value r h = (ground arith, ground arith)

walk_lem :
    (f : ℕ) (mp : Memphy) (offset numstep : ℕ)
    → mp.maxsz ≡ numstep + f
    → mp.maxsz < 2147483648
    → offset < mp.maxsz
    → numstep ≤ offset
    → mp.cursor ≡ numstep
    → (walk f mp offset numstep).cursor ≡ offset
unfolding walk
walk_lem zero mp offset numstep e small h k c = absurd (omega arith)
walk_lem (suc f) mp offset numstep e small h k c = ground (
  arith,
  mod-eq_of_lt {n = mp.cursor + 1} {m = mp.maxsz},
  walk_lem f (record mp { cursor = (mp.cursor + 1) % mp.maxsz }) offset (numstep + 1),
)

walk_keeps :
    (f : ℕ) (mp : Memphy) (offset numstep : ℕ) → (walk f mp offset numstep).storage ≡ mp.storage
unfolding walk
walk_keeps zero mp offset numstep = refl
walk_keeps (suc f) mp offset numstep =
    ground
      (arith, walk_keeps f (record mp { cursor = (mp.cursor + 1) % mp.maxsz }) offset (numstep + 1))

-- `MEMPHY_mv_csr` ends with the cursor at the offset, if that lies in the storage, and moves
-- no data.
pub cursor-mv_csr :
    (mp : Memphy) (offset : ℕ)
    → mp.maxsz < 2147483648
    → offset < mp.maxsz
    → ((mv_csr mp offset).cursor ≡ offset) × ((mv_csr mp offset).storage ≡ mp.storage)
unfolding mv_csr
cursor-mv_csr mp offset small h = (
  walk_lem mp.maxsz (record mp { cursor = 0 }) offset 0 (omega arith) small h (omega arith) refl,
  walk_keeps mp.maxsz (record mp { cursor = 0 }) offset 0,
)
