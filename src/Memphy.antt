-- ===== src/Memphy.antt =====
-- src/mm-memphy.c: a physical memory, RAM or swap, with its list of free frames. The storage is a
-- function of which the first `maxsz` cells exist; a access outside them is undefined, `none`.
-- The memories are objects of `main`, so the tests of `mp` against NULL never fire and are left out.
pub mod Cells
pub mod Frames
use hcmut_os_ossim_sierra.Prelude.{
  ℕ, zero, suc, ◌+◌, ◌-◌, ◌/◌, ◌%◌, Bool, ◌&&◌, Option, none, some, List, [], ◌∷◌, ltb, leb, ◌==◌,
  if◌then◌else◌, update, ◌>>=◌, ◌>>◌, require,
}
use hcmut_os_ossim_sierra.Word.{u32, add32, lt_int, minus_one}
use hcmut_os_ossim_sierra.Pte.Address.{page_size}

pub record Memphy : Type 0 where
  pub storage : ℕ → ℕ
  pub maxsz : ℕ
  pub rdmflg : ℕ
  pub cursor : ℕ
  pub free_fp_list : List ℕ
  pub used_fp_list : List ℕ

-- `while (numstep < offset && numstep < mp->maxsz)`; each round adds one to `numstep`, so `maxsz`
-- rounds of fuel are enough: `Memphy.Cells`.
pub walk : ℕ → Memphy → ℕ → ℕ → Memphy
walk zero mp offset numstep = mp
walk (suc f) mp offset numstep =
    if ltb numstep mp.maxsz && lt_int numstep offset
    then walk f (record mp { cursor = (mp.cursor + 1) % mp.maxsz }) offset (numstep + 1)
    else mp

pub mv_csr : Memphy → ℕ → Memphy
mv_csr mp offset = walk mp.maxsz (record mp { cursor = 0 }) offset 0

-- The status, `*value`, and the memory. A status other than 0 leaves `*value` as it was.
pub seq_read : Memphy → ℕ → ℕ → Option (ℕ × ℕ × Memphy)
seq_read mp addr value =
    if mp.rdmflg == 0
    then some (minus_one, value, mp)
    else do require (ltb addr mp.maxsz); some (0, mp.storage addr, mv_csr mp addr)

unfoldable pub read : Memphy → ℕ → ℕ → Option (ℕ × ℕ × Memphy)
unfolding seq_read
read mp addr value =
    if mp.rdmflg == 0
    then seq_read mp addr value
    else do require (ltb addr mp.maxsz); some (0, mp.storage addr, mp)

-- The status and the memory.
pub seq_write : Memphy → ℕ → ℕ → Option (ℕ × Memphy)
seq_write mp addr value = if mp.rdmflg == 0 then some (minus_one, mp) else do
  require (ltb addr mp.maxsz)
  let mp' = mv_csr mp addr
  some (0, record mp' { storage = update mp'.storage addr value })

unfoldable pub write : Memphy → ℕ → ℕ → Option (ℕ × Memphy)
unfolding seq_write
write mp addr value = if mp.rdmflg == 0 then seq_write mp addr value else do
  require (ltb addr mp.maxsz)
  some (0, record mp { storage = update mp.storage addr value })

-- The frames `iter`, `iter + 1`, ... that the loop of `format` chains, `n` of them.
pub chain : ℕ → ℕ → List ℕ
chain zero iter = []
chain (suc n) iter = iter ∷ chain n (suc iter)

-- With one frame only, `fst->fp_next` is never set: `stale` is what the pointer leads to.
abbrev after_first : ℕ → List ℕ → List ℕ
after_first numfp stale = if numfp == 1 then stale else chain (numfp - 1) 1

pub format : List ℕ → Memphy → ℕ → ℕ × Memphy
unfolding chain
format stale mp pagesz =
    let numfp = mp.maxsz / pagesz in
    if numfp == 0
    then (minus_one, mp)
    else (0, record mp { free_fp_list = 0 ∷ after_first numfp stale })

-- The status, `*retfpn`, and the memory.
unfoldable pub get_freefp : Memphy → ℕ → ℕ × ℕ × Memphy
get_freefp mp retfpn = elim mp.free_fp_list [
  | [] ↦ (minus_one, retfpn, mp)
  | fpn ∷ rest ↦ (0, fpn, record mp { free_fp_list = rest })
]

unfoldable pub put_freefp : Memphy → ℕ → Memphy
put_freefp mp fpn = record mp { free_fp_list = fpn ∷ mp.free_fp_list }

-- `max_size` is not negative, and `malloc` gives the storage. `used_fp_list` is never set.
pub init_memphy : List ℕ → Memphy → ℕ → ℕ → Memphy
unfolding format
init_memphy stale mp max_size randomflg =
    let m = (format stale (record mp { storage = λ _. 0; maxsz = max_size }) page_size).1 in
    if randomflg == 0 then record m { rdmflg = 0; cursor = 0 } else record m { rdmflg = 1 }

-- The lines of the dump: the cells that are not 0, with their content.
dump_from : (ℕ → ℕ) → ℕ → ℕ → List (ℕ × ℕ)
dump_from storage i zero = []
dump_from storage i (suc n) =
    let rest = dump_from storage (suc i) n in if storage i == 0 then rest else (i, storage i) ∷ rest

pub dump : Memphy → List (ℕ × ℕ)
unfolding dump_from
dump mp = dump_from mp.storage 0 mp.maxsz
