-- ===== src/Memphy/Frames.antt =====
-- The free frames of a physical memory.
use hcmut_os_ossim_sierra.Prelude.{
  ℕ, zero, suc, ◌+◌, ◌-◌, ◌/◌, ◌≤◌, ◌<◌, ◌≡◌, ◌≢◌, refl, List, [], ◌∷◌, ap, sym, ◌∙◌, arith, ◌==◌,
  if◌then◌else◌, length, ==-ne, get_elem?, some,
}
use hcmut_os_ossim_sierra.Word.{minus_one}
use hcmut_os_ossim_sierra.Pte.Address.{page_size}
use hcmut_os_ossim_sierra.Memphy.{Memphy, chain, format, get_freefp, put_freefp, init_memphy}

-- A frame that is given back is the next to be handed out, and then the list is as before.
pub get_freefp-put_freefp :
    (mp : Memphy) (fpn old : ℕ) → get_freefp (put_freefp mp fpn) old ≡ (0, fpn, mp)
unfolding get_freefp put_freefp
get_freefp-put_freefp mp fpn old = refl

-- `n` calls of `MEMPHY_get_freefp`, with what they hand out while they succeed.
pub get_frames : ℕ → Memphy → List ℕ × Memphy
get_frames zero mp = ([], mp)
get_frames (suc n) mp =
    let (status, fpn, mp') = get_freefp mp 0 in
    let (rest, last) = get_frames n mp' in if status == 0 then (fpn ∷ rest, last) else ([], mp)

get_frames_listed :
    (fs : List ℕ) (mp : Memphy)
    → mp.free_fp_list ≡ fs
    → get_frames (length fs) mp ≡ (fs, record mp { free_fp_list = [] })
unfolding get_frames get_freefp
get_frames_listed [] mp e = ground arith
get_frames_listed (f ∷ fs) mp e =
    rw (e, get_freefp) (ground (arith, get_frames_listed fs (record mp { free_fp_list = fs }) refl))

length-chain : (n i : ℕ) → length (chain n i) ≡ n
unfolding chain
length-chain zero i = refl
length-chain (suc n) i = ap suc (length-chain n (suc i))

-- Frame `i + j` is the `j`-th of `n` frames from `i` on.
get_elem?-chain : (n i j : ℕ) → j < n → get_elem? (chain n i) j ≡ some (i + j)
unfolding chain
get_elem?-chain zero i j h = absurd (omega arith)
get_elem?-chain (suc n) i zero h = ap some (omega arith)
get_elem?-chain (suc n) i (suc j) h =
    get_elem?-chain n (suc i) j (omega arith) ∙ ap some (omega arith)

chain-cons : (k i : ℕ) → k ≢ 0 → i ∷ chain (k - 1) (suc i) ≡ chain k i
unfolding chain
chain-cons zero i h = absurd (h refl)
chain-cons (suc k) i h = ap (λ (n : ℕ). i ∷ chain n (suc i)) (omega arith)

-- A memory of at least two pages is formatted: success, with every whole page of the storage a free
-- frame, in the order of the addresses, and nothing else changed.
pub format_lem :
    (stale : List ℕ) (mp : Memphy) (pagesz : ℕ)
    → 2 ≤ mp.maxsz / pagesz
    → format stale mp pagesz ≡ (0, record mp { free_fp_list = chain (mp.maxsz / pagesz) 0 })
unfolding format
format_lem stale mp pagesz h = rw (
  ==-ne (mp.maxsz / pagesz) 0 (omega arith),
  ==-ne (mp.maxsz / pagesz) 1 (omega arith),
  chain-cons (mp.maxsz / pagesz) 0 (omega arith),
)

free-init_memphy :
    (stale : List ℕ) (mp : Memphy) (max_size randomflg : ℕ)
    → 2 ≤ max_size / page_size
    → (init_memphy stale mp max_size randomflg).free_fp_list ≡ chain (max_size / page_size) 0
unfolding init_memphy
free-init_memphy stale mp max_size randomflg h =
    rw (format_lem stale (record mp { storage = λ _. 0; maxsz = max_size }) page_size h)
      (ground arith)

get_frames-chain :
    (k : ℕ) (mp : Memphy)
    → mp.free_fp_list ≡ chain k 0
    → get_frames k mp ≡ (chain k 0, record mp { free_fp_list = [] })
get_frames-chain k mp e =
    ap (λ (n : ℕ). get_frames n mp) (sym (length-chain k 0)) ∙ get_frames_listed (chain k 0) mp e

-- On a memory of at least two pages that `init_memphy` has set up, `MEMPHY_get_freefp` succeeds as
-- often as there are pages, with each frame of the storage once and in order: the `i`-th call gives
-- frame `i`. It fails from then on.
pub init_memphy-get_frames :
    (stale : List ℕ) (mp : Memphy) (max_size randomflg : ℕ)
    → 2 ≤ max_size / page_size
    → let m = init_memphy stale mp max_size randomflg in
      let (fs, last) = get_frames (max_size / page_size) m in
      (length fs ≡ max_size / page_size)
      × ((i : ℕ) → i < max_size / page_size → get_elem? fs i ≡ some i)
      × ((get_freefp last 0).0 ≡ minus_one)
unfolding get_freefp
init_memphy-get_frames stale mp max_size randomflg h =
    rw
      (get_frames-chain (max_size / page_size) (init_memphy stale mp max_size randomflg)
        (free-init_memphy stale mp max_size randomflg h))
      (
        length-chain (max_size / page_size) 0,
        λ i lt. get_elem?-chain (max_size / page_size) 0 i lt ∙ ap some (omega arith),
        refl,
      )
