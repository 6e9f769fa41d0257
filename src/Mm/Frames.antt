-- ===== src/Mm/Frames.antt =====
-- `alloc_pages_range` while RAM has free frames.
use mathlib.Core.List.{reverse, reverse-cons, append_assoc}
use hcmut_os_ossim_sierra.Prelude.{
  ℕ, suc, ◌≡◌, refl, ◌∙◌, sym, ap, List, [], ◌∷◌, ◌++◌, some, arith, length,
}
use hcmut_os_ossim_sierra.Memphy.{get_freefp}
use hcmut_os_ossim_sierra.Mm.{
  Caller, grant_one, granted, alloc_pages, find_victim_page, take_victim,
}
use hcmut_os_ossim_sierra.Word.{minus_one}

-- The process after `n` frames of the free list, which is `free`, have gone over to the used ones.
abbrev pub moved : Caller → List ℕ → List ℕ → Caller
moved c free used = record c { mram = record (c.mram) { free_fp_list = free; used_fp_list = used } }

grant_one_free :
    (stale : List ℕ) (c : Caller) (frm : List ℕ) (f : ℕ) (fs : List ℕ)
    → c.mram.free_fp_list ≡ f ∷ fs
    → grant_one stale c frm
      ≡ some (granted (f ∷ c.mram.used_fp_list) (moved c fs (f ∷ c.mram.used_fp_list)))
unfolding grant_one get_freefp
grant_one_free stale c frm f fs e = ground arith

-- `*frm_lst` after the loop: as it was if no frame was asked for.
abbrev pub frames_after : List ℕ → List ℕ → List ℕ → List ℕ
frames_after [] frm used = frm
frames_after (f ∷ fs) frm used = used

frames_after_self :
    (fs used : List ℕ) (f : ℕ)
    → frames_after fs (f ∷ used) (reverse fs ++ f ∷ used) ≡ reverse fs ++ f ∷ used
frames_after_self [] used f = refl
frames_after_self (x ∷ xs) used f = refl

reverse-cons_append : (f : ℕ) (fs used : List ℕ) → reverse fs ++ f ∷ used ≡ reverse (f ∷ fs) ++ used
reverse-cons_append f fs used =
    sym (
      ap (λ (xs : List ℕ). xs ++ used) (reverse-cons f fs)
      ∙ append_assoc (reverse fs) (f ∷ []) used)

-- While RAM has a free frame for each page asked for, the loop of `alloc_pages_range` succeeds. It
-- takes the frames from the front of the free list and touches no page and no swap; and the list
-- that it hands over is that of the used frames, the new ones in front, newest first.
pub alloc_pages_free :
    (stale fs rest : List ℕ) (c : Caller) (frm : List ℕ)
    → c.mram.free_fp_list ≡ fs ++ rest
    → let used = reverse fs ++ c.mram.used_fp_list in
      alloc_pages stale (length fs) c frm ≡ some (0, frames_after fs frm used, moved c rest used)
unfolding alloc_pages
alloc_pages_free stale [] rest c frm e =
    ap (λ (xs : List ℕ). some (0, frm, moved c xs c.mram.used_fp_list)) e
alloc_pages_free stale (f ∷ fs) rest c frm e =
    let used = f ∷ c.mram.used_fp_list in
    rw (grant_one_free stale c frm f (fs ++ rest) e) (
      alloc_pages_free stale fs rest (moved c (fs ++ rest) used) used refl
      ∙ ap (λ (xs : List ℕ). some (0, xs, moved c rest (reverse fs ++ used)))
          (frames_after_self fs c.mram.used_fp_list f)
      ∙ ap (λ (xs : List ℕ). some (0, xs, moved c rest xs))
          (reverse-cons_append f fs c.mram.used_fp_list))

-- With no free frame, no page that could be a victim and at least one page asked for, the loop
-- fails and changes nothing.
pub alloc_pages_no_victim :
    (stale : List ℕ) (n : ℕ) (c : Caller) (frm : List ℕ)
    → c.mram.free_fp_list ≡ []
    → c.mm.fifo_pgn ≡ []
    → alloc_pages stale (suc n) c frm ≡ some (minus_one, frm, c)
unfolding alloc_pages grant_one take_victim get_freefp find_victim_page
alloc_pages_no_victim stale n c frm e f = ground arith
