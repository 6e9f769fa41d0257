-- ===== src/Report/Entries.antt =====
-- Which entries of the page table `print_pgtbl` shows.
use hcmut_os_ossim_sierra.Prelude.{
  ℕ, zero, suc, ◌+◌, ◌*◌, ◌/◌, ◌<◌, ◌≡◌, refl, ap, ◌∙◌, ◌-◌, some, List, ◌∷◌, length, get_elem?,
  arith,
}
use hcmut_os_ossim_sierra.Report.{Line, pages, entry, entries, print_pgtbl}
use hcmut_os_ossim_sierra.Mm.{Caller}
use hcmut_os_ossim_sierra.Vm.Limit.{vma_at-own}
use hcmut_os_ossim_sierra.Vm.Overlap.{HasArea}
use hcmut_os_ossim_sierra.Word.{u32}
use hcmut_os_ossim_sierra.Pte.Address.{pgn_of, pgn_of_lem}

length-entries : (pgd : ℕ → ℕ) (pgit n : ℕ) → length (entries pgd pgit n) ≡ n
length-entries pgd pgit zero = refl
length-entries pgd pgit (suc n) = omega (arith, length-entries pgd (suc pgit) n)

-- The `k`-th line shows entry `pgit + k` behind its offset of four bytes for each entry.
pub get_elem?-entries :
    (pgd : ℕ → ℕ) (pgit n k : ℕ)
    → k < n
    → get_elem? (entries pgd pgit n) k ≡ some (entry ((pgit + k) * 4) (pgd (pgit + k)))
get_elem?-entries pgd pgit zero k h = absurd (omega arith)
get_elem?-entries pgd pgit (suc n) zero h = ground arith
get_elem?-entries pgd pgit (suc n) (suc k) h = ground (arith, get_elem?-entries pgd (suc pgit) n k)

-- `print_pgtbl(proc, 0, -1)` shows the pages of the only area of a process, below the 4 MB of the
-- bus, and no other: line `k` is the entry of page `k`.
pub print_pgtbl-area :
    (c : Caller) (last k : ℕ)
    → HasArea c last
    → last < 4194304
    → k < last / 256
    → (lines : List Line) × (print_pgtbl c 0 4294967295 ≡ some (0, pages 0 last ∷ lines))
      × (length lines ≡ last / 256)
      × (get_elem? lines k ≡ some (entry (k * 4) (c.mm.pgd k)))
unfolding print_pgtbl
print_pgtbl-area c last k v h lt =
    let first_page : pgn_of 0 ≡ 0 = pgn_of_lem 0 in
    let whole : u32 last ≡ last = omega arith in
    let count : pgn_of last - 0 ≡ last / 256 = omega (arith, pgn_of_lem last) in
    (
      entries c.mm.pgd 0 (last / 256),
      rw (vma_at-own c last v, whole, first_page, count),
      length-entries c.mm.pgd 0 (last / 256),
      get_elem?-entries c.mm.pgd 0 (last / 256) k lt
          ∙ ap (λ i. some (entry (i * 4) (c.mm.pgd i))) (omega arith),
    )
