-- ===== src/Report.antt =====
-- The functions of src/mm.c that print, as the lines that they print and their status.
pub mod Entries
use hcmut_os_ossim_sierra.Prelude.{
  ℕ, zero, suc, ◌+◌, ◌-◌, ◌*◌, Option, none, some, List, [], ◌∷◌, ◌++◌, ◌==◌, if◌then◌else◌, map,
  ◌>>=◌, ◌>>◌, require, leb, ltb,
}
use hcmut_os_ossim_sierra.Word.{u32, minus_one}
use hcmut_os_ossim_sierra.Pte.Address.{pgn_of, max_pgn}
use hcmut_os_ossim_sierra.Mm.{VmRg, VmArea, Mm, Caller}
use hcmut_os_ossim_sierra.Vm.{vma_at}

-- A line by what it shows; `title` and `rule` stand for the fixed texts.
pub data Line : Type 0 where
  title : Line
  null_list : Line
  rule : Line
  fp : (fpn : ℕ) → Line
  rg : (rg_start rg_end : ℕ) → Line
  va : (vm_start vm_end : ℕ) → Line
  pgn : (pgn : ℕ) → Line
  pages : (first last : ℕ) → Line
  entry : (offset pte : ℕ) → Line

-- A list under its title, or the note that there is none and -1.
abbrev pub print_list {ℓ} : {A : Type ℓ} → (A → Line) → List A → ℕ × List Line
print_list line [] = (minus_one, title ∷ null_list ∷ [])
print_list line (x ∷ xs) = (0, title ∷ map line (x ∷ xs))

pub print_list_fp : List ℕ → ℕ × List Line
print_list_fp ifp = print_list fp ifp

pub print_list_rg : List VmRg → ℕ × List Line
print_list_rg irg = print_list (λ r. rg r.rg_start r.rg_end) irg

pub print_list_vma : List VmArea → ℕ × List Line
print_list_vma ivma = print_list (λ v. va v.vm_start v.vm_end) ivma

pub print_list_pgn : List ℕ → ℕ × List Line
print_list_pgn ip = print_list pgn ip

-- `for (pgit = pgn_start; pgit < pgn_end; pgit++)`
abbrev pub entries : (ℕ → ℕ) → ℕ → ℕ → List Line
entries pgd pgit zero = []
entries pgd pgit (suc n) = entry (pgit * 4) (pgd pgit) ∷ entries pgd (suc pgit) n

-- The end of the range: that of area 0 for -1, undefined if there is no such area.
abbrev end_of : Caller → ℕ → Option ℕ
end_of c last =
    if last == minus_one
    then vma_at c.mm 0 >>= (λ (i, cur_vma). some (u32 cur_vma.vm_end))
    else some last

-- `start` and `end`; the process is not NULL, since it has been used before that is tested.
pub print_pgtbl : Caller → ℕ → ℕ → Option (ℕ × List Line)
print_pgtbl c first last = do
  stop ← end_of c last
  some (0, pages first stop ∷ entries c.mm.pgd (pgn_of first) (pgn_of stop - pgn_of first))

-- Every list under a title of its own, between rules.
pub print_mem_status : Mm → VmArea → List VmArea → List Line
unfolding print_list_rg print_list_vma print_list_pgn
print_mem_status mm ivma rest =
    rule ∷ title ∷ title ∷ (print_list_rg ivma.vm_freerg_list).1
    ++ rule ∷ title ∷ (print_list_vma (ivma ∷ rest)).1
    ++ rule ∷ title ∷ (print_list_pgn mm.fifo_pgn).1
    ++ rule ∷ title ∷ rule ∷ []
