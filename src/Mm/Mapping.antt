-- ===== src/Mm/Mapping.antt =====
-- `vmap_page_range` and `vm_map_ram`: which page gets which frame.
use mathlib.Core.List.{reverse, reverse-cons}
use hcmut_os_ossim_sierra.Prelude.{
  ℕ, zero, suc, ◌+◌, ◌*◌, ◌≤◌, ◌<◌, ◌≡◌, refl, ◌∙◌, sym, ap, List, [], ◌∷◌, ◌++◌, some, arith,
  length, length-append, get_elem?, update, ◌⊎◌,
}
use hcmut_os_ossim_sierra.Word.{add32, mul32}
use hcmut_os_ossim_sierra.Pte.{pte_set_fpn}
use hcmut_os_ossim_sierra.Pte.Address.{page_size, max_pgn, pgn_of, pgn_of_lem}
use hcmut_os_ossim_sierra.Mm.{Mm, Caller, map_page, map_pages, vm_map_ram, enlist_pgn_node, rounds}
use hcmut_os_ossim_sierra.Mm.Frames.{moved, alloc_pages_free, frames_after}

-- Page `base + i` gets the `i`-th of the frames, each page is listed in front, and nothing else
-- changes.
abbrev pub mapped_one : ℕ → ℕ → Mm → Mm
mapped_one base f mm = record mm {
  pgd = update mm.pgd base (pte_set_fpn (mm.pgd base) f);
  fifo_pgn = base ∷ mm.fifo_pgn;
}

abbrev pub mapped : ℕ → List ℕ → Mm → Mm
mapped base [] mm = mm
mapped base (f ∷ fs) mm = mapped (suc base) fs (mapped_one base f mm)

pub page_at :
    (base pgit : ℕ)
    → base + pgit < max_pgn
    → pgn_of (add32 (base * page_size) (mul32 pgit page_size)) ≡ base + pgit
page_at base pgit h = omega (arith, pgn_of_lem (add32 (base * page_size) (mul32 pgit page_size)))

-- Mapping `fs` from the page of `addr` on, while the addresses stay on the bus.
pub map_pages_lem :
    (fs more : List ℕ) (pgit : ℕ) (c : Caller) (base : ℕ)
    → base + pgit + length fs ≤ max_pgn
    → map_pages (length fs) pgit c (base * page_size) (some (fs ++ more))
      ≡ some (record c { mm = mapped (base + pgit) fs c.mm })
unfolding map_pages enlist_pgn_node
map_pages_lem [] more pgit c base h = refl
map_pages_lem (f ∷ fs) more pgit c base h =
    ap
      (λ (p : ℕ).
        map_pages (length fs) (suc pgit) (map_page c p f) (base * page_size) (some (fs ++ more)))
      (page_at base pgit (omega arith))
    ∙ map_pages_lem fs more (suc pgit) (map_page c (base + pgit) f) base (omega arith)
    ∙ ap (λ (b : ℕ). some (record c { mm = mapped b fs (map_page c (base + pgit) f).mm }))
        (omega arith)

pub pgd-mapped_out :
    (base : ℕ) (fs : List ℕ) (mm : Mm) (j : ℕ)
    → (j < base) ⊎ (base + length fs ≤ j)
    → (mapped base fs mm).pgd j ≡ mm.pgd j
pgd-mapped_out base [] mm j h = refl
pgd-mapped_out base (x ∷ xs) mm j h =
    ground (arith, pgd-mapped_out (suc base) xs (mapped_one base x mm) j)

-- The entry of each page in the range has the frame of its place in the list.
pub pgd-mapped_in :
    (base : ℕ) (fs : List ℕ) (mm : Mm) (i f : ℕ)
    → get_elem? fs i ≡ some f
    → (mapped base fs mm).pgd (base + i) ≡ pte_set_fpn (mm.pgd (base + i)) f
pgd-mapped_in base [] mm i f h = absurd (cc)
pgd-mapped_in base (x ∷ xs) mm zero f h =
    ground (arith, pgd-mapped_out (suc base) xs (mapped_one base x mm) base)
pgd-mapped_in base (x ∷ xs) mm (suc i) f h =
    ground (arith, pgd-mapped_in (suc base) xs (mapped_one base x mm) i f h)

pub rounds_lem : (n : ℕ) → n < 2147483648 → rounds n ≡ n
rounds_lem n h = ground arith

pub length-reverse : (xs : List ℕ) → length (reverse xs) ≡ length xs
length-reverse [] = refl
length-reverse (x ∷ xs) =
    omega
      (arith, ap length (reverse-cons x xs), length-append (reverse xs) (x ∷ []), length-reverse xs)

-- The frames just taken are mapped, whatever used frames follow them in the list.
map_taken :
    (fs : List ℕ) (c : Caller) (base : ℕ) (used : List ℕ)
    → base + length fs ≤ max_pgn
    → map_pages (length fs) 0 c (base * page_size) (some (frames_after fs [] (reverse fs ++ used)))
      ≡ some (record c { mm = mapped base (reverse fs) c.mm })
map_taken [] c base used h = unfold map_pages in refl
map_taken (f ∷ fs) c base used h =
    let taken = reverse (f ∷ fs) in
    let same = length-reverse (f ∷ fs) in
    ap (λ (n : ℕ). map_pages n 0 c (base * page_size) (some (taken ++ used))) (sym same)
    ∙ map_pages_lem taken used 0 c base (omega arith)
    ∙ ap (λ (b : ℕ). some (record c { mm = mapped b taken c.mm })) (omega arith)

-- With a free frame in RAM for each page, `vm_map_ram` succeeds: it takes the first frames of the
-- free list, and maps the pages from the one of `mapstart` on to them, the last frame taken first.
-- The swaps stay as they were, and so do the areas and the symbols of the process.
pub vm_map_ram_lem :
    (stale fs rest : List ℕ) (c : Caller) (base : ℕ)
    → c.mram.free_fp_list ≡ fs ++ rest
    → base + length fs ≤ max_pgn
    → vm_map_ram stale c (base * page_size) (length fs)
      ≡ some (
        0,
        record (moved c rest (reverse fs ++ c.mram.used_fp_list)) {
          mm = mapped base (reverse fs) c.mm;
        },
      )
unfolding vm_map_ram
vm_map_ram_lem stale fs rest c base e h =
    let used = reverse fs ++ c.mram.used_fp_list in
    rw (
      rounds_lem (length fs) (omega arith),
      alloc_pages_free stale fs rest c [] e,
      map_taken fs (moved c rest used) base c.mram.used_fp_list h,
    )
