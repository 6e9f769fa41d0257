-- ===== src/Mm/Victim.antt =====
-- The list of pages from which a victim is taken: new pages in front, victims from the end.
use mathlib.Core.List.{reverse, reverse-cons, append-nil, append_assoc}
use hcmut_os_ossim_sierra.Prelude.{
  sym, ℕ, zero, suc, ◌≡◌, refl, ◌∙◌, ap, List, [], ◌∷◌, ◌++◌, arith, length,
}
use hcmut_os_ossim_sierra.Word.{minus_one}
use hcmut_os_ossim_sierra.Mm.{Mm, split_last, find_victim_page, enlist_pgn_node}

split_last-append :
    (p : ℕ) (xs : List ℕ) (last : ℕ) → split_last p (xs ++ last ∷ []) ≡ (last, p ∷ xs)
unfolding split_last
split_last-append p [] last = refl
split_last-append p (x ∷ xs) last =
    ap (λ (r : ℕ × List ℕ). (r.0, p ∷ r.1)) (split_last-append x xs last)

-- Whatever pages were listed before and after it, the page at the end of the list is the victim; it
-- leaves the list, the others keep their order, and nothing else of the process changes.
pub find_victim_page_lem :
    (mm : Mm) (xs : List ℕ) (oldest old : ℕ)
    → mm.fifo_pgn ≡ xs ++ oldest ∷ []
    → find_victim_page mm old ≡ (0, oldest, record mm { fifo_pgn = xs })
unfolding find_victim_page split_last
find_victim_page_lem mm [] oldest old e = rw (e, find_victim_page)
find_victim_page_lem mm (x ∷ xs) oldest old e =
    rw (e, find_victim_page)
      (ap (λ (r : ℕ × List ℕ). (0, r.0, record mm { fifo_pgn = r.1 }))
        (split_last-append x xs oldest))

pub find_victim_page-empty :
    (mm : Mm) (old : ℕ) → mm.fifo_pgn ≡ [] → find_victim_page mm old ≡ (minus_one, old, mm)
unfolding find_victim_page
find_victim_page-empty mm old e = ground arith

-- Pages enlisted one after the other.
pub enlist_all : List ℕ → Mm → Mm
enlist_all [] mm = mm
enlist_all (p ∷ ps) mm = enlist_all ps (record mm { fifo_pgn = enlist_pgn_node mm.fifo_pgn p })

-- Victims taken one after the other, while there are any.
pub victims : ℕ → Mm → List ℕ
victims zero mm = []
victims (suc n) mm =
    let (status, p, mm') = find_victim_page mm 0 in
    let rest = victims n mm' in elim status [ zero ↦ p ∷ rest | suc e ↦ [] ]

enlist_all_lem :
    (ps : List ℕ) (mm : Mm) → enlist_all ps mm ≡ record mm { fifo_pgn = reverse ps ++ mm.fifo_pgn }
unfolding enlist_all enlist_pgn_node
enlist_all_lem [] mm = refl
enlist_all_lem (p ∷ ps) mm =
    enlist_all_lem ps (record mm { fifo_pgn = p ∷ mm.fifo_pgn })
    ∙ ap (λ (xs : List ℕ). record mm { fifo_pgn = xs })
        (sym (
          ap (λ (xs : List ℕ). xs ++ mm.fifo_pgn) (reverse-cons p ps)
          ∙ append_assoc (reverse ps) (p ∷ []) mm.fifo_pgn))

victims-reverse :
    (ps : List ℕ) (mm : Mm) → mm.fifo_pgn ≡ reverse ps → victims (suc (length ps)) mm ≡ ps
unfolding victims
victims-reverse [] mm e = rw (find_victim_page-empty mm 0 e, victims)
victims-reverse (p ∷ ps) mm e =
    ap
      (λ (r : ℕ × ℕ × Mm). elim r.0 as (λ _. List ℕ) [
        | zero ↦ r.1 ∷ victims (suc (length ps)) r.2
        | suc e' ↦ []
      ])
      (find_victim_page_lem mm (reverse ps) p 0 (e ∙ reverse-cons p ps))
    ∙ ap (◌∷◌ p) (victims-reverse ps (record mm { fifo_pgn = reverse ps }) refl)

-- First in, first out: a process that has no pages listed gives up the pages that it enlists in
-- the order in which it enlisted them, all of them, and no other.
pub victims-enlist_all :
    (mm : Mm) (ps : List ℕ) → mm.fifo_pgn ≡ [] → victims (suc (length ps)) (enlist_all ps mm) ≡ ps
victims-enlist_all mm ps e = victims-reverse ps (enlist_all ps mm) (
    ap (λ (m : Mm). m.fifo_pgn) (enlist_all_lem ps mm)
    ∙ ap (λ (xs : List ℕ). reverse ps ++ xs) e
    ∙ append-nil (reverse ps))
