-- ===== src/Loader/Numbers/Spaces.antt =====
-- White space and words, as `fscanf` goes over them.
use hcmut_os_ossim_sierra.Prelude.{
  ℕ, ◌≡◌, refl, true, false, List, [], ◌∷◌, ◌++◌, All, arith, Bool-cases, inl, inr,
}
use hcmut_os_ossim_sierra.Loader.{Conversion, scan, skip_space, word, is_space}
use hcmut_os_ossim_sierra.Loader.Numbers.{HeadDigit}

-- A conversion looks past white space.
pub scan-skip_space :
    (v : Conversion) (a b : List ℕ) → skip_space a ≡ skip_space b → scan v a ≡ scan v b
unfolding scan
scan-skip_space v a b e = rw e

pub skip_space-cons : (c : ℕ) (s : List ℕ) → is_space c ≡ true → skip_space (c ∷ s) ≡ skip_space s
unfolding skip_space
skip_space-cons c s h = rw h

pub skip_space-stay : (c : ℕ) (s : List ℕ) → is_space c ≡ false → skip_space (c ∷ s) ≡ c ∷ s
unfolding skip_space
skip_space-stay c s h = rw h

pub skip_space-HeadDigit : (s : List ℕ) → HeadDigit s → skip_space s ≡ s
skip_space-HeadDigit [] h = absurd h
skip_space-HeadDigit (c ∷ s) h = skip_space-stay c s (ground (arith, h))

pub skip_space_twice : (s : List ℕ) → skip_space (skip_space s) ≡ skip_space s
unfolding skip_space
skip_space_twice [] = refl
skip_space_twice (c ∷ s) = elim (Bool-cases (is_space c)) [
  | inl e ↦ rw e (skip_space_twice s)
  | inr e ↦ rw (e, e)
]

abbrev pub NoSpace : List ℕ → Type 0
NoSpace s = All (λ c. is_space c ≡ false) s

-- A word ends where white space follows.
pub word-append :
    (w : List ℕ) (c : ℕ) (rest : List ℕ)
    → NoSpace w
    → is_space c ≡ true
    → word (w ++ c ∷ rest) ≡ (w, c ∷ rest)
unfolding word
word-append [] c rest n h = rw h
word-append (x ∷ w) c rest n h = rw (n.0, word-append w c rest n.1 h)
