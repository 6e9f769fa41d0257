-- ===== src/Loader/Numbers/Lines.antt =====
-- Arguments on a line, written and read back.
use hcmut_os_ossim_sierra.Prelude.{
  ℕ, zero, suc, ◌+◌, ◌*◌, ◌/◌, ◌%◌, ◌≤◌, ◌<◌, ◌≡◌, refl, ap, ◌∙◌, false, List, [], ◌∷◌, ◌++◌, ◌==◌,
  ltb, All, length, arith, Bool-cases, inl, inr,
}
use hcmut_os_ossim_sierra.Loader.{ok, scan_all, Conversion, line}
use hcmut_os_ossim_sierra.Loader.Numbers.{
  digits, print_number, print_args, NoDigit, scan-print_number,
}

-- The arguments are in range of the conversion.
abbrev pub InRange : Conversion → List ℕ → Type 0
InRange v xs = All (λ x. (x < v.top) × (x < 4294967296)) xs

pub NoDigit-print_args : (xs rest : List ℕ) → NoDigit rest → NoDigit (print_args xs rest)
NoDigit-print_args [] rest h = h
NoDigit-print_args (x ∷ xs) rest h = refl

pub scan_all-print_args :
    (v : Conversion) (olds xs rest : List ℕ)
    → length olds ≡ length xs
    → InRange v xs
    → NoDigit rest
    → scan_all v olds (print_args xs rest) ≡ ok (xs, rest)
unfolding scan_all
scan_all-print_args v [] [] rest l r h = refl
scan_all-print_args v (old ∷ olds) [] rest l r h = absurd (omega (arith, l))
scan_all-print_args v [] (x ∷ xs) rest l r h = absurd (omega (arith, l))
scan_all-print_args v (old ∷ olds) (x ∷ xs) rest l r h = rw (
  scan-print_number v x (print_args xs rest) r.0.0 r.0.1 (NoDigit-print_args xs rest h),
  scan_all-print_args v olds xs rest (omega (arith, l)) r.1 h,
)

-- A line: no newline inside it.
abbrev pub OneLine : List ℕ → Type 0
OneLine s = All (λ c. (c == 10) ≡ false) s

pub line_lem :
    (n : ℕ) (s rest : List ℕ)
    → OneLine s
    → length s < n
    → line n (s ++ 10 ∷ rest) ≡ (s ++ 10 ∷ [], rest)
unfolding line
line_lem zero s rest o h = absurd (omega arith)
line_lem (suc n) [] rest o h = refl
line_lem (suc n) (c ∷ s) rest o h = rw (line_lem n s rest o.1 (omega (arith, h)), o.0)

pub digits-append :
    (f n : ℕ) (out rest : List ℕ) → digits f n (out ++ rest) ≡ digits f n out ++ rest
unfolding digits
digits-append zero n out rest = refl
digits-append (suc f) n out rest = elim (Bool-cases (ltb n 10)) [
  | inl e ↦ rw e
  | inr e ↦ rw e (digits-append f (n / 10) ((48 + n % 10) ∷ out) rest)
]

pub digits-OneLine : (f n : ℕ) (out : List ℕ) → OneLine out → OneLine (digits f n out)
unfolding digits
digits-OneLine zero n out o = o
digits-OneLine (suc f) n out o = elim (Bool-cases (ltb n 10)) [
  | inl e ↦ rw e (ground arith, o)
  | inr e ↦ rw e (digits-OneLine f (n / 10) ((48 + n % 10) ∷ out) (ground arith, o))
]

length-digits : (f n : ℕ) (out : List ℕ) → length (digits f n out) ≤ f + length out
unfolding digits
length-digits zero n out = omega arith
length-digits (suc f) n out = elim (Bool-cases (ltb n 10)) [
  | inl e ↦ rw e (omega arith)
  | inr e ↦ rw e (omega (arith, length-digits f (n / 10) ((48 + n % 10) ∷ out)))
]

pub print_args-append :
    (xs rest more : List ℕ) → print_args xs (rest ++ more) ≡ print_args xs rest ++ more
print_args-append [] rest more = refl
print_args-append (x ∷ xs) rest more =
    ap (λ s. 32 ∷ print_number x s) (print_args-append xs rest more)
    ∙ ap (◌∷◌ 32) (digits-append 10 x (print_args xs rest) more)

pub print_args-OneLine : (xs : List ℕ) → OneLine (print_args xs [])
print_args-OneLine [] = tt
print_args-OneLine (x ∷ xs) = (refl, digits-OneLine 10 x (print_args xs []) (print_args-OneLine xs))

pub length-print_args : (xs : List ℕ) (k : ℕ) → length xs ≤ k → length (print_args xs []) ≤ k * 11
length-print_args [] k h = omega arith
length-print_args (x ∷ xs) zero h = absurd (omega (arith, h))
length-print_args (x ∷ xs) (suc k) h =
    omega (arith, length-digits 10 x (print_args xs []), length-print_args xs k (omega (arith, h)))
