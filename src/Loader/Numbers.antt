-- ===== src/Loader/Numbers.antt =====
-- Numbers in decimal, as they are written in the description of a process, and read back.
pub mod Lines
pub mod Spaces
use hcmut_os_ossim_sierra.Prelude.{
  ℕ, zero, suc, ◌+◌, ◌-◌, ◌*◌, ◌/◌, ◌%◌, ◌≤◌, ◌<◌, ◌≡◌, refl, ap, sym, ◌∙◌, Bool, true, false,
  Option, none, some, List, [], ◌∷◌, ◌++◌, ◌==◌, ltb, leb, if◌then◌else◌, ◌&&◌, ◌||◌, All, length,
  arith, Bool-cases, inl, inr,
}
use hcmut_os_ossim_sierra.Loader.{
  Load, ok, is_space, is_digit, skip_space, digits_of, number, ranged, scan_number, Conversion,
  scan, scan_all,
}

-- The digits of `n`, at most as many as the fuel, in front of `out`.
pub digits : ℕ → ℕ → List ℕ → List ℕ
digits zero n out = out
digits (suc f) n out =
    let c = 48 + n % 10 in
    let rest = digits f (n / 10) (c ∷ out) in if ltb n 10 then c ∷ out else rest

-- Ten digits are enough for 32 bits.
abbrev pub print_number : ℕ → List ℕ → List ℕ
print_number n out = digits 10 n out

-- Each argument behind a space, and then the rest.
abbrev pub print_args : List ℕ → List ℕ → List ℕ
print_args [] rest = rest
print_args (x ∷ xs) rest = 32 ∷ print_number x (print_args xs rest)

abbrev power : ℕ → ℕ
power zero = 1
power (suc f) = 10 * power f

-- What stands behind a number does not go on with it.
abbrev pub NoDigit : List ℕ → Type 0
NoDigit [] = Unit
NoDigit (c ∷ s) = is_digit c ≡ false

abbrev pub HeadDigit : List ℕ → Type 0
HeadDigit [] = ⊥
HeadDigit (c ∷ s) = is_digit c ≡ true

digits-HeadDigit : (f n : ℕ) (out : List ℕ) → HeadDigit out → HeadDigit (digits f n out)
unfolding digits
digits-HeadDigit zero n out h = h
digits-HeadDigit (suc f) n out h = elim (Bool-cases (ltb n 10)) [
  | inl e ↦ rw e (ground arith)
  | inr e ↦ rw e (digits-HeadDigit f (n / 10) ((48 + n % 10) ∷ out) (ground arith))
]

pub print_number-HeadDigit : (n : ℕ) (out : List ℕ) → HeadDigit (print_number n out)
unfolding digits
print_number-HeadDigit n out = elim (Bool-cases (ltb n 10)) [
  | inl e ↦ rw e (ground arith)
  | inr e ↦ rw e (digits-HeadDigit 9 (n / 10) ((48 + n % 10) ∷ out) (ground arith))
]

digits_of-cons :
    (n d : ℕ) (out : List ℕ) → d < 10 → digits_of n ((48 + d) ∷ out) ≡ digits_of (n * 10 + d) out
unfolding digits_of
digits_of-cons n d out h =
    let digit : is_digit (48 + d) ≡ true = ground arith in
    rw digit (ap (λ k. digits_of k out) (omega arith))

-- Reading the digits of `n` gives `n`, and goes on behind it.
digits_of-digits :
    (f n : ℕ) (out : List ℕ) → n < power f → digits_of 0 (digits f n out) ≡ digits_of n out
unfolding digits
digits_of-digits zero n out h = ap (λ k. digits_of k out) (omega arith)
digits_of-digits (suc f) n out h = elim (Bool-cases (ltb n 10)) [
  | inl e ↦
      rw e (digits_of-cons 0 (n % 10) out (omega arith) ∙ ap (λ k. digits_of k out) (ground arith))
  | inr e ↦ rw e (
      digits_of-digits f (n / 10) ((48 + n % 10) ∷ out) (omega arith)
      ∙ digits_of-cons (n / 10) (n % 10) out (omega arith)
      ∙ ap (λ k. digits_of k out) (omega arith))
]

digits_of-end : (n : ℕ) (out : List ℕ) → NoDigit out → digits_of n out ≡ (n, out)
unfolding digits_of
digits_of-end n [] h = refl
digits_of-end n (c ∷ s) h = rw h

-- A text that starts with a digit is a number, with no space and no sign in front.
scan-HeadDigit :
    (v : Conversion) (s : List ℕ) (n : ℕ) (r : List ℕ)
    → HeadDigit s
    → digits_of 0 s ≡ (n, r)
    → n < v.top
    → scan v (32 ∷ s) ≡ ok (some n, r)
unfolding scan number skip_space
scan-HeadDigit v [] n r h e lt = absurd h
scan-HeadDigit v (c ∷ s) n r h e lt =
    let space : is_space c ≡ false = ground (arith, h) in
    let minus : (c == 45) ≡ false = ground (arith, h) in
    let plus : (c == 43) ≡ false = ground (arith, h) in
    let fits : ltb n v.top ≡ true = ground arith in rw (space, minus, plus, h, e, fits)

pub scan-print_number :
    (v : Conversion) (n : ℕ) (out : List ℕ)
    → n < v.top
    → n < 4294967296
    → NoDigit out
    → scan v (32 ∷ print_number n out) ≡ ok (some n, out)
scan-print_number v n out lt small h =
    scan-HeadDigit v (print_number n out) n out (print_number-HeadDigit n out)
      (digits_of-digits 10 n out (omega arith) ∙ digits_of-end n out h) lt
