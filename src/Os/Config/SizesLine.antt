-- ===== src/Os/Config/SizesLine.antt =====
-- The conversions of a configuration, and its line of sizes, written and read back.
use hcmut_os_ossim_sierra.Prelude.{ℕ, ◌≡◌, refl, ap, sym, ◌∙◌, List, [], ◌∷◌, ◌++◌, length, arith}
use hcmut_os_ossim_sierra.Loader.{ok, Conversion, signed, skip_space, line}
use hcmut_os_ossim_sierra.Loader.Numbers.{
  print_number, print_args, NoDigit, HeadDigit, print_number-HeadDigit, scan-print_number,
}
use hcmut_os_ossim_sierra.Loader.Numbers.Lines.{
  InRange, NoDigit-print_args, line_lem, print_args-append, digits-append, print_args-OneLine,
  length-print_args,
}
use hcmut_os_ossim_sierra.Loader.Numbers.Spaces.{scan-skip_space, skip_space-cons}
use hcmut_os_ossim_sierra.Os.Config.{scan_count, read_sizes, sizes_line}

pub scan_count-print_args :
    (v : Conversion) (olds xs rest : List ℕ)
    → length olds ≡ length xs
    → InRange v xs
    → NoDigit rest
    → scan_count v olds (print_args xs rest)
      ≡ ok (record { count = length xs; values = xs; rest = rest })
unfolding scan_count
scan_count-print_args v [] [] rest l r h = refl
scan_count-print_args v (old ∷ olds) [] rest l r h = absurd (omega (arith, l))
scan_count-print_args v [] (x ∷ xs) rest l r h = absurd (omega (arith, l))
scan_count-print_args v (old ∷ olds) (x ∷ xs) rest l r h = rw (
  scan-print_number v x (print_args xs rest) r.0.0 r.0.1 (NoDigit-print_args xs rest h),
  scan_count-print_args v olds xs rest (omega (arith, l)) r.1 h,
)

pub scan_count-skip_space :
    (v : Conversion) (old : ℕ) (olds a b : List ℕ)
    → skip_space a ≡ skip_space b
    → scan_count v (old ∷ olds) a ≡ scan_count v (old ∷ olds) b
unfolding scan_count
scan_count-skip_space v old olds a b e = rw (scan-skip_space v a b e)

-- The line of the sizes.
abbrev pub print_sizes : ℕ → List ℕ → List ℕ → List ℕ
print_sizes ram swap rest = print_number ram (print_args swap rest)

line-sizes :
    (ram : ℕ) (swap rest : List ℕ)
    → length swap ≡ 4
    → line 255 (print_sizes ram swap (10 ∷ rest)) ≡ (print_sizes ram swap (10 ∷ []), rest)
line-sizes ram swap rest l =
    let text = print_sizes ram swap [] in
    ap (line 255) (split (10 ∷ rest))
    ∙ line_lem 255 text rest (print_args-OneLine (ram ∷ swap)).1
        (omega (arith, length-print_args (ram ∷ swap) 5 (omega (arith, l))))
    ∙ ap (λ s. (s, rest)) (sym (split (10 ∷ [])))
  where
    split : (more : List ℕ) → print_sizes ram swap more ≡ print_sizes ram swap [] ++ more
    split more =
        ap (print_number ram) (print_args-append swap [] more)
        ∙ digits-append 10 ram (print_args swap []) more

scan-sizes :
    (unset : List ℕ) (ram : ℕ) (swap : List ℕ)
    → length unset ≡ 5
    → length swap ≡ 4
    → InRange signed (ram ∷ swap)
    → scan_count signed unset (print_sizes ram swap (10 ∷ []))
      ≡ ok (record { count = 5; values = ram ∷ swap; rest = 10 ∷ [] })
scan-sizes [] ram swap l k r = absurd (omega (arith, l))
scan-sizes (old ∷ olds) ram swap l k r =
    scan_count-skip_space signed old olds (print_sizes ram swap (10 ∷ []))
      (print_args (ram ∷ swap) (10 ∷ [])) (sym (skip_space-cons 32 _ refl))
    ∙ scan_count-print_args signed (old ∷ olds) (ram ∷ swap) (10 ∷ []) (omega (arith, l, k)) r refl
    ∙ ap (λ n. ok (record { count = n; values = ram ∷ swap; rest = 10 ∷ [] })) (omega (arith, k))

sizes_line-text :
    (unset pos after text : List ℕ) (ram : ℕ) (swap rest : List ℕ)
    → HeadDigit text
    → scan_count signed unset text ≡ ok (record { count = 5; values = ram ∷ swap; rest = rest })
    → sizes_line unset pos (text, after)
      ≡ ok (record { ram = ram; swap = swap; rest = skip_space after })
sizes_line-text unset pos after [] ram swap rest h e = absurd h
sizes_line-text unset pos after (c ∷ text) ram swap rest h e = rw e

pub read_sizes-print :
    (unset : List ℕ) (ram : ℕ) (swap rest : List ℕ)
    → length unset ≡ 5
    → length swap ≡ 4
    → InRange signed (ram ∷ swap)
    → read_sizes unset (print_sizes ram swap (10 ∷ rest))
      ≡ ok (record { ram = ram; swap = swap; rest = skip_space rest })
unfolding read_sizes
read_sizes-print unset ram swap rest l k r =
    ap (sizes_line unset (print_sizes ram swap (10 ∷ rest))) (line-sizes ram swap rest k)
    ∙ sizes_line-text unset _ rest (print_sizes ram swap (10 ∷ [])) ram swap (10 ∷ [])
        (print_number-HeadDigit ram _) (scan-sizes unset ram swap l k r)
