-- ===== src/Os/Config/RoundTrip.antt =====
-- A configuration that is written with its line of sizes is read as it was written.
use hcmut_os_ossim_sierra.Prelude.{
  ℕ, suc, ◌<◌, ◌≡◌, refl, ap, ◌∙◌, false, some, List, [], ◌∷◌, ◌++◌, leb, All, length,
  length-append, map, arith,
}
use hcmut_os_ossim_sierra.Word.{is_negative}
use hcmut_os_ossim_sierra.Loader.{ok, signed, unsigned_long, skip_space, word}
use hcmut_os_ossim_sierra.Loader.Numbers.{print_args, print_number-HeadDigit}
use hcmut_os_ossim_sierra.Loader.Numbers.Lines.{InRange}
use hcmut_os_ossim_sierra.Loader.Numbers.Spaces.{
  skip_space-cons, skip_space-stay, skip_space-HeadDigit, skip_space_twice, NoSpace, word-append,
}
use hcmut_os_ossim_sierra.Os.{LdProcess}
use hcmut_os_ossim_sierra.Os.Config.{
  input_proc, Entry, scan_entry, read_processes, read_config, entry_name,
}
use hcmut_os_ossim_sierra.Os.Config.SizesLine.{
  scan_count-print_args, scan_count-skip_space, print_sizes, read_sizes-print,
}

-- The line of a process.
pub record ProcLine : Type 0 where
  pub start_time : ℕ
  pub name : List ℕ
  pub prio : ℕ

abbrev pub print_line : ProcLine → List ℕ → List ℕ
print_line p rest =
    print_args (p.start_time ∷ []) (32 ∷ p.name ++ print_args (p.prio ∷ []) (10 ∷ rest))

pub print_lines : List ProcLine → List ℕ
print_lines [] = []
print_lines (p ∷ ps) = print_line p (print_lines ps)

abbrev pub process_at : ProcLine → LdProcess
process_at p = record { path = input_proc ++ p.name; start_time = p.start_time; prio = p.prio }

-- A name of 1 to 88 bytes without white space, and numbers of 32 bits.
pub record LineFits (p : ProcLine) : Type 0 where
  pub nonempty : 0 < length p.name
  pub short : length p.name < 89
  pub spaceless : NoSpace p.name
  pub start_small : p.start_time < 4294967296
  pub prio_small : p.prio < 4294967296

-- `fscanf("%lu %s %lu\n")` on such a line.
entry_name-word :
    (e : Entry) (w rest : List ℕ) (prio : ℕ)
    → 0 < length w
    → length w < 100
    → prio < 4294967296
    → entry_name e (w, print_args (prio ∷ []) (10 ∷ rest))
      ≡ ok (record { start_time = e.start_time; name = w; prio = prio; rest = skip_space rest })
entry_name-word e [] rest prio h k r = absurd (omega (arith, h))
entry_name-word e (c ∷ w) rest prio h k r =
    let fits : leb 100 (length (c ∷ w)) ≡ false = ground (arith, k) in
    rw fits (
      rw
        (scan_count-print_args unsigned_long (e.prio ∷ []) (prio ∷ []) (10 ∷ rest) refl
          ((omega arith, r), tt) refl)
        (ap (λ s. ok (record { start_time = e.start_time; name = c ∷ w; prio = prio; rest = s }))
          (skip_space-cons 10 rest refl)))

skip_space-name : (w rest : List ℕ) → 0 < length w → NoSpace w → skip_space (w ++ rest) ≡ w ++ rest
skip_space-name [] rest h n = absurd (omega (arith, h))
skip_space-name (c ∷ w) rest h n = skip_space-stay c (w ++ rest) n.0

scan_entry-print_line :
    (old : Entry) (p : ProcLine) (rest : List ℕ)
    → LineFits p
    → skip_space old.rest ≡ skip_space (print_line p rest)
    → scan_entry old
      ≡ ok (record {
        start_time = p.start_time;
        name = p.name;
        prio = p.prio;
        rest = skip_space rest;
      })
unfolding scan_entry
scan_entry-print_line old p rest f e =
    let after = 32 ∷ p.name ++ print_args (p.prio ∷ []) (10 ∷ rest) in
    let first =
      scan_count-skip_space unsigned_long old.start_time [] old.rest (print_line p rest) e
      ∙ scan_count-print_args unsigned_long (old.start_time ∷ []) (p.start_time ∷ []) after refl
          ((omega (arith, f.start_small), f.start_small), tt) refl in
    let named : word (skip_space after) ≡ (p.name, print_args (p.prio ∷ []) (10 ∷ rest)) =
      ap word (skip_space-cons 32 _ refl ∙ skip_space-name p.name _ f.nonempty f.spaceless)
      ∙ word-append p.name 32 _ f.spaceless refl in
    rw first (
      ap (entry_name (record old { start_time = p.start_time })) named
      ∙ entry_name-word (record old { start_time = p.start_time }) p.name rest p.prio f.nonempty
          (omega (arith, f.short)) f.prio_small)

read_processes-print_lines :
    (ps : List ProcLine) (unset : ℕ → Entry) (i : ℕ) (name file : List ℕ)
    → All LineFits ps
    → skip_space file ≡ skip_space (print_lines ps)
    → read_processes (length ps) unset i name file ≡ ok (map process_at ps)
unfolding read_processes print_lines
read_processes-print_lines [] unset i name file f e = refl
read_processes-print_lines (p ∷ ps) unset i name file (f, fs) e =
    let room : leb 100 (length (input_proc ++ p.name)) ≡ false =
      ground (arith, f.short, length-append input_proc p.name) in
    rw (
      scan_entry-print_line (record (unset i) { name = name; rest = file }) p (print_lines ps) f e,
      room,
      read_processes-print_lines ps unset (suc i) p.name (skip_space (print_lines ps)) fs
          (skip_space_twice (print_lines ps)),
    )

-- The whole file.
pub print_config : ℕ → ℕ → ℕ → List ℕ → List ProcLine → List ℕ
unfolding print_lines
print_config time_slot num_cpus ram swap ps =
    print_args (time_slot ∷ num_cpus ∷ length ps ∷ [])
      (10 ∷ print_sizes ram swap (10 ∷ print_lines ps))

-- A configuration with its line of five sizes is read as it was written, whatever the variables held
-- before: its numbers positive `int`s, and the processes with the paths of their names.
pub read_config-print_config :
    (unset_sizes : List ℕ) (unset : ℕ → Entry) (name : List ℕ) (time_slot num_cpus ram : ℕ)
    (swap : List ℕ) (ps : List ProcLine)
    → length unset_sizes ≡ 5
    → length swap ≡ 4
    → InRange signed (time_slot ∷ num_cpus ∷ length ps ∷ ram ∷ swap)
    → All LineFits ps
    → read_config unset_sizes unset name (some (print_config time_slot num_cpus ram swap ps))
      ≡ ok (record {
        time_slot = time_slot;
        num_cpus = num_cpus;
        num_processes = length ps;
        memramsz = ram;
        memswpsz = swap;
        processes = map process_at ps;
      })
unfolding read_config print_config
read_config-print_config unset_sizes unset name time_slot num_cpus ram swap ps l k (a, (b, (c, r)))
      f =
    let rest = print_sizes ram swap (10 ∷ print_lines ps) in
    let header =
      scan_count-print_args signed (0 ∷ 0 ∷ 0 ∷ []) (time_slot ∷ num_cpus ∷ length ps ∷ [])
        (10 ∷ rest) refl (a, (b, (c, tt))) refl in
    let at_sizes : skip_space (10 ∷ rest) ≡ rest =
      skip_space-cons 10 rest refl
      ∙ skip_space-HeadDigit rest (print_number-HeadDigit ram (print_args swap _)) in
    let positive : is_negative (length ps) ≡ false = ground (arith, c.0) in
    rw header (
      rw at_sizes (
        rw (read_sizes-print unset_sizes ram swap (print_lines ps) l k r) (
          rw positive (
            rw (
              read_processes-print_lines ps unset 0 name (skip_space (print_lines ps)) f
                (skip_space_twice (print_lines ps)))))))
