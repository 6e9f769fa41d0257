-- ===== src/Os/Config.antt =====
-- The configuration of src/os.c: `read_config`, and what `main` attaches to the timer.
pub mod SizesLine
pub mod RoundTrip
pub mod Attach
use hcmut_os_ossim_sierra.Prelude.{
  ℕ, zero, suc, ◌+◌, Bool, true, false, Option, none, some, List, [], ◌∷◌, ◌++◌, ◌==◌, ltb, leb,
  if◌then◌else◌, length,
}
use hcmut_os_ossim_sierra.Word.{is_negative}
use hcmut_os_ossim_sierra.Loader.{
  Load, undefined, exits, ok, ◌>>=◌, Conversion, signed, unsigned_long, scan, skip_space, word,
  line,
}
use hcmut_os_ossim_sierra.Timer.{Attachable, attach_event, start_timer}
use hcmut_os_ossim_sierra.Os.{LdProcess}

-- Conversions in turn: how many succeeded, the variables, and the rest of the text.
pub record Scanned : Type 0 where
  pub count : ℕ
  pub values : List ℕ
  pub rest : List ℕ

abbrev pub one_more : ℕ → Scanned → Scanned
one_more x s = record { count = suc s.count; values = x ∷ s.values; rest = s.rest }

pub scan_count : Conversion → List ℕ → List ℕ → Load Scanned
scan_count v [] s = ok (record { count = 0; values = []; rest = s })
scan_count v (old ∷ olds) s = do
  (n, r) ← scan v s
  elim n as (λ _. Load Scanned) [
    | none ↦ ok (record { count = 0; values = old ∷ olds; rest = r })
    | some x ↦ do more ← scan_count v olds r; ok (one_more x more)
  ]

-- A format that ends with a newline skips white space once all its conversions have succeeded.
abbrev pub then_space : ℕ → Scanned → List ℕ
then_space n s = if s.count == n then skip_space s.rest else s.rest

-- The statics that `read_config` sets. An `int` is its pattern.
pub record Config : Type 0 where
  pub time_slot : ℕ
  pub num_cpus : ℕ
  pub num_processes : ℕ
  pub memramsz : ℕ
  pub memswpsz : List ℕ
  pub processes : List LdProcess

-- The sizes, and the file from where the processes are read.
pub record Sizes : Type 0 where
  pub ram : ℕ
  pub swap : List ℕ
  pub rest : List ℕ

abbrev pub legacy_sizes : List ℕ → Sizes
legacy_sizes pos = record { ram = 1048576; swap = 16777216 ∷ 0 ∷ 0 ∷ 0 ∷ []; rest = pos }

abbrev sizes_of : List ℕ → List ℕ → Scanned → Sizes
sizes_of pos after s = if s.count == 5 then new_sizes s.values else legacy_sizes pos
  where
    new_sizes : List ℕ → Sizes
    new_sizes [] = legacy_sizes pos
    new_sizes (ram ∷ swap) = record { ram = ram; swap = swap; rest = skip_space after }

-- The second line: at `pos`, read into `buffer[256]`; `unset` is `sz_config` before it is read. At the
-- end of the file the sizes stay 0.
abbrev sizes_line : List ℕ → List ℕ → List ℕ × List ℕ → Load Sizes
sizes_line unset pos ([], after) = ok (record { ram = 0; swap = 0 ∷ 0 ∷ 0 ∷ 0 ∷ []; rest = after })
sizes_line unset pos (c ∷ l, after) = do
  s ← scan_count signed unset (c ∷ l)
  ok (sizes_of pos after s)

pub read_sizes : List ℕ → List ℕ → Load Sizes
read_sizes unset pos = sizes_line unset pos (line 255 pos)

abbrev pub input_proc : List ℕ
input_proc = 105 ∷ 110 ∷ 112 ∷ 117 ∷ 116 ∷ 47 ∷ 112 ∷ 114 ∷ 111 ∷ 99 ∷ 47 ∷ []

-- What `fscanf(file, "%lu %s %lu\n", ...)` has set: the start, the name and the priority, and the rest.
pub record Entry : Type 0 where
  pub start_time : ℕ
  pub name : List ℕ
  pub prio : ℕ
  pub rest : List ℕ

abbrev entry_prio : Entry → Load Entry
entry_prio e = do
  s ← scan_count unsigned_long (e.prio ∷ []) e.rest
  elim s.values as (λ _. Load Entry) [
    | [] ↦ ok e
    | p ∷ _ ↦ ok (record e { prio = p; rest = then_space 1 s })
  ]

-- A word that does not fit in `proc[100]` with its NUL is undefined; without a word the call ends.
abbrev entry_name : Entry → List ℕ × List ℕ → Load Entry
entry_name e ([], r) = ok (record e { rest = r })
entry_name e (c ∷ w, r) =
    if leb 100 (length (c ∷ w)) then undefined else entry_prio (record e { name = c ∷ w; rest = r })

-- `old` is what the variables held before.
pub scan_entry : Entry → Load Entry
scan_entry old = do
  s ← scan_count unsigned_long (old.start_time ∷ []) old.rest
  elim s.values as (λ _. Load Entry) [
    | [] ↦ ok old
    | t ∷ _ ↦
        if s.count == 1
        then entry_name (record old { start_time = t }) (word (skip_space s.rest))
        else ok (record old { rest = s.rest })
  ]

-- The loop over the processes. `strcat` into a path of 100 bytes; `unset i` is the entry of `malloc`.
pub read_processes : ℕ → (ℕ → Entry) → ℕ → List ℕ → List ℕ → Load (List LdProcess)
read_processes zero unset i name file = ok []
read_processes (suc n) unset i name file = do
  e ← scan_entry (record (unset i) { name = name; rest = file })
  if leb 100 (length (input_proc ++ e.name)) then undefined else do
    more ← read_processes n unset (suc i) e.name e.rest
    ok (record { path = input_proc ++ e.name; start_time = e.start_time; prio = e.prio } ∷ more)

abbrev int_count : ℕ → ℕ
int_count n = if is_negative n then 0 else n

abbrev with_header : List ℕ → (ℕ → Entry) → List ℕ → Scanned → Load Config
with_header unset_sizes unset name s = elim s.values as (λ _. Load Config) [
  | a ∷ b ∷ n ∷ [] ↦ do
    sizes ← read_sizes unset_sizes (then_space 3 s)
    processes ← read_processes (int_count n) unset 0 name sizes.rest
    ok (record {
      time_slot = a;
      num_cpus = b;
      num_processes = n;
      memramsz = sizes.ram;
      memswpsz = sizes.swap;
      processes = processes;
    })
  | _ ↦ undefined
]

-- `file` is none if the path cannot be opened. The statics are 0 before; `name` is the local `proc`.
pub read_config : List ℕ → (ℕ → Entry) → List ℕ → Option (List ℕ) → Load Config
read_config unset_sizes unset name none = exits
read_config unset_sizes unset name (some file) = do
  s ← scan_count signed (0 ∷ 0 ∷ 0 ∷ []) file
  with_header unset_sizes unset name s

-- What `main` does with the timer: an event for each processor, one for the loader, and the start.
pub attach_all : ℕ → Attachable → Attachable
attach_all zero a = a
attach_all (suc n) a = attach_all n (attach_event a).1

pub main_timer : ℕ → Attachable → Attachable
unfolding attach_all
main_timer num_cpus a = start_timer (attach_event (attach_all (int_count num_cpus) a)).1
