-- ===== src/Loader.antt =====
-- src/loader.c: a process from its description, a text of bytes. What `fscanf` does is that of the C
-- library; the white space at the end of a format is left to the next read, which skips it too.
pub mod Numbers
pub mod RoundTrip
use hcmut_os_ossim_sierra.Prelude.{
  ℕ, zero, suc, ◌+◌, ◌-◌, ◌*◌, ◌%◌, Bool, true, false, not, Option, none, some, List, [], ◌∷◌, ◌++◌,
  ◌==◌, ltb, leb, if◌then◌else◌, ◌&&◌, ◌||◌, length, take, drop,
}
use hcmut_os_ossim_sierra.Cpu.{
  Opcode, calc_op, alloc_op, free_op, read_op, write_op, syscall_op, Inst,
}

-- What a call gives: undefined behaviour, the end of the simulator by `exit(1)`, or its result.
pub data Load {ℓ} (A : Type ℓ) : Type ℓ where
  undefined : Load A
  exits : Load A
  ok : A → Load A

infixl 5 ◌>>=◌
abbrev pub ◌>>=◌ {ℓ κ} : {A : Type ℓ} {B : Type κ} → Load A → (A → Load B) → Load B
undefined >>= f = undefined
exits >>= f = exits
ok a >>= f = f a

-- The bytes of a word, and a byte that stands between words.
abbrev pub is_space : ℕ → Bool
is_space c = (c == 32) || (leb 9 c && leb c 13)

abbrev pub is_digit : ℕ → Bool
is_digit c = leb 48 c && leb c 57

pub skip_space : List ℕ → List ℕ
skip_space [] = []
skip_space (c ∷ s) = let rest = skip_space s in if is_space c then rest else c ∷ s

pub word : List ℕ → List ℕ × List ℕ
word [] = ([], [])
word (c ∷ s) = if is_space c then ([], c ∷ s) else let (w, r) = word s in (c ∷ w, r)

-- The digits in front, read as a number behind `n`.
pub digits_of : ℕ → List ℕ → ℕ × List ℕ
digits_of n [] = (n, [])
digits_of n (c ∷ s) =
    let rest = digits_of (n * 10 + (c - 48)) s in if is_digit c then rest else (n, c ∷ s)

abbrev converted : ℕ × List ℕ → Option ℕ × List ℕ
converted (n, r) = (some n, r)

-- No digit in front: a conversion fails.
pub number : List ℕ → Option ℕ × List ℕ
number [] = (none, [])
number (c ∷ s) = if is_digit c then converted (digits_of 0 (c ∷ s)) else (none, c ∷ s)

-- `%u`, `%d` and `%lu`, by the range of the numbers that they convert.
pub record Conversion : Type 0 where
  pub top : ℕ
  pub low : ℕ
  pub wrap : ℕ

abbrev pub unsigned : Conversion
unsigned = record { top = 4294967296; low = 4294967295; wrap = 4294967296 }

abbrev pub signed : Conversion
signed = record { top = 2147483648; low = 2147483648; wrap = 4294967296 }

abbrev pub unsigned_long : Conversion
unsigned_long = record {
  top = 18446744073709551616;
  low = 18446744073709551615;
  wrap = 18446744073709551616;
}

-- The pattern of a number that is converted; it is undefined to convert one out of range.
abbrev pub ranged : Conversion → Option ℕ × List ℕ → Load (Option ℕ × List ℕ)
ranged v (none, r) = ok (none, r)
ranged v (some n, r) = if ltb n v.top then ok (some n, r) else undefined

abbrev pub negated : Conversion → Option ℕ × List ℕ → Load (Option ℕ × List ℕ)
negated v (none, r) = ok (none, r)
negated v (some n, r) = if leb n v.low then ok (some ((v.wrap - n) % v.wrap), r) else undefined

pub scan_number : Conversion → List ℕ → Load (Option ℕ × List ℕ)
unfolding number
scan_number v [] = ok (none, [])
scan_number v (c ∷ s) =
    if c == 45
    then negated v (number s)
    else if c == 43
    then ranged v (number s)
    else ranged v (number (c ∷ s))

pub scan : Conversion → List ℕ → Load (Option ℕ × List ℕ)
unfolding skip_space scan_number
scan v s = scan_number v (skip_space s)

-- As many conversions in turn as there are variables; the first that fails leaves the variables from
-- there on as they were.
pub scan_all : Conversion → List ℕ → List ℕ → Load (List ℕ × List ℕ)
scan_all v [] s = ok ([], s)
scan_all v (old ∷ olds) s = do
  (n, r) ← scan v s
  elim n as (λ _. Load (List ℕ × List ℕ)) [
    | none ↦ ok (old ∷ olds, r)
    | some x ↦ do (xs, r') ← scan_all v olds r; ok (x ∷ xs, r')
  ]

abbrev pub opt_calc : List ℕ
opt_calc = 99 ∷ 97 ∷ 108 ∷ 99 ∷ []

abbrev pub opt_alloc : List ℕ
opt_alloc = 97 ∷ 108 ∷ 108 ∷ 111 ∷ 99 ∷ []

abbrev pub opt_free : List ℕ
opt_free = 102 ∷ 114 ∷ 101 ∷ 101 ∷ []

abbrev pub opt_read : List ℕ
opt_read = 114 ∷ 101 ∷ 97 ∷ 100 ∷ []

abbrev pub opt_write : List ℕ
opt_write = 119 ∷ 114 ∷ 105 ∷ 116 ∷ 101 ∷ []

abbrev pub opt_syscall : List ℕ
opt_syscall = 115 ∷ 121 ∷ 115 ∷ 99 ∷ 97 ∷ 108 ∷ 108 ∷ []

-- `!strcmp(a, b)`
pub same_text : List ℕ → List ℕ → Bool
same_text [] [] = true
same_text [] (b ∷ bs) = false
same_text (a ∷ rest) [] = false
same_text (a ∷ rest) (b ∷ bs) = (a == b) && same_text rest bs

pub get_opcode : List ℕ → Load Opcode
unfolding same_text
get_opcode opt =
    if same_text opt opt_calc
    then ok calc_op
    else if same_text opt opt_alloc
    then ok alloc_op
    else if same_text opt opt_free
    then ok free_op
    else if same_text opt opt_read
    then ok read_op
    else if same_text opt opt_write
    then ok write_op
    else if same_text opt opt_syscall
    then ok syscall_op
    else exits

-- The file from its position on, and the locals `opcode` and `buf`, which a failed read keeps.
pub record Reader : Type 0 where
  pub file : List ℕ
  pub opcode : List ℕ
  pub buf : List ℕ

-- `fscanf(file, "%s", opcode)`: undefined if the word and its NUL do not fit in `opcode[10]`.
abbrev pub put_word : Reader → List ℕ × List ℕ → Load Reader
put_word f ([], r) = ok (record f { file = r })
put_word f (c ∷ w, r) =
    if leb 10 (length (c ∷ w)) then undefined else ok (record f { file = r; opcode = c ∷ w })

pub scan_opcode : Reader → Load Reader
scan_opcode f = put_word f (word (skip_space f.file))

-- The rest of the line with its newline, at most `n` bytes.
pub line : ℕ → List ℕ → List ℕ × List ℕ
line zero s = ([], s)
line (suc n) [] = ([], [])
line (suc n) (c ∷ s) = let (l, r) = line n s in if c == 10 then (c ∷ [], s) else (c ∷ l, r)

-- `fgets(buf, sizeof(buf), file)`, with `char buf[200]`.
abbrev pub put_line : Reader → List ℕ × List ℕ → Reader
put_line f ([], r) = record f { file = r }
put_line f (c ∷ l, r) = record f { file = r; buf = c ∷ l }

pub read_line : Reader → Reader
read_line f = put_line f (line 199 f.file)

-- The arguments in order, from those that were read.
abbrev pub with_args : Opcode → Inst → List ℕ → Inst
with_args o old [] = record old { opcode = o }
with_args o old (a ∷ []) = record old { opcode = o; arg_0 = a }
with_args o old (a ∷ b ∷ []) = record old { opcode = o; arg_0 = a; arg_1 = b }
with_args o old (a ∷ b ∷ c ∷ []) = record old { opcode = o; arg_0 = a; arg_1 = b; arg_2 = c }
with_args o old (a ∷ b ∷ c ∷ d ∷ _) = record old {
  opcode = o;
  arg_0 = a;
  arg_1 = b;
  arg_2 = c;
  arg_3 = d;
}

-- The arguments of an instruction from the file, or from `buf` for SYSCALL; those that it does not
-- read keep what `old`, the memory of the instruction, held.
pub load_args : Opcode → Inst → Reader → Load (Inst × Reader)
load_args calc_op old f = ok (record old { opcode = calc_op }, f)
load_args alloc_op old f = do
  (xs, r) ← scan_all unsigned (old.arg_0 ∷ old.arg_1 ∷ []) f.file
  ok (with_args alloc_op old xs, record f { file = r })
load_args free_op old f = do
  (xs, r) ← scan_all unsigned (old.arg_0 ∷ []) f.file
  ok (with_args free_op old xs, record f { file = r })
load_args read_op old f = do
  (xs, r) ← scan_all unsigned (old.arg_0 ∷ old.arg_1 ∷ old.arg_2 ∷ []) f.file
  ok (with_args read_op old xs, record f { file = r })
load_args write_op old f = do
  (xs, r) ← scan_all unsigned (old.arg_0 ∷ old.arg_1 ∷ old.arg_2 ∷ []) f.file
  ok (with_args write_op old xs, record f { file = r })
load_args syscall_op old f = do
  let f' = read_line f
  (xs, r) ← scan_all signed (old.arg_0 ∷ old.arg_1 ∷ old.arg_2 ∷ old.arg_3 ∷ []) f'.buf
  ok (with_args syscall_op old xs, f')

pub load_inst : Inst → Reader → Load (Inst × Reader)
load_inst old f = do f' ← scan_opcode f; o ← get_opcode f'.opcode; load_args o old f'

-- `for (i = 0; i < proc->code->size; i++)`; `text` is what the memory of the instructions held.
pub load_text : ℕ → (ℕ → Inst) → ℕ → Reader → Load (List Inst)
load_text zero text i f = ok []
load_text (suc n) text i f = do
  (ins, f') ← load_inst (text i) f
  rest ← load_text n text (suc i) f'
  ok (ins ∷ rest)

-- What `load` sets of `struct pcb_t`.
pub record Loaded : Type 0 where
  pub pid : ℕ
  pub priority : ℕ
  pub path : List ℕ
  pub code : List Inst
  pub pc : ℕ
  pub bp : ℕ

-- `snprintf(proc->path, 2 * sizeof(path) + 1, "%s", path)`: the size is that of a pointer, 8.
abbrev pub path_room : ℕ
path_room = 16

-- PAGE_SIZE of include/common.h.
abbrev pub bp_start : ℕ
bp_start = 1024

-- What is in memory that was never set: `priority` and `code->size`, the locals, the instructions.
pub record Unset : Type 0 where
  pub priority : ℕ
  pub size : ℕ
  pub opcode : List ℕ
  pub buf : List ℕ
  pub text : ℕ → Inst

abbrev pub start_load : Unset → ℕ → List ℕ → List ℕ × List ℕ → Load Loaded
start_load raw pid path (priority ∷ size ∷ _, r) = do
  code ← load_text size raw.text 0 (record { file = r; opcode = raw.opcode; buf = raw.buf })
  ok (record {
    pid = pid;
    priority = priority;
    path = take path_room path;
    code = code;
    pc = 0;
    bp = bp_start;
  })
start_load raw pid path (_, r) = undefined

-- `avail_pid` before and after; `file` is none if the path cannot be opened.
pub load : Unset → ℕ → List ℕ → Option (List ℕ) → Load (Loaded × ℕ)
load raw avail_pid path none = exits
load raw avail_pid path (some file) = do
  header ← scan_all unsigned (raw.priority ∷ raw.size ∷ []) file
  proc ← start_load raw avail_pid path header
  ok (proc, (avail_pid + 1) % 4294967296)
