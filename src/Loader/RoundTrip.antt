-- ===== src/Loader/RoundTrip.antt =====
-- A description that is written from a program is loaded as that program.
use hcmut_os_ossim_sierra.Prelude.{
  ℕ, suc, ◌+◌, ◌%◌, ◌≤◌, ◌<◌, ◌≡◌, refl, ap, sym, ◌∙◌, true, some, List, [], ◌∷◌, ◌++◌, length,
  take, arith,
}
use hcmut_os_ossim_sierra.Cpu.{
  Opcode, calc_op, alloc_op, free_op, read_op, write_op, syscall_op, Inst,
}
use hcmut_os_ossim_sierra.Loader.{
  Load, ok, ◌>>=◌, is_space, skip_space, word, scan_all, Conversion, unsigned, signed, get_opcode,
  same_text, scan_opcode, Reader, line, put_line, read_line, load_args, load_inst, load_text,
  with_args, opt_calc, opt_alloc, opt_free, opt_read, opt_write, opt_syscall, Unset, load,
}
use hcmut_os_ossim_sierra.Loader.Numbers.{print_args}
use hcmut_os_ossim_sierra.Loader.Numbers.Lines.{
  InRange, scan_all-print_args, line_lem, print_args-append, print_args-OneLine, length-print_args,
}

-- The arguments that the loader reads for an opcode, and those of an instruction.
abbrev pub args_of : Opcode → Inst → List ℕ
args_of calc_op i = []
args_of alloc_op i = i.arg_0 ∷ i.arg_1 ∷ []
args_of free_op i = i.arg_0 ∷ []
args_of read_op i = i.arg_0 ∷ i.arg_1 ∷ i.arg_2 ∷ []
args_of write_op i = i.arg_0 ∷ i.arg_1 ∷ i.arg_2 ∷ []
args_of syscall_op i = i.arg_0 ∷ i.arg_1 ∷ i.arg_2 ∷ i.arg_3 ∷ []

abbrev pub name_of : Opcode → List ℕ
name_of calc_op = opt_calc
name_of alloc_op = opt_alloc
name_of free_op = opt_free
name_of read_op = opt_read
name_of write_op = opt_write
name_of syscall_op = opt_syscall

abbrev pub conversion_of : Opcode → Conversion
conversion_of syscall_op = signed
conversion_of _ = unsigned

-- One instruction to a line, its name and its arguments.
abbrev pub print_inst : Inst → List ℕ → List ℕ
print_inst i rest = name_of i.opcode ++ print_args (args_of i.opcode i) (10 ∷ rest)

pub print_text : List Inst → List ℕ
print_text [] = []
print_text (i ∷ is) = print_inst i (print_text is)

-- What is read is what was written, with the memory of the instruction where nothing is read.
abbrev pub Matches : Inst → Inst → Type 0
Matches old i = with_args i.opcode old (args_of i.opcode i) ≡ i

-- The next word of the file is the name of the opcode.
load_inst-named :
    (o : Opcode) (old : Inst) (f : Reader) (c : ℕ) (rest : List ℕ)
    → is_space c ≡ true
    → skip_space f.file ≡ name_of o ++ c ∷ rest
    → load_inst old f ≡ load_args o old (record f { file = c ∷ rest; opcode = name_of o })
unfolding load_inst scan_opcode word get_opcode same_text
load_inst-named calc_op old f c rest h e = rw (e, h)
load_inst-named alloc_op old f c rest h e = rw (e, h)
load_inst-named free_op old f c rest h e = rw (e, h)
load_inst-named read_op old f c rest h e = rw (e, h)
load_inst-named write_op old f c rest h e = rw (e, h)
load_inst-named syscall_op old f c rest h e = rw (e, h)

-- The same for what `print_inst` writes behind the name.
load_inst-print_args :
    (o : Opcode) (old : Inst) (f : Reader) (xs rest : List ℕ)
    → skip_space f.file ≡ name_of o ++ print_args xs (10 ∷ rest)
    → load_inst old f
      ≡ load_args o old (record f { file = print_args xs (10 ∷ rest); opcode = name_of o })
load_inst-print_args o old f [] rest e = load_inst-named o old f 10 rest refl e
load_inst-print_args o old f (x ∷ xs) rest e = load_inst-named o old f 32 _ refl e

abbrev stored : Opcode → Inst → Reader → List ℕ × List ℕ → Load (Inst × Reader)
stored o old f (xs, r) = ok (with_args o old xs, record f { file = r })

-- Arguments read from the file.
from_file :
    (o : Opcode) (old : Inst) (f : Reader) (olds xs rest : List ℕ)
    → length olds ≡ length xs
    → InRange unsigned xs
    → (f' : Reader) × ((scan_all unsigned olds (print_args xs (10 ∷ rest)) >>= stored o old f)
        ≡ ok (with_args o old xs, f'))
      × (skip_space f'.file ≡ skip_space rest)
unfolding skip_space
from_file o old f olds xs rest l r = (
  record f { file = 10 ∷ rest },
  rw (scan_all-print_args unsigned olds xs (10 ∷ rest) l r refl),
  refl,
)

-- The line of a SYSCALL.
read_line-print_args :
    (f : Reader) (x : ℕ) (xs rest : List ℕ)
    → f.file ≡ print_args (x ∷ xs) (10 ∷ rest)
    → length xs ≤ 10
    → read_line f ≡ record f { file = rest; buf = print_args (x ∷ xs) (10 ∷ []) }
unfolding read_line
read_line-print_args f x xs rest e h =
    let text = print_args (x ∷ xs) [] in
    let text' : print_args (x ∷ xs) (10 ∷ rest) ≡ text ++ 10 ∷ rest =
      print_args-append (x ∷ xs) [] (10 ∷ rest) in
    let all : line 199 f.file ≡ (text ++ 10 ∷ [], rest) =
      ap (line 199) (e ∙ text')
      ∙ line_lem 199 text rest (print_args-OneLine (x ∷ xs))
          (omega (arith, length-print_args (x ∷ xs) 11 (omega (arith, h)))) in
    ap (put_line f) all
    ∙ ap (λ b. record f { file = rest; buf = b }) (sym (print_args-append (x ∷ xs) [] (10 ∷ [])))

load_args-print_args :
    (o : Opcode) (old : Inst) (f : Reader) (i : Inst) (rest : List ℕ)
    → f.file ≡ print_args (args_of o i) (10 ∷ rest)
    → InRange (conversion_of o) (args_of o i)
    → (f' : Reader) × (load_args o old f ≡ ok (with_args o old (args_of o i), f'))
      × (skip_space f'.file ≡ skip_space rest)
unfolding load_args
load_args-print_args calc_op old f i rest e r = (f, refl, unfold skip_space in rw e)
load_args-print_args alloc_op old f i rest e r =
    rw e (from_file alloc_op old f _ (args_of alloc_op i) rest refl r)
load_args-print_args free_op old f i rest e r =
    rw e (from_file free_op old f _ (args_of free_op i) rest refl r)
load_args-print_args read_op old f i rest e r =
    rw e (from_file read_op old f _ (args_of read_op i) rest refl r)
load_args-print_args write_op old f i rest e r =
    rw e (from_file write_op old f _ (args_of write_op i) rest refl r)
load_args-print_args syscall_op old f i rest e r =
    let xs = args_of syscall_op i in
    let line_read =
      read_line-print_args f i.arg_0 (i.arg_1 ∷ i.arg_2 ∷ i.arg_3 ∷ []) rest e (omega arith) in
    let f' : Reader = record f { file = rest; buf = print_args xs (10 ∷ []) } in
    (f', rw line_read (rw (scan_all-print_args signed _ xs (10 ∷ []) refl r refl)), refl)

skip_space-name : (o : Opcode) (rest : List ℕ) → skip_space (name_of o ++ rest) ≡ name_of o ++ rest
unfolding skip_space
skip_space-name calc_op rest = refl
skip_space-name alloc_op rest = refl
skip_space-name free_op rest = refl
skip_space-name read_op rest = refl
skip_space-name write_op rest = refl
skip_space-name syscall_op rest = refl

-- The instructions fit the loader: arguments in range, and what is not read as memory has it.
abbrev pub Printable : (ℕ → Inst) → ℕ → List Inst → Type 0
Printable text k [] = Unit
Printable text k (i ∷ is) =
    InRange (conversion_of i.opcode) (args_of i.opcode i)
    × Matches (text k) i
    × Printable text (suc k) is

load_text-print_text :
    (is : List Inst) (text : ℕ → Inst) (k : ℕ) (f : Reader)
    → skip_space f.file ≡ skip_space (print_text is)
    → Printable text k is
    → load_text (length is) text k f ≡ ok is
unfolding load_text print_text
load_text-print_text [] text k f e p = refl
load_text-print_text (i ∷ is) text k f e (r, m, p) =
    let named =
      load_inst-print_args i.opcode (text k) f (args_of i.opcode i) (print_text is)
        (e ∙ skip_space-name i.opcode _) in
    let (f', args, rest) = load_args-print_args i.opcode (text k) _ i (print_text is) refl r in
    let one : load_inst (text k) f ≡ ok (i, f') = named ∙ args ∙ ap (λ j. ok (j, f')) m in
    rw one (rw (load_text-print_text is text (suc k) f' rest p))

-- The priority and the number of instructions, and then the instructions.
pub print_process : ℕ → List Inst → List ℕ
unfolding print_text
print_process priority is = print_args (priority ∷ length is ∷ []) (10 ∷ print_text is)

-- A description that is written from a program, its arguments in the ranges of the formats, is loaded
-- as that program, with the next free PID; of the path, as much is kept as `snprintf` is given room
-- for, sixteen bytes.
pub load-print_process :
    (raw : Unset) (avail_pid priority : ℕ) (path : List ℕ) (is : List Inst)
    → priority < 4294967296
    → length is < 4294967296
    → Printable raw.text 0 is
    → load raw avail_pid path (some (print_process priority is))
      ≡ ok (
        record {
          pid = avail_pid;
          priority = priority;
          path = take 16 path;
          code = is;
          pc = 0;
          bp = 1024;
        },
        (avail_pid + 1) % 4294967296,
      )
unfolding load print_process
load-print_process raw avail_pid priority path is h l p =
    let header =
      scan_all-print_args unsigned (raw.priority ∷ raw.size ∷ []) (priority ∷ length is ∷ [])
        (10 ∷ print_text is) refl ((h, h), ((l, l), tt)) refl in
    let text =
      load_text-print_text is raw.text 0
        (record { file = 10 ∷ print_text is; opcode = raw.opcode; buf = raw.buf })
        (unfold skip_space in refl) p in
    rw header (rw text)
