-- ===== src/Cpu/Progress.antt =====
-- `run` over a program.
use mathlib.Core.List.{append_assoc}
use hcmut_os_ossim_sierra.Prelude.{
  ℕ, zero, suc, ◌+◌, ◌≤◌, ◌<◌, ◌≡◌, refl, sym, ap, ◌∙◌, false, Option, none, some, List, [], ◌∷◌,
  ◌++◌, arith, leb, length, length-append, get_elem?, ◌>>=◌, Option-cases, inl, inr,
}
use hcmut_os_ossim_sierra.Sched.{Sched}
use hcmut_os_ossim_sierra.Mm.{VmRg, Caller}
use hcmut_os_ossim_sierra.Syscall.{Env}
use hcmut_os_ossim_sierra.Cpu.{Inst, Process, calc_op, calc, execute, run}

-- `run` at the end of the program answers 1 and does nothing.
pub run-end :
    (env : Env) (stale_rg : List VmRg) (s : Sched) (proc : Process)
    → length proc.code ≤ proc.pc
    → run env stale_rg s proc ≡ some (1, s, proc, [])
unfolding run
run-end env stale_rg s proc h = ground arith

-- `n` calls of `run`.
unfoldable pub run_times : ℕ → Env → List VmRg → Sched → Process → Option (Sched × Process)
run_times zero env stale_rg s proc = some (s, proc)
run_times (suc n) env stale_rg s proc = do
  (stat, s', proc', freed) ← run env stale_rg s proc
  run_times n env stale_rg s' proc'

-- The instructions of a list one after the other, whatever each answers.
pub execute_all : Env → List VmRg → List Inst → Sched → Caller → Option (Sched × Caller)
execute_all env stale_rg [] s c = some (s, c)
execute_all env stale_rg (ins ∷ rest) s c = do
  (stat, s', c', freed) ← execute env stale_rg s c ins
  execute_all env stale_rg rest s' c'

-- The process when `code` has been executed, with the memory that this has left.
abbrev pub finished : List Inst → Option (Sched × Caller) → Option (Sched × Process)
finished code none = none
finished code (some (s, c)) = some (s, record { caller = c; code = code; pc = length code })

get_elem?-append :
    (first : List Inst) (ins : Inst) (rest : List Inst)
    → get_elem? (first ++ ins ∷ rest) (length first) ≡ some ins
get_elem?-append [] ins rest = refl
get_elem?-append (x ∷ xs) ins rest = get_elem?-append xs ins rest

-- With `first` done, the calls execute `rest`.
run_rest :
    (env : Env) (stale_rg : List VmRg) (rest first code : List Inst) (pc : ℕ) (s : Sched)
    (c : Caller)
    → code ≡ first ++ rest
    → pc ≡ length first
    → run_times (length rest) env stale_rg s (record { caller = c; code = code; pc = pc })
      ≡ finished code (execute_all env stale_rg rest s c)
unfolding run_times execute_all run
run_rest env stale_rg [] first code pc s c e at =
    ap (λ (n : ℕ). some (s, record { caller = c; code = code; pc = n }))
      (omega (arith, at, ap length e, length-append first []))
run_rest env stale_rg (ins ∷ rest) first code pc s c e at =
    let size = length-append first (ins ∷ rest) in
    let before : leb (length code) pc ≡ false = ground (arith, at, ap length e, size) in
    let here : get_elem? code pc ≡ some ins =
      ap (λ (xs : List Inst). get_elem? xs pc) e
      ∙ ap (get_elem? (first ++ ins ∷ rest)) at
      ∙ get_elem?-append first ins rest in
    rw (before, here)
      (elim (Option-cases (execute env stale_rg s c ins)) [
        | inl q ↦ rw q refl
        | inr ((stat, s', c', freed), q) ↦ rw q (
            run_rest env stale_rg rest (first ++ ins ∷ []) code (pc + 1) s' c'
              (e ∙ sym (append_assoc first (ins ∷ []) rest))
              (omega (arith, at, length-append first (ins ∷ []))))
      ])

-- A program is executed to its end: as many calls of `run` as it has instructions left execute just
-- these, each once and in their order, whatever they answer; they are defined exactly when the
-- instructions are, and leave the program alone. The program counter is then at the end, where the
-- simulator takes the process as finished, and where `run` answers 1 and does nothing.
pub run_times-end :
    (env : Env) (stale_rg : List VmRg) (first rest : List Inst) (s : Sched) (c : Caller)
    → let code = first ++ rest in
      (run_times
          (length rest)
          env
          stale_rg
          s
          (record { caller = c; code = code; pc = length first })
        ≡ finished code (execute_all env stale_rg rest s c))
      × ((s' : Sched) (c' : Caller)
          → let proc : Process = record { caller = c'; code = code; pc = length code } in
            run env stale_rg s' proc ≡ some (1, s', proc, []))
run_times-end env stale_rg first rest s c = (
  run_rest env stale_rg rest first (first ++ rest) (length first) s c refl refl,
  λ s' c'. run-end env stale_rg s' _ (omega arith),
)

-- A program that only calculates.
pub run-calc :
    (env : Env) (stale_rg : List VmRg) (s : Sched) (proc : Process) (ins : Inst)
    → proc.pc < length proc.code
    → get_elem? proc.code proc.pc ≡ some ins
    → ins.opcode ≡ calc_op
    → run env stale_rg s proc ≡ some (0, s, record proc { pc = proc.pc + 1 }, [])
unfolding run execute calc
run-calc env stale_rg s proc ins h e o =
    let before : leb (length proc.code) proc.pc ≡ false = ground arith in rw (before, e, o)
