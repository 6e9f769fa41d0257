-- ===== src/Cpu/Queues.antt =====
-- `run` touches the queues of the scheduler only through `killall`.
use hcmut_os_ossim_sierra.Prelude.{
  ℕ, ◌≡◌, refl, Option, none, some, List, [], ◌>>=◌, leb, length, get_elem?, Bool-cases, inl, inr,
}
use hcmut_os_ossim_sierra.Prelude.Partial.{Whenever, Whenever-bind, Whenever-some}
use hcmut_os_ossim_sierra.Word.{byte_of}
use hcmut_os_ossim_sierra.Sched.{Sched}
use hcmut_os_ossim_sierra.Mm.{VmRg, Caller}
use hcmut_os_ossim_sierra.Libmem.{liballoc, libfree}
use hcmut_os_ossim_sierra.Libmem.Paging.{libread, libwrite}
use hcmut_os_ossim_sierra.Killall.Members.{KeepsSched}
use hcmut_os_ossim_sierra.Sched.Members.{SchedHolds}
use hcmut_os_ossim_sierra.Syscall.{Env}
use hcmut_os_ossim_sierra.Syscall.Queues.{libsyscall-KeepsSched}
use hcmut_os_ossim_sierra.Cpu.{
  Opcode, calc_op, alloc_op, free_op, read_op, write_op, syscall_op, Inst, Process, execute, run,
}

module _ (P : ℕ → ℕ → Type 0) (s : Sched) (v : SchedHolds P s) where
  -- An instruction that reaches no system call hands the scheduler on.
  hands_on {ℓ} :
      {A : Type ℓ} (o : Option A) (f : A → ℕ × Caller)
      → Whenever (KeepsSched P s) (o >>= λ a. some ((f a).0, s, (f a).1, []))
  hands_on none f = tt
  hands_on (some a) f = (v, refl)

  execute-KeepsSched :
      (env : Env) (stale_rg : List VmRg) (c : Caller) (ins : Inst) (o : Opcode)
      → ins.opcode ≡ o
      → Whenever (KeepsSched P s) (execute env stale_rg s c ins)
  unfolding execute
  execute-KeepsSched env stale_rg c ins calc_op e = rw e (v, refl)
  execute-KeepsSched env stale_rg c ins alloc_op e =
      rw e (hands_on (liballoc env.stale stale_rg c ins.arg_0 ins.arg_1 env.junk) (λ r. (r.0, r.2)))
  execute-KeepsSched env stale_rg c ins free_op e =
      rw e (hands_on (libfree stale_rg c ins.arg_0) (λ r. (r.0, r.1)))
  execute-KeepsSched env stale_rg c ins read_op e =
      rw e (hands_on (libread env.stale env.junk c ins.arg_0 ins.arg_1) (λ r. (r.0, r.2)))
  execute-KeepsSched env stale_rg c ins write_op e =
      rw e
        (hands_on (libwrite env.stale c (byte_of ins.arg_0) ins.arg_1 ins.arg_2) (λ r. (r.0, r.1)))
  execute-KeepsSched env stale_rg c ins syscall_op e =
      rw e (libsyscall-KeepsSched P env s c ins.arg_0 ins.arg_1 ins.arg_2 ins.arg_3 v)

  pub run-KeepsSched :
      (env : Env) (stale_rg : List VmRg) (proc : Process)
      → Whenever (KeepsSched P s) (run env stale_rg s proc)
  unfolding run
  run-KeepsSched env stale_rg proc = elim (Bool-cases (leb (length proc.code) proc.pc)) [
    | inl e ↦ rw e (v, refl)
    | inr e ↦ rw e (
        Whenever-bind _ (get_elem? proc.code proc.pc) _ λ ins o.
          Whenever-bind _ (execute env stale_rg s proc.caller ins) _ λ r o'.
            Whenever-some (KeepsSched P s) _ o'
              (execute-KeepsSched env stale_rg proc.caller ins ins.opcode refl))
  ]
