-- ===== src/Cpu/Quiet.antt =====
-- An instruction that is no `killall` leaves the scheduler alone and frees no process.
use hcmut_os_ossim_sierra.Prelude.{
  ℕ, ◌≡◌, refl, sym, ◌∙◌, ap, Bool, false, Option, none, some, List, [], ◌>>=◌, leb, length,
  get_elem?, Bool-cases, inl, inr, ◌==◌, subst,
}
use hcmut_os_ossim_sierra.Prelude.Partial.{Whenever, Whenever-bind, Whenever-some}
use hcmut_os_ossim_sierra.Word.{byte_of}
use hcmut_os_ossim_sierra.Sched.{Sched}
use hcmut_os_ossim_sierra.Mm.{VmRg, Caller}
use hcmut_os_ossim_sierra.Libmem.{liballoc, libfree}
use hcmut_os_ossim_sierra.Libmem.Paging.{libread, libwrite}
use hcmut_os_ossim_sierra.Syscall.{Env}
use hcmut_os_ossim_sierra.Syscall.Quiet.{Quiet, libsyscall-Quiet}
use hcmut_os_ossim_sierra.Cpu.{
  Opcode, calc_op, alloc_op, free_op, read_op, write_op, syscall_op, Inst, Process, execute, run,
}

-- The instruction calls on `killall`.
abbrev pub kills : Option Inst → Bool
kills none = false
kills (some ins) = elim ins.opcode [ syscall_op ↦ ins.arg_0 == 101 | _ ↦ false ]

module _ (env : Env) (stale_rg : List VmRg) (s : Sched) where
  hands_on {ℓ} :
      {A : Type ℓ} (o : Option A) (f : A → ℕ × Caller)
      → Whenever (Quiet s) (o >>= λ a. some ((f a).0, s, (f a).1, []))
  hands_on none f = tt
  hands_on (some a) f = (refl, refl)

  execute-Quiet :
      (c : Caller) (ins : Inst) (o : Opcode)
      → ins.opcode ≡ o
      → kills (some ins) ≡ false
      → Whenever (Quiet s) (execute env stale_rg s c ins)
  unfolding execute
  execute-Quiet c ins calc_op e h = rw e (refl, refl)
  execute-Quiet c ins alloc_op e h =
      rw e (hands_on (liballoc env.stale stale_rg c ins.arg_0 ins.arg_1 env.junk) (λ r. (r.0, r.2)))
  execute-Quiet c ins free_op e h = rw e (hands_on (libfree stale_rg c ins.arg_0) (λ r. (r.0, r.1)))
  execute-Quiet c ins read_op e h =
      rw e (hands_on (libread env.stale env.junk c ins.arg_0 ins.arg_1) (λ r. (r.0, r.2)))
  execute-Quiet c ins write_op e h =
      rw e
        (hands_on (libwrite env.stale c (byte_of ins.arg_0) ins.arg_1 ins.arg_2) (λ r. (r.0, r.1)))
  execute-Quiet c ins syscall_op e h =
      let other : (ins.arg_0 == 101) ≡ false =
        subst
          (λ (o : Opcode).
            (elim o as (λ _. Bool) [ syscall_op ↦ ins.arg_0 == 101 | _ ↦ false ]) ≡ false)
          e h in
      rw e (libsyscall-Quiet env s c ins.arg_0 ins.arg_1 ins.arg_2 ins.arg_3 other)

  -- The program of the process stays what it is.
  pub run-Quiet :
      (proc : Process)
      → kills (get_elem? proc.code proc.pc) ≡ false
      → Whenever (λ r. Quiet s r × (r.2.code ≡ proc.code)) (run env stale_rg s proc)
  unfolding run
  run-Quiet proc h = elim (Bool-cases (leb (length proc.code) proc.pc)) [
    | inl e ↦ rw e ((refl, refl), refl)
    | inr e ↦ rw e (
        Whenever-bind _ (get_elem? proc.code proc.pc) _ λ ins o.
          Whenever-bind _ (execute env stale_rg s proc.caller ins) _ λ r o'. (
            Whenever-some (Quiet s) _ o'
                (execute-Quiet proc.caller ins ins.opcode refl (ap kills (sym o) ∙ h)),
            refl,
          ))
  ]
