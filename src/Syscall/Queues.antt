-- ===== src/Syscall/Queues.antt =====
-- No system call but `killall` touches the scheduler, and `killall` only takes processes away.
use mathlib.Core.Option
use hcmut_os_ossim_sierra.Prelude.{ℕ, refl, Option, none, some, [], ◌==◌}
use hcmut_os_ossim_sierra.Prelude.Partial.{Whenever, if_cases}
use hcmut_os_ossim_sierra.Sched.{Sched}
use hcmut_os_ossim_sierra.Mm.{Caller}
use hcmut_os_ossim_sierra.Memmap.{ScRegs, sys_memmap}
use hcmut_os_ossim_sierra.Sched.Members.{SchedHolds}
use hcmut_os_ossim_sierra.Killall.Members.{KeepsSched, sys_killall-KeepsSched}
use hcmut_os_ossim_sierra.Syscall.{Env, syscall, libsyscall}

map_keeps :
    (P : ℕ → ℕ → Type 0) (s : Sched) (o : Option (ℕ × ScRegs × Caller))
    → SchedHolds P s
    → Whenever (KeepsSched P s) (Option.map (λ (status, regs', c'). (status, s, c', [])) o)
map_keeps P s none v = tt
map_keeps P s (some r) v = (v, refl)

pub libsyscall-KeepsSched :
    (P : ℕ → ℕ → Type 0) (env : Env) (s : Sched) (c : Caller) (nr a1 a2 a3 : ℕ)
    → SchedHolds P s
    → Whenever (KeepsSched P s) (libsyscall env s c nr a1 a2 a3)
unfolding libsyscall syscall
libsyscall-KeepsSched P env s c nr a1 a2 a3 v =
    let regs : ScRegs = record { a1 = a1; a2 = a2; a3 = a3 } in
    let Q = Whenever (KeepsSched P s) in
    if_cases Q (nr == 0) _ _ (λ _. (v, refl))
      λ _.
        if_cases Q (nr == 17) _ _ (λ _. map_keeps P s (sys_memmap env.stale c regs) v)
          λ _.
            if_cases Q (nr == 101) _ _
              (λ _. sys_killall-KeepsSched P env.path env.stale env.junk s c a1 v)
              λ _. if_cases Q (nr == 440) _ _ (λ _. (v, refl)) (λ _. (v, refl))
