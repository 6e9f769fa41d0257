-- ===== src/Syscall/Quiet.antt =====
-- Every system call but `killall` leaves the scheduler alone and frees no process.
use mathlib.Core.Option
use hcmut_os_ossim_sierra.Prelude.{ℕ, ◌≡◌, refl, false, Option, none, some, List, [], ◌==◌}
use hcmut_os_ossim_sierra.Prelude.Partial.{Whenever, if_cases}
use hcmut_os_ossim_sierra.Sched.{Sched}
use hcmut_os_ossim_sierra.Mm.{Caller}
use hcmut_os_ossim_sierra.Memmap.{ScRegs, sys_memmap}
use hcmut_os_ossim_sierra.Syscall.{Env, syscall, libsyscall}

-- The scheduler as it was, and nothing freed.
abbrev pub Quiet {ℓ} : {A : Type ℓ} → Sched → ℕ × Sched × A × List ℕ → Type 0
Quiet s r = (r.1 ≡ s) × (r.3 ≡ [])

map-Quiet :
    (s : Sched) (o : Option (ℕ × ScRegs × Caller))
    → Whenever (Quiet s) (Option.map (λ (status, regs', c'). (status, s, c', [])) o)
map-Quiet s none = tt
map-Quiet s (some r) = (refl, refl)

pub libsyscall-Quiet :
    (env : Env) (s : Sched) (c : Caller) (nr a1 a2 a3 : ℕ)
    → (nr == 101) ≡ false
    → Whenever (Quiet s) (libsyscall env s c nr a1 a2 a3)
unfolding libsyscall syscall
libsyscall-Quiet env s c nr a1 a2 a3 h =
    let regs : ScRegs = record { a1 = a1; a2 = a2; a3 = a3 } in
    let Q = Whenever (Quiet {A = Caller} s) in
    if_cases Q (nr == 0) _ _ (λ _. (refl, refl))
      λ _.
        if_cases Q (nr == 17) _ _ (λ _. map-Quiet s (sys_memmap env.stale c regs))
          λ _.
            if_cases Q (nr == 101) _ _ (λ e. absurd (cc (h, e)))
              λ _. if_cases Q (nr == 440) _ _ (λ _. (refl, refl)) (λ _. (refl, refl))
