-- ===== src/Os/Running.antt =====
-- What running a process does to what the scheduler and the processor go by.
use hcmut_os_ossim_sierra.Prelude.{
  ℕ, ◌≡◌, refl, sym, ap, ◌∙◌, Option, none, some, List, ◌==◌, if◌then◌else◌, get_elem?, update, mem,
  Bool-cases, inl, inr, of_some, arith, subst, not, ◌||◌, ◌&&◌,
}
use hcmut_os_ossim_sierra.Prelude.Partial.{Whenever, Whenever-bind, Whenever-some}
use hcmut_os_ossim_sierra.Sched.{max_prio}
use hcmut_os_ossim_sierra.Mm.{VmRg}
use hcmut_os_ossim_sierra.Killall.Members.{KeepsSched}
use hcmut_os_ossim_sierra.Sched.Members.{SchedHolds}
use hcmut_os_ossim_sierra.Cpu.{run}
use hcmut_os_ossim_sierra.Cpu.Queues.{run-KeepsSched}
use hcmut_os_ossim_sierra.Os.{
  Pcb, Machine, run_proc, free_all, process_of, env_of, is_killall, queues_live,
}

-- A process of the second table was one of the first, of the same priority.
abbrev pub Older : (ℕ → Option Pcb) → (ℕ → Option Pcb) → Type 0
Older now was =
    (p : ℕ) (d : Pcb) → now p ≡ some d → (d' : Pcb) × (was p ≡ some d') × (d'.prio ≡ d.prio)

free_all-Older :
    (freed : List ℕ) (pcb : ℕ → Option Pcb) (p : ℕ) (d d' : Pcb)
    → pcb p ≡ some d
    → d'.prio ≡ d.prio
    → Older (free_all freed (update pcb p (some d'))) pcb
free_all-Older freed pcb p d d' e h q x g = elim (Bool-cases (mem q freed)) [
  | inl gone ↦
      absurd (cc (subst (λ b. (if b then none else update pcb p (some d') q) ≡ some x) gone g))
  | inr kept ↦
      let g' : update pcb p (some d') q ≡ some x =
        subst (λ b. (if b then none else update pcb p (some d') q) ≡ some x) kept g in
      elim (Bool-cases (q == p)) [
        | inl same ↦
            let q' : q ≡ p = ground arith in
            let is : d' ≡ x =
              of_some (subst (λ b. (if b then some d' else pcb q) ≡ some x) same g') in
            (d, rw q' e, sym h ∙ ap (λ (y : Pcb). y.prio) is)
        | inr other ↦ (x, subst (λ b. (if b then some d' else pcb q) ≡ some x) other g', refl)
      ]
]

pub freed-Older : (pcb : ℕ → Option Pcb) (p : ℕ) → Older (update pcb p none) pcb
freed-Older pcb p q d e = elim (Bool-cases (q == p)) [
  | inl same ↦ absurd (cc (subst (λ b. (if b then none else pcb q) ≡ some d) same e))
  | inr other ↦ (d, subst (λ b. (if b then none else pcb q) ≡ some d) other e, refl)
]

abbrev pub RunKeeps : (ℕ → ℕ → Type 0) → Machine → Machine → Type 0
RunKeeps P m m' = SchedHolds P m'.sched × (m'.sched.slot ≡ m.sched.slot) × Older m'.pcb m.pcb

-- `run` of a process that is there takes processes from the queues at most, leaves the slots alone,
-- and makes no process and changes no priority.
pub run_proc_lem :
    (P : ℕ → ℕ → Type 0) (stale : List ℕ) (junk : ℕ) (stale_rg : List VmRg) (m : Machine) (p : ℕ)
    → SchedHolds P m.sched
    → Whenever (RunKeeps P m) (run_proc stale junk stale_rg m p)
unfolding run_proc
run_proc_lem P stale junk stale_rg m p v = Whenever-bind (RunKeeps P m) (m.pcb p) _ λ d e.
    let ran = run-KeepsSched P m.sched v (env_of stale junk stale_rg m) stale_rg (process_of m d) in
    elim (Bool-cases (
      not (is_killall (get_elem? d.code d.pc))
      || (queues_live m.pcb m.sched.mlq_ready_queue 0 max_prio
          && queues_live m.pcb (λ _. m.sched.running_list) 0 1))) [
            | inl live ↦ rw live (
                Whenever-bind (RunKeeps P m)
                  (run (env_of stale junk stale_rg m) stale_rg m.sched (process_of m d)) _
                  λ r o.
                    let (holds, slots) = Whenever-some (KeepsSched P m.sched) _ o ran in
                    (holds, slots, free_all-Older r.3 m.pcb p d _ e refl))
            | inr dead ↦ rw dead tt
          ]
