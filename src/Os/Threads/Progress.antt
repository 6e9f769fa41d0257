-- ===== src/Os/Threads/Progress.antt =====
-- No deadlock of the simulator, and no undefined behaviour outside of instructions.
pub mod NoDeadlock
pub mod NoUndefined
use hcmut_os_ossim_sierra.Prelude.{
  ℕ, ◌≡◌, ◌≢◌, refl, sym, ap, ◌∙◌, Bool, Option, none, some, List, ◌==◌, ◌⊎◌, inl, inr, Bool-cases,
  Option-cases, arith, length, ◌>>=◌,
}
use hcmut_os_ossim_sierra.Sched.{get_slot}
use hcmut_os_ossim_sierra.Sched.Ready.{get_proc-eq-pick}
use hcmut_os_ossim_sierra.Sched.Members.{put_proc-some, get_slot-some}
use hcmut_os_ossim_sierra.Mm.{VmRg}
use hcmut_os_ossim_sierra.Os.{Pcb, Machine, CpuState, run_proc, run_slot, recheck, dispatch}
use hcmut_os_ossim_sierra.Os.Threads.{
  finished, expired, CpuPc, head, charging, storing, freeing, getting, asking, rechecking, calling,
  leaving, Cpu, work, work_head, work_get, put_back, after_recheck,
}
use hcmut_os_ossim_sierra.Os.Threads.Effects.{owned_at, lent_at}
use hcmut_os_ossim_sierra.Os.Threads.Owners.{Usable}
use hcmut_os_ossim_sierra.Os.Threads.Draining.{Has}

-- A step of a processor has a result, or it is an instruction of its process that has none.
abbrev pub Defined :
    Machine → CpuPc → CpuState → (Machine → ℕ → Option Machine) → Option (Machine × Cpu) → Type 0
Defined m pc c ran o =
    ((r : Machine × Cpu) × (o ≡ some r))
    ⊎ ((pc ≡ rechecking) × (c.proc ≢ 0) × (ran m c.proc ≡ none))

module _ (stale : List ℕ) (junk : ℕ) (stale_rg : List VmRg) (time_slot : ℕ) (done : Bool)
    (m : Machine) (c : CpuState) where
  abbrev Fine : CpuPc → Option (Machine × Cpu) → Type 0
  Fine pc = Defined m pc c (run_proc stale junk stale_rg)

  head-Defined :
      (c.proc ≢ 0 → Usable m.pcb c.proc) → Fine head (work_head stale junk stale_rg time_slot m c)
  unfolding work_head put_back
  head-Defined u = elim (Bool-cases (c.proc == 0)) [
    | inl z ↦ rw z (inl (_, refl))
    | inr z ↦
        let (d, e, lt) = u (ground arith) in
        let (s, p) = put_proc-some m.sched c.proc d.prio lt in
        rw z (
          rw e (elim (Bool-cases (d.pc == length d.code)) [
            | inl f ↦ rw f (inl (_, refl))
            | inr f ↦ rw f (elim (Bool-cases (c.time_left == 0)) [
              | inl g ↦ rw g (rw p (inl (_, refl)))
              | inr g ↦ rw g (inl (_, refl))
            ])
          ]))
  ]

  -- `proc->prio` and the slots of the priority.
  slot_read :
      {A : Type 0} (f : Pcb → ℕ → A)
      → Usable m.pcb c.proc
      → (r : A) × ((do d ← m.pcb c.proc; v ← get_slot m.sched d.prio; some (f d v)) ≡ some r)
  slot_read f (d, e, lt) = rw e (rw (get_slot-some m.sched d.prio lt) (_, refl))

  run-Defined :
      (c' : CpuState)
      → c'.proc ≡ c.proc
      → c.proc ≢ 0
      → Fine rechecking (do o ← run_slot stale junk stale_rg m c'; some (after_recheck c o))
  unfolding run_slot
  run-Defined c' same ne = elim (Option-cases (run_proc stale junk stale_rg m c'.proc)) [
    | inl e ↦ inr (refl, ne, ap (run_proc stale junk stale_rg m) (sym same) ∙ e)
    | inr (m', e) ↦ rw e (inl (_, refl))
  ]

  recheck-Defined :
      Fine rechecking
        (do o ← recheck stale junk stale_rg time_slot done m c; some (after_recheck c o))
  unfolding recheck dispatch
  recheck-Defined = elim (Bool-cases (c.proc == 0)) [
    | inl z ↦ rw z (inl (_, refl))
    | inr z ↦ rw z (elim (Bool-cases (c.time_left == 0)) [
      | inl f ↦ rw f (run-Defined _ refl (ground arith))
      | inr f ↦ rw f (run-Defined c refl (ground arith))
    ])
  ]

  -- With its processes at hand, the processor does its next step, but for the two calls of timer.c.
  pub work-Defined :
      (pc : CpuPc)
      → (owned_at pc c.proc ≢ 0 → Usable m.pcb (owned_at pc c.proc))
      → (lent_at pc c.proc ≢ 0 → Usable m.pcb (lent_at pc c.proc))
      → (Has pc → c.proc ≢ 0)
      → pc ≢ calling
      → pc ≢ leaving
      → Fine pc (work stale junk stale_rg time_slot done m pc c)
  unfolding work work_get
  work-Defined head u l a h h' = head-Defined u
  work-Defined (charging finished) u l a h h' = inl (slot_read _ (u (a tt)))
  work-Defined (charging expired) u l a h h' = inl (slot_read _ (l (a tt)))
  work-Defined (storing t prio v) u l a h h' = inl (_, refl)
  work-Defined freeing u l a h h' = inl (_, refl)
  work-Defined (getting b) u l a h h' = rw (get_proc-eq-pick m.sched) (inl (_, refl))
  work-Defined asking u l a h h' = inl (slot_read _ (u (a tt)))
  work-Defined rechecking u l a h h' = recheck-Defined
  work-Defined calling u l a h h' = absurd (h refl)
  work-Defined leaving u l a h h' = absurd (h' refl)
