-- ===== src/Os/Threads/Effects/Work.antt =====
-- Every step of a processor has one of the effects of `Os.Threads.Effects`.
use hcmut_os_ossim_sierra.Prelude.{
  ℕ, ◌≡◌, ◌≢◌, refl, sym, ap, ◌∙◌, Bool, true, false, Option, some, List, ◌==◌, if◌then◌else◌,
  update, Bool-cases, inl, inr, Option-cases, arith, length, ◌>>=◌,
}
use hcmut_os_ossim_sierra.Prelude.Partial.{Whenever, Whenever-bind, Whenever-some, if_cases}
use hcmut_os_ossim_sierra.Sched.{Sched, get_proc, put_proc, get_slot}
use hcmut_os_ossim_sierra.Mm.{VmRg}
use hcmut_os_ossim_sierra.Timer.{Device}
use hcmut_os_ossim_sierra.Cpu.{run}
use hcmut_os_ossim_sierra.Cpu.Quiet.{run-Quiet}
use hcmut_os_ossim_sierra.Os.{
  Pcb, Machine, CpuState, next_slot, stops, run_proc, run_slot, recheck, dispatch, env_of,
  process_of, free_all,
}
use hcmut_os_ossim_sierra.Os.Threads.{
  Turn, finished, expired, Branch, idle, after, CpuPc, head, charging, storing, freeing, getting,
  asking, rechecking, calling, leaving, Cpu, at, work, work_head, work_get, put_back, reset_times,
  after_recheck,
}
use hcmut_os_ossim_sierra.Os.Threads.Effects.{
  owned_at, lent_at, Late, KeepsLate, Ran, NoKillall, Effect, moves, puts, frees, takes, runs,
}

module _ (stale : List ℕ) (junk : ℕ) (stale_rg : List VmRg) where
  run_proc-Ran :
      (m : Machine) (p : ℕ)
      → ((d : Pcb) → m.pcb p ≡ some d → NoKillall d.code)
      → Whenever
          (λ m'. (d : Pcb) × (m.pcb p ≡ some d) × Ran m p d m')
          (run_proc stale junk stale_rg m p)
  unfolding run_proc
  run_proc-Ran m p q = Whenever-bind Q (m.pcb p) _ λ d e.
      let calm = q d e d.pc in
      rw calm (
        Whenever-bind Q (run (env_of stale junk stale_rg m) stale_rg m.sched (process_of m d)) _
          λ r o.
            let ((sched, freed), code) =
              Whenever-some _ _ o
                (run-Quiet (env_of stale junk stale_rg m) stale_rg m.sched (process_of m d) calm) in
            (
              d,
              e,
              (
                sched,
                (
                  record d { pc = r.2.pc; mm = r.2.caller.mm },
                  refl,
                  refl,
                  ap
                      (λ f.
                        free_all f
                          (update m.pcb p (some (record d { pc = r.2.pc; mm = r.2.caller.mm }))))
                      freed,
                ),
              ),
            ))
    where
      Q : Machine → Type 0
      Q m' = (d : Pcb) × (m.pcb p ≡ some d) × Ran m p d m'

  module _ (time_slot : ℕ) (done : Bool) (m : Machine) (c : CpuState) where
    abbrev Does : CpuPc → Option (Machine × Cpu) → Type 0
    Does pc = Whenever (λ (r : Machine × Cpu). Effect m (at pc c) r.0 r.1)

    from_head : (pc : CpuPc) → KeepsLate head pc
    from_head pc d slots e l = absurd (l.0 e)

    head-Effect : Does head (work_head stale junk stale_rg time_slot m c)
    unfolding work_head put_back
    head-Effect =
        if_cases (Does head) (c.proc == 0) _ _
          (λ z. moves refl (refl, refl) (ground arith) refl (from_head (getting idle)))
          λ z.
            Whenever-bind (λ (r : Machine × Cpu). Effect m (at head c) r.0 r.1) (m.pcb c.proc) _
              λ d e.
                if_cases (Does head) (d.pc == length d.code) _ _
                  (λ _. moves refl (refl, refl) refl refl (from_head (charging finished)))
                  λ _.
                    if_cases (Does head) (c.time_left == 0) _ _
                      (λ _.
                        Whenever-bind (λ (r : Machine × Cpu). Effect m (at head c) r.0 r.1)
                          (put_proc m.sched c.proc d.prio) _
                          λ s o. puts d (ground arith) e refl o refl refl)
                      (λ _. moves refl (refl, refl) refl refl (from_head rechecking))

    run_slot-Effect :
        (c' : CpuState)
        → c'.proc ≡ c.proc
        → c.proc ≢ 0
        → ((d : Pcb) → m.pcb c.proc ≡ some d → NoKillall d.code)
        → Does rechecking (do o ← run_slot stale junk stale_rg m c'; some (after_recheck c o))
    unfolding run_slot
    run_slot-Effect c' same p q = elim (Option-cases (run_proc stale junk stale_rg m c'.proc)) [
      | inl e ↦ rw e tt
      | inr (m', e) ↦
          let (d, o, ran) =
            Whenever-some _ _ (ap (run_proc stale junk stale_rg m) (sym same) ∙ e)
              (run_proc-Ran m c.proc q) in
          rw e (runs d p o ran same refl (λ d slots _ _. tt))
    ]

    recheck-Effect :
        ((d : Pcb) → m.pcb c.proc ≡ some d → NoKillall d.code)
        → Does rechecking
            (do o ← recheck stale junk stale_rg time_slot done m c; some (after_recheck c o))
    unfolding recheck dispatch
    recheck-Effect q =
        if_cases (λ x. Does rechecking (do o ← x; some (after_recheck c o))) (c.proc == 0) _ _
          (λ z. idle_Effect done (ground arith))
          λ z.
            if_cases (λ x. Does rechecking (do o ← x; some (after_recheck c o))) (c.time_left == 0)
              _ _
              (λ _.
                run_slot-Effect (dispatch stale junk stale_rg time_slot c) refl (ground arith) q)
              (λ _. run_slot-Effect c refl (ground arith) q)
      where
        idle_Effect :
            (b : Bool)
            → c.proc ≡ 0
            → Does rechecking (some (after_recheck c (if b then stops m else next_slot m c)))
        idle_Effect true z = moves refl (refl, refl) (sym z) refl (λ _ _ _ _. tt)
        idle_Effect false z = moves refl (refl, refl) refl refl (λ d slots _ l. l)

    taken :
        (b : Branch) (p : ℕ) (s : Sched)
        → get_proc m.sched ≡ some (p, s)
        → Effect m
            (at (getting b) c)
            (record m { sched = s })
            (at (if p == 0 then rechecking else asking) (reset_times b (record c { proc = p })))
    taken b p s e = elim (Bool-cases (p == 0)) [
      | inl z ↦ rw z (got b rechecking (λ _ _. tt) refl refl)
      | inr z ↦ rw z (got b asking (λ _ _. tt) refl refl)
    ]
      where
        got :
            (b : Branch) (pc : CpuPc)
            → ((d : Device) (slots : ℕ) → Late pc d slots)
            → owned_at pc p ≡ p
            → lent_at pc p ≡ 0
            → Effect m
                (at (getting b) c)
                (record m { sched = s })
                (at pc (reset_times b (record c { proc = p })))
        got idle pc l o n = takes (e ∙ ap (λ x. some (x, s)) (sym o)) refl refl n l
        got (after finished) pc l o n = takes (e ∙ ap (λ x. some (x, s)) (sym o)) refl refl n l
        got (after expired) pc l o n = takes (e ∙ ap (λ x. some (x, s)) (sym o)) refl refl n l

    -- Every step of a processor whose process has no `killall`.
    pub work-Effect :
        (pc : CpuPc)
        → ((d : Pcb) → m.pcb c.proc ≡ some d → NoKillall d.code)
        → Does pc (work stale junk stale_rg time_slot done m pc c)
    unfolding work work_get
    work-Effect head q = head-Effect
    work-Effect (charging t) q = Whenever-bind _ (m.pcb c.proc) _ λ d e.
        Whenever-bind _ (get_slot m.sched d.prio) _
          λ v e'. moves refl (refl, refl) (turned t d.prio v) refl (λ _ _ _ l. l)
      where
        turned :
            (t : Turn) (prio v : ℕ)
            → owned_at (storing t prio v) c.proc ≡ owned_at (charging t) c.proc
        turned finished prio v = refl
        turned expired prio v = refl
    work-Effect (storing finished prio v) q =
        moves refl (refl, refl) refl refl (λ _ _ _ l. absurd l)
    work-Effect (storing expired prio v) q = moves refl (refl, refl) refl refl (λ _ _ _ l. absurd l)
    work-Effect freeing q = frees refl refl refl refl (λ _ _ l. l)
    work-Effect (getting b) q = Whenever-bind _ (get_proc m.sched) _ λ r e. taken b r.0 r.1 e
    work-Effect asking q = Whenever-bind _ (m.pcb c.proc) _ λ d e.
        Whenever-bind _ (get_slot m.sched d.prio) _
          λ v e'. moves refl (refl, refl) refl refl (λ _ _ _ l. l)
    work-Effect rechecking q = recheck-Effect q
    work-Effect calling q = tt
    work-Effect leaving q = tt
