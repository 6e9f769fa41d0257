-- ===== src/Os/Threads/Draining.antt =====
-- When all threads have stopped, no process is left.
pub mod States
pub mod Steps
pub mod End
use hcmut_os_ossim_sierra.Prelude.{
  ℕ, ◌<◌, ◌≡◌, ◌≢◌, refl, sym, ◌∙◌, subst, Bool, true, false, some, List, ◌==◌, ◌⊎◌, inl, inr,
  Bool-cases, Option-cases, of_some, arith, if◌then◌else◌, length, ◌>>=◌,
}
use hcmut_os_ossim_sierra.Prelude.Partial.{Whenever, Whenever-bind, if_cases}
use hcmut_os_ossim_sierra.Sched.{Sched, max_prio, get_proc, put_proc, get_slot}
use hcmut_os_ossim_sierra.Sched.Pick.{pick, occupied}
use hcmut_os_ossim_sierra.Sched.Ready.{get_proc-eq-pick}
use hcmut_os_ossim_sierra.Sched.Members.{SchedHolds, pick-zero}
use hcmut_os_ossim_sierra.Mm.{VmRg}
use hcmut_os_ossim_sierra.Os.{
  Machine, CpuState, next_slot, stops, run_proc, run_slot, recheck, dispatch,
}
use hcmut_os_ossim_sierra.Os.Threads.{
  finished, expired, Branch, idle, after, CpuPc, head, charging, storing, freeing, getting, asking,
  rechecking, calling, leaving, Cpu, at, work, work_head, work_get, put_back, reset_times,
  after_recheck,
}

abbrev pub NoneReady : Machine → Type 0
NoneReady m = (i : ℕ) → i < max_prio → occupied m.sched i ≡ false

-- The processor has found no process, and has not called `next_slot` since, or has left its loop.
abbrev pub Away : CpuPc → CpuState → Type 0
Away head c = ⊥
Away (charging t) c = ⊥
Away (storing t prio v) c = ⊥
Away freeing c = ⊥
Away (getting b) c = ⊥
Away asking c = c.proc ≡ 0
Away rechecking c = c.proc ≡ 0
Away calling c = ⊥
Away leaving c = c.proc ≡ 0

-- The places where it reads its process, whatever it is.
abbrev pub Has : CpuPc → Type 0
Has head = ⊥
Has (charging t) = Unit
Has (storing t prio v) = ⊥
Has freeing = ⊥
Has (getting b) = ⊥
Has asking = Unit
Has rechecking = ⊥
Has calling = ⊥
Has leaving = ⊥

-- A step leaves a processor away only if it was and nothing else changes, or if no process is ready;
-- out of its loop, only once `done` is set; and at the reads of its process with one.
abbrev Drains : Bool → Machine → CpuPc → CpuState → Machine × Cpu → Type 0
Drains done m pc c (m', c') =
    (Away c'.pc c'.vars
      → (Away pc c × (m'.sched.mlq_ready_queue ≡ m.sched.mlq_ready_queue)) ⊎ NoneReady m')
    × (c'.pc ≡ leaving → (done ≡ true) × (c'.vars.proc ≡ 0))
    × (Has c'.pc → c'.vars.proc ≢ 0)

module _ (stale : List ℕ) (junk : ℕ) (stale_rg : List VmRg) (time_slot : ℕ) (done : Bool)
    (m : Machine) (c : CpuState) where
  head-Drains : Whenever (Drains done m head c) (work_head stale junk stale_rg time_slot m c)
  unfolding work_head put_back
  head-Drains =
      if_cases (Whenever (Drains done m head c)) (c.proc == 0) _ _
        (λ z. (λ a. absurd a, λ q. absurd (cc), λ q. absurd q))
        λ z. Whenever-bind (Drains done m head c) (m.pcb c.proc) _ λ d e.
          if_cases (Whenever (Drains done m head c)) (d.pc == length d.code) _ _
            (λ _. (λ a. absurd a, λ q. absurd (cc), λ _ q. absurd (ground (arith, q, z))))
            λ _.
              if_cases (Whenever (Drains done m head c)) (c.time_left == 0) _ _
                (λ _.
                  Whenever-bind (Drains done m head c) (put_proc m.sched c.proc d.prio) _
                    λ s o. (λ a. absurd a, λ q. absurd (cc), λ _ q. absurd (ground (arith, q, z))))
                (λ _. (λ a. absurd (ground (arith, a, z)), λ q. absurd (cc), λ q. absurd q))

  run-Drains :
      (c' : CpuState)
      → Whenever
          (Drains done m rechecking c)
          (do o ← run_slot stale junk stale_rg m c'; some (after_recheck c o))
  unfolding run_slot
  run-Drains c' = elim (Option-cases (run_proc stale junk stale_rg m c'.proc)) [
    | inl e ↦ rw e tt
    | inr (m', e) ↦ rw e (λ a. absurd a, λ q. absurd (cc), λ q. absurd q)
  ]

  recheck-Drains :
      Whenever
        (Drains done m rechecking c)
        (do o ← recheck stale junk stale_rg time_slot done m c; some (after_recheck c o))
  unfolding recheck dispatch
  recheck-Drains =
      if_cases (λ x. Whenever (Drains done m rechecking c) (do o ← x; some (after_recheck c o)))
        (c.proc == 0) _ _ (λ z. idle_Drains done refl (ground arith))
        λ z.
          if_cases (λ x. Whenever (Drains done m rechecking c) (do o ← x; some (after_recheck c o)))
            (c.time_left == 0) _ _ (λ _. run-Drains _) (λ _. run-Drains _)
    where
      idle_Drains :
          (b : Bool)
          → done ≡ b
          → c.proc ≡ 0
          → Drains done m rechecking c (after_recheck c (if b then stops m else next_slot m c))
      idle_Drains true e z = (λ a. inl (z, refl), λ _. (e, z), λ q. absurd q)
      idle_Drains false e z = (λ a. absurd a, λ q. absurd (cc), λ q. absurd q)

  pub work-Drains :
      {P : ℕ → ℕ → Type 0} (pc : CpuPc)
      → SchedHolds P m.sched
      → Whenever (Drains done m pc c) (work stale junk stale_rg time_slot done m pc c)
  unfolding work work_get
  work-Drains head v = head-Drains
  work-Drains (charging t) v = Whenever-bind _ (m.pcb c.proc) _ λ d e.
      Whenever-bind _ (get_slot m.sched d.prio) _
        λ slot e'. (λ a. absurd a, λ q. absurd (cc), λ q. absurd q)
  work-Drains (storing finished prio slot) v = (λ a. absurd a, λ q. absurd (cc), λ q. absurd q)
  work-Drains (storing expired prio slot) v = (λ a. absurd a, λ q. absurd (cc), λ q. absurd q)
  work-Drains freeing v = (λ a. absurd a, λ q. absurd (cc), λ q. absurd q)
  work-Drains (getting b) v = Whenever-bind _ (get_proc m.sched) _ λ r e. got b r.0 r.1 e
    where
      drained :
          (p : ℕ) (s : Sched)
          → get_proc m.sched ≡ some (p, s)
          → p ≡ 0
          → NoneReady (record m { sched = s })
      drained p s e z =
          let is : pick m.sched ≡ (p, s) = of_some (sym (get_proc-eq-pick m.sched) ∙ e) in
          subst (λ (r : ℕ × Sched). r.0 ≡ 0 → (i : ℕ) → i < max_prio → occupied r.1 i ≡ false) is
            (pick-zero _ m.sched v) z

      at_either :
          (b : Branch) (p : ℕ) (s : Sched) (x : CpuState)
          → x.proc ≡ p
          → (p ≡ 0 → NoneReady (record m { sched = s }))
          → Drains done m
              (getting b)
              c
              (record m { sched = s }, at (if p == 0 then rechecking else asking) x)
      at_either b p s x same none_ready = elim (Bool-cases (p == 0)) [
        | inl z ↦ rw z (λ a. inr (none_ready (sym same ∙ a)), λ q. absurd (cc), λ q. absurd q)
        | inr z ↦ rw z (
          λ a. inr (none_ready (sym same ∙ a)),
          λ q. absurd (cc),
          λ _ y. absurd (ground (arith, same, y, z)),
        )
      ]

      got :
          (b : Branch) (p : ℕ) (s : Sched)
          → get_proc m.sched ≡ some (p, s)
          → Drains done m (getting b) c (
            record m { sched = s },
            at (if p == 0 then rechecking else asking) (reset_times b (record c { proc = p })),
          )
      got idle p s e = at_either idle p s _ refl (drained p s e)
      got (after finished) p s e = at_either (after finished) p s _ refl (drained p s e)
      got (after expired) p s e = at_either (after expired) p s _ refl (drained p s e)
  work-Drains asking v = Whenever-bind _ (m.pcb c.proc) _ λ d e.
      Whenever-bind _ (get_slot m.sched d.prio) _
        λ slot e'. (λ a. inl (a, refl), λ q. absurd (cc), λ q. absurd q)
  work-Drains rechecking v = recheck-Drains
  work-Drains calling v = tt
  work-Drains leaving v = tt
