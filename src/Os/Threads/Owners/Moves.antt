-- ===== src/Os/Threads/Owners/Moves.antt =====
-- What each step of a processor keeps of the ownership of the processes.
use hcmut_os_ossim_sierra.Prelude.{
  ℕ, ◌<◌, ◌≡◌, ◌≢◌, refl, sym, ap, ◌∙◌, subst, true, none, some, ◌==◌, update, update_ne, mem,
  Bool-cases, inl, inr, of_some, arith, if◌then◌else◌,
}
use hcmut_os_ossim_sierra.Queue.Contents.{contents}
use hcmut_os_ossim_sierra.Sched.{Sched, max_prio, get_proc, put_proc}
use hcmut_os_ossim_sierra.Sched.Pick.{pick}
use hcmut_os_ossim_sierra.Sched.Ready.{get_proc-eq-pick}
use hcmut_os_ossim_sierra.Sched.Members.{SchedHolds, put_proc-SchedHolds, put_proc-lt}
use hcmut_os_ossim_sierra.Sched.Apart.{
  Apart, put_proc-Apart, pick-Apart, pick-SchedHolds, Taken, pick-Taken,
}
use hcmut_os_ossim_sierra.Timer.{Device}
use hcmut_os_ossim_sierra.Os.{Pcb, Machine}
use hcmut_os_ossim_sierra.Os.Threads.{Cpu}
use hcmut_os_ossim_sierra.Os.Threads.Effects.{
  owned, lent, Late, NoKillall, Effect, moves, puts, frees, takes, runs,
}
use hcmut_os_ossim_sierra.Os.Threads.Owners.{
  Table, Live, Usable, Sole, Owners, Carries, Usable-Carries, SchedHolds-Carries, Live-unique,
  rebuild, Owners-cong, carry-Owners, update_cases_of, update-Carries,
}

module _ {n : ℕ} {pcb : Table} {s : Sched} {cpu : ℕ → Cpu} (v : Owners n pcb s cpu) (k : ℕ)
    (lt : k < n) (c : Cpu) where
  -- The processor that has a process is the only one.
  other_owner : (j : ℕ) → j < n → j ≢ k → owned (cpu j) ≢ 0 → owned (cpu j) ≢ owned (cpu k)
  other_owner j lt' ne h = v.apart j k lt' lt ne h

  -- `moves`
  pub kept-Owners : owned c ≡ owned (cpu k) → lent c ≡ 0 → Owners n pcb s (update cpu k c)
  kept-Owners o l =
      rebuild v pcb s k c v.ready (λ h. subst (Sole pcb s) (sym o) (v.held k lt (λ z. h (o ∙ z))))
        (λ j lt' _ h. v.held j lt' h) (λ h. absurd (h l)) (λ j lt' _ h. v.loan j lt' h)
        (λ j lt' ne h q. other_owner j lt' ne h (q ∙ o)) v.programs

  -- `puts`
  put-Owners :
      (d : Pcb) {s' : Sched}
      → owned (cpu k) ≢ 0
      → pcb (owned (cpu k)) ≡ some d
      → put_proc s (owned (cpu k)) d.prio ≡ some s'
      → owned c ≡ 0
      → lent c ≡ owned (cpu k)
      → Owners n pcb s' (update cpu k c)
  put-Owners d {s'} some_one e put o l =
      rebuild v pcb s' k c (put_proc-SchedHolds (Live pcb) s v.ready _ d.prio (d, e, refl) put).0
        (λ h. absurd (h o))
        (λ j lt' ne h.
          let (usable, apart) = v.held j lt' h in
          (
            usable,
            put_proc-Apart (Live pcb) s v.ready (owned (cpu j)) apart (owned (cpu k)) d.prio
                (λ q. other_owner j lt' ne h (sym q)) put,
          ))
        (λ _. subst (Usable pcb) (sym l) (d, e, put_proc-lt s (owned (cpu k)) d.prio put))
        (λ j lt' _ h. v.loan j lt' h) (λ j lt' ne h q. h (q ∙ o)) v.programs

  -- `takes`
  take-Owners :
      {s' : Sched} → get_proc s ≡ some (owned c, s') → lent c ≡ 0 → Owners n pcb s' (update cpu k c)
  take-Owners {s'} got l =
      rebuild v pcb s' k c (subst (λ r. SchedHolds (Live pcb) r.1) is (pick-SchedHolds _ s v.ready))
        (λ h.
          let t = taken h in
          let (d, e, same) = t.tag in ((d, e, omega (arith, same, t.lt)), t.gone))
        (λ j lt' _ h.
          let (usable, apart) = v.held j lt' h in
          (usable, subst (λ r. Apart r.1 (owned (cpu j))) is (pick-Apart _ s v.ready _ apart)))
        (λ h. absurd (h l)) (λ j lt' _ h. v.loan j lt' h)
        (λ j lt' _ h q.
          let t = taken (λ z. h (q ∙ z)) in
          absurd (
            cc (
              (v.held j lt' h).1 t.queue t.lt,
              t.was,
              ap (λ p. mem p (contents (s.mlq_ready_queue t.queue))) q,
            )))
        v.programs
    where
      is : pick s ≡ (owned c, s')
      is = of_some (sym (get_proc-eq-pick s) ∙ got)

      taken : owned c ≢ 0 → Taken (Live pcb) s (owned c, s')
      taken h =
          subst (Taken (Live pcb) s) is (
            pick-Taken (Live pcb) (Live-unique pcb) s v.ready (λ z. h (ap (λ r. r.0) (sym is) ∙ z)))

  -- `frees`, if the process is lent to nobody.
  free-Owners :
      ((j : ℕ) → j < n → lent (cpu j) ≢ 0 → lent (cpu j) ≢ owned (cpu k))
      → owned c ≡ 0
      → lent c ≡ 0
      → Owners n (update pcb (owned (cpu k)) none) s (update cpu k c)
  free-Owners lenders o l =
      rebuild v freed s k c
        (SchedHolds-Carries pcb freed s (λ p i lt' m. still p (unready p i lt' m)) v.ready)
        (λ h. absurd (h o))
        (λ j lt' ne h.
          let (usable, apart) = v.held j lt' h in
          (Usable-Carries pcb freed _ (still _ (other_owner j lt' ne h)) usable, apart))
        (λ h. absurd (h l))
        (λ j lt' _ h. Usable-Carries pcb freed _ (still _ (lenders j lt' h)) (v.loan j lt' h))
        (λ j lt' ne h q. h (q ∙ o)) (λ p d e. v.programs p d (was p d e))
    where
      freed : Table
      freed = update pcb (owned (cpu k)) none

      still : (p : ℕ) → p ≢ owned (cpu k) → Carries pcb freed p
      still p ne d e = (d, update_ne pcb (owned (cpu k)) p none ne ∙ e, refl)

      was : (p : ℕ) (d : Pcb) → freed p ≡ some d → pcb p ≡ some d
      was p d e = elim (Bool-cases (p == owned (cpu k))) [
        | inl same ↦ absurd (cc (subst (λ b. (if b then none else pcb p) ≡ some d) same e))
        | inr other ↦ subst (λ b. (if b then none else pcb p) ≡ some d) other e
      ]

      unready :
          (p i : ℕ)
          → i < max_prio
          → mem p (contents (s.mlq_ready_queue i)) ≡ true
          → p ≢ owned (cpu k)
      unready p i lt' m q =
          let m' : mem (owned (cpu k)) (contents (s.mlq_ready_queue i)) ≡ true =
            subst (λ p. mem p (contents (s.mlq_ready_queue i)) ≡ true) q m in
          elim (Bool-cases (owned (cpu k) == 0)) [
            | inl z ↦
                let null : mem 0 (contents (s.mlq_ready_queue i)) ≡ true =
                  subst (λ p. mem p (contents (s.mlq_ready_queue i)) ≡ true) (ground arith) m' in
                absurd (cc ((v.ready.ready i lt').valid.nonnull, null))
            | inr z ↦ absurd (cc ((v.held k lt (ground arith)).1 i lt', m'))
          ]

-- `runs`
run-Owners :
    {n : ℕ} {pcb : Table} {s : Sched} {cpu : ℕ → Cpu} (v : Owners n pcb s cpu) (k : ℕ) (lt : k < n)
    (c : Cpu) (d d' : Pcb)
    → pcb (owned (cpu k)) ≡ some d
    → d'.prio ≡ d.prio
    → d'.code ≡ d.code
    → owned c ≡ owned (cpu k)
    → lent c ≡ 0
    → Owners n (update pcb (owned (cpu k)) (some d')) s (update cpu k c)
run-Owners {n} {pcb} {s} {cpu} v k lt c d d' e prio code o l =
    kept-Owners
      (carry-Owners pcb (update pcb (owned (cpu k)) (some d'))
        (update-Carries pcb (owned (cpu k)) d d' e prio)
        (λ p x e'.
          update_cases_of pcb (owned (cpu k)) d' (λ y. NoKillall y.code)
            (subst NoKillall (sym code) (v.programs _ d e)) v.programs p x e')
        v)
      k lt c o l

-- A step of processor `k`: what it has put back may be freed by nobody.
pub Effect-Owners :
    {n : ℕ} {m m' : Machine} {cpu : ℕ → Cpu} {c : Cpu} (v : Owners n m.pcb m.sched cpu) (k : ℕ)
    → k < n
    → (((d : Device) (slots : ℕ) → ¬ Late (cpu k).pc d slots)
        → (j : ℕ) → j < n
        → lent (cpu j) ≢ 0
        → lent (cpu j) ≢ owned (cpu k))
    → Effect m (cpu k) m' c
    → Owners n m'.pcb m'.sched (update cpu k c)
Effect-Owners {c} v k lt lenders (moves e q o l _) = Owners-cong e q (kept-Owners v k lt c o l)
Effect-Owners {c} v k lt lenders (puts d ne e e' put o l) =
    Owners-cong e' (refl, refl) (put-Owners v k lt c d ne e put o l)
Effect-Owners {c} v k lt lenders (frees e q o l late) =
    Owners-cong e (ap (λ (s : Sched). s.mlq_ready_queue) q, ap (λ (s : Sched). s.running_list) q)
      (free-Owners v k lt c (lenders late) o l)
Effect-Owners {c} v k lt lenders (takes got e _ l _) =
    Owners-cong e (refl, refl) (take-Owners v k lt c got l)
Effect-Owners {c} v k lt lenders (runs d ne e (q, (d', prio, code, e')) o l _) =
    Owners-cong e' (ap (λ (s : Sched). s.mlq_ready_queue) q, ap (λ (s : Sched). s.running_list) q)
      (run-Owners v k lt c d d' e prio code o l)
