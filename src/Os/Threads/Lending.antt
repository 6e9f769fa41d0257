-- ===== src/Os/Threads/Lending.antt =====
-- A process that has been put back is not freed while the processor that has put it back reads it.
use hcmut_os_ossim_sierra.Prelude.{
  ℕ, suc, ◌-◌, ◌<◌, ◌≡◌, ◌≢◌, refl, sym, ap, ◌∙◌, subst, false, ◌==◌, update, Bool-cases, inl, inr,
  arith, ==-refl, ==-ne,
}
use hcmut_os_ossim_sierra.Timer.{Device, System, running, testing, called, returned}
use hcmut_os_ossim_sierra.Timer
use hcmut_os_ossim_sierra.Timer.Kept.{Kept, other-Kept}
use hcmut_os_ossim_sierra.Os.{Machine}
use hcmut_os_ossim_sierra.Os.Threads.{
  CpuPc, head, charging, storing, freeing, getting, asking, rechecking, calling, leaving, finished,
  expired, Cpu, at, Simulator,
}
use hcmut_os_ossim_sierra.Os.Threads.Timing.{Busy, Placed}
use hcmut_os_ossim_sierra.Os.Threads.Timing.Clock.{slots-running, slots-returning}
use hcmut_os_ossim_sierra.Os.Threads.Effects.{
  owned, lent, lent_at, Late, Effect, moves, puts, frees, takes, runs,
}
use hcmut_os_ossim_sierra.Os.Threads.Owners.{Owners}

-- A processor that has a process which another has put back, but is still to read, has taken it in
-- the slot in which the other is, and has not left that slot.
abbrev pub Lending : ℕ → (ℕ → Device) → (ℕ → Cpu) → Type 0
Lending n dev cpu =
    (j k : ℕ)
    → j < n
    → k < n
    → lent (cpu k) ≢ 0
    → owned (cpu j) ≡ lent (cpu k)
    → Late (cpu j).pc (dev (n - j)) (dev (n - k)).slots

-- One that has put its process back is in its round.
lent-Busy : (pc : CpuPc) (p : ℕ) → lent_at pc p ≢ 0 → Busy pc
lent-Busy (charging expired) p h = tt
lent-Busy (charging finished) p h = tt
lent-Busy (storing t prio v) p h = tt
lent-Busy freeing p h = tt
lent-Busy (getting b) p h = tt
lent-Busy asking p h = tt
lent-Busy rechecking p h = tt
lent-Busy calling p h = tt
lent-Busy head p h = absurd (h refl)
lent-Busy leaving p h = absurd (h refl)

pub Late-Kept :
    (pc : CpuPc) (d d' : Device) (slots slots' : ℕ)
    → Kept d d'
    → slots' ≡ slots
    → Late pc d slots
    → Late pc d' slots'
Late-Kept head d d' slots slots' k e l = (λ r. l.0 (k.ran r), k.slots ∙ l.1 ∙ sym e)
Late-Kept asking d d' slots slots' k e l = tt
Late-Kept rechecking d d' slots slots' k e l = tt
Late-Kept calling d d' slots slots' k e l = tt
Late-Kept leaving d d' slots slots' k e l = tt
Late-Kept (charging t) d d' slots slots' k e l = l
Late-Kept (storing t prio v) d d' slots slots' k e l = l
Late-Kept freeing d d' slots slots' k e l = l
Late-Kept (getting b) d d' slots slots' k e l = l

pub Lending-Kept :
    (n : ℕ) (dev dev' : ℕ → Device) (cpu : ℕ → Cpu)
    → ((j : ℕ) → j < n → Kept (dev (n - j)) (dev' (n - j)))
    → Lending n dev cpu
    → Lending n dev' cpu
Lending-Kept n dev dev' cpu h l j k lt lt' ne e =
    Late-Kept _ _ _ _ _ (h j lt) (h k lt').slots (l j k lt lt' ne e)

-- A relation of pairs of processors, when one of them changes.
pairs :
    (P : ℕ → Cpu → ℕ → Cpu → Type 0) (cpu : ℕ → Cpu) (k : ℕ) (c : Cpu)
    → P k c k c
    → ((j : ℕ) → j ≢ k → P j (cpu j) k c)
    → ((i : ℕ) → i ≢ k → P k c i (cpu i))
    → ((j i : ℕ) → j ≢ k → i ≢ k → P j (cpu j) i (cpu i))
    → (j i : ℕ) → P j (update cpu k c j) i (update cpu k c i)
pairs P cpu k c both left right none_of j i = elim (Bool-cases (j == k)) [
  | inl e ↦
      let at_j : k ≡ j = ground arith in
      elim (Bool-cases (i == k)) [
        | inl e' ↦
            let at_i : k ≡ i = ground arith in
            rw e (rw e' (subst (λ j. P j c i c) at_j (subst (λ i. P k c i c) at_i both)))
        | inr e' ↦ rw e (rw e' (subst (λ j. P j c i (cpu i)) at_j (right i (ground arith))))
      ]
  | inr e ↦ elim (Bool-cases (i == k)) [
    | inl e' ↦
        let at_i : k ≡ i = ground arith in
        rw e (rw e' (subst (λ i. P j (cpu j) i c) at_i (left j (ground arith))))
    | inr e' ↦ rw e (rw e' (none_of j i (ground arith) (ground arith)))
  ]
]

-- Who puts a process back had it.
lender :
    {m m' : Machine} {c c' : Cpu}
    → Effect m c m' c'
    → lent c' ≢ 0
    → (owned c' ≡ 0) × (lent c' ≡ owned c)
lender (moves _ _ _ l _) h = absurd (h l)
lender (puts _ _ _ _ _ o l) h = (o, l)
lender (frees _ _ _ l _) h = absurd (h l)
lender (takes _ _ _ l _) h = absurd (h l)
lender (runs _ _ _ _ _ l _) h = absurd (h l)

-- Who has a process after a step has taken it in the step, or had it and is no further.
holder :
    {m m' : Machine} {c c' : Cpu}
    → Effect m c m' c'
    → owned c' ≢ 0
    → (d : Device) (slots : ℕ) → d.pc ≡ running
    → (owned c ≡ owned c' → Late c.pc d slots)
    → Late c'.pc d slots
holder (moves _ _ o _ keeps) h d slots run l = keeps d slots run (l (sym o))
holder (puts _ _ _ _ _ o _) h d slots run l = absurd (h o)
holder (frees _ _ o _ _) h d slots run l = absurd (h o)
holder (takes _ _ _ _ late) h d slots run l = late d slots
holder (runs _ _ _ _ o _ keeps) h d slots run l = keeps d slots run (l (sym o))

-- A step of processor `k` in its round.
pub Effect-Lending :
    {n : ℕ} {m m' : Machine} (cpu : ℕ → Cpu) (c : Cpu) (dev : ℕ → Device) (k : ℕ)
    → k < n
    → (dev (n - k)).pc ≡ running
    → Owners n m.pcb m.sched cpu
    → Effect m (cpu k) m' c
    → Lending n dev cpu
    → Lending n dev (update cpu k c)
Effect-Lending {n} cpu c dev k lt run v e l =
    pairs
      (λ j cj i ci.
        j < n
        → i < n
        → lent ci ≢ 0
        → owned cj ≡ lent ci
        → Late cj.pc (dev (n - j)) (dev (n - i)).slots)
      cpu k c (λ _ _ ne q. absurd (ne (sym q ∙ (lender e ne).0)))
      (λ j other lt' _ ne q.
        let (o, is) = lender e ne in
        absurd (v.apart j k lt' lt other (λ z. ne (sym q ∙ z)) (q ∙ is)))
      (λ i other _ lt' ne q.
        holder e (λ z. ne (sym q ∙ z)) (dev (n - k)) (dev (n - i)).slots run
          (λ o. l k i lt lt' ne (o ∙ q)))
      (λ j i _ _. l j i)

-- Processor `k` calls `next_slot` in the slot in which it has taken its process.
pub yield-Lending :
    {n : ℕ} {s : Simulator} (k : ℕ)
    → k < n
    → (s.timer.device (n - k)).pc ≡ running
    → (s.cpu k).pc ≡ calling
    → Placed n s
    → Timer.Reach (suc n) s.timer
    → Lending n s.timer.device s.cpu
    → Lending n
        (update s.timer.device (n - k) (called (s.timer.device (n - k))))
        (update s.cpu k (at head (s.cpu k).vars))
yield-Lending {n} {s} k lt run pc places timed l =
    pairs
      (λ j cj i ci.
        j < n
        → i < n
        → lent ci ≢ 0
        → owned cj ≡ lent ci
        → Late cj.pc (dev (n - j)) (dev (n - i)).slots)
      s.cpu k (at head (s.cpu k).vars) (λ _ _ ne q. absurd (ne refl))
      (λ j other _ _ ne q. absurd (ne refl))
      (λ i other _ lt' ne q.
        let busy = places.busy i lt' (lent-Busy (s.cpu i).pc _ ne) in
        let same =
          slots-running (n - k) timed (omega arith) run
          ∙ sym (slots-running (n - i) timed (omega arith) busy) in
        rw (==-refl (n - k))
          (rw (==-ne (n - i) (n - k) (apart i k lt' lt other)) ((λ e. absurd (cc), same))))
      (λ j i other other' lt' lt'' ne q.
        Late-Kept (s.cpu j).pc _ _ _ _ (kept j lt' other) (kept i lt'' other').slots
          (l j i lt' lt'' ne q))
  where
    dev : ℕ → Device
    dev = update s.timer.device (n - k) (called (s.timer.device (n - k)))

    apart : (i k : ℕ) → i < n → k < n → i ≢ k → n - i ≢ n - k
    apart i k lt lt' ne = omega arith

    kept : (j : ℕ) → j < n → j ≢ k → Kept (s.timer.device (n - j)) (dev (n - j))
    kept j lt' other = other-Kept s.timer.device (n - k) (n - j) _ (apart j k lt' lt other)

-- A thread returns from `next_slot`: no other has put back its process in the present slot.
pub return-Lending :
    {n : ℕ} {s : Simulator} (t : System) (i : ℕ)
    → (s.timer.device i).pc ≢ running
    → (s.timer.device i).pc ≡ testing
    → (s.timer.device i).id.done ≡ false
    → t.device ≡ update s.timer.device i (returned (s.timer.device i))
    → i < suc n
    → Placed n s
    → Timer.Reach (suc n) s.timer
    → Lending n s.timer.device s.cpu
    → Lending n t.device s.cpu
return-Lending {n} {s} t i away pc done e lt places timed l j k lt' lt'' ne q =
    let busy = places.busy k lt'' (lent-Busy (s.cpu k).pc _ ne) in
    let lender_kept =
      kept (n - k) (λ z. away (subst (λ x. (s.timer.device x).pc ≡ running) z busy)) in
    elim (Bool-cases ((n - j) == i)) [
      | inl same ↦
          let at_i : n - j ≡ i = ground arith in
          returning (s.cpu j).pc at_i busy refl (l j k lt' lt'' ne q)
      | inr other ↦
          Late-Kept (s.cpu j).pc _ _ _ _ (kept (n - j) (ground arith)) lender_kept.slots
            (l j k lt' lt'' ne q)
    ]
  where
    kept : (x : ℕ) → x ≢ i → Kept (s.timer.device x) (t.device x)
    kept x h =
        subst (λ (d : ℕ → Device). Kept (s.timer.device x) (d x)) (sym e)
          (other-Kept s.timer.device i x _ h)

    returning :
        (pc' : CpuPc)
        → n - j ≡ i
        → (s.timer.device (n - k)).pc ≡ running
        → (s.cpu j).pc ≡ pc'
        → Late pc' (s.timer.device (n - j)) (s.timer.device (n - k)).slots
        → Late pc' (t.device (n - j)) (t.device (n - k)).slots
    returning head at_i busy is late =
        let d = slots-returning i timed lt pc done in
        let r = slots-running (n - k) timed (omega arith) busy in
        let f = late.1 ∙ r in absurd (omega (arith, d, f, ap (λ x. (s.timer.device x).slots) at_i))
    returning asking at_i busy is late = tt
    returning rechecking at_i busy is late = tt
    returning calling at_i busy is late = tt
    returning leaving at_i busy is late = tt
    returning (charging t') at_i busy is late = absurd late
    returning (storing t' prio v) at_i busy is late = absurd late
    returning freeing at_i busy is late = absurd late
    returning (getting b) at_i busy is late = absurd late
