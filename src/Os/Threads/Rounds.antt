-- ===== src/Os/Threads/Rounds.antt =====
-- The steps of a processor that no other thread interrupts, against `cpu_round`.
use hcmut_os_ossim_sierra.Prelude.{
  ℕ, zero, suc, ◌≡◌, refl, sym, ap, ◌∙◌, fun_ext, ◌≢◌, Bool, Option, none, some, List, ◌==◌,
  Bool-cases, Option-cases, inl, inr, arith, ◌>>=◌, length, ltb, update,
}
use hcmut_os_ossim_sierra.Sched.{Sched, max_prio, get_proc, put_proc, get_slot, update_slot}
use hcmut_os_ossim_sierra.Mm.{VmRg}
use hcmut_os_ossim_sierra.Os.{
  Pcb, Machine, CpuState, Outcome, next_slot, stops, recheck, pick_up, from_idle, from_finished,
  from_expired, go_on_with, cpu_round,
}
use hcmut_os_ossim_sierra.Os.Threads.{
  Turn, finished, expired, Branch, idle, after, CpuPc, head, charging, storing, freeing, getting,
  asking, rechecking, calling, leaving, work, work_head, work_get, put_back, reset_times,
  after_recheck, after_update,
}

-- A chain of two calls whose result is used once more.
regroup {ℓ κ μ ν} :
    {A : Type ℓ} {B : Type κ} {C : Type μ} {D : Type ν} (o : Option A) (o' : A → Option B)
    (k : B → C) (h : C → Option D)
    → ((o >>= λ a. o' a >>= λ b. some (k b)) >>= h) ≡ (o >>= λ a. o' a >>= λ b. h (k b))
regroup none o' k h = refl
regroup {B} (some a) o' k h = go (o' a)
  where
    go : (x : Option B) → ((x >>= λ b. some (k b)) >>= h) ≡ (x >>= λ b. h (k b))
    go none = refl
    go (some b) = refl

module _ (stale : List ℕ) (junk : ℕ) (stale_rg : List VmRg) (time_slot : ℕ) (done : Bool) where
  -- Its steps up to the call of `next_slot` or the `break`.
  pub uninterrupted : ℕ → Machine → CpuPc → CpuState → Option Outcome
  uninterrupted zero m pc c = none
  uninterrupted (suc f) m pc c = elim pc [
    | calling ↦ some (next_slot m c)
    | leaving ↦ some (stops m)
    | pc' ↦ do
      (m', c') ← work stale junk stale_rg time_slot done m pc' c
      uninterrupted f m' c'.pc c'.vars
  ]

  rechecks :
      (f : ℕ) (m : Machine) (c : CpuState)
      → uninterrupted (suc (suc f)) m rechecking c ≡ recheck stale junk stale_rg time_slot done m c
  unfolding uninterrupted work
  rechecks f m c = go (recheck stale junk stale_rg time_slot done m c)
    where
      go :
          (o : Option Outcome)
          → ((do o' ← o; some (after_recheck c o')) >>= λ r.
              uninterrupted (suc f) r.0 r.1.pc r.1.vars)
            ≡ o
      go none = refl
      go (some (next_slot m' c')) = refl
      go (some (stops m')) = refl

  -- From a call of `get_slot` on, for the new process.
  asks :
      (f : ℕ) (m : Machine) (x : CpuState)
      → uninterrupted (suc (suc (suc f))) m asking x ≡ (do
        d ← m.pcb x.proc
        slot ← get_slot m.sched d.prio
        recheck stale junk stale_rg time_slot done m (record x { remaining_slot = slot }))
  unfolding uninterrupted work
  asks f m x = elim (Option-cases (m.pcb x.proc)) [
    | inl e ↦ rw e refl
    | inr (d, e) ↦ rw e (elim (Option-cases (get_slot m.sched d.prio)) [
      | inl e' ↦ rw e' refl
      | inr (slot, e') ↦ rw e' (rechecks f m (record x { remaining_slot = slot }))
    ])
  ]

  -- From a call of `get_proc` on.
  gets :
      (f : ℕ) (b : Branch) (m : Machine) (c : CpuState)
      → uninterrupted (suc (suc (suc (suc f)))) m (getting b) c ≡ (
          pick_up stale junk stale_rg m c >>= λ r.
          recheck stale junk stale_rg time_slot done r.0 (reset_times b r.1))
  unfolding uninterrupted work work_get pick_up
  gets f b m c = elim (Option-cases (get_proc m.sched)) [
    | inl e ↦ rw e refl
    | inr ((p, s), e) ↦ rw e (elim (Bool-cases (p == 0)) [
      | inl z ↦
          let null : p ≡ 0 = ground arith in
          rw z (
            rechecks (suc f) (record m { sched = s }) (reset_times b (record c { proc = p }))
            ∙ ap
                (λ q.
                  recheck stale junk stale_rg time_slot done (record m { sched = s })
                    (reset_times b (record c { proc = q })))
                null)
      | inr z ↦ rw z (found b p s)
    ])
  ]
    where
      -- The same with the rest of the round moved inside.
      joined :
          (b : Branch) (p : ℕ) (s : Sched)
          → ((do
            d ← m.pcb p
            slot ← get_slot s d.prio
            some (record m { sched = s }, record c { proc = p; remaining_slot = slot }))
              >>= λ (r : Machine × CpuState).
                  recheck stale junk stale_rg time_slot done r.0 (reset_times b r.1))
            ≡ (do
              d ← m.pcb p
              slot ← get_slot s d.prio
              recheck stale junk stale_rg time_slot done
                  (record m { sched = s })
                  (reset_times b (record c { proc = p; remaining_slot = slot })))
      joined b p s =
          regroup (m.pcb p) (λ d. get_slot s d.prio)
            (λ slot. (record m { sched = s }, record c { proc = p; remaining_slot = slot }))
            (λ r. recheck stale junk stale_rg time_slot done r.0 (reset_times b r.1))

      found :
          (b : Branch) (p : ℕ) (s : Sched)
          → uninterrupted
              (suc (suc (suc f)))
              (record m { sched = s })
              asking
              (reset_times b (record c { proc = p }))
            ≡ ((do
              d ← m.pcb p
              slot ← get_slot s d.prio
              some (record m { sched = s }, record c { proc = p; remaining_slot = slot }))
                >>= λ (r : Machine × CpuState).
                    recheck stale junk stale_rg time_slot done r.0 (reset_times b r.1))
      found idle p s =
          asks f (record m { sched = s }) (record c { proc = p }) ∙ sym (joined idle p s)
      found (after finished) p s =
          asks f (record m { sched = s }) (record c { proc = p; time_left = 0; use_time = 0 })
          ∙ sym (joined (after finished) p s)
      found (after expired) p s =
          asks f (record m { sched = s }) (record c { proc = p }) ∙ sym (joined (after expired) p s)

  -- One step, at a place where `work` has one.
  continues :
      (f : ℕ) (m : Machine) (pc : CpuPc) (c : CpuState)
      → pc ≢ calling
      → pc ≢ leaving
      → uninterrupted (suc f) m pc c ≡ (
          work stale junk stale_rg time_slot done m pc c >>= λ r.
          uninterrupted f r.0 r.1.pc r.1.vars)
  unfolding uninterrupted
  continues f m calling c h h' = absurd (h refl)
  continues f m leaving c h h' = absurd (h' refl)
  continues f m head c h h' = refl
  continues f m (charging t) c h h' = refl
  continues f m (storing t prio v) c h h' = refl
  continues f m freeing c h h' = refl
  continues f m (getting b) c h h' = refl
  continues f m asking c h h' = refl
  continues f m rechecking c h h' = refl

  -- `update_slot` in its two steps: it is defined for a priority in range.
  charges :
      (f : ℕ) (t : Turn) (m : Machine) (c : CpuState) (d : Pcb)
      → m.pcb c.proc ≡ some d
      → uninterrupted (suc (suc f)) m (charging t) c ≡ (
          update_slot m.sched d.prio c.use_time >>= λ s.
          uninterrupted f (record m { sched = s }) (after_update t) c)
  unfolding work update_slot get_slot
  charges f t m c d e =
      continues (suc f) m (charging t) c (λ q. cc) (λ q. cc)
      ∙ elim (Bool-cases (ltb d.prio max_prio)) [
        | inl z ↦
            rw e
              (rw z (continues f m (storing t d.prio (m.sched.slot d.prio)) c (λ q. cc) (λ q. cc)))
        | inr z ↦ rw e (rw z refl)
      ]

  finished-round :
      (f : ℕ) (m : Machine) (c : CpuState) (d : Pcb)
      → m.pcb c.proc ≡ some d
      → uninterrupted (suc (suc (suc (suc (suc (suc (suc f))))))) m (charging finished) c
        ≡ from_finished stale junk stale_rg time_slot done m c d.prio
  unfolding work from_finished
  finished-round f m c d e =
      charges (suc (suc (suc (suc (suc f))))) finished m c d e
      ∙ ap (λ h. update_slot m.sched d.prio c.use_time >>= h)
          (fun_ext λ s.
            continues (suc (suc (suc (suc f)))) (record m { sched = s }) freeing c (λ q. cc)
              (λ q. cc)
            ∙ gets f (after finished) (record m { sched = s; pcb = update m.pcb c.proc none }) c)

  expired-round :
      (f : ℕ) (m : Machine) (c : CpuState) (d : Pcb)
      → m.pcb c.proc ≡ some d
      → (put_back stale junk stale_rg time_slot m c d.prio >>= λ r.
          uninterrupted (suc (suc (suc (suc (suc (suc f)))))) r.0 r.1.pc r.1.vars)
        ≡ from_expired stale junk stale_rg time_slot done m c d.prio
  unfolding put_back from_expired
  expired-round f m c d e = elim (Option-cases (put_proc m.sched c.proc d.prio)) [
    | inl n ↦ rw n refl
    | inr (s, o) ↦ rw o (
        charges (suc (suc (suc (suc f)))) expired (record m { sched = s }) c d e
        ∙ ap (λ h. update_slot s d.prio c.use_time >>= h)
            (fun_ext λ s'. gets f (after expired) (record m { sched = s' }) c))
  ]

  idle-round :
      (f : ℕ) (m : Machine) (c : CpuState)
      → uninterrupted (suc (suc (suc (suc f)))) m (getting idle) c
        ≡ from_idle stale junk stale_rg time_slot done m c
  unfolding from_idle recheck
  idle-round f m c =
      gets f idle m c
      ∙ ap (λ h. pick_up stale junk stale_rg m c >>= h)
          (fun_ext λ (r : Machine × CpuState). elim (Bool-cases (r.1.proc == 0)) [
            | inl z ↦ rw z refl
            | inr z ↦ rw z refl
          ])

  -- The steps of a processor that no other thread interrupts make up a round: they end at the call
  -- of `next_slot` or with the `break`, after eight of them at most, with the outcome of `cpu_round`,
  -- and meet undefined behaviour exactly when it does.
  pub uninterrupted-eq-cpu_round :
      (m : Machine) (c : CpuState)
      → uninterrupted 8 m head c ≡ cpu_round stale junk stale_rg time_slot done m c
  unfolding work work_head cpu_round go_on_with
  uninterrupted-eq-cpu_round m c =
      continues 7 m head c (λ q. cc) (λ q. cc) ∙ elim (Bool-cases (c.proc == 0)) [
        | inl z ↦ rw z (idle-round 3 m c)
        | inr z ↦ rw z (elim (Option-cases (m.pcb c.proc)) [
          | inl e ↦ rw e refl
          | inr (d, e) ↦ rw e (elim (Bool-cases (d.pc == length d.code)) [
            | inl f ↦ rw f (finished-round 0 m c d e)
            | inr f ↦ rw f (elim (Bool-cases (c.time_left == 0)) [
              | inl g ↦ rw g (expired-round 1 m c d e)
              | inr g ↦ rw g (rechecks 5 m c)
            ])
          ])
        ])
      ]
