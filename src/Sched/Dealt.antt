-- ===== src/Sched/Dealt.antt =====
-- The slots that sched.c deals to its priorities, and what its functions keep of them.
use hcmut_os_ossim_sierra.Prelude.{
  ℕ, ◌-◌, ◌≤◌, ◌<◌, ◌≡◌, refl, ◌∙◌, subst, true, some, ltb, inl, inr, ◌⊎◌, arith, require-eq-some,
  ltb→lt,
}
use hcmut_os_ossim_sierra.Sched.{
  Sched, max_prio, reset_slot, take_from, init_scheduler, update_slot, put_proc,
}
use hcmut_os_ossim_sierra.Sched.Slots.{slot-reset_slot}
use hcmut_os_ossim_sierra.Sched.Ready.{init_scheduler-IsReady, init_scheduler-empty}
use hcmut_os_ossim_sierra.Sched.Pick.{pick, occupied, pick_cases}
use hcmut_os_ossim_sierra.Sched.Members.{
  SchedHolds, take_from-SchedHolds, reset_slot-SchedHolds, take_from-Tag, put_proc-SchedHolds,
}

-- No priority has more slots than it is dealt, or less than none.
pub record Dealt (P : ℕ → ℕ → Type 0) (s : Sched) : Type 0 where
  pub queues : SchedHolds P s
  pub slots : (i : ℕ) → i < max_prio → s.slot i ≤ max_prio - i

module _ (P : ℕ → ℕ → Type 0) (s : Sched) (v : Dealt P s) where
  take_from-Dealt : (i : ℕ) → i < max_prio → Dealt P (take_from s i).1
  take_from-Dealt i h = record {
    queues = take_from-SchedHolds P s v.queues i h;
    slots = unfold take_from in v.slots;
  }

  reset_slot-Dealt : Dealt P (reset_slot s)
  reset_slot-Dealt = record {
    queues = reset_slot-SchedHolds P s v.queues;
    slots = λ i h. omega (arith, slot-reset_slot s i h);
  }

  pub put_proc-Dealt :
      (p prio : ℕ) {t : Sched}
      → P prio p
      → put_proc s p prio ≡ some t
      → Dealt P t × (t.slot ≡ s.slot)
  put_proc-Dealt p prio {t} tag e =
      let (queues, slot) = put_proc-SchedHolds P s v.queues p prio tag e in
      (record { queues = queues; slots = λ i h. rw slot (v.slots i h) }, slot)

  pub update_slot-Dealt :
      (prio used : ℕ) {t : Sched}
      → used ≤ s.slot prio
      → update_slot s prio used ≡ some t
      → Dealt P t
  unfolding update_slot
  update_slot-Dealt prio used {t} le e =
      let (h, e') = require-eq-some (ltb prio max_prio) _ e in
      let lt = ltb→lt prio max_prio h in
      subst (Dealt P) e' (record {
        queues = record { running = v.queues.running; ready = v.queues.ready };
        slots = λ i hi. ground (arith, v.slots i hi, v.slots prio lt, lt);
      })

-- A process that `get_proc` has chosen comes from a queue that has slots left.
abbrev pub Chosen : (ℕ → ℕ → Type 0) → ℕ × Sched → Type 0
Chosen P r = (r.0 ≡ 0) ⊎ ((i : ℕ) × (i < max_prio) × P i r.0 × (0 < r.1.slot i))

pub pick-Dealt :
    (P : ℕ → ℕ → Type 0) (s : Sched) → Dealt P s → Dealt P (pick s).1 × Chosen P (pick s)
unfolding take_from
pick-Dealt P s v =
    pick_cases (λ r. Dealt P r.1 × Chosen P r) s
      (λ i h runs. (
        take_from-Dealt P s v i h,
        inr (i, h, take_from-Tag P s v.queues i h (ground (arith, runs)), ground (arith, runs)),
      ))
      (λ i h held.
        let s' = reset_slot s in
        let v' = reset_slot-Dealt P s v in
        let held' : occupied s' i ≡ true = unfold reset_slot in held in
        (
          take_from-Dealt P s' v' i h,
          inr (i, h, take_from-Tag P s' v'.queues i h held', omega (arith, slot-reset_slot s i h)),
        ))
      (λ _. (v, inl refl))

init_scheduler-slot : (s : Sched) (i : ℕ) → i < max_prio → (init_scheduler s).slot i ≡ max_prio - i
init_scheduler-slot s i h =
    let same : (init_scheduler s).slot i ≡ (reset_slot s).slot i =
      unfold init_scheduler reset_slot in refl in
    same ∙ slot-reset_slot s i h

-- `init_scheduler` leaves no process in a queue.
pub init_scheduler-Dealt : (P : ℕ → ℕ → Type 0) (s : Sched) → Dealt P (init_scheduler s)
init_scheduler-Dealt P s = record {
  queues = record {
    running = (init_scheduler-IsReady s).running;
    ready = λ i h. record {
      valid = (init_scheduler-IsReady s).ready i h;
      only = λ p m. absurd (cc (init_scheduler-empty s i h, m));
    };
  };
  slots = λ i h. omega (arith, init_scheduler-slot s i h);
}
