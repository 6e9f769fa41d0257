-- ===== src/Sched/Apart.antt =====
-- A process that no ready queue holds, and the process that the scheduler hands out.
use hcmut_os_ossim_sierra.Prelude.{
  ℕ, ◌<◌, ◌≡◌, ◌≢◌, refl, ap, subst, true, false, some, ◌==◌, mem, Bool-cases, inl, inr, arith,
}
use hcmut_os_ossim_sierra.Queue.Contents.{contents}
use hcmut_os_ossim_sierra.Sched.{Sched, max_prio, reset_slot, take_from, put_proc}
use hcmut_os_ossim_sierra.Sched.Pick.{pick, occupied, pick_cases}
use hcmut_os_ossim_sierra.Sched.Members.{
  SchedHolds, take_from-SchedHolds, reset_slot-SchedHolds, take_from-Tag, front-Distinct,
  put_proc-SchedHolds,
}

abbrev pub Apart : Sched → ℕ → Type 0
Apart s p = (i : ℕ) → i < max_prio → mem p (contents (s.mlq_ready_queue i)) ≡ false

module _ (P : ℕ → ℕ → Type 0) (s : Sched) (v : SchedHolds P s) where
  -- The same as a property of what the queues do hold.
  Apart-SchedHolds : (x : ℕ) → Apart s x → SchedHolds (λ _ q. q ≢ x) s
  Apart-SchedHolds x h = record {
    running = v.running;
    ready = λ i lt. record {
      valid = (v.ready i lt).valid;
      only = λ q m e. absurd (cc (m, h i lt, ap (λ p. mem p (contents (s.mlq_ready_queue i))) e));
    };
  }

  inside : SchedHolds (λ i q. mem q (contents (s.mlq_ready_queue i)) ≡ true) s
  inside = record {
    running = v.running;
    ready = λ i lt. record { valid = (v.ready i lt).valid; only = λ q m. m };
  }

  pub pick-SchedHolds : SchedHolds P (pick s).1
  pick-SchedHolds =
      pick_cases (λ r. SchedHolds P r.1) s (λ i lt _. take_from-SchedHolds P s v i lt)
        (λ i lt _. take_from-SchedHolds P (reset_slot s) (reset_slot-SchedHolds P s v) i lt)
        (λ _. v)

SchedHolds-Apart : (s : Sched) (x : ℕ) → SchedHolds (λ _ q. q ≢ x) s → Apart s x
SchedHolds-Apart s x v i lt = elim (Bool-cases (mem x (contents (s.mlq_ready_queue i)))) [
  | inl e ↦ absurd ((v.ready i lt).only x e refl)
  | inr e ↦ e
]

module _ (P : ℕ → ℕ → Type 0) (s : Sched) (v : SchedHolds P s) (x : ℕ) (h : Apart s x) where
  -- Another process that is put in a queue, or taken from one, leaves it apart.
  pub put_proc-Apart : (p prio : ℕ) {t : Sched} → p ≢ x → put_proc s p prio ≡ some t → Apart t x
  put_proc-Apart p prio {t} ne e =
      SchedHolds-Apart t x
        (put_proc-SchedHolds (λ _ q. q ≢ x) s (Apart-SchedHolds P s v x h) p prio ne e).0

  pub pick-Apart : Apart (pick s).1 x
  pick-Apart =
      SchedHolds-Apart (pick s).1 x (pick-SchedHolds (λ _ q. q ≢ x) s (Apart-SchedHolds P s v x h))

-- The process `r.0` has been taken from the queues of `s`, and is in none of those of `r.1`.
pub record Taken (P : ℕ → ℕ → Type 0) (s : Sched) (r : ℕ × Sched) : Type 0 where
  pub queue : ℕ
  pub lt : queue < max_prio
  pub tag : P queue r.0
  pub was : mem r.0 (contents (s.mlq_ready_queue queue)) ≡ true
  pub gone : Apart r.1 r.0

module _ (P : ℕ → ℕ → Type 0) (unique : (i j p : ℕ) → P i p → P j p → i ≡ j) where
  take_from-Taken :
      (s : Sched)
      → SchedHolds P s
      → (i : ℕ) → i < max_prio
      → occupied s i ≡ true
      → Taken P s (take_from s i)
  take_from-Taken s v i lt o =
      let tag = take_from-Tag P s v i lt o in
      let after = take_from-SchedHolds P s v i lt in
      record {
        queue = i;
        lt = lt;
        tag = tag;
        was = take_from-Tag _ s (inside P s v) i lt o;
        gone = λ j lt'. elim (Bool-cases (j == i)) [
          | inl e ↦
              let same : i ≡ j = ground arith in
              subst
                (λ j.
                  mem (take_from s i).0 (contents ((take_from s i).1.mlq_ready_queue j)) ≡ false)
                same (front-Distinct s i (v.ready i lt).valid o)
          | inr e ↦
              elim (Bool-cases
                (mem (take_from s i).0 (contents ((take_from s i).1.mlq_ready_queue j)))) [
                  | inl m ↦ absurd (
                      ground
                        (arith, unique i j (take_from s i).0 tag ((after.ready j lt').only _ m), e))
                  | inr m ↦ m
                ]
        ];
      }

  pub pick-Taken : (s : Sched) → SchedHolds P s → (pick s).0 ≢ 0 → Taken P s (pick s)
  unfolding reset_slot
  pick-Taken s v =
      pick_cases (λ r. r.0 ≢ 0 → Taken P s r) s
        (λ i lt runs _. take_from-Taken s v i lt (ground (arith, runs)))
        (λ i lt held _.
          let t = take_from-Taken (reset_slot s) (reset_slot-SchedHolds P s v) i lt held in
          record { queue = t.queue; lt = t.lt; tag = t.tag; was = t.was; gone = t.gone })
        (λ _ h. absurd (h refl))
