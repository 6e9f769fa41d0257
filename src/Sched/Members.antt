-- ===== src/Sched/Members.antt =====
-- The queues of sched.c with a property of the processes on each, and the slots that are dealt.
use hcmut_os_ossim_sierra.Prelude.{
  ℕ, ◌<◌, ◌≡◌, ◌≢◌, refl, sym, ap, ◌∙◌, subst, true, false, some, List, [], ◌∷◌, ◌==◌, ltb, mem,
  Bool-cases, inl, inr, ◌⊎◌, arith, require-eq-some, ltb→lt, lt→ltb, ==-refl, length,
}
use hcmut_os_ossim_sierra.Queue.{Queue, enqueue_in, dequeue, empty}
use hcmut_os_ossim_sierra.Queue.Contents.{contents, length-slice}
use hcmut_os_ossim_sierra.Queue.Fifo.{
  IsValid, Distinct, put, take_front, contents-dequeue, contents-enqueue, enqueue-IsValid,
  dequeue-IsValid, mem-append_one,
}
use hcmut_os_ossim_sierra.Sched.{
  Sched, max_prio, reset_slot, take_from, update_slot, get_slot, put_proc, add_proc, put_mlq_proc,
  add_mlq_proc,
}
use hcmut_os_ossim_sierra.Sched.Ready.{IsReady, take_from-ne-null, reset_slot-IsReady}
use hcmut_os_ossim_sierra.Sched.Pick.{pick, occupied, pick_cases}

-- A valid queue whose processes all have a property.
pub record Holds (P : ℕ → Type 0) (q : Queue) : Type 0 where
  pub valid : IsValid q
  pub only : (p : ℕ) → mem p (contents q) ≡ true → P p

module _ (P : ℕ → Type 0) where
  mem-put : (xs : List ℕ) (p x : ℕ) → mem x (put xs p) ≡ true → (mem x xs ≡ true) ⊎ (p ≡ x)
  mem-put xs p x h = elim (Bool-cases (mem x xs)) [
    | inl e ↦ inl e
    | inr e ↦ inr (ground (arith, mem-append_one x xs p))
  ]

  pub enqueue-Holds : (q : Queue) (p : ℕ) → Holds P q → P p → Holds P (enqueue_in q p)
  enqueue-Holds q p v h = record {
    valid = enqueue-IsValid q p v.valid;
    only = λ x m. elim (mem-put (contents q) p x (ap (mem x) (sym (contents-enqueue q p)) ∙ m)) [
      | inl old ↦ v.only x old
      | inr e ↦ subst P e h
    ];
  }

  mem-take_front_rest : (xs : List ℕ) (x : ℕ) → mem x (take_front xs).1 ≡ true → mem x xs ≡ true
  mem-take_front_rest [] x h = h
  mem-take_front_rest (y ∷ ys) x h = ground (arith, h)

  pub dequeue-Holds : (q : Queue) → Holds P q → Holds P (dequeue q).1
  dequeue-Holds q v = record {
    valid = dequeue-IsValid q v.valid;
    only = λ x m. v.only x (
        mem-take_front_rest (contents q) x
          (ap (λ (r : ℕ × List ℕ). mem x r.1) (sym (contents-dequeue q)) ∙ m));
  }

  mem-front : (xs : List ℕ) → length xs ≢ 0 → mem (take_front xs).0 xs ≡ true
  mem-front [] h = absurd (h refl)
  mem-front (x ∷ xs) h = ground arith

  pub front-Holds : (q : Queue) → q.size ≢ 0 → Holds P q → P (dequeue q).0
  front-Holds q h v = v.only (dequeue q).0 (
      ap (λ (r : ℕ × List ℕ). mem r.0 (contents q)) (contents-dequeue q)
      ∙ mem-front (contents q) (omega (arith, length-slice q.proc 0 q.size)))

-- The ready queues, each with a property of its own, and a valid running list.
pub record SchedHolds (P : ℕ → ℕ → Type 0) (s : Sched) : Type 0 where
  pub running : IsValid s.running_list
  pub ready : (i : ℕ) → i < max_prio → Holds (P i) (s.mlq_ready_queue i)

module _ (P : ℕ → ℕ → Type 0) (s : Sched) (v : SchedHolds P s) where
  -- `put_proc` adds one process at most, and leaves the slots alone.
  pub put_proc-SchedHolds :
      (p prio : ℕ) {t : Sched}
      → P prio p
      → put_proc s p prio ≡ some t
      → SchedHolds P t × (t.slot ≡ s.slot)
  unfolding put_proc put_mlq_proc
  put_proc-SchedHolds p prio {t} tag e =
      let (h, e') = require-eq-some (ltb prio max_prio) _ e in
      subst (λ t. SchedHolds P t × (t.slot ≡ s.slot)) e'
        (
          record {
            running = enqueue-IsValid s.running_list p v.running;
            ready = λ j hj. elim (Bool-cases (j == prio)) [
              | inl q ↦
                  let same : j ≡ prio = ground arith in
                  rw q (
                    rw same (
                      enqueue-Holds _ (s.mlq_ready_queue prio) p (v.ready prio (ltb→lt _ _ h)) tag))
              | inr q ↦ rw q (v.ready j hj)
            ];
          },
          refl,
        )

  pub take_from-SchedHolds : (i : ℕ) → i < max_prio → SchedHolds P (take_from s i).1
  unfolding take_from
  take_from-SchedHolds i h = record {
    running = v.running;
    ready = λ j hj. elim (Bool-cases (j == i)) [
      | inl e ↦
          let same : j ≡ i = ground arith in
          rw e (rw same (dequeue-Holds _ (s.mlq_ready_queue i) (v.ready i h)))
      | inr e ↦ rw e (v.ready j hj)
    ];
  }

  pub reset_slot-SchedHolds : SchedHolds P (reset_slot s)
  unfolding reset_slot
  reset_slot-SchedHolds = record { running = v.running; ready = v.ready }

  pub take_from-Tag : (i : ℕ) → i < max_prio → occupied s i ≡ true → P i (take_from s i).0
  unfolding take_from empty
  take_from-Tag i h o = front-Holds _ (s.mlq_ready_queue i) (ground (arith, o)) (v.ready i h)

  pub update_slot-SchedHolds :
      (prio used : ℕ) {t : Sched} → update_slot s prio used ≡ some t → SchedHolds P t
  unfolding update_slot
  update_slot-SchedHolds prio used {t} e =
      let (h, e') = require-eq-some (ltb prio max_prio) _ e in
      subst (SchedHolds P) e' (record { running = v.running; ready = v.ready })

pub get_slot-eq-some :
    (s : Sched) (prio : ℕ) {slot : ℕ}
    → get_slot s prio ≡ some slot
    → (prio < max_prio) × (s.slot prio ≡ slot)
unfolding get_slot
get_slot-eq-some s prio e =
    let (h, e') = require-eq-some (ltb prio max_prio) _ e in (ltb→lt prio max_prio h, e')

pub update_slot-lt :
    (s : Sched) (prio used : ℕ) {t : Sched} → update_slot s prio used ≡ some t → prio < max_prio
unfolding update_slot
update_slot-lt s prio used e =
    let (h, e') = require-eq-some (ltb prio max_prio) _ e in ltb→lt prio max_prio h

-- `add_proc` is the same code as `put_proc`.
pub add_proc-eq-put_proc : (s : Sched) (p prio : ℕ) → add_proc s p prio ≡ put_proc s p prio
unfolding add_proc put_proc add_mlq_proc put_mlq_proc
add_proc-eq-put_proc s p prio = refl

pub put_proc-lt :
    (s : Sched) (p prio : ℕ) {t : Sched} → put_proc s p prio ≡ some t → prio < max_prio
unfolding put_proc put_mlq_proc
put_proc-lt s p prio e =
    let (h, e') = require-eq-some (ltb prio max_prio) _ e in ltb→lt prio max_prio h

IsReady-SchedHolds : (P : ℕ → ℕ → Type 0) (s : Sched) → SchedHolds P s → IsReady s
IsReady-SchedHolds P s v = record { running = v.running; ready = λ i h. (v.ready i h).valid }

-- When `get_proc` answers NULL, every queue is empty.
pub pick-zero :
    (P : ℕ → ℕ → Type 0) (s : Sched)
    → SchedHolds P s
    → (pick s).0 ≡ 0
    → (i : ℕ) → i < max_prio
    → occupied (pick s).1 i ≡ false
unfolding reset_slot
pick-zero P s v =
    let ready = IsReady-SchedHolds P s v in
    pick_cases (λ r. r.0 ≡ 0 → (i : ℕ) → i < max_prio → occupied r.1 i ≡ false) s
      (λ j h runs z. absurd (take_from-ne-null s j ready h (ground (arith, runs)) z))
      (λ j h held z.
        absurd (take_from-ne-null (reset_slot s) j (reset_slot-IsReady s ready) h held z))
      (λ empties z. empties)

take_front-Distinct :
    (xs : List ℕ) → Distinct xs → length xs ≢ 0 → mem (take_front xs).0 (take_front xs).1 ≡ false
take_front-Distinct [] d h = absurd (h refl)
take_front-Distinct (x ∷ xs) d h = d.0

-- The process that is taken from a queue stands in it no more.
pub front-Distinct :
    (s : Sched) (i : ℕ)
    → IsValid (s.mlq_ready_queue i)
    → occupied s i ≡ true
    → mem (take_from s i).0 (contents ((take_from s i).1.mlq_ready_queue i)) ≡ false
unfolding take_from empty
front-Distinct s i v o =
    let q = s.mlq_ready_queue i in
    rw (==-refl i) (
      subst (λ (r : ℕ × List ℕ). mem r.0 r.1 ≡ false) (sym (contents-dequeue q))
        (take_front-Distinct (contents q) v.distinct
          (ground (arith, o, length-slice q.proc 0 q.size))))

pub reset_slot-occupied :
    (s : Sched) (i : ℕ) → occupied s i ≡ true → occupied (reset_slot s) i ≡ true
unfolding reset_slot
reset_slot-occupied s i h = h

-- A priority in range makes these defined.
pub put_proc-some :
    (s : Sched) (p prio : ℕ) → prio < max_prio → (t : Sched) × (put_proc s p prio ≡ some t)
unfolding put_proc put_mlq_proc
put_proc-some s p prio h = rw (lt→ltb prio max_prio h) (_, refl)

pub update_slot-some :
    (s : Sched) (prio used : ℕ) → prio < max_prio → (t : Sched) × (update_slot s prio used ≡ some t)
unfolding update_slot
update_slot-some s prio used h = rw (lt→ltb prio max_prio h) (_, refl)

pub get_slot-some : (s : Sched) (prio : ℕ) → prio < max_prio → get_slot s prio ≡ some (s.slot prio)
unfolding get_slot
get_slot-some s prio h = rw (lt→ltb prio max_prio h)
