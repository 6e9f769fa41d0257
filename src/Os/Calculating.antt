-- ===== src/Os/Calculating.antt =====
-- Processes that only calculate: what the processor does with them is always defined.
pub mod Rounds
use hcmut_os_ossim_sierra.Prelude.{
  ℕ, zero, suc, ◌+◌, ◌≤◌, ◌<◌, ◌≡◌, ◌≢◌, refl, sym, ap, ◌∙◌, subst, Bool, true, false, Option, none,
  some, List, [], ◌∷◌, ◌==◌, if◌then◌else◌, All, length, get_elem?, mem, update, arith, Bool-cases,
  ◌⊎◌, inl, inr, of_some, ◌>>=◌,
}
use hcmut_os_ossim_sierra.Queue.{Queue, dequeue}
use hcmut_os_ossim_sierra.Queue.Contents.{contents, length-slice}
use hcmut_os_ossim_sierra.Queue.Fifo.{Distinct, IsValid, take_front, contents-dequeue}
use hcmut_os_ossim_sierra.Sched.{Sched, max_prio, take_from, reset_slot}
use hcmut_os_ossim_sierra.Sched.Pick.{pick, occupied, pick_cases}
use hcmut_os_ossim_sierra.Sched.Members.{
  Holds, SchedHolds, take_from-SchedHolds, take_from-Tag, reset_slot-SchedHolds, front-Distinct,
  reset_slot-occupied,
}
use hcmut_os_ossim_sierra.Cpu.{Inst, calc_op}
use hcmut_os_ossim_sierra.Os.{Pcb}

-- A priority in range, and no instruction but CALC.
abbrev pub Calculates : Pcb → Type 0
Calculates d = (d.prio < max_prio) × All (λ (i : Inst). i.opcode ≡ calc_op) d.code

abbrev pub Present : (ℕ → Option Pcb) → ℕ → ℕ → Type 0
Present pcb i p = (d : Pcb) × (pcb p ≡ some d) × (d.prio ≡ i) × Calculates d

-- A ready process that is not the one at `q`.
abbrev pub Waiting : (ℕ → Option Pcb) → ℕ → ℕ → ℕ → Type 0
Waiting pcb q i p = Present pcb i p × (p ≢ q)

pub Waiting-Present :
    (pcb : ℕ → Option Pcb) (q : ℕ) (s : Sched)
    → SchedHolds (Waiting pcb q) s
    → SchedHolds (Present pcb) s
Waiting-Present pcb q s v = record {
  running = v.running;
  ready = λ i h. record { valid = (v.ready i h).valid; only = λ p m. ((v.ready i h).only p m).0 };
}

-- What `get_proc` answers, and that it stands in no queue any more.
abbrev pub Taken : (ℕ → Option Pcb) → ℕ × Sched → Type 0
Taken pcb r =
    SchedHolds (Waiting pcb r.0) r.1 × ((r.0 ≡ 0) ⊎ ((i : ℕ) × (i < max_prio) × Present pcb i r.0))

-- A process has one priority.
same_prio : (pcb : ℕ → Option Pcb) (i j p : ℕ) → Present pcb i p → Present pcb j p → i ≡ j
same_prio pcb i j p (d, e, h, c) (d', e', h', c') =
    sym h ∙ ap (λ (x : Pcb). x.prio) (of_some (sym e ∙ e')) ∙ h'

take_from-Taken :
    (pcb : ℕ → Option Pcb) (s : Sched) (i : ℕ)
    → SchedHolds (Present pcb) s
    → i < max_prio
    → occupied s i ≡ true
    → Taken pcb (take_from s i)
take_from-Taken pcb s i v h o =
    let p = (take_from s i).0 in
    let here : Present pcb i p = take_from-Tag (Present pcb) s v i h o in
    let rest = take_from-SchedHolds (Present pcb) s v i h in
    (
      record {
        running = rest.running;
        ready = λ j hj. record {
          valid = (rest.ready j hj).valid;
          only = λ q m. (
            (rest.ready j hj).only q m,
            λ same.
                let q_here : Present pcb j p =
                  subst (Present pcb j) same ((rest.ready j hj).only q m) in
                let at_j : j ≡ i = same_prio pcb j i p q_here here in
                let again : mem p (contents ((take_from s i).1.mlq_ready_queue i)) ≡ true =
                  ap (λ k. mem p (contents ((take_from s i).1.mlq_ready_queue k))) (sym at_j)
                  ∙ subst (λ x. mem x (contents ((take_from s i).1.mlq_ready_queue j)) ≡ true) same
                      m in
                absurd (cc (front-Distinct s i (v.ready i h).valid o)),
          );
        };
      },
      inr (i, h, here),
    )

pub pick-Taken :
    (pcb : ℕ → Option Pcb) (s : Sched) → SchedHolds (Present pcb) s → Taken pcb (pick s)
pick-Taken pcb s v =
    pick_cases (Taken pcb) s (λ i h runs. take_from-Taken pcb s i v h (ground (arith, runs)))
      (λ i h held.
        take_from-Taken pcb (reset_slot s) i (reset_slot-SchedHolds (Present pcb) s v) h
          (reset_slot-occupied s i held))
      (λ _. (
        record {
          running = v.running;
          ready = λ i h. record {
            valid = (v.ready i h).valid;
            only = λ q m. (
              (v.ready i h).only q m,
              λ z.
                  let null : mem 0 (contents (s.mlq_ready_queue i)) ≡ true =
                    subst (λ x. mem x (contents (s.mlq_ready_queue i)) ≡ true) z m in
                  absurd (cc (v.ready i h).valid.nonnull),
            );
          };
        },
        inl refl,
      ))
