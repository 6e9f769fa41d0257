-- ===== src/Os/Threads/Owners.antt =====
-- Who has a process: one processor, or one ready queue, and then it is there to be used.
pub mod Moves
use hcmut_os_ossim_sierra.Prelude.{
  ℕ, ◌<◌, ◌≡◌, ◌≢◌, refl, sym, ap, ◌∙◌, subst, true, false, Option, none, some, ◌==◌, update,
  update_self, update_ne, mem, Bool-cases, inl, inr, of_some, arith, if◌then◌else◌,
}
use hcmut_os_ossim_sierra.Queue.Contents.{contents}
use hcmut_os_ossim_sierra.Queue.Fifo.{IsValid}
use hcmut_os_ossim_sierra.Sched.{Sched, max_prio, get_proc, put_proc}
use hcmut_os_ossim_sierra.Sched.Pick.{pick}
use hcmut_os_ossim_sierra.Sched.Ready.{get_proc-eq-pick}
use hcmut_os_ossim_sierra.Sched.Members.{Holds, SchedHolds, put_proc-SchedHolds, put_proc-lt}
use hcmut_os_ossim_sierra.Sched.Apart.{
  Apart, put_proc-Apart, pick-Apart, pick-SchedHolds, Taken, pick-Taken,
}
use hcmut_os_ossim_sierra.Timer.{Device}
use hcmut_os_ossim_sierra.Os.{Pcb, Machine}
use hcmut_os_ossim_sierra.Os.Threads.{Cpu}
use hcmut_os_ossim_sierra.Os.Threads.Effects.{
  owned, lent, Late, NoKillall, SameQueues, Effect, moves, puts, frees, takes, runs,
}

abbrev pub Table : Type 0
Table = ℕ → Option Pcb

-- The process is there, and has this priority, or one in range.
abbrev pub Live : Table → ℕ → ℕ → Type 0
Live pcb i p = (d : Pcb) × (pcb p ≡ some d) × (d.prio ≡ i)

abbrev pub Usable : Table → ℕ → Type 0
Usable pcb p = (d : Pcb) × (pcb p ≡ some d) × (d.prio < max_prio)

abbrev pub Programs : Table → Type 0
Programs pcb = (p : ℕ) (d : Pcb) → pcb p ≡ some d → NoKillall d.code

abbrev pub Sole : Table → Sched → ℕ → Type 0
Sole pcb s p = Usable pcb p × Apart s p

-- Every ready process is there, in the queue of its priority; what a processor has is there, is in no
-- queue, and no other processor has it; what it has put back and is about to read is there; no
-- program calls `killall`.
pub record Owners (n : ℕ) (pcb : Table) (s : Sched) (cpu : ℕ → Cpu) : Type 0 where
  pub ready : SchedHolds (Live pcb) s
  pub held : (k : ℕ) → k < n → owned (cpu k) ≢ 0 → Sole pcb s (owned (cpu k))
  pub loan : (k : ℕ) → k < n → lent (cpu k) ≢ 0 → Usable pcb (lent (cpu k))
  pub apart : (j k : ℕ) → j < n → k < n → j ≢ k → owned (cpu j) ≢ 0 → owned (cpu j) ≢ owned (cpu k)
  pub programs : Programs pcb

-- The process is still there, with the priority that it had.
abbrev pub Carries : Table → Table → ℕ → Type 0
Carries pcb pcb' p =
    (d : Pcb) → pcb p ≡ some d → (d' : Pcb) × (pcb' p ≡ some d') × (d'.prio ≡ d.prio)

pub Usable-Carries : (pcb pcb' : Table) (p : ℕ) → Carries pcb pcb' p → Usable pcb p → Usable pcb' p
Usable-Carries pcb pcb' p h (d, e, lt) =
    let (d', e', same) = h d e in (d', e', subst (λ x. x < max_prio) (sym same) lt)

pub SchedHolds-Carries :
    (pcb pcb' : Table) (s : Sched)
    → ((p i : ℕ)
        → i < max_prio
        → mem p (contents (s.mlq_ready_queue i)) ≡ true
        → Carries pcb pcb' p)
    → SchedHolds (Live pcb) s
    → SchedHolds (Live pcb') s
SchedHolds-Carries pcb pcb' s h v = record {
  running = v.running;
  ready = λ i lt. record {
    valid = (v.ready i lt).valid;
    only = λ p m.
        let (d, e, same) = (v.ready i lt).only p m in
        let (d', e', same') = h p i lt m d e in (d', e', same' ∙ same);
  };
}

pub Live-unique : (pcb : Table) (i j p : ℕ) → Live pcb i p → Live pcb j p → i ≡ j
Live-unique pcb i j p (d, e, same) (d', e', same') =
    sym same ∙ ap (λ (x : Pcb). x.prio) (of_some (sym e ∙ e')) ∙ same'

-- What is to be shown after a step of processor `k`, which becomes `c`.
module _ {n : ℕ} {was : Table} {had : Sched} {cpu : ℕ → Cpu} (v : Owners n was had cpu)
    (pcb : Table) (s : Sched) (k : ℕ) (c : Cpu) where
  pub rebuild :
      SchedHolds (Live pcb) s
      → (owned c ≢ 0 → Sole pcb s (owned c))
      → ((j : ℕ) → j < n → j ≢ k → owned (cpu j) ≢ 0 → Sole pcb s (owned (cpu j)))
      → (lent c ≢ 0 → Usable pcb (lent c))
      → ((j : ℕ) → j < n → j ≢ k → lent (cpu j) ≢ 0 → Usable pcb (lent (cpu j)))
      → ((j : ℕ) → j < n → j ≢ k → owned (cpu j) ≢ 0 → owned (cpu j) ≢ owned c)
      → Programs pcb
      → Owners n pcb s (update cpu k c)
  rebuild ready own others loan loans apart programs = record {
    ready = ready;
    held = λ j lt. elim (Bool-cases (j == k)) [
      | inl e ↦ rw e own
      | inr e ↦ rw e (others j lt (ground arith))
    ];
    loan = λ j lt. elim (Bool-cases (j == k)) [
      | inl e ↦ rw e loan
      | inr e ↦ rw e (loans j lt (ground arith))
    ];
    apart = λ j i lt lt' ne. elim (Bool-cases (j == k)) [
      | inl e ↦ elim (Bool-cases (i == k)) [
        | inl e' ↦ absurd (ne (ground arith))
        | inr e' ↦ rw e (rw e' (λ h q. apart i lt' (ground arith) (λ z. h (q ∙ z)) (sym q)))
      ]
      | inr e ↦ elim (Bool-cases (i == k)) [
        | inl e' ↦ rw e (rw e' (apart j lt (ground arith)))
        | inr e' ↦ rw e (rw e' (v.apart j i lt lt' ne))
      ]
    ];
    programs = programs;
  }

-- Only the queues and the processes matter.
pub Owners-cong :
    {n : ℕ} {pcb pcb' : Table} {s s' : Sched} {cpu : ℕ → Cpu}
    → pcb' ≡ pcb
    → SameQueues s s'
    → Owners n pcb s cpu
    → Owners n pcb' s' cpu
Owners-cong {n} {pcb} {pcb'} {s} {s'} {cpu} e (q, r) v =
    subst (λ t. Owners n t s' cpu) (sym e)
      (record {
        ready = record {
          running = subst IsValid (sym r) v.ready.running;
          ready = λ i lt. subst (λ t. Holds (Live pcb i) (t i)) (sym q) (v.ready.ready i lt);
        };
        held = λ k lt ne.
            let (usable, apart) = v.held k lt ne in
            (
              usable,
              λ i lt'.
                  subst (λ t. mem (owned (cpu k)) (contents (t i)) ≡ false) (sym q) (apart i lt'),
            );
        loan = v.loan;
        apart = v.apart;
        programs = v.programs;
      })

-- A change of the table that keeps every process.
pub carry-Owners :
    {n : ℕ} (pcb pcb' : Table) {s : Sched} {cpu : ℕ → Cpu}
    → ((p : ℕ) → Carries pcb pcb' p)
    → Programs pcb'
    → Owners n pcb s cpu
    → Owners n pcb' s cpu
carry-Owners pcb pcb' {s} h programs v = record {
  ready = SchedHolds-Carries pcb pcb' s (λ p _ _ _. h p) v.ready;
  held = λ k lt ne.
      let (usable, apart) = v.held k lt ne in (Usable-Carries pcb pcb' _ (h _) usable, apart);
  loan = λ k lt ne. Usable-Carries pcb pcb' _ (h _) (v.loan k lt ne);
  apart = v.apart;
  programs = programs;
}

-- A property of the processes of a table in which one has been set.
pub update_cases_of :
    (pcb : Table) (q : ℕ) (d' : Pcb) (P : Pcb → Type 0)
    → P d'
    → ((p : ℕ) (d : Pcb) → pcb p ≡ some d → P d)
    → (p : ℕ) (d : Pcb) → update pcb q (some d') p ≡ some d
    → P d
update_cases_of pcb q d' P h hs p d e = elim (Bool-cases (p == q)) [
  | inl same ↦ subst P (of_some (subst (λ b. (if b then some d' else pcb p) ≡ some d) same e)) h
  | inr other ↦ hs p d (subst (λ b. (if b then some d' else pcb p) ≡ some d) other e)
]

pub update-Carries :
    (pcb : Table) (q : ℕ) (d d' : Pcb)
    → pcb q ≡ some d
    → d'.prio ≡ d.prio
    → (p : ℕ) → Carries pcb (update pcb q (some d')) p
update-Carries pcb q d d' e prio p x e' = elim (Bool-cases (p == q)) [
  | inl same ↦
      let at_q : p ≡ q = ground arith in
      let is : d ≡ x = of_some (sym e ∙ ap pcb (sym at_q) ∙ e') in
      rw same (d', refl, prio ∙ ap (λ (y : Pcb). y.prio) is)
  | inr other ↦ rw other (x, e', refl)
]
