-- ===== src/Os/Threads/Loads.antt =====
-- What a round of the loader does to the processes.
use hcmut_os_ossim_sierra.Prelude.{
  ℕ, Option, subst, ◌≡◌, refl, sym, ap, ◌∙◌, none, some, List, ◌==◌, update, Bool-cases, inl, inr,
  arith, get_elem?, ltb, Option-cases,
}
use hcmut_os_ossim_sierra.Prelude.Partial.{Whenever, if_cases}
use hcmut_os_ossim_sierra.Sched.{put_proc, add_proc}
use hcmut_os_ossim_sierra.Sched.Members.{add_proc-eq-put_proc, put_proc-SchedHolds}
use hcmut_os_ossim_sierra.Sched.Apart.{put_proc-Apart}
use hcmut_os_ossim_sierra.Mm.{VmRg, Mm}
use hcmut_os_ossim_sierra.Loader.{Loaded}
use hcmut_os_ossim_sierra.Os.{
  Pcb, Machine, LdProcess, LdOutcome, waits, loads, all_done, new_pcb, add_new, ld_round, ld_entry,
}
use hcmut_os_ossim_sierra.Os.Threads.{Cpu}
use hcmut_os_ossim_sierra.Os.Threads.Effects.{owned, NoKillall}
use hcmut_os_ossim_sierra.Os.Threads.Owners.{
  Table, Live, Owners, Carries, carry-Owners, update_cases_of,
}

-- A new process of the program is made ready.
pub record Added (m m' : Machine) (address : ℕ) (proc : Loaded) : Type 0 where
  pub process : Pcb
  pub code : process.code ≡ proc.code
  pub put : put_proc m.sched address process.prio ≡ some m'.sched
  pub pcb : m'.pcb ≡ update m.pcb address (some process)

abbrev pub Round : List LdProcess → ℕ → Loaded → Machine → ℕ → LdOutcome → Type 0
Round processes address proc m i waits = Unit
Round processes address proc m i (loads m' i') = Added m m' address proc
Round processes address proc m i all_done = get_elem? processes i ≡ none

pub ld_round_lem :
    (raw : ℕ → ℕ) (stale_list : List VmRg) (raw_mm : Mm) (unset_id : ℕ) (processes : List LdProcess)
    (time address : ℕ) (proc : Loaded) (m : Machine) (i : ℕ)
    → Whenever
        (Round processes address proc m i)
        (ld_round raw stale_list raw_mm unset_id processes time address proc m i)
unfolding ld_round add_new
ld_round_lem raw stale_list raw_mm unset_id processes time address proc m i =
    go (get_elem? processes i) refl
  where
    Q : Option LdOutcome → Type 0
    Q = Whenever (Round processes address proc m i)

    go :
        (o : Option LdProcess)
        → get_elem? processes i ≡ o
        → Q (ld_entry raw stale_list raw_mm unset_id time address proc m i o)
    go none e = e
    go (some l) e =
        if_cases Q (ltb time l.start_time) _ _ (λ _. tt)
          λ _.
            let d = new_pcb raw stale_list raw_mm unset_id proc l.prio in
            elim (Option-cases (add_proc m.sched address d.prio)) [
              | inl f ↦ rw f tt
              | inr (s, f) ↦ rw f (record {
                process = d;
                code = refl;
                put = sym (add_proc-eq-put_proc m.sched address d.prio) ∙ f;
                pcb = refl;
              })
            ]

-- The new process is at an address where there was none, so nobody had it.
pub add-Owners :
    {n : ℕ} {m m' : Machine} {cpu : ℕ → Cpu} {address : ℕ} {proc : Loaded}
    → m.pcb address ≡ none
    → NoKillall proc.code
    → Added m m' address proc
    → Owners n m.pcb m.sched cpu
    → Owners n m'.pcb m'.sched cpu
add-Owners {n} {m} {m'} {cpu} {address} {proc} free calm a v =
    subst (λ t. Owners n t m'.sched cpu) (sym a.pcb)
      (record {
        ready =
            (put_proc-SchedHolds (Live pcb') m.sched w.ready address a.process.prio
              (a.process, new_here, refl) a.put).0;
        held = λ k lt ne.
            let (usable, apart) = w.held k lt ne in
            (
              usable,
              put_proc-Apart (Live pcb') m.sched w.ready (owned (cpu k)) apart address
                  a.process.prio
                  (λ q. let (d, e, _) = (v.held k lt ne).0 in absurd (cc (free, e, ap m.pcb q)))
                  a.put,
            );
        loan = w.loan;
        apart = w.apart;
        programs = w.programs;
      })
  where
    pcb' : Table
    pcb' = update m.pcb address (some a.process)

    new_here : pcb' address ≡ some a.process
    new_here = ground arith

    kept : (p : ℕ) → Carries m.pcb pcb' p
    kept p d e = elim (Bool-cases (p == address)) [
      | inl same ↦ let at_it : p ≡ address = ground arith in absurd (cc (free, e, ap m.pcb at_it))
      | inr other ↦ rw other (d, e, refl)
    ]

    w : Owners n pcb' m.sched cpu
    w =
        carry-Owners m.pcb pcb' kept
          (λ p d e.
            update_cases_of m.pcb address a.process (λ y. NoKillall y.code)
              (subst NoKillall (sym a.code) calm) v.programs p d e)
          v
