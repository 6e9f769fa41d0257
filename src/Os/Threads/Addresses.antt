-- ===== src/Os/Threads/Addresses.antt =====
-- There is always an address where `malloc` can put a process.
use hcmut_os_ossim_sierra.Prelude.{
  ℕ, suc, ◌+◌, ◌≤◌, ◌≡◌, ◌≢◌, refl, sym, ◌∙◌, subst, none, some, List, ◌==◌, update, update_ne,
  Bool-cases, inl, inr, arith,
}
use hcmut_os_ossim_sierra.Prelude.Partial.{Whenever-some}
use hcmut_os_ossim_sierra.Mm.{VmRg}
use hcmut_os_ossim_sierra.Loader.{Loaded}
use hcmut_os_ossim_sierra.Os.{Pcb, Machine, LdProcess, LdOutcome, waits, loads, all_done}
use hcmut_os_ossim_sierra.Os.Threads.{
  Cpu, Simulator, boot, after_ld, Step, Reach, works, yields, detaches, loader, loader_yields,
  loader_detaches, in_next_slot, timer, unasked, stop_timer, start, later,
}
use hcmut_os_ossim_sierra.Os.Threads.Effects.{
  owned, NoKillall, Effect, moves, puts, frees, takes, runs,
}
use hcmut_os_ossim_sierra.Os.Threads.Owners.{Table, Owners}
use hcmut_os_ossim_sierra.Os.Threads.Loads.{ld_round_lem, Round}
use hcmut_os_ossim_sierra.Os.Threads.Exclusion.{works-Effect, Reach-Owners}

abbrev pub Bounded : Table → Type 0
Bounded pcb = (b : ℕ) × ((p : ℕ) → b ≤ p → pcb p ≡ none)

update-Bounded : (pcb : Table) (q : ℕ) (d : Pcb) → Bounded pcb → Bounded (update pcb q (some d))
update-Bounded pcb q d (b, h) =
    (b + suc q, λ p le. update_ne pcb q p (some d) (omega arith) ∙ h p (omega arith))

free_Bounded : (pcb : Table) (q : ℕ) → Bounded pcb → Bounded (update pcb q none)
free_Bounded pcb q (b, h) =
    (b, λ p le. elim (Bool-cases (p == q)) [ inl e ↦ rw e refl | inr e ↦ rw e (h p le) ])

Effect-Bounded : {m m' : Machine} {c c' : Cpu} → Effect m c m' c' → Bounded m.pcb → Bounded m'.pcb
Effect-Bounded (moves e _ _ _ _) b = subst Bounded (sym e) b
Effect-Bounded (puts d _ _ e _ _ _) b = subst Bounded (sym e) b
Effect-Bounded {m} {m'} {c} (frees e _ _ _ _) b =
    subst Bounded (sym e) (free_Bounded m.pcb (owned c) b)
Effect-Bounded (takes _ e _ _ _) b = subst Bounded (sym e) b
Effect-Bounded {m} {m'} {c} (runs d _ _ (_, (d', _, _, e)) _ _ _) b =
    subst Bounded (sym e) (update-Bounded m.pcb (owned c) d' b)

module _ {stale : List ℕ} {junk : ℕ} {stale_rg : List VmRg} {time_slot n : ℕ}
    {processes : List LdProcess} {program : ℕ → Loaded} where
  Step-Bounded :
      {s t : Simulator}
      → Step stale junk stale_rg time_slot n processes program s t
      → Owners n s.machine.pcb s.machine.sched s.cpu
      → Bounded s.machine.pcb
      → Bounded t.machine.pcb
  Step-Bounded {s} (works k lt run e) v b =
      Effect-Bounded (works-Effect stale junk stale_rg time_slot s k v.programs e) b
  Step-Bounded (yields k lt run e) v b = b
  Step-Bounded (detaches k lt run e) v b = b
  Step-Bounded {s} (loader {o = r} raw stale_list raw_mm unset_id address run e ne free f) v b =
      go r (
        Whenever-some (Round processes address (program s.i) s.machine s.i) _ f (
          ld_round_lem raw stale_list raw_mm unset_id processes _ address (program s.i) s.machine
            s.i))
    where
      go :
          (o : LdOutcome)
          → Round processes address (program s.i) s.machine s.i o
          → Bounded (after_ld s o).machine.pcb
      go waits a = b
      go (loads m i) a =
          subst Bounded (sym a.pcb) (update-Bounded s.machine.pcb address a.process b)
      go all_done a = b
  Step-Bounded (loader_yields run e) v b = b
  Step-Bounded (loader_detaches run e) v b = b
  Step-Bounded (in_next_slot i lt away m) v b = b
  Step-Bounded (timer m) v b = b
  Step-Bounded (stop_timer all) v b = b

  module _ (calm : (i : ℕ) → NoKillall (program i).code) {stale_mem : List ℕ} {raw : Machine}
      {memramsz : ℕ} {memswpsz : ℕ → ℕ} where
    Reach-Bounded :
        {s : Simulator}
        → Reach stale junk stale_rg time_slot n processes program stale_mem raw memramsz memswpsz s
        → Bounded s.machine.pcb
    unfolding boot
    Reach-Bounded start = (0, λ p le. refl)
    Reach-Bounded (later r step) = Step-Bounded step (Reach-Owners calm r).0 (Reach-Bounded r)
    Reach-Bounded (unasked r m) = Reach-Bounded r

    pub free_address :
        {s : Simulator}
        → Reach stale junk stale_rg time_slot n processes program stale_mem raw memramsz memswpsz s
        → (address : ℕ) × (address ≢ 0) × (s.machine.pcb address ≡ none)
    free_address r = let (b, h) = Reach-Bounded r in (suc b, omega arith, h (suc b) (omega arith))
