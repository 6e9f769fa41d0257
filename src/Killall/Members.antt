-- ===== src/Killall/Members.antt =====
-- `killall` leaves in each queue only processes that stood in it.
use hcmut_os_ossim_sierra.Prelude.{
  ℕ, zero, suc, ◌+◌, ◌<◌, ◌≡◌, refl, subst, Bool, true, false, Option, List, [], ◌==◌, ◌>>◌,
  require, arith, Bool-cases, inl, inr, update,
}
use hcmut_os_ossim_sierra.Prelude.Partial.{Whenever, Whenever-bind, Whenever-some}
use hcmut_os_ossim_sierra.Queue.{Queue, enqueue_in, dequeue, new_queue}
use hcmut_os_ossim_sierra.Sched.{Sched, max_prio}
use hcmut_os_ossim_sierra.Sched.Members.{
  Holds, SchedHolds, enqueue-Holds, dequeue-Holds, front-Holds,
}
use hcmut_os_ossim_sierra.Killall.{
  purge, purge_queue, purge_all, purge_sched, sys_killall, read_name, same_name, base_name,
  c_string,
}
use hcmut_os_ossim_sierra.Mm.{Caller}

module _ (P : ℕ → Type 0) where
  new_queue-Holds : Holds P new_queue
  new_queue-Holds = record {
    valid = record { bounded = omega arith; distinct = tt; nonnull = refl };
    only = λ p m. absurd (cc);
  }

  -- A round of the pass, by its three outcomes.
  round-Holds :
      (stop guard kill : Bool) (x y z : Option (Queue × List ℕ))
      → Whenever (λ r. Holds P r.0) x
      → (stop ≡ false → Whenever (λ r. Holds P r.0) y)
      → (stop ≡ false → Whenever (λ r. Holds P r.0) z)
      → Whenever
          (λ r. Holds P r.0)
          (elim stop as (λ _. Option (Queue × List ℕ)) [
            | true ↦ x
            | false ↦
                require guard
                >> elim kill as (λ _. Option (Queue × List ℕ)) [ true ↦ y | false ↦ z ]
          ])
  round-Holds true guard kill x y z hx hy hz = hx
  round-Holds false false kill x y z hx hy hz = tt
  round-Holds false true true x y z hx hy hz = hy refl
  round-Holds false true false x y z hx hy hz = hz refl

  purge-Holds :
      (n : ℕ) (kill : ℕ → Bool) (q tmp : Queue) (freed : List ℕ)
      → Holds P q
      → Holds P tmp
      → Whenever (λ r. Holds P r.0) (purge n kill q tmp freed)
  unfolding purge
  purge-Holds zero kill q tmp freed v w = w
  purge-Holds (suc n) kill q tmp freed v w =
      let rest = dequeue-Holds P q v in
      round-Holds (q.size == 0) _ (kill (dequeue q).0) _ _ _ w
        (λ _. purge-Holds n kill (dequeue q).1 tmp _ rest w)
        (λ more.
          purge-Holds n kill (dequeue q).1 (enqueue_in tmp (dequeue q).0) freed rest
            (enqueue-Holds P tmp (dequeue q).0 w (front-Holds P q (ground (arith, more)) v)))

  pub purge_queue-Holds :
      (kill : ℕ → Bool) (q : Queue) (freed : List ℕ)
      → Holds P q
      → Whenever (λ r. Holds P r.0) (purge_queue kill q freed)
  unfolding purge_queue
  purge_queue-Holds kill q freed v = elim (Bool-cases (q.size == 0)) [
    | inl e ↦ rw e v
    | inr e ↦ rw e (purge-Holds q.size kill q new_queue freed v new_queue-Holds)
  ]

purge_all-Holds :
    (P : ℕ → ℕ → Type 0) (n prio : ℕ) (kill : ℕ → Bool) (qs : ℕ → Queue) (freed : List ℕ)
    → prio + n ≡ max_prio
    → ((i : ℕ) → i < max_prio → Holds (P i) (qs i))
    → Whenever (λ r. (i : ℕ) → i < max_prio → Holds (P i) (r.0 i)) (purge_all n prio kill qs freed)
unfolding purge_all
purge_all-Holds P zero prio kill qs freed e v = v
purge_all-Holds P (suc n) prio kill qs freed e v =
    Whenever-bind _ (purge_queue kill (qs prio) freed) _ λ (q, freed') o.
      purge_all-Holds P n (suc prio) kill (update qs prio q) freed' (omega arith) λ i h.
        elim (Bool-cases (i == prio)) [
          | inl same ↦
              let i' : i ≡ prio = ground arith in
              rw same (
                rw i' (
                  subst (Whenever (λ r. Holds (P prio) r.0)) o
                    (purge_queue-Holds (P prio) kill (qs prio) freed (v prio (omega arith)))))
          | inr other ↦ rw other (v i h)
        ]

-- Both passes keep the queues so, and leave the slots alone.
pub purge_sched-Holds :
    (P : ℕ → ℕ → Type 0) (kill : ℕ → Bool) (s : Sched)
    → SchedHolds P s
    → Whenever (λ r. SchedHolds P r.0 × (r.0.slot ≡ s.slot)) (purge_sched kill s)
unfolding purge_sched
purge_sched-Holds P kill s v =
    Whenever-bind _ (purge_all max_prio 0 kill s.mlq_ready_queue []) _ λ (qs, freed) o.
      Whenever-bind _ (purge_queue kill s.running_list freed) _ λ (running, freed') o'. (
        record {
          running =
              (Whenever-some (λ r. Holds (λ _. Unit) r.0) _ o'
                (purge_queue-Holds (λ _. Unit) kill s.running_list freed
                  (record { valid = v.running; only = λ p m. tt }))).valid;
          ready =
              Whenever-some _ (purge_all max_prio 0 kill s.mlq_ready_queue []) o
                (purge_all-Holds P max_prio 0 kill s.mlq_ready_queue [] (omega arith) v.ready);
        },
        refl,
      )

-- What a call keeps of the scheduler, where the scheduler stands second in its results.
abbrev pub KeepsSched {ℓ} :
    {A : Type ℓ} → (ℕ → ℕ → Type 0) → Sched → ℕ × Sched × A × List ℕ → Type 0
KeepsSched P s r = SchedHolds P r.1 × (r.1.slot ≡ s.slot)

pub sys_killall-KeepsSched :
    (P : ℕ → ℕ → Type 0) (path : ℕ → List ℕ) (stale : List ℕ) (junk : ℕ) (s : Sched) (c : Caller)
    (memrg : ℕ)
    → SchedHolds P s
    → Whenever (KeepsSched P s) (sys_killall path stale junk s c memrg)
unfolding sys_killall
sys_killall-KeepsSched P path stale junk s c memrg v =
    Whenever-bind _ (read_name 100 stale junk c memrg 0) _ λ (bytes, c') o.
      let kill : ℕ → Bool = λ p. same_name (base_name (path p)) (c_string bytes) in
      Whenever-bind _ (purge_sched kill s) _
        λ (s', freed) o'. Whenever-some _ (purge_sched kill s) o' (purge_sched-Holds P kill s v)
