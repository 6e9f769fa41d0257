-- ===== src/Killall/TwoLists.antt =====
-- `killall` on a process that both passes meet.
use hcmut_os_ossim_sierra.Prelude.{
  ℕ, zero, suc, ◌+◌, ◌≤◌, ◌<◌, ◌≡◌, ◌≢◌, refl, sym, ap, ◌∙◌, Bool, true, Option, none, some, List,
  [], ◌==◌, update, update_ne, ◌>>=◌, mem, arith, Bool-cases, inl, inr,
}
use hcmut_os_ossim_sierra.Queue.{Queue}
use hcmut_os_ossim_sierra.Queue.Contents.{contents}
use hcmut_os_ossim_sierra.Sched.{Sched, max_prio}
use hcmut_os_ossim_sierra.Mm.{Caller}
use hcmut_os_ossim_sierra.Killall.{
  purge_queue, purge_all, purge_sched, sys_killall, read_name, c_string, base_name, same_name,
}
use hcmut_os_ossim_sierra.Killall.Freed.{
  Frees, purge_queue-freed, purge_queue-kills, purge_queue-none,
}

-- A pass followed by another that keeps what the first has freed.
bind-Frees {ℓ κ} :
    {A : Type ℓ} {B : Type κ} (p : ℕ) (o : Option (A × List ℕ))
    (f : A → List ℕ → Option (B × List ℕ))
    → Frees p o
    → ((a : A) (freed : List ℕ) → mem p freed ≡ true → Frees p (f a freed))
    → Frees p (o >>= λ r. f r.0 r.1)
bind-Frees p none f h k = tt
bind-Frees p (some r) f h k = k r.0 r.1 h

any-Frees {ℓ κ} :
    {A : Type ℓ} {B : Type κ} (p : ℕ) (o : Option A) (f : A → Option (B × List ℕ))
    → ((a : A) → Frees p (f a))
    → Frees p (o >>= f)
any-Frees p none f k = tt
any-Frees p (some a) f k = k a

purge_all-freed :
    (n prio : ℕ) (kill : ℕ → Bool) (qs : ℕ → Queue) (freed : List ℕ) (p : ℕ)
    → mem p freed ≡ true
    → Frees p (purge_all n prio kill qs freed)
unfolding purge_all
purge_all-freed zero prio kill qs freed p h = h
purge_all-freed (suc n) prio kill qs freed p h =
    bind-Frees p (purge_queue kill (qs prio) freed)
      (λ q freed'. purge_all n (suc prio) kill (update qs prio q) freed')
      (purge_queue-freed kill (qs prio) freed p h)
      (λ q freed' h'. purge_all-freed n (suc prio) kill (update qs prio q) freed' p h')

purge_all-kills :
    (n prio : ℕ) (kill : ℕ → Bool) (qs : ℕ → Queue) (freed : List ℕ) (p i : ℕ)
    → kill p ≡ true
    → mem p (contents (qs i)) ≡ true
    → prio ≤ i
    → i < prio + n
    → Frees p (purge_all n prio kill qs freed)
unfolding purge_all
purge_all-kills zero prio kill qs freed p i k h lo hi = absurd (omega arith)
purge_all-kills (suc n) prio kill qs freed p i k h lo hi = elim (Bool-cases (i == prio)) [
  | inl e ↦
      let same : i ≡ prio = ground (arith, e) in
      bind-Frees p (purge_queue kill (qs prio) freed)
        (λ q freed'. purge_all n (suc prio) kill (update qs prio q) freed')
        (purge_queue-kills kill (qs prio) freed p k
          (ap (λ (j : ℕ). mem p (contents (qs j))) (sym same) ∙ h))
        (λ q freed' h'. purge_all-freed n (suc prio) kill (update qs prio q) freed' p h')
  | inr e ↦
      let ne : i ≢ prio = ground (arith, e) in
      any-Frees p (purge_queue kill (qs prio) freed)
        (λ r. purge_all n (suc prio) kill (update qs prio r.0) r.1)
        (λ r.
          purge_all-kills n (suc prio) kill (update qs prio r.0) r.1 p i k
            (ap (λ (q : Queue). mem p (contents q)) (update_ne qs prio i r.0 ne) ∙ h)
            (omega (arith, ne)) (omega arith))
]

-- The second pass, after the first.
abbrev running_pass : (ℕ → Bool) → Sched → (ℕ → Queue) × List ℕ → Option (Sched × List ℕ)
running_pass kill s r = do
  (running, freed) ← purge_queue kill s.running_list r.1
  some (record s { mlq_ready_queue = r.0; running_list = running }, freed)

purge_sched-none :
    (kill : ℕ → Bool) (s : Sched) (p i : ℕ)
    → kill p ≡ true
    → i < max_prio
    → mem p (contents (s.mlq_ready_queue i)) ≡ true
    → mem p (contents s.running_list) ≡ true
    → purge_sched kill s ≡ none
unfolding purge_sched
purge_sched-none kill s p i k lt ready running =
    second (purge_all max_prio 0 kill s.mlq_ready_queue [])
      (purge_all-kills max_prio 0 kill s.mlq_ready_queue [] p i k ready (omega arith) (omega arith))
  where
    second : (o : Option ((ℕ → Queue) × List ℕ)) → Frees p o → (o >>= running_pass kill s) ≡ none
    second none h = refl
    second (some r) h = rw (purge_queue-none kill s.running_list r.1 p h running)

-- `killall` when a process of the name that it reads is in a ready queue and in the running list,
-- which is where `put_proc` and `add_proc` put it: the first pass frees the process, and the
-- second reads its path. The call is undefined behaviour.
pub sys_killall-use_after_free :
    (path : ℕ → List ℕ) (stale : List ℕ) (junk : ℕ) (s : Sched) (c : Caller) (memrg p i : ℕ)
    (bytes : List ℕ) (c' : Caller)
    → read_name 100 stale junk c memrg 0 ≡ some (bytes, c')
    → same_name (base_name (path p)) (c_string bytes) ≡ true
    → i < max_prio
    → mem p (contents (s.mlq_ready_queue i)) ≡ true
    → mem p (contents s.running_list) ≡ true
    → sys_killall path stale junk s c memrg ≡ none
unfolding sys_killall
sys_killall-use_after_free path stale junk s c memrg p i bytes c' name matches lt ready running =
    rw (
      name,
      purge_sched-none (λ q. same_name (base_name (path q)) (c_string bytes)) s p i matches lt ready
          running,
    )
