-- ===== src/Sched/Ready.antt =====
-- The queues of sched.c under each of its functions.
use hcmut_os_ossim_sierra.Prelude.{
  ℕ, ◌<◌, ◌≡◌, ◌≢◌, refl, sym, ap, ◌∙◌, subst, true, false, some, arith, ltb, update, if◌then◌else◌,
  update_cases, of_some, require-eq-some, ltb→lt, length, List, [], ◌∷◌, mem,
}
use hcmut_os_ossim_sierra.Prelude.Loops.{for_range, for_range_inv}
use hcmut_os_ossim_sierra.Queue.{Queue, empty}
use hcmut_os_ossim_sierra.Queue.Contents.{contents, length-slice}
use hcmut_os_ossim_sierra.Queue.Fifo.{
  IsValid, enqueue-IsValid, dequeue-IsValid, contents-dequeue, take_front,
}
use hcmut_os_ossim_sierra.Sched.{
  Sched, max_prio, reset_slot, take_from, init_scheduler, emptied, update_slot, get_proc,
  put_mlq_proc, add_mlq_proc, put_proc, add_proc, list_running,
}
use hcmut_os_ossim_sierra.Sched.Pick.{pick, occupied, get_mlq_proc-eq-pick, pick_cases}

-- The queues that the multi-level policy uses.
pub record IsReady (s : Sched) : Type 0 where
  pub running : IsValid s.running_list
  pub ready : (i : ℕ) → i < max_prio → IsValid (s.mlq_ready_queue i)

emptied-IsValid : (q : Queue) → IsValid (emptied q)
emptied-IsValid q = record { bounded = omega arith; distinct = tt; nonnull = refl }

-- A loop that sets each queue of the array from its old value.
set_each :
    (f : Queue → Queue) (qs : ℕ → Queue) (n i : ℕ)
    → i < n
    → for_range n 0 (λ k t. update t k (f (t k))) qs i ≡ f (qs i)
set_each f qs n i h = ground (arith, invariant i)
  where
    invariant :
        (j : ℕ)
        → for_range n 0 (λ k t. update t k (f (t k))) qs j ≡ (if ltb j n then f (qs j) else qs j)
    invariant =
        for_range_inv (λ k (t : ℕ → Queue). (j : ℕ) → t j ≡ (if ltb j k then f (qs j) else qs j)) _
          n 0 n qs (omega arith) (λ k t lo hi p j. ground (arith, p j, p k)) (λ j. ground arith)

-- `init_scheduler` empties every queue of the policy, whatever was in memory.
pub init_scheduler-IsReady : (s : Sched) → IsReady (init_scheduler s)
unfolding init_scheduler
init_scheduler-IsReady s = record {
  running = emptied-IsValid s.running_list;
  ready = λ i h.
      subst IsValid (sym (set_each emptied s.mlq_ready_queue max_prio i h))
        (emptied-IsValid (s.mlq_ready_queue i));
}

pub init_scheduler-empty :
    (s : Sched) (i : ℕ) → i < max_prio → contents ((init_scheduler s).mlq_ready_queue i) ≡ []
unfolding init_scheduler
init_scheduler-empty s i h = ap contents (set_each emptied s.mlq_ready_queue max_prio i h)

-- Setting one queue of the array to a valid one.
ready-update :
    (s : Sched) (i : ℕ) (q : Queue)
    → IsReady s
    → IsValid q
    → (j : ℕ) → j < max_prio
    → IsValid (update s.mlq_ready_queue i q j)
ready-update s i q v hq j h = update_cases IsValid s.mlq_ready_queue i q j hq (v.ready j h)

take_from-IsReady : (s : Sched) (i : ℕ) → i < max_prio → IsReady s → IsReady (take_from s i).1
unfolding take_from
take_from-IsReady s i h v = record {
  running = v.running;
  ready = ready-update s i _ v (dequeue-IsValid (s.mlq_ready_queue i) (v.ready i h));
}

pub reset_slot-IsReady : (s : Sched) → IsReady s → IsReady (reset_slot s)
unfolding reset_slot
reset_slot-IsReady s v = record { running = v.running; ready = v.ready }

list_running-IsReady : (s : Sched) (p : ℕ) → IsReady s → IsReady (list_running s p)
list_running-IsReady s p v = record {
  running = enqueue-IsValid s.running_list p v.running;
  ready = v.ready;
}

pub pick-IsReady : (s : Sched) → IsReady s → IsReady (pick s).1
pick-IsReady s v =
    pick_cases (λ r. IsReady r.1) s (λ i h _. take_from-IsReady s i h v)
      (λ i h _. take_from-IsReady (reset_slot s) i h (reset_slot-IsReady s v)) (λ _. v)

put_mlq_proc-IsReady :
    (s : Sched) (p prio : ℕ) {t : Sched} → put_mlq_proc s p prio ≡ some t → IsReady s → IsReady t
unfolding put_mlq_proc
put_mlq_proc-IsReady s p prio {t} e v =
    let (h, e') = require-eq-some (ltb prio max_prio) _ e in
    subst IsReady e' (record {
      running = v.running;
      ready =
          ready-update s prio _ v
            (enqueue-IsValid (s.mlq_ready_queue prio) p (v.ready prio (ltb→lt _ _ h)));
    })

-- `add_mlq_proc` is the same code as `put_mlq_proc`.
add_mlq_proc-eq-put_mlq_proc :
    (s : Sched) (p prio : ℕ) → add_mlq_proc s p prio ≡ put_mlq_proc s p prio
unfolding add_mlq_proc put_mlq_proc
add_mlq_proc-eq-put_mlq_proc s p prio = refl

pub update_slot-IsReady :
    (s : Sched) (prio used : ℕ) {t : Sched}
    → update_slot s prio used ≡ some t
    → IsReady s
    → IsReady t
unfolding update_slot
update_slot-IsReady s prio used e v =
    let (h, e') = require-eq-some (ltb prio max_prio) _ e in
    subst IsReady e' (record { running = v.running; ready = v.ready })

pub get_proc-eq-pick : (s : Sched) → get_proc s ≡ some (pick s)
unfolding get_proc
get_proc-eq-pick s = get_mlq_proc-eq-pick s

-- Every function keeps every queue valid.
pub get_proc-IsReady :
    (s : Sched) (p : ℕ) {t : Sched} → get_proc s ≡ some (p, t) → IsReady s → IsReady t
unfolding get_proc
get_proc-IsReady s p {t} e v =
    let same : pick s ≡ (p, t) = of_some (sym (get_mlq_proc-eq-pick s) ∙ e) in
    subst (λ (r : ℕ × Sched). IsReady r.1) same (pick-IsReady s v)

pub put_proc-IsReady :
    (s : Sched) (p prio : ℕ) {t : Sched} → put_proc s p prio ≡ some t → IsReady s → IsReady t
unfolding put_proc
put_proc-IsReady s p prio e v =
    put_mlq_proc-IsReady (list_running s p) p prio e (list_running-IsReady s p v)

pub add_proc-IsReady :
    (s : Sched) (p prio : ℕ) {t : Sched} → add_proc s p prio ≡ some t → IsReady s → IsReady t
unfolding add_proc
add_proc-IsReady s p prio e v =
    put_mlq_proc-IsReady (list_running s p) p prio
      (sym (add_mlq_proc-eq-put_mlq_proc (list_running s p) p prio) ∙ e)
      (list_running-IsReady s p v)

take_front-ne-zero : (xs : List ℕ) → 0 < length xs → mem 0 xs ≡ false → (take_front xs).0 ≢ 0
take_front-ne-zero [] h m = absurd (omega arith)
take_front-ne-zero (x ∷ xs) h m = ground arith

pub take_from-ne-null :
    (s : Sched) (i : ℕ) → IsReady s → i < max_prio → occupied s i ≡ true → (take_from s i).0 ≢ 0
unfolding take_from empty
take_from-ne-null s i v h o = ground (
  arith,
  contents-dequeue q,
  length-slice q.proc 0 q.size,
  take_front-ne-zero (contents q),
  (v.ready i h).nonnull,
)
  where
    q : Queue
    q = s.mlq_ready_queue i

-- `get_proc` never answers NULL while some queue holds a process, with or without slots.
pub get_proc-ne-null :
    (s : Sched) (j : ℕ)
    → IsReady s
    → j < max_prio
    → occupied s j ≡ true
    → (p : ℕ) × (t : Sched) × (get_proc s ≡ some (p, t)) × (p ≢ 0)
unfolding get_proc reset_slot
get_proc-ne-null s j v h o = (
  (pick s).0,
  (pick s).1,
  get_mlq_proc-eq-pick s,
  pick_cases (λ r. r.0 ≢ 0) s (λ i lt runs. take_from-ne-null s i v lt (ground (arith, runs)))
      (λ i lt held. take_from-ne-null (reset_slot s) i (reset_slot-IsReady s v) lt held)
      (λ none_held. absurd (ground (arith, none_held j h))),
)
