-- ===== src/Queue/Fifo.antt =====
-- The queue of queue.c against a bounded FIFO of distinct processes, given as a list.
use hcmut_os_ossim_sierra.Prelude.{
  ℕ, zero, suc, ◌-◌, ◌≤◌, ◌≡◌, refl, ap, ◌∙◌, List, [], ◌∷◌, ◌++◌, false, ◌||◌, ◌==◌, arith, leb,
  update, slice, length, length-append, mem, sym, subst, if◌then◌else◌, ==-ne,
}
use native.Mathlib.Numerals.{add-one}
use hcmut_os_ossim_sierra.Queue.{
  Queue, max_queue_size, enqueue_in, dequeue, drain, clear_queue, shift,
}
use hcmut_os_ossim_sierra.Queue.Contents.{
  contents, length-slice, is_queued-eq-mem, slice-update_end, slice-eq_of_agree, shift_lem,
}

-- What a client may think of: put at the end unless full, NULL or present; take from the front.
abbrev pub put : List ℕ → ℕ → List ℕ
put xs p = if (p == 0) || leb max_queue_size (length xs) || mem p xs then xs else xs ++ p ∷ []

abbrev pub take_front : List ℕ → ℕ × List ℕ
take_front [] = (0, [])
take_front (x ∷ xs) = (x, xs)

-- `enqueue` puts the process at the end of the queue, unless it is NULL, the queue holds
-- MAX_QUEUE_SIZE processes, or it is queued already; then nothing changes.
pub contents-enqueue : (q : Queue) (p : ℕ) → contents (enqueue_in q p) ≡ put (contents q) p
unfolding enqueue_in
contents-enqueue q p = ground (
  arith,
  length-slice q.proc 0 q.size,
  is_queued-eq-mem q.proc p 0 q.size,
  slice-update_end q.proc q.size p,
  add-one q.size,
)

suc-sub_one : (n : ℕ) → suc n - 1 ≡ n
suc-sub_one n = omega arith

dequeue-suc :
    (a : ℕ → ℕ) (n : ℕ)
    → dequeue (record { proc = a; size = suc n })
      ≡ (a 0, record { proc = update (shift a n) n 0; size = n })
unfolding dequeue
dequeue-suc a n = rw (==-ne (suc n) 0 (omega arith), suc-sub_one n)

contents-dequeue_sized :
    (a : ℕ → ℕ) (n : ℕ)
    → let q : Queue = record { proc = a; size = n } in
      ((dequeue q).0, contents (dequeue q).1) ≡ take_front (slice a 0 n)
contents-dequeue_sized a zero = unfold dequeue in refl
contents-dequeue_sized a (suc n) =
    ap (λ (r : ℕ × Queue). (r.0, contents r.1)) (dequeue-suc a n)
    ∙ ap (λ (xs : List ℕ). (a 0, xs))
        (slice-eq_of_agree _ _ 0 1 n (λ k lt. ground (arith, shift_lem a n k, add-one k)))

-- `dequeue` returns the oldest process and leaves the others in order; an empty queue gives NULL
-- and stays as it is.
pub contents-dequeue :
    (q : Queue) → ((dequeue q).0, contents (dequeue q).1) ≡ take_front (contents q)
unfolding dequeue
contents-dequeue q = contents-dequeue_sized q.proc q.size

pub drain-size : (n : ℕ) (q : Queue) → q.size ≤ n → (drain n q).size ≡ 0
unfolding drain dequeue
drain-size zero q h = omega arith
drain-size (suc n) q h = ground (arith, drain-size n (dequeue q).1)

-- `clear_queue` ends by its own test, with the queue empty: as many rounds as entries suffice.
pub clear_queue_lem : (q : Queue) → ((drain q.size q).size ≡ 0) × (contents (clear_queue q) ≡ [])
unfolding clear_queue
clear_queue_lem q = (drain-size q.size q (omega arith), refl)

abbrev pub Distinct : List ℕ → Type 0
Distinct [] = Unit {0}
Distinct (x ∷ xs) = (mem x xs ≡ false) × Distinct xs

-- At most ten processes, each once, and no NULL among them.
pub record IsValid (q : Queue) : Type 0 where
  pub bounded : q.size ≤ max_queue_size
  pub distinct : Distinct (contents q)
  pub nonnull : mem 0 (contents q) ≡ false

pub mem-append_one : (a : ℕ) (xs : List ℕ) (p : ℕ) → mem a (xs ++ p ∷ []) ≡ (mem a xs || (p == a))
mem-append_one a [] p = ground arith
mem-append_one a (x ∷ xs) p = ground (arith, mem-append_one a xs p)

Distinct-append_one :
    (xs : List ℕ) (p : ℕ) → Distinct xs → mem p xs ≡ false → Distinct (xs ++ p ∷ [])
Distinct-append_one [] p d h = (refl, tt)
Distinct-append_one (x ∷ xs) p d h =
    (ground (arith, mem-append_one x xs p), Distinct-append_one xs p d.1 (ground arith))

abbrev IsGood : List ℕ → Type 0
IsGood xs = (length xs ≤ max_queue_size) × Distinct xs × (mem 0 xs ≡ false)

put-IsGood : (xs : List ℕ) (p : ℕ) → IsGood xs → IsGood (put xs p)
put-IsGood xs p g =
    ground (arith, length-append xs (p ∷ []), mem-append_one 0 xs p, Distinct-append_one xs p g.1)

take_front-IsGood : (xs : List ℕ) → IsGood xs → IsGood (take_front xs).1
take_front-IsGood [] g = g
take_front-IsGood (x ∷ xs) g = ground arith

of_IsGood : (q : Queue) → IsGood (contents q) → IsValid q
of_IsGood q g = record {
  bounded = omega (arith, g.0, length-slice q.proc 0 q.size);
  distinct = g.1;
  nonnull = g.2;
}

to_IsGood : (q : Queue) → IsValid q → IsGood (contents q)
to_IsGood q v = (omega (arith, v, length-slice q.proc 0 q.size), v.distinct, v.nonnull)

-- `enqueue` keeps a queue valid: never more than ten processes, none twice, no NULL.
pub enqueue-IsValid : (q : Queue) (p : ℕ) → IsValid q → IsValid (enqueue_in q p)
enqueue-IsValid q p v =
    of_IsGood _ (rw (contents-enqueue q p) (put-IsGood (contents q) p (to_IsGood q v)))

pub dequeue-IsValid : (q : Queue) → IsValid q → IsValid (dequeue q).1
dequeue-IsValid q v = of_IsGood _ (
    subst IsGood (sym (ap (λ (r : ℕ × List ℕ). r.1) (contents-dequeue q)))
      (take_front-IsGood (contents q) (to_IsGood q v)))

pub data Op : Type 0 where
  put_op : ℕ → Op
  take_op : Op

-- The calls of a client in order, with what each `dequeue` returns and the queue at the end.
pub run_queue : Queue → List Op → List ℕ × Queue
run_queue q [] = ([], q)
run_queue q (put_op p ∷ ops) = run_queue (enqueue_in q p) ops
run_queue q (take_op ∷ ops) =
    let (p, q') = dequeue q in let (out, last) = run_queue q' ops in (p ∷ out, last)

pub run_list : List ℕ → List Op → List ℕ × List ℕ
run_list xs [] = ([], xs)
run_list xs (put_op p ∷ ops) = run_list (put xs p) ops
run_list xs (take_op ∷ ops) =
    let (p, ys) = take_front xs in let (out, last) = run_list ys ops in (p ∷ out, last)

-- No sequence of calls of `enqueue` and `dequeue`, from any queue, tells the array of queue.c from
-- the list: what the calls return and the processes left at the end are the same.
pub run_queue_refines :
    (q : Queue) (ops : List Op)
    → ((run_queue q ops).0, contents (run_queue q ops).1) ≡ run_list (contents q) ops
unfolding run_queue run_list
run_queue_refines q [] = refl
run_queue_refines q (put_op p ∷ ops) =
    run_queue_refines (enqueue_in q p) ops
    ∙ ap (λ (xs : List ℕ). run_list xs ops) (contents-enqueue q p)
run_queue_refines q (take_op ∷ ops) =
    ap (λ (r : List ℕ × List ℕ). ((dequeue q).0 ∷ r.0, r.1)) (run_queue_refines (dequeue q).1 ops)
    ∙ ap (λ (s : ℕ × List ℕ). (s.0 ∷ (run_list s.1 ops).0, (run_list s.1 ops).1))
        (contents-dequeue q)
