-- ===== src/Killall/Purge.antt =====
-- What one pass of `killall` leaves in a queue.
use mathlib.Core.List.{append_assoc, append-nil}
use hcmut_os_ossim_sierra.Prelude.{
  ℕ, zero, suc, ◌+◌, ◌≤◌, ◌<◌, ◌≡◌, ◌≢◌, refl, sym, ap, subst, ◌∙◌, Bool, true, false, Option, some,
  List, [], ◌∷◌, ◌++◌, ◌==◌, slice, if◌then◌else◌, ◌>>◌, require, mem, arith, All, length,
  length-append, Bool-cases, inl, inr, ==-ne,
}
use hcmut_os_ossim_sierra.Queue.{Queue, enqueue_in, dequeue, new_queue, max_queue_size}
use hcmut_os_ossim_sierra.Queue.Contents.{contents, length-slice}
use hcmut_os_ossim_sierra.Queue.Fifo.{
  take_front, put, contents-dequeue, contents-enqueue, Distinct, IsValid, mem-append_one,
}
use hcmut_os_ossim_sierra.Killall.{purge, purge_queue}

-- The processes that stay, in order.
abbrev pub kept : (ℕ → Bool) → List ℕ → List ℕ
kept kill [] = []
kept kill (x ∷ xs) = if kill x then kept kill xs else x ∷ kept kill xs

-- The processes that are freed, newest first, before those of `freed`.
abbrev pub ended : (ℕ → Bool) → List ℕ → List ℕ → List ℕ
ended kill [] freed = freed
ended kill (x ∷ xs) freed = ended kill xs (if kill x then x ∷ freed else freed)

-- No process of the first list is in the second.
abbrev pub Fresh : List ℕ → List ℕ → Type 0
Fresh xs zs = All (λ x. mem x zs ≡ false) xs

Fresh-cons : (xs zs : List ℕ) (x : ℕ) → mem x xs ≡ false → Fresh xs zs → Fresh xs (x ∷ zs)
Fresh-cons [] zs x h f = tt
Fresh-cons (y ∷ ys) zs x h f = (ground (arith, h, f.0), Fresh-cons ys zs x (ground (arith, h)) f.1)

Fresh-append_one :
    (xs zs : List ℕ) (x : ℕ) → mem x xs ≡ false → Fresh xs zs → Fresh xs (zs ++ x ∷ [])
Fresh-append_one [] zs x h f = tt
Fresh-append_one (y ∷ ys) zs x h f = (
  ground (arith, h, f.0, mem-append_one y zs x),
  Fresh-append_one ys zs x (ground (arith, h)) f.1,
)

-- What a pass needs of the processes in front of it: distinct, not NULL, not freed, not kept yet,
-- and room for them.
record Ready (xs ys freed : List ℕ) : Type 0 where
  distinct : Distinct xs
  nonnull : mem 0 xs ≡ false
  unfreed : Fresh xs freed
  new : Fresh xs ys
  room : length ys + length xs ≤ max_queue_size

put_new :
    (ys : List ℕ) (x : ℕ)
    → x ≢ 0
    → length ys < max_queue_size
    → mem x ys ≡ false
    → put ys x ≡ ys ++ x ∷ []
put_new ys x h k m = ground (arith, m)

-- A round of the pass that is defined and goes on.
round_goes_on :
    (stop guard kill : Bool) (x y z : Option (Queue × List ℕ))
    → stop ≡ false
    → guard ≡ true
    → (elim stop as (λ _. Option (Queue × List ℕ)) [
      | true ↦ x
      | false ↦
          require guard >> elim kill as (λ _. Option (Queue × List ℕ)) [ true ↦ y | false ↦ z ]
    ])
      ≡ (if kill then y else z)
round_goes_on true guard kill x y z s g = absurd (cc)
round_goes_on false false kill x y z s g = absurd (cc)
round_goes_on false true true x y z s g = refl
round_goes_on false true false x y z s g = refl

-- A round of the pass, by the process in front.
abbrev next_round : ℕ → (ℕ → Bool) → Queue → Queue → List ℕ → ℕ → Bool → Option (Queue × List ℕ)
next_round n kill q' tmp freed x ends =
    if ends then purge n kill q' tmp (x ∷ freed) else purge n kill q' (enqueue_in tmp x) freed

purge-suc :
    (n : ℕ) (kill : ℕ → Bool) (q tmp : Queue) (freed : List ℕ) (x : ℕ)
    → q.size ≢ 0
    → (dequeue q).0 ≡ x
    → x ≢ 0
    → mem x freed ≡ false
    → purge (suc n) kill q tmp freed ≡ next_round n kill (dequeue q).1 tmp freed x (kill x)
unfolding purge
purge-suc n kill q tmp freed x h e k m =
    let m' : mem (dequeue q).0 freed ≡ false = ap (λ (y : ℕ). mem y freed) e ∙ m in
    round_goes_on (q.size == 0) _ (kill (dequeue q).0) _ _ _ (==-ne q.size 0 h) (ground (arith, m'))
    ∙ ap (λ (y : ℕ). next_round n kill (dequeue q).1 tmp freed y (kill y)) e

dequeue-cons :
    (q : Queue) (x : ℕ) (xs : List ℕ)
    → contents q ≡ x ∷ xs
    → ((dequeue q).0 ≡ x) × (contents (dequeue q).1 ≡ xs)
dequeue-cons q x xs e =
    let front : ◌≡◌ {A = ℕ × List ℕ} ((dequeue q).0, contents (dequeue q).1) (x, xs) =
      contents-dequeue q ∙ ap take_front e in
    (ap (λ (f : ℕ × List ℕ). f.0) front, ap (λ (f : ℕ × List ℕ). f.1) front)

contents-nil : (a : ℕ → ℕ) (n : ℕ) → n ≡ 0 → slice a 0 n ≡ []
contents-nil a zero e = refl
contents-nil a (suc n) e = absurd (omega arith)

-- The pass over the processes `xs`, with `tmp` and `freed` as it has left them so far.
purge_lem :
    (n : ℕ) (kill : ℕ → Bool) (xs : List ℕ) (q tmp : Queue) (freed : List ℕ)
    → contents q ≡ xs
    → length xs ≡ n
    → Ready xs (contents tmp) freed
    → (t : Queue) × (purge n kill q tmp freed ≡ some (t, ended kill xs freed))
      × (contents t ≡ contents tmp ++ kept kill xs)
purge_lem zero kill [] q tmp freed e l r =
    (tmp, unfold purge in refl, sym (append-nil (contents tmp)))
purge_lem (suc n) kill [] q tmp freed e l r = absurd (omega (arith, l))
purge_lem zero kill (x ∷ xs) q tmp freed e l r = absurd (omega (arith, l))
purge_lem (suc n) kill (x ∷ xs) q tmp freed e l r =
    let (front, rest) = dequeue-cons q x xs e in
    let size : q.size ≢ 0 = omega (arith, length-slice q.proc 0 q.size, ap length e) in
    let x0 : x ≢ 0 = ground (arith, r.nonnull) in
    let one = purge-suc n kill q tmp freed x size front x0 r.unfreed.0 in
    let left : length xs ≡ n = omega (arith, l) in
    let nonnull : mem 0 xs ≡ false = ground (arith, r.nonnull) in
    elim (Bool-cases (kill x)) [
      | inl k ↦
          let (t, t0, t1) = purge_lem n kill xs (dequeue q).1 tmp (x ∷ freed) rest left (record {
            distinct = r.distinct.1;
            nonnull = nonnull;
            unfreed = Fresh-cons xs freed x r.distinct.0 r.unfreed.1;
            new = r.new.1;
            room = omega (arith, r.room);
          }) in
          rw k (t, one ∙ ap (next_round n kill (dequeue q).1 tmp freed x) k ∙ t0, t1)
      | inr k ↦
          let kept_one : contents (enqueue_in tmp x) ≡ contents tmp ++ x ∷ [] =
            contents-enqueue tmp x ∙ put_new (contents tmp) x x0 (omega (arith, r.room)) r.new.0 in
          let (t, t0, t1) =
            purge_lem n kill xs (dequeue q).1 (enqueue_in tmp x) freed rest left (record {
              distinct = r.distinct.1;
              nonnull = nonnull;
              unfreed = r.unfreed.1;
              new =
                  subst (Fresh xs) (sym kept_one)
                    (Fresh-append_one xs (contents tmp) x r.distinct.0 r.new.1);
              room =
                  omega (arith, r.room, ap length kept_one, length-append (contents tmp) (x ∷ []));
            }) in
          rw k (
            t,
            one ∙ ap (next_round n kill (dequeue q).1 tmp freed x) k ∙ t0,
            t1
                ∙ ap (λ (ys : List ℕ). ys ++ kept kill xs) kept_one
                ∙ append_assoc (contents tmp) (x ∷ []) (kept kill xs),
          )
    ]

Fresh-nil : (xs : List ℕ) → Fresh xs []
Fresh-nil [] = tt
Fresh-nil (x ∷ xs) = (refl, Fresh-nil xs)

-- One pass of `killall` over a queue of distinct processes none of which has been freed: it ends
-- within one round for each process; the processes of other names stay, in their order; those of the
-- name are freed, each once.
pub purge_queue_lem :
    (kill : ℕ → Bool) (q : Queue) (freed : List ℕ)
    → IsValid q
    → Fresh (contents q) freed
    → (t : Queue) × (purge_queue kill q freed ≡ some (t, ended kill (contents q) freed))
      × (contents t ≡ kept kill (contents q))
unfolding purge_queue
purge_queue_lem kill q freed v f = elim (Bool-cases (q.size == 0)) [
  | inl e ↦
      let none_left : contents q ≡ [] = contents-nil q.proc q.size (ground (arith, e)) in
      rw (e, none_left) (q, refl, none_left)
  | inr e ↦ rw e (
      purge_lem q.size kill (contents q) q new_queue freed refl (length-slice q.proc 0 q.size)
        (record {
          distinct = v.distinct;
          nonnull = v.nonnull;
          unfreed = f;
          new = Fresh-nil (contents q);
          room = omega (arith, v.bounded, length-slice q.proc 0 q.size);
        }))
]
