-- ===== src/Killall/Freed.antt =====
-- What one pass of `killall` frees, and when it meets a process that has been freed.
use hcmut_os_ossim_sierra.Prelude.{
  ℕ, zero, suc, ◌+◌, ◌≤◌, ◌≡◌, ◌≢◌, refl, sym, ap, subst, ◌∙◌, Bool, true, false, Option, none,
  some, List, [], ◌∷◌, ◌==◌, ◌>>◌, require, mem, arith, length, Bool-cases, ◌⊎◌, inl, inr, ==-ne,
}
use hcmut_os_ossim_sierra.Queue.{Queue, enqueue_in, dequeue, new_queue}
use hcmut_os_ossim_sierra.Queue.Contents.{contents, length-slice}
use hcmut_os_ossim_sierra.Queue.Fifo.{take_front, contents-dequeue}
use hcmut_os_ossim_sierra.Killall.{purge, purge_queue}

-- A pass that either meets undefined behaviour or has freed `p` at its end.
abbrev pub Frees {ℓ} : {A : Type ℓ} → ℕ → Option (A × List ℕ) → Type 0
Frees p none = Unit
Frees p (some r) = mem p r.1 ≡ true

-- One round of a pass, by its three outcomes.
round_Frees :
    (p : ℕ) (stop guard kill : Bool) (x y z : Option (Queue × List ℕ))
    → (stop ≡ true → Frees p x)
    → (kill ≡ true → Frees p y)
    → (kill ≡ false → Frees p z)
    → Frees p (elim stop as (λ _. Option (Queue × List ℕ)) [
      | true ↦ x
      | false ↦
          require guard >> elim kill as (λ _. Option (Queue × List ℕ)) [ true ↦ y | false ↦ z ]
    ])
round_Frees p true guard kill x y z hx hy hz = hx refl
round_Frees p false false kill x y z hx hy hz = tt
round_Frees p false true true x y z hx hy hz = hy refl
round_Frees p false true false x y z hx hy hz = hz refl

-- What has been freed stays freed.
purge-freed :
    (n : ℕ) (kill : ℕ → Bool) (q tmp : Queue) (freed : List ℕ) (p : ℕ)
    → mem p freed ≡ true
    → Frees p (purge n kill q tmp freed)
unfolding purge
purge-freed zero kill q tmp freed p h = h
purge-freed (suc n) kill q tmp freed p h =
    let (x, q') = dequeue q in
    round_Frees p (q.size == 0) _ (kill x) _ _ _ (λ _. h)
      (λ _. purge-freed n kill q' tmp (x ∷ freed) p (ground (arith, h)))
      (λ _. purge-freed n kill q' (enqueue_in tmp x) freed p h)

size-dequeue : (q : Queue) → q.size ≢ 0 → (dequeue q).1.size + 1 ≡ q.size
unfolding dequeue
size-dequeue q h = ground arith

mem-take_front :
    (xs : List ℕ) (p : ℕ)
    → mem p xs ≡ true
    → ((take_front xs).0 ≡ p) ⊎ (mem p (take_front xs).1 ≡ true)
mem-take_front [] p h = absurd (cc)
mem-take_front (x ∷ xs) p h = elim (Bool-cases (x == p)) [
  | inl e ↦ inl (ground (arith, e))
  | inr e ↦ inr (ground (arith, e, h))
]

-- The front of a queue that holds `p`, or the rest, is it or has it.
front_or_rest :
    (q : Queue) (p : ℕ)
    → mem p (contents q) ≡ true
    → ((dequeue q).0 ≡ p) ⊎ (mem p (contents (dequeue q).1) ≡ true)
front_or_rest q p h =
    subst (λ (r : ℕ × List ℕ). (r.0 ≡ p) ⊎ (mem p r.1 ≡ true)) (sym (contents-dequeue q))
      (mem-take_front (contents q) p h)

size_of_member : (q : Queue) (p : ℕ) → mem p (contents q) ≡ true → q.size ≢ 0
size_of_member q p h e = no_member (contents q) (length-slice q.proc 0 q.size ∙ e) h
  where
    no_member : (xs : List ℕ) → length xs ≡ 0 → mem p xs ≡ true → ⊥
    no_member [] l m = cc
    no_member (x ∷ xs) l m = omega arith

-- A pass that meets a process which is to be ended frees it.
purge-kills :
    (n : ℕ) (kill : ℕ → Bool) (q tmp : Queue) (freed : List ℕ) (p : ℕ)
    → kill p ≡ true
    → mem p (contents q) ≡ true
    → q.size ≤ n
    → Frees p (purge n kill q tmp freed)
unfolding purge
purge-kills zero kill q tmp freed p k h le = absurd (size_of_member q p h (omega arith))
purge-kills (suc n) kill q tmp freed p k h le =
    let some_left = size_of_member q p h in
    let smaller = size-dequeue q some_left in
    let (x, q') = dequeue q in
    elim (front_or_rest q p h) [
      | inl e ↦
          round_Frees p (q.size == 0) _ (kill x) _ _ _
            (λ stop. absurd (ground (arith, some_left, stop)))
            (λ _. purge-freed n kill q' tmp (x ∷ freed) p (ground (arith, e)))
            (λ stays. absurd (cc (ap kill e, k, stays)))
      | inr r ↦
          round_Frees p (q.size == 0) _ (kill x) _ _ _
            (λ stop. absurd (ground (arith, some_left, stop)))
            (λ _. purge-kills n kill q' tmp (x ∷ freed) p k r (omega (arith, smaller)))
            (λ _. purge-kills n kill q' (enqueue_in tmp x) freed p k r (omega (arith, smaller)))
    ]

-- One round that is undefined, or whose next round is.
round-none :
    (stop guard kill : Bool) (x y z : Option (Queue × List ℕ))
    → stop ≡ false
    → (guard ≡ false) ⊎ ((y ≡ none) × (z ≡ none))
    → (elim stop as (λ _. Option (Queue × List ℕ)) [
      | true ↦ x
      | false ↦
          require guard >> elim kill as (λ _. Option (Queue × List ℕ)) [ true ↦ y | false ↦ z ]
    ])
      ≡ none
round-none true guard kill x y z s h = absurd (cc)
round-none false false kill x y z s h = refl
round-none false true kill x y z s (inl g) = absurd (cc)
round-none false true true x y z s (inr (hy, hz)) = hy
round-none false true false x y z s (inr (hy, hz)) = hz

-- A pass that meets a process which has been freed reads its path: that is undefined.
purge-none :
    (n : ℕ) (kill : ℕ → Bool) (q tmp : Queue) (freed : List ℕ) (p : ℕ)
    → mem p freed ≡ true
    → mem p (contents q) ≡ true
    → q.size ≤ n
    → purge n kill q tmp freed ≡ none
unfolding purge
purge-none zero kill q tmp freed p f h le = absurd (size_of_member q p h (omega arith))
purge-none (suc n) kill q tmp freed p f h le =
    let some_left = size_of_member q p h in
    let smaller = size-dequeue q some_left in
    let (x, q') = dequeue q in
    elim (front_or_rest q p h) [
      | inl e ↦
          let freed_front : mem x freed ≡ true = ap (λ (y : ℕ). mem y freed) e ∙ f in
          round-none (q.size == 0) _ (kill x) _ _ _ (==-ne q.size 0 some_left)
            (inl (ground (arith, freed_front)))
      | inr r ↦ round-none (q.size == 0) _ (kill x) _ _ _ (==-ne q.size 0 some_left) (
          inr (
            purge-none n kill q' tmp (x ∷ freed) p (ground (arith, f)) r (omega (arith, smaller)),
            purge-none n kill q' (enqueue_in tmp x) freed p f r (omega (arith, smaller)),
          ))
    ]

pub purge_queue-freed :
    (kill : ℕ → Bool) (q : Queue) (freed : List ℕ) (p : ℕ)
    → mem p freed ≡ true
    → Frees p (purge_queue kill q freed)
unfolding purge_queue
purge_queue-freed kill q freed p h = elim (Bool-cases (q.size == 0)) [
  | inl e ↦ rw e h
  | inr e ↦ rw e (purge-freed q.size kill q new_queue freed p h)
]

pub purge_queue-kills :
    (kill : ℕ → Bool) (q : Queue) (freed : List ℕ) (p : ℕ)
    → kill p ≡ true
    → mem p (contents q) ≡ true
    → Frees p (purge_queue kill q freed)
unfolding purge_queue
purge_queue-kills kill q freed p k h =
    rw (==-ne q.size 0 (size_of_member q p h))
      (purge-kills q.size kill q new_queue freed p k h (omega arith))

pub purge_queue-none :
    (kill : ℕ → Bool) (q : Queue) (freed : List ℕ) (p : ℕ)
    → mem p freed ≡ true
    → mem p (contents q) ≡ true
    → purge_queue kill q freed ≡ none
unfolding purge_queue
purge_queue-none kill q freed p f h =
    rw (==-ne q.size 0 (size_of_member q p h))
      (purge-none q.size kill q new_queue freed p f h (omega arith))
