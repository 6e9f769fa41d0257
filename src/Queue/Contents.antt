-- ===== src/Queue/Contents.antt =====
-- The processes that a queue holds, oldest first, and what the loops of queue.c do to them.
use hcmut_os_ossim_sierra.Prelude.{
  ℕ, zero, suc, ◌+◌, ◌<◌, ◌≡◌, refl, ap, ap₂, ◌∙◌, List, [], ◌∷◌, ◌++◌, ◌||◌, ◌==◌, arith, ltb,
  update, slice, length, mem, if◌then◌else◌,
}
use hcmut_os_ossim_sierra.Prelude.Loops.{for_range_inv}
use hcmut_os_ossim_sierra.Queue.{Queue, is_queued, shift, shift_one}

abbrev pub contents : Queue → List ℕ
contents q = slice q.proc 0 q.size

pub length-slice : (a : ℕ → ℕ) (i n : ℕ) → length (slice a i n) ≡ n
length-slice a i zero = refl
length-slice a i (suc n) = ap suc (length-slice a (suc i) n)

pub is_queued-eq-mem : (a : ℕ → ℕ) (p i n : ℕ) → is_queued a p i n ≡ mem p (slice a i n)
unfolding is_queued
is_queued-eq-mem a p i zero = refl
is_queued-eq-mem a p i (suc n) = ap (λ b. (a i == p) || b) (is_queued-eq-mem a p (suc i) n)

-- Arrays that agree on a range have the same slice there, also at a shifted place.
pub slice-eq_of_agree :
    (a b : ℕ → ℕ) (i j n : ℕ)
    → ((k : ℕ) → k < n → a (i + k) ≡ b (j + k))
    → slice a i n ≡ slice b j n
slice-eq_of_agree a b i j zero h = refl
slice-eq_of_agree a b i j (suc n) h =
    ap₂ ◌∷◌ (ground (arith, h 0))
      (slice-eq_of_agree a b (suc i) (suc j) n (λ k lt. ground (arith, h (suc k))))

pub slice-suc : (a : ℕ → ℕ) (i n : ℕ) → slice a i (suc n) ≡ slice a i n ++ a (i + n) ∷ []
slice-suc a i zero = ground arith
slice-suc a i (suc n) =
    ap (◌∷◌ (a i)) (slice-suc a (suc i) n)
    ∙ ap (λ (m : ℕ). slice a i (suc n) ++ a m ∷ []) (omega arith)

-- A process put at the end is appended.
pub slice-update_end :
    (a : ℕ → ℕ) (n p : ℕ) → slice (update a n p) 0 (suc n) ≡ slice a 0 n ++ p ∷ []
slice-update_end a n p =
    slice-suc (update a n p) 0 n
    ∙ ap₂ ◌++◌ (slice-eq_of_agree _ _ 0 0 n (λ k lt. ground arith)) (ground arith)

-- The loop of `dequeue` moves the entries `1 .. n` one place down, and changes no other.
pub shift_lem : (a : ℕ → ℕ) (n k : ℕ) → shift a n k ≡ (if ltb k n then a (suc k) else a k)
unfolding shift
shift_lem a n k =
    for_range_inv (λ i (b : ℕ → ℕ). (j : ℕ) → b j ≡ (if ltb j i then a (suc j) else a j)) shift_one
      n 0 n a (omega arith) (λ i b lo hi h j. ground (arith, h j, h (suc i))) (λ j. ground arith) k
