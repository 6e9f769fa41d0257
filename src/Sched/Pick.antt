-- ===== src/Sched/Pick.antt =====
-- Which process `get_mlq_proc` chooses.
use hcmut_os_ossim_sierra.Prelude.{
  ℕ, zero, suc, ◌+◌, ◌≤◌, ◌<◌, ◌≡◌, refl, ◌∙◌, Bool, true, false, not, ◌&&◌, Option, none, some,
  arith, ◌==◌, if◌then◌else◌,
}
use hcmut_os_ossim_sierra.Word.{is_positive}
use hcmut_os_ossim_sierra.Queue.{empty}
use hcmut_os_ossim_sierra.Sched.{
  Sched, max_prio, reset_slot, take_from, round, advance, go_on, search_loop, get_mlq_proc,
}
use hcmut_os_ossim_sierra.Sched.Slots.{slot-reset_slot, mlq-reset_slot}

-- The first index of `[i, i + n)` that passes a test.
pub first : (ℕ → Bool) → ℕ → ℕ → Option ℕ
first test i zero = none
first test i (suc n) = let rest = first test (suc i) n in if test i then some i else rest

abbrev pub occupied : Sched → ℕ → Bool
occupied s i = not (empty (some (s.mlq_ready_queue i)))

abbrev pub runnable : Sched → ℕ → Bool
runnable s i = occupied s i && is_positive (s.slot i)

-- The process at the front of the most urgent queue that has slots left; if every queue with
-- processes has used up its slots, the slots are dealt anew and the most urgent queue with
-- processes is served; with no process at all, NULL.
abbrev renewed : Sched → Option ℕ → ℕ × Sched
renewed s none = (0, s)
renewed s (some i) = take_from (reset_slot s) i

abbrev chosen : Sched → Option ℕ → ℕ × Sched
chosen s none = renewed s (first (occupied s) 0 max_prio)
chosen s (some i) = take_from s i

pub pick : Sched → ℕ × Sched
pick s = chosen s (first (runnable s) 0 max_prio)

-- How a pass of the loop ends that finds nothing to run: with NULL, or with a reset.
abbrev is_none : Option ℕ → Bool
is_none none = true
is_none (some i) = false

abbrev pass_end : ℕ → Sched → Bool → Option (ℕ × Sched)
pass_end f s true = some (0, s)
pass_end f s false = search_loop f (reset_slot s) 0 0

abbrev pass : ℕ → Sched → Option ℕ → Bool → Option (ℕ × Sched)
pass f s (some i) b = some (take_from s i)
pass f s none b = pass_end f s b

advance_next :
    (s : Sched) (c count : ℕ) → c + 1 < max_prio → advance s c count ≡ go_on s (suc c) count
unfolding advance
advance_next s c count h = ground arith

advance_wrap :
    (s : Sched) (c count : ℕ) → c + 1 ≡ max_prio → advance s c count ≡ go_on (reset_slot s) 0 0
unfolding advance
advance_wrap s c count h = ground arith

-- From priority `c` on, with `n` priorities to go, of which the `count` before were found empty.
pass_lem :
    (n f g c count : ℕ) (s : Sched)
    → g ≡ suc n + f
    → c + suc n ≡ max_prio
    → count ≤ c
    → search_loop g s c count
      ≡ pass f s
          (first (runnable s) c (suc n))
          ((count == c) && is_none (first (occupied s) c (suc n)))
unfolding search_loop first round
pass_lem n f zero c count s e h k = absurd (omega arith)
pass_lem zero f (suc g) c count s e h k =
    ground (arith, advance_wrap s c count, advance_wrap s c (count + 1))
pass_lem (suc n) f (suc g) c count s e h k = ground (
  arith,
  advance_next s c count,
  advance_next s c (count + 1),
  pass_lem n f g (suc c) count s (omega arith) (omega arith),
  pass_lem n f g (suc c) (count + 1) s (omega arith) (omega arith),
)

first_ext :
    (p q : ℕ → Bool) (i n : ℕ)
    → ((k : ℕ) → i ≤ k → k < i + n → p k ≡ q k)
    → first p i n ≡ first q i n
unfolding first
first_ext p q i zero h = refl
first_ext p q i (suc n) h =
    ground (arith, h i, first_ext p q (suc i) n (λ k lo hi. h k (omega arith) (omega arith)))

-- After a reset every queue with processes may run.
runnable-reset :
    (s : Sched) → first (runnable (reset_slot s)) 0 max_prio ≡ first (occupied s) 0 max_prio
runnable-reset s =
    first_ext _ _ 0 max_prio (λ k lo hi. ground (arith, slot-reset_slot s k, mlq-reset_slot s k))

second_pass :
    (s : Sched) (i : ℕ)
    → first (occupied s) 0 max_prio ≡ some i
    → search_loop 140 (reset_slot s) 0 0 ≡ some (take_from (reset_slot s) i)
second_pass s i h =
    pass_lem 139 0 140 0 0 (reset_slot s) (omega arith) (omega arith) (omega arith)
    ∙ rw (runnable-reset s, h)

-- The loop of `get_mlq_proc` always ends, after two passes over the priorities at most, and it
-- returns the process at the front of the most urgent queue that has processes and slots; if only
-- slots are missing it deals them anew and serves the most urgent queue with processes; and it
-- returns NULL, with nothing changed, if every queue is empty.
pub get_mlq_proc-eq-pick : (s : Sched) → get_mlq_proc s ≡ some (pick s)
unfolding get_mlq_proc pick
get_mlq_proc-eq-pick s =
    pass_lem 139 140 280 0 0 s (omega arith) (omega arith) (omega arith)
    ∙ ended (first (runnable s) 0 max_prio) (first (occupied s) 0 max_prio) refl
  where
    ended :
        (r o : Option ℕ)
        → first (occupied s) 0 max_prio ≡ o
        → pass 140 s r ((0 == 0) && is_none o) ≡ some (chosen s r)
    ended (some i) o e = refl
    ended none none e = rw e
    ended none (some i) e = rw e (second_pass s i e)

first-some :
    (p : ℕ → Bool) (i n k : ℕ) → first p i n ≡ some k → (i ≤ k) × (k < i + n) × (p k ≡ true)
unfolding first
first-some p i zero k h = absurd (cc)
first-some p i (suc n) k h = ground (arith, first-some p (suc i) n k)

first_before : (p : ℕ → Bool) (i n k j : ℕ) → first p i n ≡ some k → i ≤ j → j < k → p j ≡ false
unfolding first
first_before p i zero k j h lo hi = absurd (cc)
first_before p i (suc n) k j h lo hi = ground (arith, first_before p (suc i) n k j)

first-none : (p : ℕ → Bool) (i n j : ℕ) → first p i n ≡ none → i ≤ j → j < i + n → p j ≡ false
unfolding first
first-none p i zero j h lo hi = absurd (omega arith)
first-none p i (suc n) j h lo hi = ground (arith, first-none p (suc i) n j)

-- While some queue that has slots holds a process, the chosen one is from a queue that has slots,
-- and no queue of a smaller priority number has both a process and slots.
pub pick_most_urgent :
    (s : Sched) (j : ℕ)
    → j < max_prio
    → runnable s j ≡ true
    → (i : ℕ) × (i ≤ j)
      × (runnable s i ≡ true)
      × (get_mlq_proc s ≡ some (take_from s i))
      × ((k : ℕ) → k < i → runnable s k ≡ false)
pick_most_urgent s j lt h = go (first (runnable s) 0 max_prio) refl
  where
    go :
        (o : Option ℕ)
        → first (runnable s) 0 max_prio ≡ o
        → (i : ℕ) × (i ≤ j)
          × (runnable s i ≡ true)
          × (get_mlq_proc s ≡ some (take_from s i))
          × ((k : ℕ) → k < i → runnable s k ≡ false)
    go none e = absurd (ground (arith, first-none (runnable s) 0 max_prio j))
    go (some i) e =
        let (lo, hi, runs) = first-some (runnable s) 0 max_prio i e in
        (
          i,
          ground (arith, first_before (runnable s) 0 max_prio i j),
          runs,
          get_mlq_proc-eq-pick s ∙ unfold pick in rw e,
          λ k below. first_before (runnable s) 0 max_prio i k e (omega arith) below,
        )

-- A property of the choice, from its three cases.
pub pick_cases {κ} :
    (P : ℕ × Sched → Type κ) (s : Sched)
    → ((i : ℕ) → i < max_prio → runnable s i ≡ true → P (take_from s i))
    → ((i : ℕ) → i < max_prio → occupied s i ≡ true → P (take_from (reset_slot s) i))
    → (((i : ℕ) → i < max_prio → occupied s i ≡ false) → P (0, s))
    → P (pick s)
unfolding pick
pick_cases P s runs renews nothing =
    go (first (runnable s) 0 max_prio) (first (occupied s) 0 max_prio) refl refl
  where
    go :
        (r o : Option ℕ)
        → first (runnable s) 0 max_prio ≡ r
        → first (occupied s) 0 max_prio ≡ o
        → P (chosen s r)
    go (some i) o e e' =
        let (lo, hi, yes_runs) = first-some (runnable s) 0 max_prio i e in
        runs i (omega arith) (ground arith)
    go none (some i) e e' =
        let (lo, hi, held) = first-some (occupied s) 0 max_prio i e' in
        rw e' (renews i (omega arith) held)
    go none none e e' =
        rw e' (nothing (λ i h. first-none (occupied s) 0 max_prio i e' (omega arith) (omega arith)))
