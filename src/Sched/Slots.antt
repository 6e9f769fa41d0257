-- ===== src/Sched/Slots.antt =====
-- The slot counts of sched.c.
use hcmut_os_ossim_sierra.Prelude.{ℕ, ◌-◌, ◌<◌, ◌≡◌, refl, arith, ltb, if◌then◌else◌}
use hcmut_os_ossim_sierra.Prelude.Loops.{for_range, for_range_inv}
use hcmut_os_ossim_sierra.Sched.{Sched, max_prio, refill_one, reset_slot}

refill_lem :
    (slot : ℕ → ℕ) (n i : ℕ)
    → for_range n 0 refill_one slot i ≡ (if ltb i n then max_prio - i else slot i)
refill_lem slot n i =
    for_range_inv (λ k (t : ℕ → ℕ). (j : ℕ) → t j ≡ (if ltb j k then max_prio - j else slot j))
      refill_one n 0 n slot (omega arith) (λ k t lo hi h j. ground (arith, h j)) (λ j. ground arith)
      i

-- After a reset every priority has MAX_PRIO - prio slots.
pub slot-reset_slot : (s : Sched) (i : ℕ) → i < max_prio → (reset_slot s).slot i ≡ max_prio - i
unfolding reset_slot
slot-reset_slot s i h = ground (arith, refill_lem s.slot max_prio i)

pub mlq-reset_slot : (s : Sched) (i : ℕ) → (reset_slot s).mlq_ready_queue i ≡ s.mlq_ready_queue i
unfolding reset_slot
mlq-reset_slot s i = refl
