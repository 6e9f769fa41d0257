-- ===== src/Sched.antt =====
-- src/sched.c, as compiled with MLQ_SCHED: one queue and one count of slots for each priority.
-- The lock makes each function one step. A priority out of range is undefined behaviour, `none`.
pub mod Pick
pub mod Slots
pub mod Ready
pub mod Members
pub mod Dealt
pub mod Apart
use hcmut_os_ossim_sierra.Prelude.{
  ℕ, zero, suc, ◌+◌, ◌-◌, ◌%◌, ◌≡◌, Bool, true, false, not, Option, none, some, ltb, ◌==◌,
  if◌then◌else◌, update, ◌>>=◌, ◌>>◌, require, ◌&&◌,
}
use hcmut_os_ossim_sierra.Prelude.Loops.{for_range}
use hcmut_os_ossim_sierra.Word.{sub32, is_positive}
use hcmut_os_ossim_sierra.Queue.{Queue, enqueue_in, dequeue, empty, clear_queue, new_queue}

abbrev pub max_prio : ℕ
max_prio = 140

-- The static variables. A slot count is an `int`; the arrays have MAX_PRIO entries.
pub record Sched : Type 0 where
  pub ready_queue : Queue
  pub run_queue : Queue
  pub running_list : Queue
  pub mlq_ready_queue : ℕ → Queue
  pub slot : ℕ → ℕ

-- `for (prio = 0; ...) if (!empty(&mlq_ready_queue[prio])) return 0; return 1;`
all_empty : (ℕ → Queue) → ℕ → ℕ → Bool
all_empty qs i zero = true
all_empty qs i (suc n) = if empty (some (qs i)) then all_empty qs (suc i) n else false

pub queue_empty : Sched → Bool
unfolding all_empty
queue_empty s = all_empty s.mlq_ready_queue 0 max_prio

abbrev pub refill_one : ℕ → (ℕ → ℕ) → ℕ → ℕ
refill_one i slot = update slot i (max_prio - i)

pub reset_slot : Sched → Sched
reset_slot s = record s { slot = for_range max_prio 0 refill_one s.slot }

abbrev pub emptied : Queue → Queue
emptied q = record q { size = 0 }

-- The first loop of `init_scheduler` sets the queues and the slots together.
unfoldable pub init_scheduler : Sched → Sched
init_scheduler s = record {
  ready_queue = emptied s.ready_queue;
  run_queue = emptied s.run_queue;
  running_list = emptied s.running_list;
  mlq_ready_queue = for_range max_prio 0 (λ i qs. update qs i (emptied (qs i))) s.mlq_ready_queue;
  slot = for_range max_prio 0 refill_one s.slot;
}

pub finish_scheduler : Sched → Sched
finish_scheduler s = record s {
  ready_queue = clear_queue s.ready_queue;
  run_queue = clear_queue s.run_queue;
  running_list = clear_queue s.running_list;
  mlq_ready_queue =
      for_range max_prio 0 (λ i qs. update qs i (clear_queue (qs i))) s.mlq_ready_queue;
}

unfoldable pub update_slot : Sched → ℕ → ℕ → Option Sched
update_slot s prio used_time = do
  require (ltb prio max_prio)
  some (record s { slot = update s.slot prio (sub32 (s.slot prio) used_time) })

unfoldable pub get_slot : Sched → ℕ → Option ℕ
get_slot s prio = do require (ltb prio max_prio); some (s.slot prio)

-- `proc = dequeue(&mlq_ready_queue[i])`
unfoldable pub take_from : Sched → ℕ → ℕ × Sched
take_from s i =
    let (p, q) = dequeue (s.mlq_ready_queue i) in
    (p, record s { mlq_ready_queue = update s.mlq_ready_queue i q })

-- What a round of the loop of `get_mlq_proc` does: leave it by `break`, or go on.
pub data Round : Type 0 where
  found : ℕ × Sched → Round
  go_on : Sched → ℕ → ℕ → Round

-- `curr_prio = (curr_prio + 1) % MAX_PRIO`, and the reset when that comes round to 0.
unfoldable pub advance : Sched → ℕ → ℕ → Round
advance s curr_prio count_empty =
    let next = (curr_prio + 1) % max_prio in
    if next == 0 then go_on (reset_slot s) next 0 else go_on s next count_empty

unfoldable pub round : Sched → ℕ → ℕ → Round
unfolding advance take_from
round s curr_prio count_empty =
    if not (empty (some (s.mlq_ready_queue curr_prio)))
    then if is_positive (s.slot curr_prio)
      then found (take_from s curr_prio)
      else advance s curr_prio count_empty
    else if count_empty + 1 == max_prio
    then found (0, s)
    else advance s curr_prio (count_empty + 1)

-- `while (1)`; `none` means that the fuel ran out.
unfoldable pub search_loop : ℕ → Sched → ℕ → ℕ → Option (ℕ × Sched)
search_loop zero s curr_prio count_empty = none
search_loop (suc f) s curr_prio count_empty = elim (round s curr_prio count_empty) [
  | found r ↦ some r
  | go_on s' c n ↦ search_loop f s' c n
]

-- Two passes over the priorities are enough: `Sched.Pick`.
abbrev pub search_fuel : ℕ
search_fuel = 280

unfoldable pub get_mlq_proc : Sched → Option (ℕ × Sched)
get_mlq_proc s = search_loop search_fuel s 0 0

-- A process as the scheduler sees it: its address and its priority.
pub put_mlq_proc : Sched → ℕ → ℕ → Option Sched
put_mlq_proc s proc prio = do
  require (ltb prio max_prio)
  some (record s {
    mlq_ready_queue = update s.mlq_ready_queue prio (enqueue_in (s.mlq_ready_queue prio) proc);
  })

unfoldable pub add_mlq_proc : Sched → ℕ → ℕ → Option Sched
add_mlq_proc s proc prio = do
  require (ltb prio max_prio)
  some (record s {
    mlq_ready_queue = update s.mlq_ready_queue prio (enqueue_in (s.mlq_ready_queue prio) proc);
  })

unfoldable pub get_proc : Sched → Option (ℕ × Sched)
get_proc s = get_mlq_proc s

abbrev list_running : Sched → ℕ → Sched
list_running s proc = record s { running_list = enqueue_in s.running_list proc }

-- The pointers to the static queues that these two put into the process are left out.
unfoldable pub put_proc : Sched → ℕ → ℕ → Option Sched
unfolding put_mlq_proc
put_proc s proc prio = put_mlq_proc (list_running s proc) proc prio

unfoldable pub add_proc : Sched → ℕ → ℕ → Option Sched
unfolding add_mlq_proc
add_proc s proc prio = add_mlq_proc (list_running s proc) proc prio
