-- ===== src/Queue.antt =====
-- src/queue.c: the bounded FIFO of process pointers. A pointer is a number, 0 is NULL, and
-- `proc[MAX_QUEUE_SIZE]` is a function of which the first ten entries are the array. No bound is
-- tested at its accesses: they lie in the array while `size` is at most ten.
pub mod Contents
pub mod Fifo
use hcmut_os_ossim_sierra.Prelude.{
  ℕ, zero, suc, ◌+◌, ◌-◌, Bool, true, false, Option, none, some, ltb, leb, ◌==◌, ◌||◌,
  if◌then◌else◌, update,
}
use hcmut_os_ossim_sierra.Prelude.Loops.{for_range}

abbrev pub max_queue_size : ℕ
max_queue_size = 10

pub record Queue : Type 0 where
  pub proc : ℕ → ℕ
  pub size : ℕ

-- `none` is the pointer NULL.
unfoldable pub empty : Option Queue → Bool
empty none = true
empty (some q) = q.size == 0

-- The loop that looks for `p` among `proc[i .. i + n)`.
unfoldable pub is_queued : (ℕ → ℕ) → ℕ → ℕ → ℕ → Bool
is_queued proc p i zero = false
is_queued proc p i (suc n) = (proc i == p) || is_queued proc p (suc i) n

-- `enqueue` behind its test of `q` against NULL.
unfoldable pub enqueue_in : Queue → ℕ → Queue
enqueue_in q p =
    if p == 0
    then q
    else if leb max_queue_size q.size
    then q
    else if is_queued q.proc p 0 q.size
    then q
    else record { proc = update q.proc q.size p; size = q.size + 1 }

pub enqueue : Option Queue → ℕ → Option Queue
enqueue none p = none
enqueue (some q) p = some (enqueue_in q p)

-- One round of the loop of `dequeue`: `q->proc[i] = q->proc[i + 1]`.
abbrev shift_one : ℕ → (ℕ → ℕ) → ℕ → ℕ
shift_one i proc = update proc i (proc (suc i))

unfoldable pub shift : (ℕ → ℕ) → ℕ → ℕ → ℕ
shift proc n = for_range n 0 shift_one proc

-- The result is the process, 0 for NULL, beside the new queue.
unfoldable pub dequeue : Queue → ℕ × Queue
dequeue q = if q.size == 0 then (0, q) else (
  q.proc 0,
  record { proc = update (shift q.proc (q.size - 1)) (q.size - 1) 0; size = q.size - 1 },
)

-- `while (!empty(q)) dequeue(q);`, with one round of fuel for each entry.
pub drain : ℕ → Queue → Queue
drain zero q = q
drain (suc n) q = if q.size == 0 then q else drain n (dequeue q).1

pub clear_queue : Queue → Queue
clear_queue q = record (drain q.size q) { size = 0 }

-- `{.size = 0}`: every other entry of such an initialiser is NULL.
abbrev pub new_queue : Queue
new_queue = record { proc = λ _. 0; size = 0 }
