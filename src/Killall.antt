-- ===== src/Killall.antt =====
-- src/sys_killall.c: system call 101, which ends every process of a given name. It takes no lock;
-- here no other thread acts during the call.
pub mod Purge
pub mod Freed
pub mod TwoLists
pub mod Name
pub mod Members
use hcmut_os_ossim_sierra.Prelude.{
  ℕ, zero, suc, ◌+◌, ◌-◌, Bool, true, false, not, ◌&&◌, Option, none, some, List, [], ◌∷◌, ◌==◌,
  if◌then◌else◌, update, ◌>>=◌, ◌>>◌, require, mem,
}
use hcmut_os_ossim_sierra.Word.{byte_of, minus_one}
use hcmut_os_ossim_sierra.Queue.{Queue, enqueue_in, dequeue, new_queue}
use hcmut_os_ossim_sierra.Sched.{Sched, max_prio}
use hcmut_os_ossim_sierra.Mm.{Caller}
use hcmut_os_ossim_sierra.Libmem.Paging.{libread}

-- `while (data != -1)`: the bytes of the region up to the one that reads as -1. The fuel is what is
-- left of `proc_name[100]`: past it the loop writes out of bounds.
pub read_name : ℕ → List ℕ → ℕ → Caller → ℕ → ℕ → Option (List ℕ × Caller)
read_name zero stale junk c memrg i = none
read_name (suc n) stale junk c memrg i = do
  (val, value, c') ← libread stale junk c memrg i
  elim (value == minus_one) [
    | true ↦ some ([], c')
    | false ↦ do
      (rest, c'') ← read_name n stale junk c' memrg (i + 1)
      some (byte_of value ∷ rest, c'')
  ]

-- A string ends at its first NUL.
unfoldable pub c_string : List ℕ → List ℕ
c_string [] = []
c_string (b ∷ bs) = if b == 0 then [] else b ∷ c_string bs

-- `strrchr(path, '/')`, one past it.
unfoldable pub after_slash : List ℕ → Option (List ℕ)
after_slash [] = none
after_slash (b ∷ bs) = elim (after_slash bs) [
  | some rest ↦ some rest
  | none ↦ if b == 47 then some bs else none
]

unfoldable pub base_name : List ℕ → List ℕ
unfolding after_slash
base_name path = elim (after_slash path) [ none ↦ path | some rest ↦ rest ]

-- `strcmp(a, b) == 0`
unfoldable pub same_name : List ℕ → List ℕ → Bool
same_name [] [] = true
same_name [] (b ∷ bs) = false
same_name (a ∷ rest) [] = false
same_name (a ∷ rest) (b ∷ bs) = (a == b) && same_name rest bs

-- `while (!empty(queue))`: `tmp` collects the processes that stay, `freed` those given to `free`,
-- newest first. Reading the path of NULL or of a freed process is undefined. The fuel is the size
-- of the queue.
pub purge : ℕ → (ℕ → Bool) → Queue → Queue → List ℕ → Option (Queue × List ℕ)
purge zero kill q tmp freed = some (tmp, freed)
purge (suc n) kill q tmp freed = elim (q.size == 0) [
  | true ↦ some (tmp, freed)
  | false ↦
      let (p, q') = dequeue q in
      require (not (p == 0) && not (mem p freed)) >> elim (kill p) [
        | true ↦ purge n kill q' tmp (p ∷ freed)
        | false ↦ purge n kill q' (enqueue_in tmp p) freed
      ]
]

pub purge_queue : (ℕ → Bool) → Queue → List ℕ → Option (Queue × List ℕ)
unfolding purge
purge_queue kill q freed =
    if q.size == 0 then some (q, freed) else purge q.size kill q new_queue freed

-- The loop over the priorities, from `prio` on, `n` of them.
pub purge_all : ℕ → ℕ → (ℕ → Bool) → (ℕ → Queue) → List ℕ → Option ((ℕ → Queue) × List ℕ)
purge_all zero prio kill qs freed = some (qs, freed)
purge_all (suc n) prio kill qs freed = do
  (q, freed') ← purge_queue kill (qs prio) freed
  purge_all n (suc prio) kill (update qs prio q) freed'

-- Both passes, for the processes that pass the test.
pub purge_sched : (ℕ → Bool) → Sched → Option (Sched × List ℕ)
unfolding purge_all purge_queue
purge_sched kill s = do
  (qs, freed) ← purge_all max_prio 0 kill s.mlq_ready_queue []
  (running, freed') ← purge_queue kill s.running_list freed
  some (record s { mlq_ready_queue = qs; running_list = running }, freed')

-- The status, the queues, the caller and the processes that have been freed. `path` is the path of
-- each process.
pub sys_killall :
    (ℕ → List ℕ) → List ℕ → ℕ → Sched → Caller → ℕ → Option (ℕ × Sched × Caller × List ℕ)
unfolding read_name c_string base_name same_name purge_sched
sys_killall path stale junk s c memrg = do
  (bytes, c') ← read_name 100 stale junk c memrg 0
  (s', freed) ← purge_sched (λ p. same_name (base_name (path p)) (c_string bytes)) s
  some (0, s', c', freed)
