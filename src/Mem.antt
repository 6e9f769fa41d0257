-- ===== src/Mem.antt =====
-- src/mem.c and the four functions of src/cpu.c that call it: the memory with segments and pages
-- that the simulator has left for that of mm.c. The lock makes `alloc_mem` one step.
pub mod Refusal
use Prim.Native.Nat.{bit_and}
use hcmut_os_ossim_sierra.Prelude.{
  ℕ, zero, suc, ◌+◌, ◌-◌, ◌*◌, ◌/◌, ◌%◌, Bool, true, false, Option, none, some, List, [], ◌∷◌, ◌++◌,
  ◌==◌, if◌then◌else◌, update, ◌>>=◌, ◌>>◌, require, ltb,
}
use hcmut_os_ossim_sierra.Word.{u32, add32, sub32, mul32}

-- `_mem_stat[i]`
pub record MemStat : Type 0 where
  pub proc : ℕ
  pub index : ℕ
  pub next : ℕ

-- The static `_ram` and `_mem_stat`.
pub record Ram : Type 0 where
  pub ram : ℕ → ℕ
  pub mem_stat : ℕ → MemStat

abbrev pub num_pages : ℕ
num_pages = 1024

abbrev pub seg_page_size : ℕ
seg_page_size = 1024

pub init_mem : Ram → Ram
init_mem r = record { ram = λ _. 0; mem_stat = λ _. record { proc = 0; index = 0; next = 0 } }

pub get_offset : ℕ → ℕ
get_offset addr = bit_and addr (4294967295 - u32 (4294967295 * 1024))

pub get_first_lv : ℕ → ℕ
get_first_lv addr = addr / 32768

pub get_second_lv : ℕ → ℕ
unfolding get_first_lv
get_second_lv addr = sub32 (addr / 1024) (u32 (get_first_lv addr * 32))

-- `struct trans_table_t`: the pairs of `v_index` and `p_index` in use.
abbrev pub TransTable : Type 0
TransTable = List (ℕ × ℕ)

-- `struct page_table_t`: the segments in use.
abbrev pub PageTable : Type 0
PageTable = List (ℕ × TransTable)

-- The loop over the segments has an empty body.
pub get_trans_table : ℕ → PageTable → Option TransTable
get_trans_table index page_table = none

-- The loop of `translate`; the physical address is not written.
abbrev pub find_page : ℕ → TransTable → ℕ
find_page second_lv [] = 0
find_page second_lv ((v_index, p_index) ∷ rest) =
    if v_index == second_lv then 1 else find_page second_lv rest

abbrev search_table : ℕ → Option TransTable → ℕ
search_table second_lv none = 0
search_table second_lv (some table) = find_page second_lv table

pub translate : ℕ → PageTable → ℕ
unfolding get_trans_table get_first_lv get_second_lv
translate virtual_addr page_table =
    search_table (get_second_lv virtual_addr)
      (get_trans_table (get_first_lv virtual_addr) page_table)

-- What these functions use of a process: its registers, its break pointer and its table.
pub record SegProcess : Type 0 where
  pub regs : ℕ → ℕ
  pub bp : ℕ
  pub page_table : PageTable

-- The pages that are counted for a size.
pub pages_for : ℕ → ℕ
pages_for size =
    if size % seg_page_size == 0 then size / seg_page_size + 1 else size / seg_page_size

-- `mem_avail` stays 0.
abbrev pub mem_avail : Bool
mem_avail = false

pub alloc_mem : ℕ → SegProcess → ℕ × SegProcess
unfolding pages_for
alloc_mem size proc =
    if mem_avail
    then (proc.bp, record proc { bp = add32 proc.bp (mul32 (pages_for size) seg_page_size) })
    else (0, proc)

pub free_mem : ℕ → SegProcess → ℕ
free_mem address proc = 0

-- `physical` is the local `physical_addr`, which `translate` never sets; outside `_ram` it is
-- undefined to use it. The status and what is in `*data` afterwards.
pub read_mem : Ram → ℕ → ℕ → SegProcess → ℕ → Option (ℕ × ℕ)
unfolding translate
read_mem r physical address proc value =
    if translate address proc.page_table == 0
    then some (1, value)
    else require (ltb physical 1048576) >> some (0, r.ram physical)

pub write_mem : Ram → ℕ → ℕ → SegProcess → ℕ → Option (ℕ × Ram)
unfolding translate
write_mem r physical address proc value =
    if translate address proc.page_table == 0
    then some (1, r)
    else require (ltb physical 1048576) >> some (0, record r { ram = update r.ram physical value })

-- The functions of cpu.c. A register out of `regs[10]` is undefined.
pub alloc : SegProcess → ℕ → ℕ → Option (ℕ × SegProcess)
unfolding alloc_mem
alloc proc size reg_index =
    let (addr, proc') = alloc_mem size proc in
    if addr == 0 then some (1, proc') else do
      require (ltb reg_index 10)
      some (0, record proc' { regs = update proc'.regs reg_index addr })

pub free_data : SegProcess → ℕ → Option ℕ
unfolding free_mem
free_data proc reg_index = do require (ltb reg_index 10); some (free_mem (proc.regs reg_index) proc)

-- `junk` is the local `data` before it is set.
pub read_data : Ram → ℕ → ℕ → SegProcess → ℕ → ℕ → ℕ → Option (ℕ × SegProcess)
unfolding read_mem
read_data r physical junk proc source offset destination = do
  require (ltb source 10)
  (status, value) ← read_mem r physical (add32 (proc.regs source) offset) proc junk
  if status == 0 then some (1, proc) else do
    require (ltb destination 10)
    some (0, record proc { regs = update proc.regs destination value })

pub write_data : Ram → ℕ → SegProcess → ℕ → ℕ → ℕ → Option (ℕ × Ram)
unfolding write_mem
write_data r physical proc value destination offset = do
  require (ltb destination 10)
  write_mem r physical (add32 (proc.regs destination) offset) proc value

-- The lines of `dump`: a page in use, and its bytes that are not 0 but for its last one.
pub data DumpLine : Type 0 where
  page : (i : ℕ) → MemStat → DumpLine
  byte : (j value : ℕ) → DumpLine

bytes_from : (ℕ → ℕ) → ℕ → ℕ → List DumpLine
bytes_from ram j zero = []
bytes_from ram j (suc n) =
    let rest = bytes_from ram (suc j) n in if ram j == 0 then rest else byte j (ram j) ∷ rest

pages_from : Ram → ℕ → ℕ → List DumpLine
unfolding bytes_from
pages_from r i zero = []
pages_from r i (suc n) =
    let rest = pages_from r (suc i) n in
    if (r.mem_stat i).proc == 0
    then rest
    else page i (r.mem_stat i) ∷ bytes_from r.ram (i * seg_page_size) (seg_page_size - 1) ++ rest

pub dump : Ram → List DumpLine
unfolding pages_from
dump r = pages_from r 0 num_pages
