-- ===== src/Pte.antt =====
-- Page table entries: the masks and accessors of include/mm.h over include/bitops.h, and the
-- functions of src/mm.c that set an entry. An entry is a `uint32_t`.
pub mod Fields
pub mod Init
pub mod Address
use Prim.Native.Nat.{bit_and, bit_or}
use hcmut_os_ossim_sierra.Prelude.{ℕ, ◌+◌, ◌-◌, ◌*◌, ◌/◌, ◌^◌, Bool, not, ◌==◌, if◌then◌else◌}
use hcmut_os_ossim_sierra.Word.{u32, minus_one}

-- `1U << nr`
abbrev pub bit : ℕ → ℕ
bit nr = 2 ^ nr

-- `~v` on 32 bits
abbrev pub bit_not : ℕ → ℕ
bit_not v = 4294967295 - v

-- `(~0U << l) & (~0U >> (32 - h - 1))`
abbrev pub genmask : ℕ → ℕ → ℕ
genmask h l = bit_and (u32 (4294967295 * 2 ^ l)) (4294967295 / 2 ^ (32 - h - 1))

abbrev pub set_bit : ℕ → ℕ → ℕ
set_bit v mask = bit_or v mask

abbrev pub clr_bit : ℕ → ℕ → ℕ
clr_bit v mask = bit_and v (bit_not mask)

-- SETVAL: `(v & ~mask) | ((value << offst) & mask)`
abbrev pub set_val : ℕ → ℕ → ℕ → ℕ → ℕ
set_val v value mask offst =
    bit_or (bit_and v (bit_not mask)) (bit_and (u32 (value * 2 ^ offst)) mask)

-- GETVAL: `(v & mask) >> offst`
abbrev pub get_val : ℕ → ℕ → ℕ → ℕ
get_val v mask offst = bit_and v mask / 2 ^ offst

abbrev pub present_mask : ℕ
present_mask = bit 31

abbrev pub swapped_mask : ℕ
swapped_mask = bit 30

abbrev pub dirty_mask : ℕ
dirty_mask = bit 28

abbrev pub fpn_mask : ℕ
fpn_mask = genmask 12 0

abbrev pub swptyp_mask : ℕ
swptyp_mask = genmask 4 0

abbrev pub swpoff_mask : ℕ
swpoff_mask = genmask 25 5

-- PAGING_PAGE_PRESENT, as a condition
unfoldable pub is_present : ℕ → Bool
is_present pte = not (bit_and pte present_mask == 0)

abbrev pub set_present : ℕ → ℕ
set_present pte = set_bit pte present_mask

-- PAGING_PTE_FPN, which is also PAGING_FPN
pub fpn_of : ℕ → ℕ
fpn_of pte = get_val pte fpn_mask 0

-- PAGING_PTE_SWP, which is also PAGING_SWP and PAGING_SWPFPN
pub swp_of : ℕ → ℕ
swp_of pte = get_val pte swpoff_mask 5

-- PAGING_SWPTYP
pub swptyp_of : ℕ → ℕ
swptyp_of pte = get_val pte swptyp_mask 0

-- `pte & PAGING_PTE_SWAPPED_MASK`, as a condition
pub is_swapped : ℕ → Bool
is_swapped pte = not (bit_and pte swapped_mask == 0)

pub pte_set_swap : ℕ → ℕ → ℕ → ℕ
pte_set_swap pte swptyp swpoff =
    let p1 = set_bit pte present_mask in
    let p2 = set_bit p1 swapped_mask in
    let p3 = set_val p2 swptyp swptyp_mask 0 in set_val p3 swpoff swpoff_mask 5

pub pte_set_fpn : ℕ → ℕ → ℕ
pte_set_fpn pte fpn =
    let p1 = set_bit pte present_mask in
    let p2 = clr_bit p1 swapped_mask in set_val p2 fpn fpn_mask 0

-- The status and the entry after the call.
pub init_pte : ℕ → ℕ → ℕ → ℕ → ℕ → ℕ → ℕ → ℕ × ℕ
init_pte pte pre fpn drt swp swptyp swpoff =
    if pre == 0
    then (0, pte)
    else if swp == 0
    then if fpn == 0 then (minus_one, pte) else (
      0,
      set_val (clr_bit (clr_bit (set_bit pte present_mask) swapped_mask) dirty_mask) fpn fpn_mask 0,
    )
    else (
      0,
      set_val
          (set_val (clr_bit (set_bit (set_bit pte present_mask) swapped_mask) dirty_mask) swptyp
            swptyp_mask 0)
          swpoff swpoff_mask 5,
    )
