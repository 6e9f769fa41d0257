-- ===== src/Pte/Fields.antt =====
-- What the accessors read after the functions that set an entry.
use Prim.Native.Nat.{bit_and}
use hcmut_os_ossim_sierra.Prelude.{ℕ, ◌+◌, ◌*◌, ◌/◌, ◌%◌, ◌<◌, ◌≡◌, true, false, ◌==◌, arith}
use hcmut_os_ossim_sierra.Word.{u32}
use hcmut_os_ossim_sierra.Word.Bits.{bit_or-bit, set_field_lem, bit_and-field, bit_and-clear}
use hcmut_os_ossim_sierra.Pte.{
  set_bit, clr_bit, set_val, present_mask, swapped_mask, dirty_mask, fpn_mask, swptyp_mask,
  swpoff_mask, is_present, is_swapped, set_present, fpn_of, swp_of, swptyp_of, pte_set_swap,
  pte_set_fpn,
}

abbrev pub word : ℕ
word = 4294967296

get_present : (v : ℕ) → bit_and v present_mask ≡ v / 2147483648 % 2 * 2147483648
get_present v = bit_and-field 31 1 v

get_swapped : (v : ℕ) → bit_and v swapped_mask ≡ v / 1073741824 % 2 * 1073741824
get_swapped v = bit_and-field 30 1 v

pub set_present_lem :
    (v : ℕ) → set_bit v present_mask ≡ (v / 4294967296 * 2 + 1) * 2147483648 + v % 2147483648
set_present_lem v = omega (arith, bit_or-bit 31 v)

pub set_swapped_lem :
    (v : ℕ) → set_bit v swapped_mask ≡ (v / 2147483648 * 2 + 1) * 1073741824 + v % 1073741824
set_swapped_lem v = omega (arith, bit_or-bit 30 v)

pub clr_swapped_lem :
    (v : ℕ) → v < word → clr_bit v swapped_mask ≡ v / 2147483648 * 2147483648 + v % 1073741824
clr_swapped_lem v h = omega (arith, bit_and-clear 30 1 1 v (omega arith))

pub clr_dirty_lem :
    (v : ℕ) → v < word → clr_bit v dirty_mask ≡ v / 536870912 * 536870912 + v % 268435456
clr_dirty_lem v h = omega (arith, bit_and-clear 28 1 3 v (omega arith))

pub set_fpn_lem : (v x : ℕ) → v < word → set_val v x fpn_mask 0 ≡ v / 8192 * 8192 + x % 8192
set_fpn_lem v x h = omega (arith, set_field_lem 0 13 19 v (u32 (x * 1)) (omega arith))

pub set_swptyp_lem : (v x : ℕ) → v < word → set_val v x swptyp_mask 0 ≡ v / 32 * 32 + x % 32
set_swptyp_lem v x h = omega (arith, set_field_lem 0 5 27 v (u32 (x * 1)) (omega arith))

pub set_swpoff_lem :
    (v x : ℕ)
    → v < word
    → set_val v x swpoff_mask 5 ≡ (v / 67108864 * 2097152 + x % 2097152) * 32 + v % 32
set_swpoff_lem v x h = omega (arith, set_field_lem 5 21 6 v (u32 (x * 32)) (omega arith))

pub fpn_of_lem : (v : ℕ) → fpn_of v ≡ v % 8192
unfolding fpn_of
fpn_of_lem v = omega (arith, bit_and-field 0 13 v)

pub swptyp_of_lem : (v : ℕ) → swptyp_of v ≡ v % 32
unfolding swptyp_of
swptyp_of_lem v = omega (arith, bit_and-field 0 5 v)

pub swp_of_lem : (v : ℕ) → swp_of v ≡ v / 32 % 2097152
unfolding swp_of
swp_of_lem v = omega (arith, bit_and-field 5 21 v)

pub is_present_lem : (v : ℕ) → is_present v ≡ (v / 2147483648 % 2 == 1)
unfolding is_present
is_present_lem v = ground (arith, get_present v)

pub is_swapped_lem : (v : ℕ) → is_swapped v ≡ (v / 1073741824 % 2 == 1)
unfolding is_swapped
is_swapped_lem v = ground (arith, get_swapped v)

-- The entry as a number, on each branch.
pub pte_set_fpn_lem :
    (v x : ℕ) → v < word → pte_set_fpn v x ≡ 2147483648 + v % 1073741824 / 8192 * 8192 + x % 8192
unfolding pte_set_fpn
pte_set_fpn_lem v x h =
    let p1 = set_bit v present_mask in
    let e1 = set_present_lem v in
    let p2 = clr_bit p1 swapped_mask in
    let e2 = clr_swapped_lem p1 (omega arith) in omega (arith, set_fpn_lem p2 x (omega arith))

pub pte_set_swap_lem :
    (v typ off : ℕ)
    → v < word
    → pte_set_swap v typ off
      ≡ 3221225472 + v % 1073741824 / 67108864 * 67108864 + off % 2097152 * 32 + typ % 32
unfolding pte_set_swap
pte_set_swap_lem v typ off h =
    let p1 = set_bit v present_mask in
    let e1 = set_present_lem v in
    let p2 = set_bit p1 swapped_mask in
    let e2 = set_swapped_lem p1 in
    let p3 = set_val p2 typ swptyp_mask 0 in
    let e3 = set_swptyp_lem p2 typ (omega arith) in
    omega (arith, set_swpoff_lem p3 off (omega arith))

-- `pte_set_fpn` makes a page present and not swapped, with the frame number given, cut to the 13
-- bits of the field; bits 13 to 29 (the user number and the dirty bit among them) stay as they were.
pub pte_set_fpn_fields :
    (v x : ℕ)
    → v < word
    → let p = pte_set_fpn v x in
      (p < word)
      × (is_present p ≡ true)
      × (is_swapped p ≡ false)
      × (fpn_of p ≡ x % 8192)
      × (p / 8192 % 131072 ≡ v / 8192 % 131072)
pte_set_fpn_fields v x h = ground (
  arith,
  pte_set_fpn_lem v x h,
  is_present_lem (pte_set_fpn v x),
  is_swapped_lem (pte_set_fpn v x),
  fpn_of_lem (pte_set_fpn v x),
)

-- `pte_set_swap` records the swap device and the frame in it, cut to 5 and 21 bits, and marks the
-- page as swapped; but it also marks it as present, and the frame number that is then read from the
-- entry is made up of the device and the low bits of the swap frame.
pub pte_set_swap_fields :
    (v typ off : ℕ)
    → v < word
    → let p = pte_set_swap v typ off in
      (p < word)
      × (is_swapped p ≡ true)
      × (swptyp_of p ≡ typ % 32)
      × (swp_of p ≡ off % 2097152)
      × (is_present p ≡ true)
      × (fpn_of p ≡ off % 256 * 32 + typ % 32)
pte_set_swap_fields v typ off h = ground (
  arith,
  pte_set_swap_lem v typ off h,
  is_present_lem (pte_set_swap v typ off),
  is_swapped_lem (pte_set_swap v typ off),
  fpn_of_lem (pte_set_swap v typ off),
  swptyp_of_lem (pte_set_swap v typ off),
  swp_of_lem (pte_set_swap v typ off),
)

-- Setting the present bit leaves the frame number alone.
pub set_present_fields :
    (v : ℕ) → (is_present (set_present v) ≡ true) × (fpn_of (set_present v) ≡ fpn_of v)
set_present_fields v =
    let p = set_bit v present_mask in
    let e = set_present_lem v in ground (arith, is_present_lem p, fpn_of_lem p, fpn_of_lem v)

-- A page that has been swapped out and is then put into a frame again: nothing of the swap place is
-- left in the flags or the frame number.
pub pte_set_fpn-pte_set_swap :
    (v typ off x : ℕ)
    → v < word
    → x < 8192
    → let p = pte_set_fpn (pte_set_swap v typ off) x in
      (is_present p ≡ true) × (is_swapped p ≡ false) × (fpn_of p ≡ x)
pte_set_fpn-pte_set_swap v typ off x h hx =
    let q = pte_set_swap_fields v typ off h in
    let p = pte_set_fpn_fields (pte_set_swap v typ off) x q.0 in (p.1, p.2, omega (arith, p.3))
