-- ===== src/Pte/Init.antt =====
-- `init_pte`: the entries that it makes.
use hcmut_os_ossim_sierra.Prelude.{
  ℕ, ◌+◌, ◌*◌, ◌/◌, ◌%◌, ◌<◌, ◌≡◌, refl, true, false, ◌≢◌, ==-ne, ==-eq, arith,
}
use hcmut_os_ossim_sierra.Word.{minus_one}
use hcmut_os_ossim_sierra.Pte.{
  set_bit, clr_bit, set_val, present_mask, swapped_mask, dirty_mask, fpn_mask, swptyp_mask,
  swpoff_mask, is_present, is_swapped, fpn_of, swp_of, swptyp_of, init_pte,
}
use hcmut_os_ossim_sierra.Pte.Fields.{
  word, set_present_lem, set_swapped_lem, clr_swapped_lem, clr_dirty_lem, set_fpn_lem,
  set_swptyp_lem, set_swpoff_lem, fpn_of_lem, swp_of_lem, swptyp_of_lem, is_present_lem,
  is_swapped_lem,
}

-- The two entries that `init_pte` makes.
abbrev online_entry : ℕ → ℕ → ℕ
online_entry v fpn =
    set_val (clr_bit (clr_bit (set_bit v present_mask) swapped_mask) dirty_mask) fpn fpn_mask 0

abbrev swapped_entry : ℕ → ℕ → ℕ → ℕ
swapped_entry v typ off =
    set_val
      (set_val (clr_bit (set_bit (set_bit v present_mask) swapped_mask) dirty_mask) typ swptyp_mask
        0)
      off swpoff_mask 5

online_entry_lem :
    (v x : ℕ)
    → v < word
    → online_entry v x
      ≡ 2147483648 + v / 536870912 % 2 * 536870912 + v % 268435456 / 8192 * 8192 + x % 8192
online_entry_lem v x h =
    let p1 = set_bit v present_mask in
    let e1 = set_present_lem v in
    let p2 = clr_bit p1 swapped_mask in
    let e2 = clr_swapped_lem p1 (omega arith) in
    let p3 = clr_bit p2 dirty_mask in
    let e3 = clr_dirty_lem p2 (omega arith) in omega (arith, set_fpn_lem p3 x (omega arith))

swapped_entry_lem :
    (v typ off : ℕ)
    → v < word
    → swapped_entry v typ off
      ≡ 3221225472
        + v / 536870912 % 2 * 536870912
        + v % 268435456 / 67108864 * 67108864
        + off % 2097152 * 32
        + typ % 32
swapped_entry_lem v typ off h =
    let p1 = set_bit v present_mask in
    let e1 = set_present_lem v in
    let p2 = set_bit p1 swapped_mask in
    let e2 = set_swapped_lem p1 in
    let p3 = clr_bit p2 dirty_mask in
    let e3 = clr_dirty_lem p2 (omega arith) in
    let p4 = set_val p3 typ swptyp_mask 0 in
    let e4 = set_swptyp_lem p3 typ (omega arith) in
    omega (arith, set_swpoff_lem p4 off (omega arith))

-- The entry of a page that is online, with the frame number and a clear dirty bit.
abbrev pub IsOnline : ℕ → ℕ → Type 0
IsOnline fpn p =
    (is_present p ≡ true)
    × (is_swapped p ≡ false)
    × (fpn_of p ≡ fpn % 8192)
    × (p / 268435456 % 2 ≡ 0)

-- The entry of a page that is swapped, with its place and a clear dirty bit.
abbrev pub IsSwapped : ℕ → ℕ → ℕ → Type 0
IsSwapped typ off p =
    (is_present p ≡ true)
    × (is_swapped p ≡ true)
    × (swptyp_of p ≡ typ % 32)
    × (swp_of p ≡ off % 2097152)
    × (p / 268435456 % 2 ≡ 0)

online_entry-IsOnline : (v x : ℕ) → v < word → IsOnline x (online_entry v x)
online_entry-IsOnline v x h = ground (
  arith,
  online_entry_lem v x h,
  is_present_lem (online_entry v x),
  is_swapped_lem (online_entry v x),
  fpn_of_lem (online_entry v x),
)

swapped_entry-IsSwapped : (v typ off : ℕ) → v < word → IsSwapped typ off (swapped_entry v typ off)
swapped_entry-IsSwapped v typ off h = ground (
  arith,
  swapped_entry_lem v typ off h,
  is_present_lem (swapped_entry v typ off),
  is_swapped_lem (swapped_entry v typ off),
  swptyp_of_lem (swapped_entry v typ off),
  swp_of_lem (swapped_entry v typ off),
)

-- `init_pte` leaves the entry alone for a page that is not present, and refuses frame 0 for a page
-- that is online; otherwise it reports success and sets the fields of the case, with the dirty bit
-- clear.
pub init_pte_fields :
    (v pre fpn drt swp typ off : ℕ)
    → v < word
    → let r = init_pte v pre fpn drt swp typ off in
      (pre ≡ 0 → r ≡ (0, v))
      × (pre ≢ 0 → swp ≡ 0 → fpn ≡ 0 → r ≡ (minus_one, v))
      × (pre ≢ 0 → swp ≡ 0 → fpn ≢ 0 → (r.0 ≡ 0) × IsOnline fpn r.1)
      × (pre ≢ 0 → swp ≢ 0 → (r.0 ≡ 0) × IsSwapped typ off r.1)
unfolding init_pte
init_pte_fields v pre fpn drt swp typ off h = (
  λ e. ground arith,
  λ e f g. ground arith,
  λ e f g. rw (==-ne pre 0 e, ==-eq swp 0 f, ==-ne fpn 0 g) (refl, online_entry-IsOnline v fpn h),
  λ e f. rw (==-ne pre 0 e, ==-ne swp 0 f) (refl, swapped_entry-IsSwapped v typ off h),
)
