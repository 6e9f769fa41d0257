-- ===== src/Vm/Overlap.antt =====
-- `validate_overlap_vm_area` on the only area that a process has. Its number is 1 and the callers
-- ask for area 0, so the area is checked against the range that it is about to grow by.
use hcmut_os_ossim_sierra.Prelude.{
  ℕ, zero, suc, ◌+◌, ◌-◌, ◌*◌, ◌%◌, ◌≤◌, ◌<◌, ◌≡◌, refl, ap, ap₂, ◌∙◌, Bool, not, ◌&&◌, ◌||◌, List,
  [], ◌∷◌, true, false, arith, ==-ne,
}
use hcmut_os_ossim_sierra.Word.{u32, sub64, mul64, sub32, ulong_of_int, minus_one}
use hcmut_os_ossim_sierra.Mm.{VmRg, VmArea, Caller}
use hcmut_os_ossim_sierra.Vm.{
  is_overlapping, product_ge_zero, validate_overlap, validate_overlap_vm_area,
}

-- The process has one area, as `init_mm` numbers it, from 0 to the break `e`.
pub record HasArea (c : Caller) (e : ℕ) : Type 0 where
  pub free : List VmRg
  pub area :
      c.mm.mmap
      ≡ record { vm_id = 1; vm_start = 0; vm_end = e; sbrk = e; vm_freerg_list = free } ∷ []

-- The product of the second test is `-(e * amt)`.
second_product :
    (e amt : ℕ)
    → 0 < amt
    → amt < 4294967296
    → u32 (mul64 e (18446744073709551616 - amt)) ≡ (4294967296 - e * amt % 4294967296) % 4294967296
second_product e amt h k =
    let split : 18446744073709551616 - amt + amt ≡ 18446744073709551616 = omega arith in
    omega (arith, ap (λ (t : ℕ). e * t) split)

first_product : (x : ℕ) → 0 < x → x < 2147483648 → product_ge_zero x 18446744073709551615 ≡ false
first_product x h k = ground arith

-- The two differences that the tests multiply, for the range `[e, e + amt)` past the area `[0, e)`.
own_area_lem :
    (e amt : ℕ) (free : List VmRg)
    → 0 < e
    → 0 < amt
    → e + amt < 2147483648
    → is_overlapping
        (record { vm_id = 1; vm_start = 0; vm_end = e; sbrk = e; vm_freerg_list = free })
        0
        e
        (e + amt)
      ≡ product_ge_zero e (18446744073709551616 - amt)
unfolding is_overlapping
own_area_lem e amt free h k s =
    let e1 : sub64 (ulong_of_int (sub32 (e + amt) 1)) 0 ≡ e + amt - 1 = ground arith in
    let e2 : sub64 (sub64 e 1) (ulong_of_int e) ≡ 18446744073709551615 = ground arith in
    let e3 : sub64 (ulong_of_int e) 0 ≡ e = ground arith in
    let e4 : sub64 e (ulong_of_int (e + amt)) ≡ 18446744073709551616 - amt = ground arith in
    let p1 = first_product (e + amt - 1) (omega arith) (omega arith) in
    ap
      (λ (b : Bool).
        not b
        && (product_ge_zero (sub64 (ulong_of_int (sub32 (e + amt) 1)) 0)
              (sub64 (sub64 e 1) (ulong_of_int e))
            || product_ge_zero (sub64 (ulong_of_int e) 0) (sub64 e (ulong_of_int (e + amt)))))
      (==-ne 0 e (omega arith))
    ∙ ap₂
        (λ (x y : ℕ).
          product_ge_zero x y
          || product_ge_zero (sub64 (ulong_of_int e) 0) (sub64 e (ulong_of_int (e + amt))))
        e1 e2
    ∙ ap
        (λ (b : Bool).
          b || product_ge_zero (sub64 (ulong_of_int e) 0) (sub64 e (ulong_of_int (e + amt))))
        p1
    ∙ ap₂ (λ (x y : ℕ). product_ge_zero x y) e3 e4

abbrev pub own_area : ℕ → List VmRg → VmArea
own_area e free = record { vm_id = 1; vm_start = 0; vm_end = e; sbrk = e; vm_freerg_list = free }

product_pos : (e amt : ℕ) → 0 < e → 0 < amt → 0 < e * amt
product_pos e amt h k = grind arith

own_area_disjoint :
    (e amt : ℕ) (free : List VmRg)
    → 0 < amt
    → e + amt < 2147483648
    → e * amt ≤ 2147483648
    → is_overlapping (own_area e free) 0 e (e + amt) ≡ false
own_area_disjoint zero amt free k s small = unfold is_overlapping in refl
own_area_disjoint (suc d) amt free k s small =
    own_area_lem (suc d) amt free (omega arith) k s
    ∙ ground
        (arith, second_product (suc d) amt k (omega arith), product_pos (suc d) amt (omega arith) k)

own_area_refused :
    (e amt : ℕ) (free : List VmRg)
    → 0 < amt
    → e + amt < 2147483648
    → 2147483648 < e * amt
    → e * amt ≤ 4294967296
    → is_overlapping (own_area e free) 0 e (e + amt) ≡ true
own_area_refused zero amt free k s lo hi = absurd (omega arith)
own_area_refused (suc d) amt free k s lo hi =
    own_area_lem (suc d) amt free (omega arith) k s
    ∙ ground (arith, second_product (suc d) amt k (omega arith))

-- A range that starts at the end of the area passes the check while the product of the area's size
-- and the range's is at most 2 ^ 31.
pub validate_overlap-ok :
    (c : Caller) (e amt : ℕ)
    → HasArea c e
    → 0 < amt
    → e + amt < 2147483648
    → e * amt ≤ 2147483648
    → validate_overlap_vm_area c 0 e (e + amt) ≡ 0
unfolding validate_overlap_vm_area validate_overlap
validate_overlap-ok c e amt h k s small =
    rw (h.area, validate_overlap) (rw (own_area_disjoint e amt h.free k s small))

-- A range that starts at the end of the area, and so overlaps nothing, is refused when the product
-- of the area's size and the range's is above 2 ^ 31 and at most 2 ^ 32: the product is cut to 32
-- bits and its sign is lost.
pub validate_overlap-refuses :
    (c : Caller) (e amt : ℕ)
    → HasArea c e
    → 0 < amt
    → e + amt < 2147483648
    → 2147483648 < e * amt
    → e * amt ≤ 4294967296
    → validate_overlap_vm_area c 0 e (e + amt) ≡ minus_one
unfolding validate_overlap_vm_area validate_overlap
validate_overlap-refuses c e amt h k s lo hi =
    rw (h.area, validate_overlap) (rw (own_area_refused e amt h.free k s lo hi))
