-- ===== src/Word/Bits.antt =====
-- `&`, `|` and `~` on bit fields, as arithmetic, at every width.
mod Digits
use hcmut_os_ossim_sierra.Prelude.{
  ℕ, zero, suc, ◌+◌, ◌-◌, ◌*◌, ◌/◌, ◌%◌, ◌^◌, ◌<◌, ◌≤◌, ◌≡◌, refl, ap, arith,
}
use Prim.Native.Nat.{bit_and, bit_or}
use native.Mathlib.Nat.{pow-suc, one-le-pow}
use Digits.{bit_and_halves, bit_or_halves, bit_and-zero, zero-bit_and, bit_or-zero, zero-bit_or}

times_two : (a k : ℕ) → a * 2 ^ suc k ≡ 2 * (a * 2 ^ k)
times_two a k = omega (arith, ap (λ (t : ℕ). a * t) (pow-suc 2 k))

unit_low : (b : ℕ) → b < 1 → b ≡ 0
unit_low b h = omega arith

-- The low `k` bits and the rest of a word do not meet under `&`.
pub bit_and-split :
    (k a b c d : ℕ)
    → b < 2 ^ k
    → d < 2 ^ k
    → bit_and (a * 2 ^ k + b) (c * 2 ^ k + d) ≡ bit_and a c * 2 ^ k + bit_and b d
bit_and-split zero a b c d hb hd = ground (arith, bit_and-zero 0, unit_low b hb, unit_low d hd)
bit_and-split (suc k) a b c d hb hd = ground (
  arith,
  bit_and_halves (a * 2 ^ suc k + b) (c * 2 ^ suc k + d),
  bit_and_halves b d,
  times_two a k,
  times_two c k,
  times_two (bit_and a c) k,
  pow-suc 2 k,
  bit_and-split k a (b / 2) c (d / 2),
)

-- Nor do they meet under `|`.
pub bit_or-split :
    (k a b c d : ℕ)
    → b < 2 ^ k
    → d < 2 ^ k
    → bit_or (a * 2 ^ k + b) (c * 2 ^ k + d) ≡ bit_or a c * 2 ^ k + bit_or b d
bit_or-split zero a b c d hb hd = ground (arith, bit_or-zero 0, unit_low b hb, unit_low d hd)
bit_or-split (suc k) a b c d hb hd = ground (
  arith,
  bit_or_halves (a * 2 ^ suc k + b) (c * 2 ^ suc k + d),
  bit_or_halves b d,
  times_two a k,
  times_two c k,
  times_two (bit_or a c) k,
  pow-suc 2 k,
  bit_or-split k a (b / 2) c (d / 2),
)

-- The mask of the `k` low bits keeps what fits them.
pub bit_and-full : (k b : ℕ) → b < 2 ^ k → bit_and b (2 ^ k - 1) ≡ b
bit_and-full zero b h = ground (arith, bit_and-zero b)
bit_and-full (suc k) b h =
    ground
      (arith, one-le-pow k 2, pow-suc 2 k, bit_and_halves b (2 ^ suc k - 1), bit_and-full k (b / 2))

-- `v & m` for the mask `m` of the `k` low bits.
pub bit_and-ones : (k v : ℕ) → bit_and v (2 ^ k - 1) ≡ v % 2 ^ k
bit_and-ones k v = ground (
  arith,
  one-le-pow k 2,
  bit_and-split k (v / 2 ^ k) (v % 2 ^ k) 0 (2 ^ k - 1),
  bit_and-full k (v % 2 ^ k),
  bit_and-zero (v / 2 ^ k),
)

-- `v & (ones << l)`, the field of `k` bits from bit `l` on, in its place.
pub bit_and-field : (l k v : ℕ) → bit_and v ((2 ^ k - 1) * 2 ^ l) ≡ v / 2 ^ l % 2 ^ k * 2 ^ l
bit_and-field l k v = ground (
  arith,
  one-le-pow l 2,
  bit_and-split l (v / 2 ^ l) (v % 2 ^ l) (2 ^ k - 1) 0,
  bit_and-ones k (v / 2 ^ l),
  bit_and-zero (v % 2 ^ l),
)

-- `v & ~(ones << l)` on a word of `l + k + j` bits clears that field.
pub bit_and-clear :
    (l k j v : ℕ)
    → v / 2 ^ l / 2 ^ k < 2 ^ j
    → bit_and v ((2 ^ j - 1) * 2 ^ k * 2 ^ l + (2 ^ l - 1))
      ≡ v / 2 ^ l / 2 ^ k * 2 ^ k * 2 ^ l + v % 2 ^ l
bit_and-clear l k j v h = ground (
  arith,
  one-le-pow l 2,
  one-le-pow k 2,
  bit_and-split l (v / 2 ^ l) (v % 2 ^ l) ((2 ^ j - 1) * 2 ^ k) (2 ^ l - 1),
  bit_and-split k (v / 2 ^ l / 2 ^ k) (v / 2 ^ l % 2 ^ k) (2 ^ j - 1) 0,
  bit_and-full l (v % 2 ^ l),
  bit_and-full j (v / 2 ^ l / 2 ^ k),
  bit_and-zero (v / 2 ^ l % 2 ^ k),
)

-- `|` puts a field into a place that is clear.
pub bit_or-field :
    (l k hi field lo : ℕ)
    → field < 2 ^ k
    → lo < 2 ^ l
    → bit_or (hi * 2 ^ k * 2 ^ l + lo) (field * 2 ^ l) ≡ (hi * 2 ^ k + field) * 2 ^ l + lo
bit_or-field l k hi field lo hf hl = ground (
  arith,
  bit_or-split l (hi * 2 ^ k) lo field 0,
  bit_or-split k hi 0 0 field,
  bit_or-zero lo,
  bit_or-zero hi,
  zero-bit_or field,
)

-- `v | (1 << l)` sets one bit and leaves the others.
pub bit_or-bit : (l v : ℕ) → bit_or v (1 * 2 ^ l) ≡ (v / 2 ^ l / 2 * 2 + 1) * 2 ^ l + v % 2 ^ l
bit_or-bit l v = ground (
  arith,
  one-le-pow l 2,
  bit_or-split l (v / 2 ^ l) (v % 2 ^ l) 1 0,
  bit_or-zero (v % 2 ^ l),
  bit_or_halves (v / 2 ^ l) 1,
  bit_or-zero (v / 2 ^ l / 2),
)

-- `(v & ~(ones << l)) | (y & (ones << l))` takes that field from `y` and the rest from `v`.
pub set_field_lem :
    (l k j v y : ℕ)
    → v / 2 ^ l / 2 ^ k < 2 ^ j
    → bit_or
        (bit_and v ((2 ^ j - 1) * 2 ^ k * 2 ^ l + (2 ^ l - 1)))
        (bit_and y ((2 ^ k - 1) * 2 ^ l))
      ≡ (v / 2 ^ l / 2 ^ k * 2 ^ k + y / 2 ^ l % 2 ^ k) * 2 ^ l + v % 2 ^ l
set_field_lem l k j v y h =
    rw (bit_and-clear l k j v h, bit_and-field l k y)
      (bit_or-field l k (v / 2 ^ l / 2 ^ k) (y / 2 ^ l % 2 ^ k) (v % 2 ^ l)
        (omega (arith, one-le-pow k 2)) (omega (arith, one-le-pow l 2)))
