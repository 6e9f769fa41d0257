-- ===== src/Word.antt =====
-- The integers of the C code as bit patterns: `int` and `uint32_t` are numbers below 2 ^ 32,
-- `unsigned long` below 2 ^ 64, `BYTE` (a signed `char`) below 2 ^ 8. Signed overflow wraps.
pub mod Bits
use hcmut_os_ossim_sierra.Prelude.{ℕ, ◌+◌, ◌-◌, ◌*◌, ◌%◌, Bool, ◌&&◌, ltb, leb, if◌then◌else◌}

abbrev pub u32 : ℕ → ℕ
u32 n = n % 4294967296

abbrev pub u64 : ℕ → ℕ
u64 n = n % 18446744073709551616

abbrev pub add32 : ℕ → ℕ → ℕ
add32 a b = u32 (a + b)

abbrev pub sub32 : ℕ → ℕ → ℕ
sub32 a b = u32 (a + 4294967296 - b)

abbrev pub mul32 : ℕ → ℕ → ℕ
mul32 a b = u32 (a * b)

abbrev pub add64 : ℕ → ℕ → ℕ
add64 a b = u64 (a + b)

abbrev pub sub64 : ℕ → ℕ → ℕ
sub64 a b = u64 (a + 18446744073709551616 - b)

abbrev pub mul64 : ℕ → ℕ → ℕ
mul64 a b = u64 (a * b)

-- The pattern stands for a negative `int`.
abbrev pub is_negative : ℕ → Bool
is_negative a = leb 2147483648 a

-- `0 < a` on `int`.
abbrev pub is_positive : ℕ → Bool
is_positive a = ltb 0 a && ltb a 2147483648

-- `int` to `unsigned long`: the sign is extended.
abbrev pub ulong_of_int : ℕ → ℕ
ulong_of_int a = if leb 2147483648 a then a + 18446744069414584320 else a

-- `char` to `int` or `uint32_t`: the sign is extended.
abbrev pub int_of_byte : ℕ → ℕ
int_of_byte b = if leb 128 b then b + 4294967040 else b

-- `unsigned long` or `int` to a narrower type keeps the low bits.
abbrev pub byte_of : ℕ → ℕ
byte_of n = n % 256

-- `a < b` on `int`: compare with the sign bit flipped.
abbrev pub lt_int : ℕ → ℕ → Bool
lt_int a b = ltb (u32 (a + 2147483648)) (u32 (b + 2147483648))

abbrev pub minus_one : ℕ
minus_one = 4294967295
