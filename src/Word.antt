-- ===== src/Word.antt =====
-- Rust's fixed-width integers in a release build, where arithmetic wraps.
-- A `u64` or `u128` is a number below 2 ^ 64 or 2 ^ 128. An `i64` is its two's complement bit
-- pattern, also a number below 2 ^ 64, so the casts `as u64` and `as i64` change nothing.
use distributed_id_allocator.Common.{ℕ, ◌+◌, ◌-◌, ◌%◌, ◌^◌, ◌<◌, Bool, ltb, leb}

abbrev pub IsU64 : ℕ → Type 0
IsU64 x = x < 2 ^ 64

abbrev pub add_u64 : ℕ → ℕ → ℕ
add_u64 a b = (a + b) % 2 ^ 64

abbrev pub sub_u64 : ℕ → ℕ → ℕ
sub_u64 a b = (a + 2 ^ 64 - b) % 2 ^ 64

abbrev pub add_u128 : ℕ → ℕ → ℕ
add_u128 a b = (a + b) % 2 ^ 128

abbrev pub sub_u128 : ℕ → ℕ → ℕ
sub_u128 a b = (a + 2 ^ 128 - b) % 2 ^ 128

-- `-x`, which leaves `i64::MIN` as it is.
abbrev pub neg_i64 : ℕ → ℕ
neg_i64 x = (2 ^ 64 - x) % 2 ^ 64

abbrev pub sub_i64 : ℕ → ℕ → ℕ
sub_i64 = sub_u64

-- `x < 0`: the top bit is set.
abbrev pub is_negative : ℕ → Bool
is_negative x = leb (2 ^ 63) x

-- The signed order: both patterns moved by 2 ^ 63.
abbrev pub ltb_i64 : ℕ → ℕ → Bool
ltb_i64 a b = ltb ((a + 2 ^ 63) % 2 ^ 64) ((b + 2 ^ 63) % 2 ^ 64)

-- The literal -1.
abbrev pub minus_one : ℕ
minus_one = neg_i64 1
