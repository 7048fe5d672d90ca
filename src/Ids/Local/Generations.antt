-- ===== src/Ids/Local/Generations.antt =====
-- A local ID counts generations: negative numbers run down from -1 as the count runs up from 1.
use distributed_id_allocator.Common.{ℕ, ◌+◌, ◌^◌, ◌≤◌, ◌<◌, ◌≡◌, arith, ltb, ◌==◌}
use distributed_id_allocator.Word.{minus_one}
use distributed_id_allocator.Ids.Local.{
  LocalId, to_generation_count, from_generation_count, local_eq_i64, local_sub, local_lt, local_eq,
}

-- The number is a negative `i64`: what the `debug_assert!` of `local_id_from_id` asks.
abbrev pub IsLocal : LocalId → Type 0
IsLocal l = (2 ^ 63 ≤ l.id) × (l.id < 2 ^ 64)

pub generation_bounds :
    (l : LocalId) → IsLocal l → (1 ≤ to_generation_count l) × (to_generation_count l ≤ 2 ^ 63)
unfolding to_generation_count
generation_bounds l h = omega arith

-- A count from 1 to 2 ^ 63 makes a local ID, a negative `i64`, that has this count.
pub to_generation_count-from_generation_count :
    (g : ℕ)
    → 1 ≤ g
    → g ≤ 2 ^ 63
    → IsLocal (from_generation_count g) × (to_generation_count (from_generation_count g) ≡ g)
unfolding to_generation_count from_generation_count
to_generation_count-from_generation_count g h k = omega arith

pub from_generation_count-to_generation_count :
    (l : LocalId) → IsLocal l → from_generation_count (to_generation_count l) ≡ l
unfolding to_generation_count from_generation_count
from_generation_count-to_generation_count l h = ground arith

-- A local ID is determined by its count.
pub to_generation_count-injective :
    (l m : LocalId) → IsLocal l → IsLocal m → to_generation_count l ≡ to_generation_count m → l ≡ m
unfolding to_generation_count
to_generation_count-injective l m h k e = ground arith

-- Subtracting from a local ID adds to its count, within the `i64` range, as long as the sum is at
-- most 2 ^ 63.
pub to_generation_count-local_sub :
    (l : LocalId) (n : ℕ)
    → IsLocal l
    → to_generation_count l + n ≤ 2 ^ 63
    → IsLocal (local_sub l n) × (to_generation_count (local_sub l n) ≡ to_generation_count l + n)
unfolding to_generation_count local_sub
to_generation_count-local_sub l n h k = omega arith

-- The order of two local IDs is the reverse of the order of their counts.
pub local_lt-generation :
    (l m : LocalId)
    → IsLocal l
    → IsLocal m
    → local_lt l m ≡ ltb (to_generation_count m) (to_generation_count l)
unfolding to_generation_count local_lt
local_lt-generation l m h k = ground arith

pub local_eq-generation :
    (l m : LocalId)
    → IsLocal l
    → IsLocal m
    → local_eq l m ≡ (to_generation_count l == to_generation_count m)
unfolding to_generation_count local_eq
local_eq-generation l m h k = ground arith

-- The comparison with -1 asks for the first generation.
pub local_eq_i64-minus_one :
    (l : LocalId) → IsLocal l → local_eq_i64 l minus_one ≡ (to_generation_count l == 1)
unfolding to_generation_count local_eq_i64
local_eq_i64-minus_one l h = ground arith
