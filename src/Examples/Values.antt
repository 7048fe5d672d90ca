-- ===== src/Examples/Values.antt =====
-- The theorems on IDs, bytes and refused ranges, at values in which their conditions hold.
use distributed_id_allocator.Common.{
  take, ℕ, ◌+◌, ◌-◌, ◌*◌, ◌^◌, ◌≡◌, refl, List, [], ◌∷◌, ◌++◌, some, done, panicked, err, arith,
}
use distributed_id_allocator.Word.{minus_one}
use distributed_id_allocator.Ids.Errors.{range_finalized_out_of_order}
use distributed_id_allocator.Ids.Local.{LocalId, to_generation_count, local_sub}
use distributed_id_allocator.Ids.Local.Generations.{IsLocal, to_generation_count-local_sub}
use distributed_id_allocator.Ids.Stable.{SessionId, stable_from_u128, u128_from_stable}
use distributed_id_allocator.Ids.Stable.RoundTrip.{
  IsV4, stable_from_u128-u128_from_stable, u128_from_stable-stable_from_u128,
}
use distributed_id_allocator.Tables.Sessions.{get_or_create}
use distributed_id_allocator.Compressor.Finalize.{finalize_range}
use distributed_id_allocator.Compressor.Rejects.{finalize_range_unopened}
use distributed_id_allocator.Tables.Normalizer.{SessionSpaceNormalizer}
use distributed_id_allocator.Tables.Normalizer.Contains.{IsNormalized}
use distributed_id_allocator.Persistence.Truncated.{deserialize_normalizer_cut}
use distributed_id_allocator.Persistence.Ranges.{serialize_normalizer, deserialize_normalizer}
use distributed_id_allocator.Persistence.Ranges.RoundTrip.{
  deserialize_normalizer-serialize_normalizer,
}
use distributed_id_allocator.Examples.{session_a, session_b, used, program}

-- 00000000-0000-4000-8000-000000001388.
abbrev uuid : ℕ
uuid = 4 * 2 ^ 76 + 8 * 2 ^ 60 + 5000

uuid-IsV4 : IsV4 uuid
uuid-IsV4 = record { width = omega arith; version = refl; variant = refl }

stable_from_u128_example : stable_from_u128 (u128_from_stable session_a.id) ≡ session_a.id
stable_from_u128_example = stable_from_u128-u128_from_stable session_a.id (omega arith)

u128_from_stable_example : u128_from_stable (stable_from_u128 uuid) ≡ uuid
u128_from_stable_example = u128_from_stable-stable_from_u128 uuid uuid-IsV4

-- The first and the third local ID.
abbrev first : LocalId
first = record { id = minus_one }

abbrev third : LocalId
third = record { id = minus_one - 2 }

to_generation_count-first : to_generation_count first ≡ 1
unfolding program
to_generation_count-first = refl

local_sub_example :
    IsLocal (local_sub first 2)
    × (to_generation_count (local_sub first 2) ≡ to_generation_count first + 2)
local_sub_example =
    to_generation_count-local_sub first 2 (omega arith, omega arith)
      (omega (arith, to_generation_count-first))

-- The first local ID alone, and the two from the third on.
abbrev two_ranges : SessionSpaceNormalizer
two_ranges = record { leading_locals = (first, 1) ∷ (third, 2) ∷ [] }

two_ranges-IsNormalized : IsNormalized 5 two_ranges
unfolding program
two_ranges-IsNormalized = record {
  ranges = (
    record { base_IsLocal = omega arith; count_pos = omega arith; fits = omega arith },
    (record { base_IsLocal = omega arith; count_pos = omega arith; fits = omega arith }, tt),
  );
  sorted = ((omega arith, tt), (tt, tt));
  below = (omega arith, (omega arith, tt));
}

-- The bytes of the two ranges, without the last three.
abbrev cut_short : List ℕ
cut_short = take 37 (serialize_normalizer two_ranges [])

deserialize_normalizer_cut_example : deserialize_normalizer cut_short ≡ panicked
unfolding program
deserialize_normalizer_cut_example =
    deserialize_normalizer_cut 5 two_ranges cut_short (0 ∷ 0 ∷ []) 0 two_ranges-IsNormalized
      (omega arith) refl

serialize_normalizer_example :
    (code : List ℕ) × ((bytes : List ℕ) → serialize_normalizer two_ranges bytes ≡ bytes ++ code)
    × ((rest : List ℕ) → deserialize_normalizer (code ++ rest) ≡ done (two_ranges, rest))
serialize_normalizer_example =
    deserialize_normalizer-serialize_normalizer 5 two_ranges two_ranges-IsNormalized (omega arith)

-- A session whose identifier lies in the first session's cluster.
abbrev session_inside : SessionId
session_inside = record { id = record { id = 5100 } }

finalize_range_unopened_example :
    finalize_range used (record { id = session_b; range = some (2, 1) })
    ≡ done (
      err range_finalized_out_of_order,
      record used { sessions = (get_or_create used.sessions session_b).1 },
    )
unfolding program
finalize_range_unopened_example =
    finalize_range_unopened used session_b 2 1 (omega arith) refl refl (omega arith) (omega arith)
