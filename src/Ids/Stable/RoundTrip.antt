-- ===== src/Ids/Stable/RoundTrip.antt =====
-- A stable ID and its UUID determine each other.
use distributed_id_allocator.Common.{ℕ, ◌+◌, ◌*◌, ◌/◌, ◌%◌, ◌^◌, ◌<◌, ◌≡◌, arith}
use distributed_id_allocator.Ids.Stable.{
  StableId, stable_from_u128, u128_from_stable, version_mask, variant_mask,
}
use distributed_id_allocator.Ids.Stable.Masks.{bit_and_field, bit_or_below}

-- What `StableId::from(u128)` computes: the 48, 12 and 62 bits that a UUID is free to choose.
pub stable_from_u128_fields :
    (u : ℕ)
    → (stable_from_u128 u).id
      ≡ u / 2 ^ 80 % 2 ^ 48 * 2 ^ 74 + u / 2 ^ 64 % 2 ^ 12 * 2 ^ 62 + u % 2 ^ 62
unfolding stable_from_u128
stable_from_u128_fields u = ground (
  arith,
  bit_and_field 80 48 u,
  bit_and_field 64 12 u,
  bit_and_field 0 62 u,
  bit_or_below 74 (u / 2 ^ 80 % 2 ^ 48) (u / 2 ^ 64 % 2 ^ 12 * 2 ^ 62),
  bit_or_below 62 (u / 2 ^ 80 % 2 ^ 48 * 2 ^ 12 + u / 2 ^ 64 % 2 ^ 12) (u % 2 ^ 62),
)

-- What `u128::from(StableId)` computes: the three fields with the version and the variant between.
pub u128_from_stable_fields :
    (s : StableId)
    → u128_from_stable s
      ≡ s.id / 2 ^ 74 % 2 ^ 48 * 2 ^ 80
        + 4 * 2 ^ 76
        + s.id / 2 ^ 62 % 2 ^ 12 * 2 ^ 64
        + 8 * 2 ^ 60
        + s.id % 2 ^ 62
unfolding u128_from_stable
u128_from_stable_fields s =
    let upper : ℕ = s.id / 2 ^ 74 % 2 ^ 48 in
    let middle : ℕ = s.id / 2 ^ 62 % 2 ^ 12 in
    ground (
      arith,
      bit_and_field 74 48 s.id,
      bit_and_field 62 12 s.id,
      bit_and_field 0 62 s.id,
      bit_or_below 80 upper version_mask,
      bit_or_below 76 (upper * 16 + 4) (middle * 2 ^ 64),
      bit_or_below 64 (upper * 2 ^ 16 + 4 * 2 ^ 12 + middle) variant_mask,
      bit_or_below 62 (upper * 2 ^ 18 + 4 * 2 ^ 14 + middle * 4 + 2) (s.id % 2 ^ 62),
    )

-- A version 4, variant 1 UUID.
pub record IsV4 (u : ℕ) : Type 0 where
  pub width : u < 2 ^ 128
  pub version : u / 2 ^ 76 % 16 ≡ 4
  pub variant : u / 2 ^ 62 % 4 ≡ 2

-- A stable ID is a number of 122 bits.
abbrev pub IsStable : StableId → Type 0
IsStable s = s.id < 2 ^ 122

-- Every stable ID stands for a UUID of 128 bits, version 4 and variant 1.
pub u128_from_stable-IsV4 : (s : StableId) → IsV4 (u128_from_stable s)
u128_from_stable-IsV4 s = ground (arith, u128_from_stable_fields s)

pub stable_from_u128-IsStable : (u : ℕ) → IsStable (stable_from_u128 u)
stable_from_u128-IsStable u = omega (arith, stable_from_u128_fields u)

-- A stable ID below 2 ^ 122 is the one of the UUID that it stands for.
pub stable_from_u128-u128_from_stable :
    (s : StableId) → IsStable s → stable_from_u128 (u128_from_stable s) ≡ s
stable_from_u128-u128_from_stable s h =
    ground (arith, stable_from_u128_fields (u128_from_stable s), u128_from_stable_fields s)

-- A UUID of version 4, variant 1 is the one that its stable ID stands for.
pub u128_from_stable-stable_from_u128 : (u : ℕ) → IsV4 u → u128_from_stable (stable_from_u128 u) ≡ u
u128_from_stable-stable_from_u128 u h =
    omega (arith, u128_from_stable_fields (stable_from_u128 u), stable_from_u128_fields u)
