-- ===== src/Ids/Stable.antt =====
-- id-types/src/{stable_id,session_id}.rs: UUIDs without their version and variant bits, as 122-bit
-- numbers. The crate `uuid` is the parameter of the conversions from and to a `Uuid`.
pub mod Masks
pub mod RoundTrip
use Prim.Native.Nat.{bit_and, bit_or}
use distributed_id_allocator.Common.{
  ℕ, ◌+◌, ◌-◌, ◌*◌, ◌/◌, ◌%◌, ◌^◌, ◌<◌, ◌≡◌, Bool, ltb, leb, ◌==◌, List,
}
use distributed_id_allocator.Word.{sub_u64, add_u128, sub_u128}
use distributed_id_allocator.Bytes.{to_le_bytes}
use distributed_id_allocator.Ids.Local.{LocalId, to_generation_count}

pub record StableId : Type 0 where
  pub id : ℕ

-- `StableId::nil`.
abbrev pub stable_nil : StableId
stable_nil = record { id = 0 }

-- The masks, written as in the source; `<<` of a constant that does not overflow is a product.
abbrev pub version_mask : ℕ
version_mask = 0x4 * 2 ^ (19 * 4)

abbrev pub variant_mask : ℕ
variant_mask = 0x8 * 2 ^ (15 * 4)

abbrev pub upper_mask : ℕ
upper_mask = 0xffffffffffff * 2 ^ (20 * 4)

abbrev pub stripped_upper_mask : ℕ
stripped_upper_mask = upper_mask / 2 ^ 6

abbrev pub middie_bitties_mask : ℕ
middie_bitties_mask = 0xfff * 2 ^ (16 * 4)

abbrev pub stripped_middie_bitties_mask : ℕ
stripped_middie_bitties_mask = middie_bitties_mask / 2 ^ 2

abbrev pub lower_mask : ℕ
lower_mask = 0x3fffffffffffffff

-- `impl From<u128> for StableId`.
unfoldable pub stable_from_u128 : ℕ → StableId
stable_from_u128 uuid_u128 = record {
  id =
      bit_or
        (bit_or (bit_and uuid_u128 upper_mask / 2 ^ 6)
          (bit_and uuid_u128 middie_bitties_mask / 2 ^ 2))
        (bit_and uuid_u128 lower_mask);
}

-- `impl From<StableId> for u128`; a shift to the left drops what passes 128 bits.
unfoldable pub u128_from_stable : StableId → ℕ
u128_from_stable value =
    let upper_masked = bit_and value.id stripped_upper_mask * 2 ^ 6 % 2 ^ 128 in
    let middie_bitties_masked = bit_and value.id stripped_middie_bitties_mask * 2 ^ 2 % 2 ^ 128 in
    let lower_masked = bit_and value.id lower_mask in
    bit_or (bit_or (bit_or (bit_or upper_masked version_mask) middie_bitties_masked) variant_mask)
      lower_masked

-- `StableId + LocalId`.
unfoldable pub stable_add_local : StableId → LocalId → StableId
stable_add_local s rhs = record { id = add_u128 s.id (sub_u64 (to_generation_count rhs) 1) }

-- `StableId + u64`.
unfoldable pub stable_add : StableId → ℕ → StableId
stable_add s rhs = record { id = add_u128 s.id rhs }

-- `StableId - u64`.
unfoldable pub stable_sub_u64 : StableId → ℕ → StableId
stable_sub_u64 s rhs = record { id = sub_u128 s.id rhs }

-- `StableId - StableId`, a `u128`.
unfoldable pub stable_sub : StableId → StableId → ℕ
stable_sub s rhs = sub_u128 s.id rhs.id

-- The derived order and equality.
abbrev pub stable_lt : StableId → StableId → Bool
stable_lt a b = ltb a.id b.id

abbrev pub stable_le : StableId → StableId → Bool
stable_le a b = leb a.id b.id

pub record SessionId : Type 0 where
  pub id : StableId

-- `SessionId::nil`.
abbrev pub session_nil : SessionId
session_nil = record { id = stable_nil }

abbrev pub session_id_from_id_u128 : ℕ → SessionId
session_id_from_id_u128 id_u128 = record { id = record { id = id_u128 } }

abbrev pub session_id_from_stable_id : StableId → SessionId
session_id_from_stable_id stable_id = record { id = stable_id }

-- `impl From<SessionId> for StableId`.
abbrev pub stable_from_session : SessionId → StableId
stable_from_session value = value.id

-- `impl From<SessionId> for [u8; 16]`.
abbrev pub bytes_from_session : SessionId → List ℕ
bytes_from_session value = to_le_bytes 16 value.id.id

-- `SessionId + LocalId`.
abbrev pub session_add_local : SessionId → LocalId → StableId
session_add_local s rhs = stable_add_local s.id rhs

abbrev pub session_eq : SessionId → SessionId → Bool
session_eq a b = a.id.id == b.id.id

-- What the code relies on in the crate `uuid`: a `Uuid` holds 128 bits, which go in by
-- `Builder::from_u128(..).into_uuid()` and come out by `as_u128`.
pub record UuidCrate : Type 1 where
  pub Uuid : Type 0
  pub from_u128 : ℕ → Uuid
  pub as_u128 : Uuid → ℕ
  pub as_u128-from_u128 : (n : ℕ) → n < 2 ^ 128 → as_u128 (from_u128 n) ≡ n

module _ (crate : UuidCrate) where
  open crate use {Uuid, from_u128, as_u128}

  -- `impl From<Uuid> for StableId` and `impl From<StableId> for Uuid`.
  unfoldable pub stable_from_uuid : Uuid → StableId
  stable_from_uuid value = stable_from_u128 (as_u128 value)

  unfoldable pub uuid_from_stable : StableId → Uuid
  uuid_from_stable value = from_u128 (u128_from_stable value)

  -- `impl From<Uuid> for SessionId`.
  unfoldable pub session_from_uuid : Uuid → SessionId
  session_from_uuid value = record { id = stable_from_uuid value }

  -- `SessionId::new`, with the random UUID that `Uuid::new_v4` returns.
  unfoldable pub session_new : Uuid → SessionId
  session_new new_v4 = record { id = stable_from_uuid new_v4 }

  unfoldable pub session_id_from_uuid_u128 : ℕ → SessionId
  session_id_from_uuid_u128 uuid_u128 = session_from_uuid (from_u128 uuid_u128)

  -- `impl From<SessionId> for Uuid`.
  unfoldable pub uuid_from_session : SessionId → Uuid
  uuid_from_session value = uuid_from_stable value.id
