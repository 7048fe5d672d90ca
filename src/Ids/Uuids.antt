-- ===== src/Ids/Uuids.antt =====
-- id-types/src/session_id.rs and stable_id.rs: UUIDs as text. What is in the text is the crate
-- `uuid`'s, a parameter.
use Prim.Native.String.{String}
use distributed_id_allocator.Common.{
  ℕ, List, Option, none, some, Bool, not, ◌||◌, ◌==◌, if◌then◌else◌, Result, ok, err,
}
use distributed_id_allocator.Ids.Errors.{
  AllocatorError, invalid_uuid_string, invalid_version_or_variant,
}
use distributed_id_allocator.Ids.Stable.{
  StableId, SessionId, UuidCrate, stable_from_uuid, uuid_from_stable,
}

-- `Uuid::try_parse`, `get_variant() == Variant::RFC4122`, `get_version_num`, the bytes that
-- `as_hyphenated().encode_lower` writes, and `to_string`.
pub record UuidText (crate : UuidCrate) : Type 0 where
  pub try_parse : String → Option crate.Uuid
  pub is_rfc4122 : crate.Uuid → Bool
  pub get_version_num : crate.Uuid → ℕ
  pub encode_lower : crate.Uuid → List ℕ
  pub to_string : crate.Uuid → String

module _ (crate : UuidCrate) (text : UuidText crate) where
  unfoldable pub from_uuid_string : String → Result SessionId AllocatorError
  from_uuid_string uuid_string = elim (text.try_parse uuid_string) [
    | none ↦ err invalid_uuid_string
    | some uuid ↦
        if not (text.is_rfc4122 uuid) || not (text.get_version_num uuid == 4)
        then err invalid_version_or_variant
        else ok (record { id = stable_from_uuid crate uuid })
  ]

  -- `impl From<StableId> for Vec<u8>`.
  unfoldable pub bytes_from_stable : StableId → List ℕ
  bytes_from_stable id = text.encode_lower (uuid_from_stable crate id)

  -- `impl From<StableId> for String`.
  unfoldable pub string_from_stable : StableId → String
  string_from_stable value = text.to_string (uuid_from_stable crate value)

  -- `impl From<SessionId> for String`.
  abbrev pub string_from_session : SessionId → String
  string_from_session value = string_from_stable value.id
