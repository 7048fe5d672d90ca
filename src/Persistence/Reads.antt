-- ===== src/Persistence/Reads.antt =====
-- `deserialize`, step by step: the header, the local state, the sessions and the clusters.
use mathlib.Core.List.{append_assoc}
use distributed_id_allocator.Common.{
  ℕ, ◌^◌, ◌<◌, ◌≡◌, refl, ap, ◌∙◌, List, [], ◌++◌, Bool, true, false, not, done, ok, err, arith,
  ◌==◌,
}
use distributed_id_allocator.Bytes.{to_le_bytes}
use distributed_id_allocator.Bytes.RoundTrip.{take_one-to_le_bytes}
use distributed_id_allocator.Ids.Stable.{
  SessionId, UuidCrate, stable_from_u128, stable_from_session, u128_from_stable,
  session_id_from_uuid_u128, stable_from_uuid, session_from_uuid,
}
use distributed_id_allocator.Ids.Stable.RoundTrip.{
  u128_from_stable-IsV4, stable_from_u128-u128_from_stable,
}
use distributed_id_allocator.Tables.SessionSpace.{SessionSpaceRef}
use distributed_id_allocator.Tables.Normalizer.{SessionSpaceNormalizer}
use distributed_id_allocator.Ledger.{Ledger}
use distributed_id_allocator.Compressor.{IdCompressor, new_with_session_id}
use distributed_id_allocator.Persistence.Ranges.{deserialize_normalizer}
use distributed_id_allocator.Persistence.Write.{bool_as_u32}
use distributed_id_allocator.Persistence.Read.{
  DeserializationError, read_sessions, read_finalized, read_local, deserialize_v1, deserialize,
}
use distributed_id_allocator.Persistence.Encodes.{is_narrow, encode_header}

flag-bool_as_u32 : (b : Bool) → not (bool_as_u32 b == 0) ≡ b
flag-bool_as_u32 true = refl
flag-bool_as_u32 false = refl

flag_small : (b : Bool) → bool_as_u32 b < 256 ^ 4
flag_small true = omega arith
flag_small false = omega arith

module _ (crate : UuidCrate) (make_session_id : SessionId) where
  -- The identifier goes through a `Uuid`.
  session_lem :
      (key : SessionId)
      → key.id.id < 2 ^ 122
      → session_id_from_uuid_u128 crate (u128_from_stable (stable_from_session key)) ≡ key
  unfolding session_id_from_uuid_u128 session_from_uuid stable_from_uuid
  session_lem key h =
      ap (λ u. record { id = stable_from_u128 u })
        (crate.as_u128-from_u128 (u128_from_stable key.id) (u128_from_stable-IsV4 key.id).width)
      ∙ ap (λ s. record { id = s }) (stable_from_u128-u128_from_stable key.id h)

  pub deserialize_lem :
      (with_local : Bool) (l : Ledger) (code ids tail : List ℕ) (start d d' : IdCompressor)
      (capacity count : ℕ) (remap : List SessionSpaceRef)
      → capacity < 2 ^ 64
      → count < 2 ^ 64
      → read_local crate make_session_id with_local code
        ≡ done (start, to_le_bytes 8 capacity ++ (to_le_bytes 8 count ++ (ids ++ tail)))
      → read_sessions count with_local []
          (record start { cluster_capacity = capacity })
          (ids ++ tail)
        ≡ done (ok (remap, d), tail)
      → read_finalized (is_narrow l) remap d tail ≡ done d'
      → deserialize crate make_session_id (encode_header with_local l ++ code) ≡ done (ok d')
  unfolding deserialize deserialize_v1
  deserialize_lem with_local l code ids tail start d d' capacity count remap w n local opened
        closed =
      let a = to_le_bytes 4 1 in
      let b = to_le_bytes 4 (bool_as_u32 with_local) in
      let k = to_le_bytes 4 (bool_as_u32 (is_narrow l)) in
      rw
        (
          append_assoc a (b ++ k) code,
          append_assoc b k code,
          take_one-to_le_bytes 4 1 (b ++ (k ++ code)) (omega arith),
          take_one-to_le_bytes 4 (bool_as_u32 with_local) (k ++ code) (flag_small with_local),
          take_one-to_le_bytes 4 (bool_as_u32 (is_narrow l)) code (flag_small (is_narrow l)),
          flag-bool_as_u32 with_local,
          local,
          take_one-to_le_bytes 8 capacity (to_le_bytes 8 count ++ (ids ++ tail)) (omega (arith, w)),
          take_one-to_le_bytes 8 count (ids ++ tail) (omega (arith, n)),
          opened,
          flag-bool_as_u32 (is_narrow l),
          closed,
        )
        refl

  -- The loop over the sessions stops at an error.
  pub deserialize_refused :
      (with_local : Bool) (l : Ledger) (code ids left : List ℕ) (start : IdCompressor)
      (capacity count : ℕ) (e : DeserializationError)
      → capacity < 2 ^ 64
      → count < 2 ^ 64
      → read_local crate make_session_id with_local code
        ≡ done (start, to_le_bytes 8 capacity ++ (to_le_bytes 8 count ++ ids))
      → read_sessions count with_local [] (record start { cluster_capacity = capacity }) ids
        ≡ done (err e, left)
      → deserialize crate make_session_id (encode_header with_local l ++ code) ≡ done (err e)
  unfolding deserialize deserialize_v1
  deserialize_refused with_local l code ids left start capacity count e w n local stopped =
      let a = to_le_bytes 4 1 in
      let b = to_le_bytes 4 (bool_as_u32 with_local) in
      let k = to_le_bytes 4 (bool_as_u32 (is_narrow l)) in
      rw
        (
          append_assoc a (b ++ k) code,
          append_assoc b k code,
          take_one-to_le_bytes 4 1 (b ++ (k ++ code)) (omega arith),
          take_one-to_le_bytes 4 (bool_as_u32 with_local) (k ++ code) (flag_small with_local),
          take_one-to_le_bytes 4 (bool_as_u32 (is_narrow l)) code (flag_small (is_narrow l)),
          flag-bool_as_u32 with_local,
          local,
          take_one-to_le_bytes 8 capacity (to_le_bytes 8 count ++ ids) (omega (arith, w)),
          take_one-to_le_bytes 8 count ids (omega (arith, n)),
          stopped,
        )
        refl

  -- The local state, if there is one.
  pub read_local-written :
      (key : SessionId) (generated next : ℕ) (normalizer : SessionSpaceNormalizer)
      (code rest : List ℕ)
      → key.id.id < 2 ^ 122
      → generated < 2 ^ 64
      → next < 2 ^ 64
      → deserialize_normalizer (code ++ rest) ≡ done (normalizer, rest)
      → read_local crate make_session_id true (
          to_le_bytes 16 (u128_from_stable (stable_from_session key))
          ++ (to_le_bytes 8 generated ++ (to_le_bytes 8 next ++ (code ++ rest))))
        ≡ done (
          record (new_with_session_id key) {
            generated_id_count = generated;
            next_range_base_generation_count = next;
            session_space_normalizer = normalizer;
          },
          rest,
        )
  unfolding read_local
  read_local-written key generated next normalizer code rest h g n e =
      let u = u128_from_stable (stable_from_session key) in
      let b = to_le_bytes 8 generated in
      let c = to_le_bytes 8 next ++ (code ++ rest) in
      rw
        (
          take_one-to_le_bytes 16 u (b ++ c) (omega (arith, (u128_from_stable-IsV4 key.id).width)),
          take_one-to_le_bytes 8 generated c (omega (arith, g)),
          take_one-to_le_bytes 8 next (code ++ rest) (omega (arith, n)),
          e,
          session_lem key h,
        )
        refl
