-- ===== src/Tables/Listing.antt =====
-- tables/session_space.rs: `session_id_vec`, the text of the identifiers for the Debug output.
use Prim.Native.String.{String}
use distributed_id_allocator.Common.{
  ℕ, zero, suc, ◌+◌, ◌/◌, List, [], ◌∷◌, Run, done, ◌>>=◌, length,
}
use distributed_id_allocator.Bytes.{from_le_bytes, slice}
use distributed_id_allocator.Ids.Stable.{UuidCrate, session_id_from_id_u128}
use distributed_id_allocator.Ids.Uuids.{UuidText, string_from_session}
use distributed_id_allocator.Tables.Sessions.{Sessions}

module _ (crate : UuidCrate) (text : UuidText crate) where
  -- The loop over the indices, which goes on in steps of 16.
  unfoldable pub session_ids_from : ℕ → ℕ → List ℕ → Run (List String)
  session_ids_from zero index session_ids = done []
  session_ids_from (suc steps) index session_ids = do
    bytes ← slice session_ids index 16
    rest ← session_ids_from steps (index + 16) session_ids
    done (string_from_session crate text (session_id_from_id_u128 (from_le_bytes bytes)) ∷ rest)

  -- `Sessions::session_id_vec`: the indices 0, 16, 32 and so on below the length.
  unfoldable pub session_id_vec : Sessions → Run (List String)
  session_id_vec s = session_ids_from ((length s.session_ids + 15) / 16) 0 s.session_ids
