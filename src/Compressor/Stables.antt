-- ===== src/Compressor/Stables.antt =====
-- The stable IDs of what a member of a network handed out.
use distributed_id_allocator.Common.{
  ℕ, ◌+◌, ◌-◌, ◌^◌, ◌%◌, ◌≤◌, ◌<◌, ◌≡◌, subst, List, some, done, ok, length, get_elem?, arith,
}
use distributed_id_allocator.Ids.Space.{SessionSpaceId}
use distributed_id_allocator.Ids.Stable.{SessionId}
use distributed_id_allocator.Tables.Sessions.Holds.{get_session_id_lem}
use distributed_id_allocator.Ledger.{Ledger}
use distributed_id_allocator.Ledger.Places.{Lays-IsFinalSpace, Lays-refers}
use distributed_id_allocator.Compressor.{IdCompressor}
use distributed_id_allocator.Compressor.Decompress.{decompress}
use distributed_id_allocator.Compressor.Network.{space_in}
use distributed_id_allocator.Compressor.Uuids.{IsPlaced, decompress_lem}
use distributed_id_allocator.Compressor.Life.{
  Action, Life, ids_of, IsMember, life-IsMember, ids_of_numbered, ids_of_counted, life_session,
}

-- The tables of a member hold its session and its clusters.
pub member-IsPlaced : (d : IdCompressor) (m : Ledger) → IsMember d m → IsPlaced d (space_in d m)
member-IsPlaced d m v =
    let s = v.shares in
    record {
      final_valid = Lays-IsFinalSpace d.sessions d.final_space v.known m s.lays s.ledger;
      session =
          get_session_id_lem d.sessions v.known s.lays.tables d.local_session_ref d.session_id
            s.own;
      refers = λ n k e.
          Lays-refers d.sessions d.final_space v.known m s.lays d.local_session_ref.index
            d.session_id s.own n k e;
    }

-- The ID decompresses to the stable ID that lies `offset` past the session's identifier.
abbrev pub IsStable : SessionId → IdCompressor → ℕ → SessionSpaceId → Type 0
IsStable s d offset id = decompress d id ≡ done (ok (record { id = (s.id.id + offset) % 2 ^ 128 }))

module _ (c : IdCompressor) (l : Ledger) (start : IsMember c l) {acts : List Action}
    {d : IdCompressor} {m : Ledger} (room : c.generated_id_count + length acts < 2 ^ 63)
    (t : Life c l acts d m) where
  -- The session space IDs handed out along any sequence of `generate_next_id`, `take_next_range`
  -- and calls of `finalize_range` that starts at a compressor which shares a ledger and whose own
  -- state is valid, and that is short enough for the count to stay below 2 ^ 63, stand for
  -- successive stable IDs: at the end of the sequence, on the final tables, the ID handed out i
  -- before the last one decompresses to the stable ID that lies n + k - (i + 1) past the session's
  -- identifier, modulo 2 ^ 128, where n is the count at the start and k the number of IDs handed
  -- out; `decompress` neither fails nor panics. Each range finalized is not empty, does not
  -- collide, stays with the room for a new cluster within an `i64`, and was taken before if it is
  -- the compressor's own; it may be out of order.
  pub ids_of-IsStable :
      (i : ℕ) (id : SessionSpaceId)
      → get_elem? (ids_of acts) i ≡ some id
      → IsStable c.session_id d (c.generated_id_count + length (ids_of acts) - (i + 1)) id
  ids_of-IsStable i id at =
      let v = life-IsMember c l start room t in
      let (g, p, q, e) = ids_of_numbered c l start room t i id at in
      let le : g ≤ d.generated_id_count = omega (arith, q) in
      let offset : g - 1 ≡ c.generated_id_count + length (ids_of acts) - (i + 1) =
        omega (arith, p, q, ids_of_counted c l start room t) in
      subst (λ n. IsStable c.session_id d n id) offset
        (subst (λ s. IsStable s d (g - 1) id) (life_session c l start room t)
          (decompress_lem d (space_in d m) v.own (member-IsPlaced d m v) g p le id e))
