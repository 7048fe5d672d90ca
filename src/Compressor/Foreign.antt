-- ===== src/Compressor/Foreign.antt =====
-- The finalized IDs of any session, decompressed on any compressor that shares the ledger.
use distributed_id_allocator.Common.{
  ℕ, ◌+◌, ◌-◌, ◌^◌, ◌%◌, ◌<◌, ◌≡◌, ap, ◌∙◌, List, some, false, done, ok, get_elem?, All-get, arith,
}
use distributed_id_allocator.Word.{sub_u64}
use distributed_id_allocator.Ids.Local.{LocalId, to_generation_count, local_sub, local_lt}
use distributed_id_allocator.Ids.Local.Generations.{
  generation_bounds, to_generation_count-local_sub, local_lt-generation,
}
use distributed_id_allocator.Ids.Final.{FinalId}
use distributed_id_allocator.Ids.Space.{session_from_final, session_to_space-from_final}
use distributed_id_allocator.Ids.Stable.{SessionId, session_add_local, stable_add_local}
use distributed_id_allocator.Search.Intervals.{find_interval_complete}
use distributed_id_allocator.Tables.SessionSpace.{IdCluster, get_aligned_local, max_local}
use distributed_id_allocator.Tables.SessionSpace.Chain.{
  IsCluster, IsChain-clusters, base_generation, base_final,
}
use distributed_id_allocator.Tables.SessionSpace.Align.{get_aligned_local_within}
use distributed_id_allocator.Tables.Sessions.{deref_cluster}
use distributed_id_allocator.Tables.Sessions.Holds.{get_session_id_lem}
use distributed_id_allocator.Tables.FinalSpace.{final_search}
use distributed_id_allocator.Tables.FinalSpace.Locate.{
  first_final, final_capacity, final_search-find_interval,
}
use distributed_id_allocator.Ledger.{Ledger, chain_of}
use distributed_id_allocator.Ledger.Lays.{ref_to, deref_cluster-Lays}
use distributed_id_allocator.Ledger.Places.{Lays-IsFinalSpace, Lays-refers}
use distributed_id_allocator.Ledger.Sessions.{chain_of-IsChain}
use distributed_id_allocator.Compressor.{IdCompressor}
use distributed_id_allocator.Compressor.Decompress.{decompress, decompress_final, is_decompressible}
use distributed_id_allocator.Compressor.Shares.{Shares}

module _ (d : IdCompressor) (ids : List SessionId) (m : Ledger) (v : Shares d ids m) (i : ℕ)
    (key : SessionId) (e : get_elem? ids i ≡ some key) (n : ℕ) (k : IdCluster)
    (here : get_elem? (chain_of key m) n ≡ some k) (offset : ℕ) (finalized : offset < k.count) where
  valid : IsCluster k
  valid =
      All-get IsCluster (chain_of key m) n
        (IsChain-clusters 1 0 (chain_of key m) (chain_of-IsChain key m v.ledger)) here

  abbrev id : FinalId
  id = record { id = base_final k + offset }

  abbrev aligned : LocalId
  aligned = local_sub k.base_local_id offset

  there : deref_cluster d.sessions (ref_to i n) ≡ done k
  there = deref_cluster-Lays v.lays i n key e here

  found : final_search d.final_space id d.sessions ≡ done (some (ref_to i n))
  found =
      let space = Lays-IsFinalSpace d.sessions d.final_space ids m v.lays v.ledger in
      let (j, r) = Lays-refers d.sessions d.final_space ids m v.lays i key e n k here in
      let le = valid.count_le in
      final_search-find_interval d.sessions d.final_space space id
      ∙ ap done (
          find_interval_complete (first_final d.sessions) (final_capacity d.sessions)
            (base_final k + offset) d.final_space.clusters j (ref_to i n) space.sorted r
            (rw (first_final, there) (omega arith))
            (rw (first_final, final_capacity, there) (omega (arith, finalized, le))))

  aligned_count : to_generation_count aligned ≡ base_generation k + offset
  aligned_count =
      (to_generation_count-local_sub k.base_local_id offset valid.base_IsLocal
        (omega (arith, finalized, valid.count_le, valid.local_fits))).1

  aligned_lem : get_aligned_local k id ≡ some aligned
  aligned_lem =
      get_aligned_local_within k valid id (omega arith) (omega (arith, finalized, valid.count_le))
      ∙ ap (λ z. some (local_sub k.base_local_id z)) (omega arith)

  not_past : local_lt aligned (max_local k) ≡ false
  unfolding max_local
  not_past =
      let last = sub_u64 k.count 1 in
      let small = valid.local_fits in
      let le = valid.count_le in
      let a =
        to_generation_count-local_sub k.base_local_id offset valid.base_IsLocal
          (omega (arith, finalized, le, small)) in
      let b =
        to_generation_count-local_sub k.base_local_id last valid.base_IsLocal
          (omega (arith, finalized, le, small)) in
      local_lt-generation aligned (local_sub k.base_local_id last) a.0 b.0
      ∙ ground (arith, a.1, b.1, finalized, le, small)

  stable_lem :
      session_add_local key aligned
      ≡ record { id = (key.id.id + (base_generation k + offset - 1)) % 2 ^ 128 }
  unfolding stable_add_local
  stable_lem =
      let first = (generation_bounds k.base_local_id valid.base_IsLocal).0 in
      let small = valid.local_fits in
      let le = valid.count_le in
      ap (λ g. record { id = g }) (omega (arith, aligned_count, first, small, le, finalized))

  -- On a compressor that shares a ledger, the final ID at any place below the count of any cluster
  -- of any session that the compressor knows decompresses to the stable ID g - 1 past that
  -- session's identifier, modulo 2 ^ 128, where g is the generation at that place of the cluster;
  -- `decompress` neither fails nor panics.
  pub decompress-finalized :
      decompress d (session_from_final (record { id = base_final k + offset }))
      ≡ done (ok (record { id = (key.id.id + (base_generation k + offset - 1)) % 2 ^ 128 }))
  unfolding decompress decompress_final is_decompressible
  decompress-finalized =
      rw
        (
          decompress,
          session_to_space-from_final id
              (omega (arith, finalized, valid.count_le, valid.final_fits)),
          decompress_final,
          found,
          there,
          aligned_lem,
          is_decompressible,
          not_past,
          get_session_id_lem d.sessions ids v.lays.tables (record { index = i }) key e,
        )
        (ap (λ s. done (ok s)) stable_lem)
