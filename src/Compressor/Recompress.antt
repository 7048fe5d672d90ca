-- ===== src/Compressor/Recompress.antt =====
-- `recompress` undoes `decompress`, among sessions whose identifiers are far apart.
use distributed_id_allocator.Common.{
  ℕ, ◌+◌, ◌-◌, ◌^◌, ◌%◌, ◌≤◌, ◌<◌, ◌≡◌, refl, sym, ap, ◌∙◌, List, none, some, some-injective, true,
  false, done, ok, arith, ltb, leb, get_elem?, All, All-get, inl, inr, Option-cases, Bool-cases,
  ==-self, ==-true,
}
use distributed_id_allocator.Word.{add_u64, add_u128}
use distributed_id_allocator.Ids.Local.{to_generation_count, from_generation_count}
use distributed_id_allocator.Ids.Local.Generations.{
  IsLocal, to_generation_count-from_generation_count, generation_bounds,
}
use distributed_id_allocator.Ids.Space.{SessionSpaceId, session_from_local, session_from_final}
use distributed_id_allocator.Ids.Stable.{
  SessionId, StableId, session_eq, stable_from_session, stable_sub, stable_le,
}
use distributed_id_allocator.Search.Intervals.{find_interval_complete}
use distributed_id_allocator.Tables.SessionSpace.{IdCluster, SessionSpace, ref_eq}
use distributed_id_allocator.Tables.SessionSpace.Chain.{
  IsCluster, IsChain-clusters, IsChain-Sorted_local, base_generation, base_final, capacity_of,
}
use distributed_id_allocator.Tables.SessionSpace.Lookup.{cluster_of_local}
use distributed_id_allocator.Tables.SessionSpace.Align.{final_beside, get_allocated_final_within}
use distributed_id_allocator.Tables.Sessions.{get_containing_cluster}
use distributed_id_allocator.Ledger.{Ledger, chain_of}
use distributed_id_allocator.Ledger.Sessions.{chain_of-IsChain}
use distributed_id_allocator.Compressor.{IdCompressor}
use distributed_id_allocator.Compressor.Decompress.{
  decompress, recompress, recompress_unfinalized, recompress_own, recompress_foreign,
}
use distributed_id_allocator.Compressor.OwnSession.{handed_local}
use distributed_id_allocator.Compressor.Handout.{id_of_generation}
use distributed_id_allocator.Compressor.OwnIds.{l_lem, contains_lem, in-IsCluster, id_cases}
use distributed_id_allocator.Compressor.Network.{space_in}
use distributed_id_allocator.Compressor.Shares.{Shares}
use distributed_id_allocator.Compressor.Life.{IsMember}
use distributed_id_allocator.Compressor.Uuids.{decompress_lem}
use distributed_id_allocator.Compressor.Stables.{member-IsPlaced}
use distributed_id_allocator.Compressor.Foreign.{decompress-finalized}
use distributed_id_allocator.Compressor.Spread.{IsSpaced}
use distributed_id_allocator.Compressor.Containing.{stable_of, held_by, get_containing_cluster_lem}

module _ (d : IdCompressor) (m : Ledger) (v : IsMember d m) (small : d.session_id.id.id < 2 ^ 122)
    (real : 1 ≤ d.session_id.id.id) (spaced : All (IsSpaced d.session_id) v.known) (g : ℕ)
    (pos : 1 ≤ g) (generated : g ≤ d.generated_id_count) where
  abbrev space : SessionSpace
  space = space_in d m

  containing_own :
      get_containing_cluster d.sessions (stable_of d.session_id g)
      ≡ done (
          held_by d.local_session_ref
            (from_generation_count g)
            (cluster_of_local true (from_generation_count g) space.cluster_chain))
  containing_own =
      get_containing_cluster_lem d v.known m v.shares d.local_session_ref.index d.session_id
        v.shares.own small real spaced g pos (omega (arith, generated, v.own.generated_fits))

  -- Without a cluster the ID is a local ID.
  unfinalized :
      handed_local d g ≡ true
      → recompress_unfinalized d (stable_of d.session_id g)
        ≡ done (ok (session_from_local (from_generation_count g)))
  unfolding recompress_unfinalized stable_sub
  unfinalized h =
      let count : add_u128
            (stable_sub (stable_of d.session_id g) (stable_from_session d.session_id)) 1
          ≡ g =
        omega (arith, small, pos, generated, v.own.generated_fits) in
      let low : g % 2 ^ 64 ≡ g = omega (arith, generated, v.own.generated_fits) in
      let after : stable_le (stable_from_session d.session_id) (stable_of d.session_id g) ≡ true =
        ground arith in
      let within : leb g d.generated_id_count ≡ true = ground (arith, generated) in
      rw
        (
          recompress_unfinalized,
          count,
          low,
          after,
          within,
          contains_lem d space v.own g pos generated,
          h,
        )
        refl

  recompress_lem :
      (id : SessionSpaceId)
      → id_of_generation d space g ≡ some id
      → recompress d (stable_of d.session_id g) ≡ done (ok id)
  unfolding recompress recompress_own
  recompress_lem id e =
      let same : ref_eq d.local_session_ref d.local_session_ref ≡ true =
        ==-self d.local_session_ref.index in
      let l = from_generation_count g in
      let here = contains_lem d space v.own g pos generated in
      elim (Option-cases (cluster_of_local true l space.cluster_chain)) [
        | inl n ↦ elim (id_cases d space v.own g pos generated id e) [
          | inl (h, p) ↦ rw (recompress, containing_own, n, unfinalized h) (ap (λ z. done (ok z)) p)
          | inr (k, h, n', p) ↦ absurd (let clash : none ≡ some k = sym n ∙ n' in cc)
        ]
        | inr (k, n) ↦ elim (id_cases d space v.own g pos generated id e) [
          | inl (h, p) ↦ rw (recompress, containing_own, n, same, here, h) (ap (λ z. done (ok z)) p)
          | inr (k', h, n', p) ↦
              let (l_local, l_count) = l_lem d space v.own g pos generated in
              let (valid, lower, upper, _) = in-IsCluster d space v.own g pos generated k n in
              let k≡k' : k ≡ k' = some-injective _ _ (sym n ∙ n') in
              let within : leb (to_generation_count l) d.generated_id_count ≡ true =
                ground (arith, l_count, generated) in
              rw
                (
                  recompress,
                  containing_own,
                  n,
                  same,
                  here,
                  h,
                  within,
                  get_allocated_final_within k valid l l_local lower upper,
                )
                (ap (λ z. done (ok (session_from_final (final_beside l z)))) k≡k'
                  ∙ ap (λ z. done (ok z)) p)
        ]
      ]

  -- On a compressor that shares a ledger and whose own state is valid, if its session's identifier
  -- is below 2 ^ 122, not nil, and at least 2 ^ 64 apart from that of every other session that it
  -- knows, `decompress` takes the session space ID of each generation that was generated, local or
  -- final, to a stable ID that `recompress` takes back to that very session space ID; neither
  -- fails nor panics.
  pub recompress-decompress :
      (id : SessionSpaceId)
      → id_of_generation d space g ≡ some id
      → (s : StableId) × (decompress d id ≡ done (ok s)) × (recompress d s ≡ done (ok id))
  recompress-decompress id e =
      let fits = v.own.generated_fits in
      let no_wrap : (d.session_id.id.id + (g - 1)) % 2 ^ 128 ≡ d.session_id.id.id + (g - 1) =
        omega (arith, small, generated, fits) in
      (
        stable_of d.session_id g,
        decompress_lem d space v.own (member-IsPlaced d m v) g pos generated id e
            ∙ ap (λ n. done (ok (record { id = n }))) no_wrap,
        recompress_lem id e,
      )

module _ (d : IdCompressor) (ids : List SessionId) (m : Ledger) (v : Shares d ids m) (i : ℕ)
    (key : SessionId) (e : get_elem? ids i ≡ some key)
    (foreign : session_eq key d.session_id ≡ false) (small : key.id.id < 2 ^ 122)
    (real : 1 ≤ key.id.id) (spaced : All (IsSpaced key) ids) (n : ℕ) (k : IdCluster)
    (here : get_elem? (chain_of key m) n ≡ some k) (offset : ℕ) (finalized : offset < k.count) where
  valid : IsCluster k
  valid =
      All-get IsCluster (chain_of key m) n
        (IsChain-clusters 1 0 (chain_of key m) (chain_of-IsChain key m v.ledger)) here

  abbrev generation : ℕ
  generation = base_generation k + offset

  bounds : (1 ≤ generation) × (generation ≤ 2 ^ 63)
  bounds =
      let first = (generation_bounds k.base_local_id valid.base_IsLocal).0 in
      let fits = valid.local_fits in
      let le = valid.count_le in (omega (arith, first), omega (arith, fits, le, finalized))

  local_lem :
      IsLocal (from_generation_count generation)
      × (to_generation_count (from_generation_count generation) ≡ generation)
  local_lem = to_generation_count-from_generation_count generation bounds.0 bounds.1

  held : cluster_of_local true (from_generation_count generation) (chain_of key m) ≡ some k
  held =
      find_interval_complete base_generation capacity_of
        (to_generation_count (from_generation_count generation)) (chain_of key m) n k
        (IsChain-Sorted_local 1 0 (chain_of key m) (chain_of-IsChain key m v.ledger)) here
        (omega (arith, local_lem.1)) (omega (arith, local_lem.1, finalized, valid.count_le))

  other_ref : ref_eq (record { index = i }) d.local_session_ref ≡ false
  other_ref = elim (Bool-cases (ref_eq (record { index = i }) d.local_session_ref)) [
    | inr b ↦ b
    | inl b ↦
        let same : key ≡ d.session_id =
          some-injective _ _
            (sym e ∙ ap (get_elem? ids) (==-true i d.local_session_ref.index b) ∙ v.own) in
        let self : session_eq d.session_id d.session_id ≡ true = ==-self d.session_id.id.id in
        absurd (
          let no : session_eq d.session_id d.session_id ≡ false =
            ap (λ z. session_eq z d.session_id) (sym same) ∙ foreign in
          ground arith)
  ]

  recompress_foreign_lem :
      recompress_foreign k (from_generation_count generation)
      ≡ ok (session_from_final (record { id = base_final k + offset }))
  unfolding recompress_foreign
  recompress_foreign_lem =
      let allocated =
        get_allocated_final_within k valid (from_generation_count generation) local_lem.0
          (omega (arith, local_lem.1)) (omega (arith, local_lem.1, finalized, valid.count_le)) in
      let below : ltb generation (add_u64 (base_generation k) k.count) ≡ true =
        ground (arith, finalized, valid.local_fits, valid.count_le) in
      rw (local_lem.1, below, allocated)
        (ap (λ z. ok (session_from_final (record { id = z }))) (omega (arith, local_lem.1)))

  -- On a compressor that shares a ledger, if the identifier of a session that it knows, other than
  -- its own, is below 2 ^ 122, not nil, and at least 2 ^ 64 apart from that of every other session
  -- that it knows, `decompress` takes the final ID at any place below the count of any cluster of
  -- that session to a stable ID that `recompress` takes back to that final ID; neither fails nor
  -- panics.
  pub recompress-decompress_foreign :
      (s : StableId) × (decompress d (session_from_final (record { id = base_final k + offset }))
        ≡ done (ok s))
      × (recompress d s ≡ done (ok (session_from_final (record { id = base_final k + offset }))))
  unfolding recompress
  recompress-decompress_foreign =
      let no_wrap : (key.id.id + (generation - 1)) % 2 ^ 128 ≡ key.id.id + (generation - 1) =
        omega (arith, small, bounds) in
      (
        stable_of key generation,
        decompress-finalized d ids m v i key e n k here offset finalized
            ∙ ap (λ z. done (ok (record { id = z }))) no_wrap,
        rw
            (
              recompress,
              get_containing_cluster_lem d ids m v i key e small real spaced generation bounds.0
                  bounds.1,
              held,
              other_ref,
            )
            (ap done recompress_foreign_lem),
      )
