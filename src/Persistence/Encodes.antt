-- ===== src/Persistence/Encodes.antt =====
-- What `serialize` writes, as bytes one after the other.
use mathlib.Core.List.{append_assoc}
use distributed_id_allocator.Common.{
  ℕ, ◌-◌, ◌*◌, ◌^◌, ◌<◌, ◌≡◌, refl, sym, ap, ◌∙◌, List, [], ◌∷◌, ◌++◌, Bool, true, false, done,
  arith, length, length-append, ltb, leb, ◌==◌, if◌then◌else◌, Bool-cases, inl, inr,
}
use distributed_id_allocator.Word.{sub_u64}
use distributed_id_allocator.Bytes.{to_le_bytes, write_to_vec}
use distributed_id_allocator.Bytes.RoundTrip.{length-to_le_bytes, drop_at}
use distributed_id_allocator.Ids.Stable.{SessionId, stable_from_session, u128_from_stable}
use distributed_id_allocator.Tables.SessionSpace.{IdCluster, ClusterRef, max_allocated_final}
use distributed_id_allocator.Tables.Sessions.{get_session_count, get_session_id_slice}
use distributed_id_allocator.Tables.Sessions.Holds.{id_bytes}
use distributed_id_allocator.Tables.FinalSpace.{get_clusters, get_cluster_count}
use distributed_id_allocator.Ledger.{Ledger, head_cluster, end_final, IsLedger}
use distributed_id_allocator.Ledger.Lays.{final_tail_cluster-head_cluster}
use distributed_id_allocator.Compressor.{IdCompressor}
use distributed_id_allocator.Compressor.Shares.{Shares}
use distributed_id_allocator.Persistence.Write.{
  bool_as_u32, largest_final, serialize_header, slice_from, session_count_delta_of,
  serialize_finalized, serialize_without_local, serialize_with_local, serialize,
}
use distributed_id_allocator.Persistence.Ranges.{serialize_normalizer}
use distributed_id_allocator.Persistence.Clusters.{
  IsNarrow, encode_clusters, write_clusters-encode_clusters,
}

abbrev pub is_narrow : Ledger → Bool
is_narrow l = ltb (largest_final (head_cluster l)) (2 ^ 32 - 1)

-- The numbers of the clusters fit in the width that is chosen for them.
pub is_narrow-IsNarrow : (l : Ledger) → IsLedger l → IsNarrow (is_narrow l) (end_final l)
unfolding max_allocated_final
is_narrow-IsNarrow l h = elim (Bool-cases (is_narrow l)) [
  | inl b ↦ rw b (below l h b)
  | inr b ↦ rw b (fits l h)
]
  where
    below : (l : Ledger) → IsLedger l → is_narrow l ≡ true → end_final l < 2 ^ 32
    below [] h b = omega arith
    below (e ∷ l) h b = ground (arith, b, h.0.final_fits, h.0.count_pos, h.0.count_le)

    fits : (l : Ledger) → IsLedger l → end_final l < 2 ^ 64
    fits [] h = omega arith
    fits (e ∷ l) h = omega (arith, h.0.final_fits)

-- The three numbers at the start.
abbrev pub encode_header : Bool → Ledger → List ℕ
encode_header is_local l =
    to_le_bytes 4 1
    ++ (to_le_bytes 4 (bool_as_u32 is_local) ++ to_le_bytes 4 (bool_as_u32 (is_narrow l)))

module _ (c : IdCompressor) (others : List SessionId) (l : Ledger)
    (v : Shares c (c.session_id ∷ others) l) where
  pub serialize_header-encode_header :
      (is_local : Bool)
      → serialize_header c is_local [] ≡ done (is_narrow l, encode_header is_local l)
  unfolding serialize_header write_to_vec
  serialize_header-encode_header is_local =
      rw (final_tail_cluster-head_cluster c.sessions c.final_space (c.session_id ∷ others) l v.lays)
        (ap (λ z. done (is_narrow l, z))
          (append_assoc (to_le_bytes 4 1) (to_le_bytes 4 (bool_as_u32 is_local))
            (to_le_bytes 4 (bool_as_u32 (is_narrow l)))))

  -- The sessions that are written: without a generated ID the compressor's own is not.
  abbrev pub written : List SessionId
  written = if c.generated_id_count == 0 then others else c.session_id ∷ others

  abbrev pub encode_finalized : Bool → List (IdCluster × ClusterRef) → List ℕ
  encode_finalized narrow ps =
      to_le_bytes 8 c.cluster_capacity
      ++ (to_le_bytes 8 (length written)
          ++ (id_bytes written
              ++ (to_le_bytes 8 (length ps)
                  ++ encode_clusters narrow (session_count_delta_of c) ps)))

  slice_written :
      slice_from (get_session_id_slice c.sessions) (session_count_delta_of c * 16)
      ≡ done (id_bytes written)
  slice_written = elim (Bool-cases (c.generated_id_count == 0)) [
    | inl b ↦
        let own = to_le_bytes 16 c.session_id.id.id in
        let n = length-to_le_bytes 16 c.session_id.id.id in
        let size : leb (1 * 16) (length (own ++ id_bytes others)) ≡ true =
          ground (arith, length-append own (id_bytes others), n) in
        rw (b, v.lays.tables.bytes, size) (ap done (drop_at own (id_bytes others) 16 (sym n)))
    | inr b ↦
        let size : leb (0 * 16) (length (id_bytes (c.session_id ∷ others))) ≡ true = ground arith in
        rw (b, v.lays.tables.bytes, size) refl
  ]

  module _ (few : length others < 2 ^ 32) where
    count_written :
        sub_u64 (get_session_count c.sessions) (session_count_delta_of c) ≡ length written
    unfolding get_session_count
    count_written = elim (Bool-cases (c.generated_id_count == 0)) [
      | inl b ↦ rw (b, v.lays.tables.spaces) (omega (arith, few))
      | inr b ↦ rw (b, v.lays.tables.spaces) (omega (arith, few))
    ]

    pub written_few : length written < 2 ^ 64
    written_few = elim (Bool-cases (c.generated_id_count == 0)) [
      | inl b ↦ rw b (omega (arith, few))
      | inr b ↦ rw b (omega (arith, few))
    ]

    pub serialize_finalized-encode_finalized :
        (narrow : Bool) (ps : List (IdCluster × ClusterRef)) (bytes : List ℕ)
        → get_clusters c.final_space c.sessions ≡ done ps
        → get_cluster_count c.final_space ≡ length ps
        → serialize_finalized c narrow bytes ≡ done (bytes ++ encode_finalized narrow ps)
    unfolding serialize_finalized write_to_vec
    serialize_finalized-encode_finalized narrow ps bytes e n =
        let a = to_le_bytes 8 c.cluster_capacity in
        let b = to_le_bytes 8 (length written) in
        let d = to_le_bytes 8 (length ps) in
        let tail = encode_clusters narrow (session_count_delta_of c) ps in
        rw
          (
            slice_written,
            e,
            n,
            count_written,
            write_clusters-encode_clusters narrow (session_count_delta_of c) ps
                ((((bytes ++ a) ++ b) ++ id_bytes written) ++ d),
          )
          (ap done (
            append_assoc (((bytes ++ a) ++ b) ++ id_bytes written) d tail
            ∙ append_assoc ((bytes ++ a) ++ b) (id_bytes written) (d ++ tail)
            ∙ append_assoc (bytes ++ a) b (id_bytes written ++ (d ++ tail))
            ∙ append_assoc bytes a (b ++ (id_bytes written ++ (d ++ tail)))))

    module _ (ps : List (IdCluster × ClusterRef))
        (e : get_clusters c.final_space c.sessions ≡ done ps)
        (n : get_cluster_count c.final_space ≡ length ps) where
      pub serialize-without_local :
          serialize c false ≡ done (encode_header false l ++ encode_finalized (is_narrow l) ps)
      unfolding serialize serialize_without_local
      serialize-without_local =
          rw
            (
              serialize_header-encode_header false,
              serialize_finalized-encode_finalized (is_narrow l) ps (encode_header false l) e n,
            )
            refl

      -- Between the header and the clusters stands the local state.
      pub serialize-with_local :
          (code : List ℕ)
          → ((bytes : List ℕ)
              → serialize_normalizer c.session_space_normalizer bytes ≡ bytes ++ code)
          → serialize c true
            ≡ done (
                encode_header true l
                ++ (to_le_bytes 16 (u128_from_stable (stable_from_session c.session_id))
                    ++ (to_le_bytes 8 c.generated_id_count
                        ++ (to_le_bytes 8 c.next_range_base_generation_count
                            ++ (code ++ encode_finalized (is_narrow l) ps)))))
      unfolding serialize serialize_with_local write_to_vec
      serialize-with_local code written_code =
          let h = encode_header true l in
          let u = to_le_bytes 16 (u128_from_stable (stable_from_session c.session_id)) in
          let g = to_le_bytes 8 c.generated_id_count in
          let k = to_le_bytes 8 c.next_range_base_generation_count in
          let tail = encode_finalized (is_narrow l) ps in
          rw
            (
              serialize_header-encode_header true,
              written_code (((h ++ u) ++ g) ++ k),
              serialize_finalized-encode_finalized (is_narrow l) ps ((((h ++ u) ++ g) ++ k) ++ code)
                  e n,
            )
            (ap done (
              append_assoc (((h ++ u) ++ g) ++ k) code tail
              ∙ append_assoc ((h ++ u) ++ g) k (code ++ tail)
              ∙ append_assoc (h ++ u) g (k ++ (code ++ tail))
              ∙ append_assoc h u (g ++ (k ++ (code ++ tail)))))
