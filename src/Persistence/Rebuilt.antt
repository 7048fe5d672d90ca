-- ===== src/Persistence/Rebuilt.antt =====
-- The loop over the clusters builds the tables of the ledger whose clusters were written.
use distributed_id_allocator.Common.{
  ℕ, suc, ◌+◌, ◌-◌, ◌%◌, ◌^◌, ◌≤◌, ◌≡◌, refl, sym, ap, ap₂, ◌∙◌, List, [], ◌∷◌, ◌++◌, none, some,
  Bool, true, false, done, arith, length, length-append, get_elem?, All, Option-cases, inl, inr,
}
use distributed_id_allocator.Word.{sub_u64}
use distributed_id_allocator.Ids.Local.{to_generation_count}
use distributed_id_allocator.Ids.Local.Generations.{
  to_generation_count-injective, to_generation_count-local_sub,
}
use distributed_id_allocator.Ids.Stable.{SessionId}
use distributed_id_allocator.Tables.SessionSpace.{
  IdCluster, ClusterRef, SessionSpaceRef, session_tail_cluster, session_add_cluster,
}
use distributed_id_allocator.Tables.SessionSpace.Chain.{next_final}
use distributed_id_allocator.Tables.Sessions.{Sessions, deref_session_space_mut}
use distributed_id_allocator.Tables.FinalSpace.{FinalSpace, final_add_cluster}
use distributed_id_allocator.Ledger.{
  Entry, Ledger, chain_of, tail_of, end_final, end_generation, IsLedger,
}
use distributed_id_allocator.Ledger.Chains.{get_last?-chain_of}
use distributed_id_allocator.Ledger.Lays.{Lays}
use distributed_id_allocator.Ledger.Order.{tail_of-IsCluster}
use distributed_id_allocator.Ledger.Writes.{cons-Lays}
use distributed_id_allocator.Compressor.{IdCompressor}
use distributed_id_allocator.Compressor.Extends.{with_cluster}
use distributed_id_allocator.Persistence.Read.{next_base_local, add_read_cluster, read_clusters}
use distributed_id_allocator.Persistence.Listed.{listed, Listed}
use distributed_id_allocator.Persistence.Clusters.{
  IsNarrow, encode_cluster, encode_clusters, encode_clusters-append, read_cluster-encode_cluster,
}

-- The local ID that the loop computes for a cluster is the one that it had.
next_base_local-tail_of :
    (e : Entry) (l : Ledger)
    → IsLedger (e ∷ l)
    → next_base_local (tail_of e.session l) ≡ e.cluster.base_local_id
unfolding to_generation_count
next_base_local-tail_of e l h = elim (Option-cases (tail_of e.session l)) [
  | inl n ↦
      let first = h.2 ∙ ap end_generation n in
      rw n (
        to_generation_count-injective (next_base_local none) e.cluster.base_local_id (omega arith)
          h.0.base_IsLocal (omega (arith, first)))
  | inr (k, n) ↦
      let next = h.2 ∙ ap end_generation n in
      let (v, _) = tail_of-IsCluster e.session l k h.4 n in
      let (is_local, at) =
        to_generation_count-local_sub k.base_local_id k.capacity v.base_IsLocal v.local_fits in
      rw n (
        to_generation_count-injective (next_base_local (some k)) e.cluster.base_local_id is_local
          h.0.base_IsLocal (at ∙ sym next))
]

IsNarrow-le : (narrow : Bool) (a b : ℕ) → IsNarrow narrow b → a ≤ b → IsNarrow narrow a
IsNarrow-le true a b h le = omega (arith, h, le)
IsNarrow-le false a b h le = omega (arith, h, le)

-- One round, for the ledger's next cluster.
add_read_cluster_lem :
    (c : IdCompressor) (ids : List SessionId) (e : Entry) (l : Ledger)
    (v : Lays c.sessions c.final_space ids l) (j : ℕ) (q : get_elem? ids j ≡ some e.session)
    (remap : List SessionSpaceRef) (index : ℕ)
    → IsLedger (e ∷ l)
    → get_elem? remap index ≡ some (record { index = j })
    → add_read_cluster remap
        (record { id = end_final l })
        index
        e.cluster.capacity
        e.cluster.count
        c
      ≡ done (with_cluster c ids l v j e.session q e.cluster)
unfolding add_read_cluster deref_session_space_mut session_tail_cluster session_add_cluster
    final_add_cluster
add_read_cluster_lem c ids e l v j q remap index h at =
    let final : end_final l ≡ e.cluster.base_final_id.id = sym h.1 in
    let n : length (chain_of e.session l ++ (e.cluster ∷ [])) - 1 ≡ length (chain_of e.session l) =
      omega (arith, length-append (chain_of e.session l) (e.cluster ∷ [])) in
    rw
      (
        at,
        v.spaces j e.session q,
        get_last?-chain_of e.session l,
        next_base_local-tail_of e l h,
        final,
        n,
      )
      refl

-- How the sessions were read: each one that is used is found through the table of references.
abbrev pub IsRemapped :
    Bool → ℕ → List SessionSpaceRef → List SessionId → List SessionId → SessionId → Type 0
IsRemapped narrow delta remap ids ids' key =
    (i : ℕ)
    → get_elem? ids i ≡ some key
    → IsNarrow narrow (sub_u64 i delta)
      × (j : ℕ) × (get_elem? remap (sub_u64 i delta) ≡ some (record { index = j }))
      × (get_elem? ids' j ≡ some key)

abbrev pub with_tables : IdCompressor → Sessions → FinalSpace → IdCompressor
with_tables c s f = record c { sessions = s; final_space = f }

module _ (narrow : Bool) (delta : ℕ) (remap : List SessionSpaceRef) where
  -- One cluster's bytes.
  read_one :
      (c : IdCompressor) (ids : List SessionId) (e : Entry) (l : Ledger)
      (v : Lays c.sessions c.final_space ids l) (i j : ℕ) (q : get_elem? ids j ≡ some e.session)
      → IsLedger (e ∷ l)
      → IsNarrow narrow (next_final e.cluster)
      → IsNarrow narrow (sub_u64 i delta)
      → get_elem? remap (sub_u64 i delta) ≡ some (record { index = j })
      → (k : ℕ) (rest : List ℕ)
      → read_clusters
          (suc k)
          narrow
          remap
          (record { id = end_final l })
          c
          (encode_cluster narrow delta (listed e i l) ++ rest)
        ≡ read_clusters k narrow remap
            (record { id = next_final e.cluster })
            (with_cluster c ids l v j e.session q e.cluster)
            rest
  unfolding read_clusters
  read_one c ids e l v i j q h w short found k rest =
      let capacity_le : e.cluster.capacity ≤ next_final e.cluster = omega arith in
      let count_le : e.cluster.count ≤ next_final e.cluster = omega (arith, h.0.count_le) in
      let next : (end_final l + e.cluster.capacity) % 2 ^ 64 ≡ next_final e.cluster =
        omega (arith, h.1, h.0.final_fits) in
      rw
        (
          read_cluster-encode_cluster delta (listed e i l) rest narrow short
              (IsNarrow-le narrow _ _ w capacity_le) (IsNarrow-le narrow _ _ w count_le),
          add_read_cluster_lem c ids e l v j q remap (sub_u64 i delta) h found,
          next,
        )
        refl

  module _ (ids ids' : List SessionId) (c : IdCompressor)
      (empty : Lays c.sessions c.final_space ids' []) where
    pub read_clusters-encode_clusters :
        (l : Ledger) (ps : List (IdCluster × ClusterRef))
        → IsLedger l
        → IsNarrow narrow (end_final l)
        → Listed ids l ps
        → All (λ e. IsRemapped narrow delta remap ids ids' e.session) l
        → (k : ℕ) (rest : List ℕ)
        → (s : Sessions) × (f : FinalSpace) × Lays s f ids' l
          × (read_clusters
                (length ps + k)
                narrow
                remap
                (record { id = 0 })
                c
                (encode_clusters narrow delta ps ++ rest)
              ≡ read_clusters k narrow remap (record { id = end_final l }) (with_tables c s f) rest)
    read_clusters-encode_clusters [] ps h w none_listed m k rest =
        let n : length ps + k ≡ k = omega (arith, ap length none_listed) in
        (c.sessions, c.final_space, empty, rw (n, none_listed) refl)
    read_clusters-encode_clusters (e ∷ l) ps h w (i, front, at, shape, listed_front) m k rest =
        let p = listed e i l in
        let size : length ps + k ≡ length front + suc k =
          omega (arith, ap length shape, length-append front (p ∷ [])) in
        let (s, f, v, runs) =
          read_clusters-encode_clusters l front h.4 (IsNarrow-le narrow _ _ w (omega (arith, h.1)))
            listed_front m.1 (suc k) (encode_cluster narrow delta p ++ rest) in
        let (short, j, found, there) = m.0 i at in
        let d = with_cluster (with_tables c s f) ids' l v j e.session there e.cluster in
        (
          d.sessions,
          d.final_space,
          cons-Lays s f ids' l v j e.session there e.cluster,
          ap
                (λ z.
                  read_clusters (length ps + k) narrow remap (record { id = 0 }) c
                    (encode_clusters narrow delta z ++ rest))
                shape
              ∙ ap₂ (λ n bytes. read_clusters n narrow remap (record { id = 0 }) c bytes) size
                  (encode_clusters-append narrow delta front p rest)
              ∙ runs
              ∙ read_one (with_tables c s f) ids' e l v i j there h w short found k rest,
        )
