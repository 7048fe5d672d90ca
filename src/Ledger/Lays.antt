-- ===== src/Ledger/Lays.antt =====
-- How the tables of a compressor lay out a ledger.
use distributed_id_allocator.Common.{
  ℕ, ◌≡◌, refl, List, [], ◌∷◌, ◌++◌, some, length, get_elem?, get_elem?-append_length,
  get_last?-append_one, done,
}
use distributed_id_allocator.Ids.Stable.{SessionId}
use distributed_id_allocator.Tables.SessionSpace.{IdCluster, ClusterRef}
use distributed_id_allocator.Tables.Sessions.{Sessions, deref_session_space, deref_cluster}
use distributed_id_allocator.Tables.Sessions.Holds.{Holds}
use distributed_id_allocator.Tables.FinalSpace.{FinalSpace, final_tail_cluster}
use distributed_id_allocator.Ledger.Chains.{chain_of-head}
use distributed_id_allocator.Ledger.{Ledger, chain_of, head_cluster}

abbrev pub ref_to : ℕ → ℕ → ClusterRef
ref_to i n = record { session_space_ref = record { index = i }; cluster_chain_index = n }

-- The references name the clusters in the order of the ledger.
abbrev pub Refers : List SessionId → Ledger → List ClusterRef → Type 0
Refers ids [] refs = refs ≡ []
Refers ids (e ∷ l) refs =
    (i : ℕ) × (front : List ClusterRef) × (get_elem? ids i ≡ some e.session)
    × (refs ≡ front ++ (ref_to i (length (chain_of e.session l)) ∷ []))
    × Refers ids l front

-- The sessions are `ids`; each session's space holds its chain, and the final space all clusters.
pub record Lays (s : Sessions) (f : FinalSpace) (ids : List SessionId) (l : Ledger) : Type 0 where
  pub tables : Holds s ids
  pub spaces :
      (i : ℕ) (key : SessionId)
      → get_elem? ids i ≡ some key
      → get_elem? s.session_list i ≡ some (record { cluster_chain = chain_of key l })
  pub clusters : Refers ids l f.clusters

module _ {s : Sessions} {f : FinalSpace} {ids : List SessionId} {l : Ledger}
    (v : Lays s f ids l) where
  -- What a reference to a session's cluster leads to.
  pub deref_cluster-Lays :
      (i n : ℕ) (key : SessionId) {k : IdCluster}
      → get_elem? ids i ≡ some key
      → get_elem? (chain_of key l) n ≡ some k
      → deref_cluster s (ref_to i n) ≡ done k
  unfolding deref_cluster deref_session_space
  deref_cluster-Lays i n key e f = rw (v.spaces i key e, f) refl

-- The final space ends with the latest cluster.
pub final_tail_cluster-head_cluster :
    (s : Sessions) (f : FinalSpace) (ids : List SessionId) (l : Ledger)
    → Lays s f ids l
    → final_tail_cluster f s ≡ done (head_cluster l)
unfolding final_tail_cluster
final_tail_cluster-head_cluster s f ids [] v = rw (final_tail_cluster, v.clusters) refl
final_tail_cluster-head_cluster s f ids (d ∷ l) v =
    let (i, front, e, shape, _) = v.clusters in
    let n : ℕ = length (chain_of d.session l) in
    let there : get_elem? (chain_of d.session (d ∷ l)) n ≡ some d.cluster =
      rw (chain_of-head d l) (get_elem?-append_length (chain_of d.session l) d.cluster) in
    rw
      (
        final_tail_cluster,
        shape,
        get_last?-append_one front (ref_to i n),
        deref_cluster-Lays v i n d.session e there,
      )
      refl
