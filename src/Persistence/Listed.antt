-- ===== src/Persistence/Listed.antt =====
-- The clusters that `get_clusters` lists, as the entries of a ledger.
use mathlib.Core.List.{append_assoc}
use distributed_id_allocator.Common.{
  ℕ, ◌≡◌, refl, sym, ap, subst, ◌∙◌, List, [], ◌∷◌, ◌++◌, some, done, done-injective, >>=-eq-done,
  arith, length, length-append, get_elem?,
}
use distributed_id_allocator.Ids.Stable.{SessionId}
use distributed_id_allocator.Tables.SessionSpace.{IdCluster, ClusterRef}
use distributed_id_allocator.Tables.Sessions.{Sessions, deref_cluster}
use distributed_id_allocator.Tables.FinalSpace.{
  FinalSpace, deref_all, get_clusters, get_cluster_count,
}
use distributed_id_allocator.Ledger.{Entry, Ledger, chain_of}
use distributed_id_allocator.Ledger.Lays.{ref_to, Refers, Lays, deref_cluster-Lays}
use distributed_id_allocator.Ledger.Places.{get_elem?-chain_of}

abbrev pub listed : Entry → ℕ → Ledger → IdCluster × ClusterRef
listed e i l = (e.cluster, ref_to i (length (chain_of e.session l)))

-- The list holds the entries in their order, each with its session's place.
abbrev pub Listed : List SessionId → Ledger → List (IdCluster × ClusterRef) → Type 0
Listed ids [] ps = ps ≡ []
Listed ids (e ∷ l) ps =
    (i : ℕ) × (front : List (IdCluster × ClusterRef)) × (get_elem? ids i ≡ some e.session)
    × (ps ≡ front ++ (listed e i l ∷ []))
    × Listed ids l front

deref_all-append :
    (refs : List ClusterRef) (r : ClusterRef) (s : Sessions) {ps : List (IdCluster × ClusterRef)}
    {k : IdCluster}
    → deref_all refs s ≡ done ps
    → deref_cluster s r ≡ done k
    → deref_all (refs ++ (r ∷ [])) s ≡ done (ps ++ ((k, r) ∷ []))
unfolding deref_all
deref_all-append [] r s {k = k} e f = rw f (ap (λ z. done (z ++ ((k, r) ∷ []))) (done-injective e))
deref_all-append (x ∷ refs) r s {k = k} e f =
    let (c, p, q) = >>=-eq-done (deref_cluster s x) _ e in
    let (rest, p', q') = >>=-eq-done (deref_all refs s) _ q in
    rw (p, deref_all-append refs r s p' f) (ap (λ z. done (z ++ ((k, r) ∷ []))) (done-injective q'))

module _ (s : Sessions) (f : FinalSpace) (ids : List SessionId) where
  refs-Listed :
      (pre l : Ledger) (refs : List ClusterRef)
      → Lays s f ids (pre ++ l)
      → Refers ids l refs
      → (ps : List (IdCluster × ClusterRef)) × (deref_all refs s ≡ done ps)
        × Listed ids l ps
        × (length ps ≡ length refs)
  unfolding deref_all
  refs-Listed pre [] refs v r = ([], rw r refl, refl, ap length (sym r))
  refs-Listed pre (d ∷ l) refs v (i, front, e, shape, rest) =
      let r : ClusterRef = ref_to i (length (chain_of d.session l)) in
      let there : deref_cluster s r ≡ done d.cluster =
        deref_cluster-Lays v i (length (chain_of d.session l)) d.session e
          (get_elem?-chain_of pre d l) in
      let (ps, all, h, n) =
        refs-Listed (pre ++ (d ∷ [])) l front
          (subst (λ z. Lays s f ids z) (sym (append_assoc pre (d ∷ []) l)) v) rest in
      (
        ps ++ ((d.cluster, r) ∷ []),
        ap (λ z. deref_all z s) shape ∙ deref_all-append front r s all there,
        (i, ps, e, refl, h),
        omega (
          arith,
          length-append ps ((d.cluster, r) ∷ []),
          length-append front (r ∷ []),
          ap length shape,
          n,
        ),
      )

  pub get_clusters-Listed :
      (l : Ledger)
      → Lays s f ids l
      → (ps : List (IdCluster × ClusterRef)) × (get_clusters f s ≡ done ps)
        × Listed ids l ps
        × (get_cluster_count f ≡ length ps)
  unfolding get_clusters get_cluster_count
  get_clusters-Listed l v =
      let (ps, all, h, n) = refs-Listed [] l f.clusters v v.clusters in (ps, all, h, sym n)
