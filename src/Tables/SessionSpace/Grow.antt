-- ===== src/Tables/SessionSpace/Grow.antt =====
-- A chain whose last cluster has more of its IDs finalized.
use distributed_id_allocator.Common.{
  ℕ, ◌+◌, ◌≤◌, ◌≡◌, refl, ap, subst, sym, ◌∙◌, List, [], ◌∷◌, ◌++◌, some, get_last?, set_last,
  get_last?-Snoc, true, arith,
}
use distributed_id_allocator.Ids.Local.{LocalId}
use distributed_id_allocator.Tables.SessionSpace.{IdCluster}
use distributed_id_allocator.Tables.SessionSpace.Chain.{
  IsCluster, IsChain, base_final, next_generation,
}
use distributed_id_allocator.Tables.SessionSpace.End.{chain_end}
use distributed_id_allocator.Tables.SessionSpace.Lookup.{cluster_of_local}
use distributed_id_allocator.Tables.SessionSpace.Align.{final_of_local}

module _ (t : IdCluster) (len : ℕ) (fits : t.count + len ≤ t.capacity) where
  abbrev pub filled : IdCluster
  filled = record t { count = t.count + len }

  filled-IsCluster : IsCluster t → IsCluster filled
  filled-IsCluster k = record {
    base_IsLocal = k.base_IsLocal;
    count_pos = omega (arith, k.count_pos);
    count_le = fits;
    local_fits = k.local_fits;
    final_fits = k.final_fits;
  }

  front-IsChain :
      (g f : ℕ) (front : List IdCluster)
      → IsChain g f (front ++ (t ∷ []))
      → IsChain g f (front ++ (filled ∷ []))
  front-IsChain g f [] h = (filled-IsCluster h.0, h.1, h.2)
  front-IsChain g f (c ∷ []) h =
      (h.0, h.1, h.2, h.3, front-IsChain (next_generation c) (base_final c + c.capacity) [] h.4)
  front-IsChain g f (c ∷ d ∷ front) h = (
    h.0,
    h.1,
    h.2,
    h.3,
    front-IsChain (next_generation c) (base_final c + c.capacity) (d ∷ front) h.4,
  )

  front-last : (k : IdCluster) (front : List IdCluster) → get_last? (front ++ (k ∷ [])) ≡ some k
  front-last k [] = refl
  front-last k (c ∷ []) = refl
  front-last k (c ∷ d ∷ front) = front-last k (d ∷ front)

  front-chain_end :
      (g : ℕ) (front : List IdCluster)
      → chain_end g (front ++ (filled ∷ [])) ≡ chain_end g (front ++ (t ∷ []))
  front-chain_end g [] = refl
  front-chain_end g (c ∷ front) = front-chain_end (next_generation c) front

  front-final_of_local :
      (l : LocalId) (front : List IdCluster)
      → final_of_local l (cluster_of_local true l (front ++ (filled ∷ [])))
        ≡ final_of_local l (cluster_of_local true l (front ++ (t ∷ [])))
  front-final_of_local l [] = ground arith
  front-final_of_local l (c ∷ front) = ground (arith, front-final_of_local l front)

  module _ (cs : List IdCluster) (last : get_last? cs ≡ some t) where
    pub filled-IsChain : (g f : ℕ) → IsChain g f cs → IsChain g f (set_last cs filled)
    filled-IsChain g f h =
        let s = get_last?-Snoc cs t last in
        subst (IsChain g f) (sym (s.write filled))
          (front-IsChain g f s.front (subst (IsChain g f) s.shape h))

    pub filled-chain_end : (g : ℕ) → chain_end g (set_last cs filled) ≡ chain_end g cs
    filled-chain_end g =
        let s = get_last?-Snoc cs t last in
        ap (chain_end g) (s.write filled)
        ∙ front-chain_end g s.front
        ∙ ap (chain_end g) (sym s.shape)

    pub filled-final_of_local :
        (l : LocalId)
        → final_of_local l (cluster_of_local true l (set_last cs filled))
          ≡ final_of_local l (cluster_of_local true l cs)
    filled-final_of_local l =
        let s = get_last?-Snoc cs t last in
        ap (λ ks. final_of_local l (cluster_of_local true l ks)) (s.write filled)
        ∙ front-final_of_local l s.front
        ∙ ap (λ ks. final_of_local l (cluster_of_local true l ks)) (sym s.shape)

    pub filled-last : get_last? (set_last cs filled) ≡ some filled
    filled-last =
        let s = get_last?-Snoc cs t last in
        ap get_last? (s.write filled) ∙ front-last filled s.front
