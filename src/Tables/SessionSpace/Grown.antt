-- ===== src/Tables/SessionSpace/Grown.antt =====
-- A cluster chain after finalizations: its clusters may be larger, and new ones may follow.
use distributed_id_allocator.Common.{
  ℕ, ◌+◌, ◌-◌, ◌≤◌, ◌<◌, ◌≡◌, refl, sym, ap, subst, ◌∙◌, List, [], ◌∷◌, ◌++◌, none, some,
  some-injective, arith, get_elem?, zero, suc,
}
use native.Mathlib.Decide.{dec_lt}
use distributed_id_allocator.Ids.Local.{LocalId, to_generation_count}
use distributed_id_allocator.Search.Intervals.{
  find_interval, find_interval_sound, find_interval_complete,
}
use distributed_id_allocator.Tables.SessionSpace.{IdCluster}
use distributed_id_allocator.Tables.SessionSpace.Chain.{
  IsChain, IsChain-Sorted_local, base_generation, base_final, capacity_of,
}
use distributed_id_allocator.Tables.SessionSpace.Align.{final_beside}
use distributed_id_allocator.Tables.SessionSpace.End.{chain_end, chain_end_covers, chain_end_beyond}

-- The first cluster begins where the second does, and is not larger.
pub record IsWithin (k k' : IdCluster) : Type 0 where
  pub locals : k'.base_local_id ≡ k.base_local_id
  pub finals : k'.base_final_id ≡ k.base_final_id
  pub capacity : k.capacity ≤ k'.capacity

pub IsWithin-refl : (k : IdCluster) → IsWithin k k
IsWithin-refl k = record { locals = refl; finals = refl; capacity = omega arith }

-- The final IDs beside the local IDs stay.
pub final_beside-IsWithin :
    (l : LocalId) (k k' : IdCluster) → IsWithin k k' → final_beside l k' ≡ final_beside l k
final_beside-IsWithin l k k' w =
    ap (λ f. record { id = f.id + (to_generation_count l - base_generation k') }) w.finals
    ∙ ap (λ b. record { id = base_final k + (to_generation_count l - to_generation_count b) })
        w.locals

abbrev pub IsGrown : List IdCluster → List IdCluster → Type 0
IsGrown [] ks = Unit {0}
IsGrown (c ∷ cs) [] = ⊥
IsGrown (c ∷ cs) (k ∷ ks) = IsWithin c k × IsGrown cs ks

pub IsGrown-refl : (cs : List IdCluster) → IsGrown cs cs
IsGrown-refl [] = tt
IsGrown-refl (c ∷ cs) = (IsWithin-refl c, IsGrown-refl cs)

pub IsGrown-append :
    (cs ks : List IdCluster) (k : IdCluster) → IsGrown cs ks → IsGrown cs (ks ++ (k ∷ []))
IsGrown-append [] ks k h = tt
IsGrown-append (c ∷ cs) [] k h = absurd h
IsGrown-append (c ∷ cs) (d ∷ ks) k h = (h.0, IsGrown-append cs ks k h.1)

-- The last cluster, replaced by a larger one.
pub IsGrown-snoc :
    (cs : List IdCluster) (k k' : IdCluster)
    → IsWithin k k'
    → IsGrown (cs ++ (k ∷ [])) (cs ++ (k' ∷ []))
IsGrown-snoc [] k k' h = (h, tt)
IsGrown-snoc (c ∷ cs) k k' h = (IsWithin-refl c, IsGrown-snoc cs k k' h)

IsGrown-get_elem? :
    (cs ks : List IdCluster) (i : ℕ) {c : IdCluster}
    → IsGrown cs ks
    → get_elem? cs i ≡ some c
    → (k : IdCluster) × (get_elem? ks i ≡ some k) × IsWithin c k
IsGrown-get_elem? [] ks i h e = ground arith
IsGrown-get_elem? (c ∷ cs) [] i h e = absurd h
IsGrown-get_elem? (c ∷ cs) (k ∷ ks) zero h e =
    (k, refl, subst (λ z. IsWithin z k) (some-injective _ _ e) h.0)
IsGrown-get_elem? (c ∷ cs) (k ∷ ks) (suc i) h e = IsGrown-get_elem? cs ks i h.1 e

-- A generation stays in its cluster.
pub find_interval-IsGrown :
    (g f t : ℕ) (cs ks : List IdCluster) {c : IdCluster}
    → IsGrown cs ks
    → IsChain g f ks
    → find_interval base_generation capacity_of t cs ≡ some c
    → (k : IdCluster) × (find_interval base_generation capacity_of t ks ≡ some k) × IsWithin c k
find_interval-IsGrown g f t cs ks h v e =
    let (i, here, lo, hi) = find_interval_sound base_generation capacity_of t cs e in
    let (k, there, w) = IsGrown-get_elem? cs ks i h here in
    let base = ap to_generation_count w.locals in
    (
      k,
      find_interval_complete base_generation capacity_of t ks i k (IsChain-Sorted_local g f ks v)
          there (omega (arith, lo, base)) (omega (arith, hi, base, w.capacity)),
      w,
    )

-- The chain ends where it did, or later.
pub chain_end-IsGrown :
    (g f f' t : ℕ) (cs ks : List IdCluster)
    → IsGrown cs ks
    → IsChain g f cs
    → IsChain g f' ks
    → g ≤ t
    → t < chain_end g cs
    → t < chain_end g ks
chain_end-IsGrown g f f' t cs ks h v w p q =
    let (c, e) = chain_end_covers g f t cs v p q in
    let (k, there, _) = find_interval-IsGrown g f' t cs ks h w e in
    elim (dec_lt t (chain_end g ks)) [
      | yes r ↦ r
      | no r ↦
          let clash : none ≡ some k =
            sym (chain_end_beyond g f' t ks w (omega (arith, r))) ∙ there in
          absurd (cc)
    ]
