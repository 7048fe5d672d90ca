-- ===== src/Tables/SessionSpace/End.antt =====
-- Where a chain ends: the generation after the last allocated one.
use distributed_id_allocator.Common.{
  ℕ, ◌+◌, ◌≤◌, ◌<◌, ◌≡◌, refl, List, [], ◌∷◌, none, some, ◌&&◌, arith, get_last?, ltb, leb,
  Bool-cases, inl, inr, subst, sym, ◌∙◌, some-injective, get_last?-cons_some,
}
use distributed_id_allocator.Search.Intervals.{find_interval}
use distributed_id_allocator.Tables.SessionSpace.{IdCluster}
use distributed_id_allocator.Tables.SessionSpace.Chain.{
  IsCluster, IsChain, base_generation, capacity_of, next_generation, next_final,
}

-- The end of a chain that starts at the generation `g`.
abbrev pub chain_end : ℕ → List IdCluster → ℕ
chain_end g [] = g
chain_end g (c ∷ cs) = chain_end (next_generation c) cs

pub chain_end_ge : (g f : ℕ) (cs : List IdCluster) → IsChain g f cs → g ≤ chain_end g cs
chain_end_ge g f [] h = omega arith
chain_end_ge g f (c ∷ []) h = omega arith
chain_end_ge g f (c ∷ d ∷ cs) h =
    omega (arith, chain_end_ge (next_generation c) (next_final c) (d ∷ cs) h.4)

-- It is where the last cluster ends.
pub chain_end-get_last? :
    (g : ℕ) (cs : List IdCluster) {t : IdCluster}
    → get_last? cs ≡ some t
    → chain_end g cs ≡ next_generation t
chain_end-get_last? g [] e = ground arith
chain_end-get_last? g (c ∷ []) e = ground arith
chain_end-get_last? g (c ∷ d ∷ cs) e = chain_end-get_last? (next_generation c) (d ∷ cs) e

pub chain_end-none : (g : ℕ) (cs : List IdCluster) → get_last? cs ≡ none → chain_end g cs ≡ g
chain_end-none g [] e = refl
chain_end-none g (c ∷ cs) e =
    let (t, f) = get_last?-cons_some c cs in absurd (let clash : none ≡ some t = sym e ∙ f in cc)

-- Every generation from the start to the end is in a cluster.
pub chain_end_covers :
    (g f t : ℕ) (cs : List IdCluster)
    → IsChain g f cs
    → g ≤ t
    → t < chain_end g cs
    → (c : IdCluster) × (find_interval base_generation capacity_of t cs ≡ some c)
chain_end_covers g f t [] h p q = absurd (omega arith)
chain_end_covers g f t (c ∷ []) h p q = (c, ground arith)
chain_end_covers g f t (c ∷ d ∷ cs) h p q =
    elim (Bool-cases (leb (base_generation c) t && ltb t (base_generation c + c.capacity))) [
      | inl b ↦ (c, rw b refl)
      | inr b ↦
          let (e, r) =
            chain_end_covers (next_generation c) (next_final c) t (d ∷ cs) h.4 (ground arith) q in
          (e, rw b r)
    ]

-- A generation past the end is in none.
pub chain_end_beyond :
    (g f t : ℕ) (cs : List IdCluster)
    → IsChain g f cs
    → chain_end g cs ≤ t
    → find_interval base_generation capacity_of t cs ≡ none
chain_end_beyond g f t [] h p = refl
chain_end_beyond g f t (c ∷ []) h p = ground arith
chain_end_beyond g f t (c ∷ d ∷ cs) h p = ground (
  arith,
  chain_end_beyond (next_generation c) (next_final c) t (d ∷ cs) h.4 p,
  chain_end_ge (next_generation c) (next_final c) (d ∷ cs) h.4,
)

-- The last cluster of a chain is a cluster.
pub IsChain-get_last? :
    (g f : ℕ) (cs : List IdCluster) {t : IdCluster}
    → IsChain g f cs
    → get_last? cs ≡ some t
    → IsCluster t × (g ≤ base_generation t)
IsChain-get_last? g f [] h e = ground arith
IsChain-get_last? g f (c ∷ []) {t} h e =
    subst (λ u. IsCluster u × (g ≤ base_generation u)) (some-injective _ _ e) (h.0, omega arith)
IsChain-get_last? g f (c ∷ d ∷ cs) h e =
    let r = IsChain-get_last? (next_generation c) (next_final c) (d ∷ cs) h.4 e in
    (r.0, omega (arith, r.1))

-- A generation in the reach of the last cluster is found there.
pub find_interval-get_last? :
    (g f t : ℕ) (cs : List IdCluster) {c : IdCluster}
    → IsChain g f cs
    → get_last? cs ≡ some c
    → base_generation c ≤ t
    → t < next_generation c
    → find_interval base_generation capacity_of t cs ≡ some c
find_interval-get_last? g f t [] h e p q = ground arith
find_interval-get_last? g f t (c ∷ []) h e p q = ground arith
find_interval-get_last? g f t (c ∷ d ∷ cs) h e p q = ground (
  arith,
  (IsChain-get_last? (next_generation c) (next_final c) (d ∷ cs) h.4 e).1,
  find_interval-get_last? (next_generation c) (next_final c) t (d ∷ cs) h.4 e,
)
