-- ===== src/Tables/SessionSpace/Chain.antt =====
-- What a session's cluster chain keeps: its clusters follow each other without a gap in the local
-- IDs, ascend in the final IDs, and all but the last are full.
use distributed_id_allocator.Common.{
  ℕ, ◌+◌, ◌^◌, ◌≤◌, ◌≡◌, List, [], ◌∷◌, arith, All, All-imp, Sorted,
}
use distributed_id_allocator.Ids.Local.{to_generation_count}
use distributed_id_allocator.Ids.Local.Generations.{IsLocal}
use distributed_id_allocator.Tables.SessionSpace.{IdCluster}

-- The first generation of a cluster, and the number of its first final ID.
abbrev pub base_generation : IdCluster → ℕ
base_generation c = to_generation_count c.base_local_id

abbrev pub base_final : IdCluster → ℕ
base_final c = c.base_final_id.id

abbrev pub capacity_of : IdCluster → ℕ
capacity_of c = c.capacity

abbrev pub count_of : IdCluster → ℕ
count_of c = c.count

-- A cluster has a finalized ID at least, and its IDs stay within the `i64` range.
pub record IsCluster (c : IdCluster) : Type 0 where
  pub base_IsLocal : IsLocal c.base_local_id
  pub count_pos : 1 ≤ c.count
  pub count_le : c.count ≤ c.capacity
  pub local_fits : base_generation c + c.capacity ≤ 2 ^ 63
  pub final_fits : base_final c + c.capacity ≤ 2 ^ 63

-- A chain that starts at the generation `g`, with final IDs from `f` on.
abbrev pub IsChain : ℕ → ℕ → List IdCluster → Type 0
IsChain g f [] = Unit {0}
IsChain g f (c ∷ []) = IsCluster c × (base_generation c ≡ g) × (f ≤ base_final c)
IsChain g f (c ∷ d ∷ cs) =
    IsCluster c
    × (base_generation c ≡ g)
    × (f ≤ base_final c)
    × (c.count ≡ c.capacity)
    × IsChain (base_generation c + c.capacity) (base_final c + c.capacity) (d ∷ cs)

-- Where the chain goes on after a cluster.
abbrev pub next_generation : IdCluster → ℕ
next_generation c = base_generation c + c.capacity

abbrev pub next_final : IdCluster → ℕ
next_final c = base_final c + c.capacity

pub IsChain-clusters : (g f : ℕ) (cs : List IdCluster) → IsChain g f cs → All IsCluster cs
IsChain-clusters g f [] h = tt
IsChain-clusters g f (c ∷ []) h = (h.0, tt)
IsChain-clusters g f (c ∷ d ∷ cs) h =
    (h.0, IsChain-clusters (next_generation c) (next_final c) (d ∷ cs) h.4)

-- Every cluster of the chain begins at or after the chain's own start.
pub IsChain-starts :
    (g f : ℕ) (cs : List IdCluster)
    → IsChain g f cs
    → All (λ c. (g ≤ base_generation c) × (f ≤ base_final c)) cs
IsChain-starts g f [] h = tt
IsChain-starts g f (c ∷ []) h = ((omega arith, omega arith), tt)
IsChain-starts g f (c ∷ d ∷ cs) h = (
  (omega arith, omega arith),
  All-imp (d ∷ cs) (λ e p. (omega arith, omega arith))
      (IsChain-starts (next_generation c) (next_final c) (d ∷ cs) h.4),
)

-- The clusters are sorted by their local IDs and by their final IDs, with no overlap.
pub IsChain-Sorted_local :
    (g f : ℕ) (cs : List IdCluster)
    → IsChain g f cs
    → Sorted (λ c d. next_generation c ≤ base_generation d) cs
IsChain-Sorted_local g f [] h = tt
IsChain-Sorted_local g f (c ∷ []) h = (tt, tt)
IsChain-Sorted_local g f (c ∷ d ∷ cs) h = (
  All-imp (d ∷ cs) (λ e p. p.0) (IsChain-starts (next_generation c) (next_final c) (d ∷ cs) h.4),
  IsChain-Sorted_local (next_generation c) (next_final c) (d ∷ cs) h.4,
)

pub IsChain-Sorted_final :
    (g f : ℕ) (cs : List IdCluster)
    → IsChain g f cs
    → Sorted (λ c d. next_final c ≤ base_final d) cs
IsChain-Sorted_final g f [] h = tt
IsChain-Sorted_final g f (c ∷ []) h = (tt, tt)
IsChain-Sorted_final g f (c ∷ d ∷ cs) h = (
  All-imp (d ∷ cs) (λ e p. p.1) (IsChain-starts (next_generation c) (next_final c) (d ∷ cs) h.4),
  IsChain-Sorted_final (next_generation c) (next_final c) (d ∷ cs) h.4,
)

-- Also by the finalized part alone, as a cluster's count is within its capacity.
pub IsChain-Sorted_count :
    (g f : ℕ) (cs : List IdCluster)
    → IsChain g f cs
    → Sorted (λ c d. base_generation c + c.count ≤ base_generation d) cs
IsChain-Sorted_count g f [] h = tt
IsChain-Sorted_count g f (c ∷ []) h = (tt, tt)
IsChain-Sorted_count g f (c ∷ d ∷ cs) h = (
  All-imp (d ∷ cs) (λ e p. omega (arith, h.0.count_le))
      (IsChain-starts (next_generation c) (next_final c) (d ∷ cs) h.4),
  IsChain-Sorted_count (next_generation c) (next_final c) (d ∷ cs) h.4,
)
