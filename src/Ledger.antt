-- ===== src/Ledger.antt =====
-- The finalized state that all compressors of a network share, as one list of clusters. It is what
-- compressor.rs promises by `finalize_range`, without tables, references or machine words.
pub mod Order
pub mod Chains
pub mod Lays
pub mod Writes
pub mod Opens
pub mod Sessions
pub mod Growth
pub mod Places
pub mod Update
pub mod Keeps
pub mod Distinct
use distributed_id_allocator.Common.{
  ℕ, ◌+◌, ◌-◌, ◌≤◌, ◌≡◌, List, [], ◌∷◌, ◌++◌, Option, none, some, Bool, true, false, leb, ◌==◌,
  if◌then◌else◌,
}
use distributed_id_allocator.Ids.Local.{from_generation_count}
use distributed_id_allocator.Ids.Final.{FinalId}
use distributed_id_allocator.Ids.Stable.{SessionId, session_eq}
use distributed_id_allocator.Tables.SessionSpace.{IdCluster}
use distributed_id_allocator.Tables.SessionSpace.Chain.{
  IsCluster, base_generation, base_final, next_generation, next_final,
}

-- A cluster of a session.
pub record Entry : Type 0 where
  pub session : SessionId
  pub cluster : IdCluster

-- The latest cluster first.
abbrev pub Ledger : Type 0
Ledger = List Entry

-- A session's clusters, the oldest first.
abbrev pub chain_of : SessionId → Ledger → List IdCluster
chain_of key [] = []
chain_of key (e ∷ l) =
    let rest = chain_of key l in if session_eq e.session key then rest ++ (e.cluster ∷ []) else rest

-- A session's latest cluster.
abbrev pub tail_of : SessionId → Ledger → Option IdCluster
tail_of key [] = none
tail_of key (e ∷ l) =
    let rest = tail_of key l in if session_eq e.session key then some e.cluster else rest

-- Another cluster in place of a session's latest.
abbrev pub update_tail : SessionId → IdCluster → Ledger → Ledger
update_tail key k [] = []
update_tail key k (e ∷ l) =
    let rest = update_tail key k l in
    if session_eq e.session key then record e { cluster = k } ∷ l else e ∷ rest

abbrev pub head_cluster : Ledger → Option IdCluster
head_cluster [] = none
head_cluster (e ∷ l) = some e.cluster

-- Whether the latest cluster of all is the session's.
abbrev pub is_head : SessionId → Ledger → Bool
is_head key [] = false
is_head key (e ∷ l) = session_eq e.session key

-- The first final ID that no cluster holds.
abbrev pub end_final : Ledger → ℕ
end_final [] = 0
end_final (e ∷ l) = next_final e.cluster

abbrev pub new_cluster : ℕ → ℕ → ℕ → ℕ → IdCluster
new_cluster final generation capacity count = record {
  base_final_id = record { id = final };
  base_local_id = from_generation_count generation;
  capacity = capacity;
  count = count;
}

-- The last cluster `k` of the session takes `len` more IDs: as many as it has room for, then more
-- room if it is the latest of all, else a new cluster. New room is `size` IDs more than is needed.
abbrev pub extend : ℕ → Ledger → SessionId → IdCluster → ℕ → Ledger
extend size l key k len =
    if leb (k.count + len) k.capacity
    then update_tail key (record k { count = k.count + len }) l
    else if is_head key l
    then update_tail key (record k { capacity = k.count + len + size; count = k.count + len }) l
    else record {
      session = key;
      cluster =
          new_cluster (end_final l) (next_generation k) (k.count + len - k.capacity + size)
            (k.count + len - k.capacity);
    }
      ∷ update_tail key (record k { count = k.capacity }) l

-- A range of `len` generations from `base` on, or none if it is not the session's next.
abbrev pub finalize_ledger : ℕ → Ledger → SessionId → ℕ → ℕ → Option Ledger
finalize_ledger size l key base len = elim (tail_of key l) [
  | none ↦
      if base == 1
      then some
          (record { session = key; cluster = new_cluster (end_final l) 1 (size + len) len } ∷ l)
      else none
  | some k ↦ if base == base_generation k + k.count then some (extend size l key k len) else none
]

-- Where a session's next cluster begins.
abbrev pub end_generation : Option IdCluster → ℕ
end_generation none = 1
end_generation (some k) = next_generation k

abbrev pub IsFull : Option IdCluster → Type 0
IsFull none = Unit {0}
IsFull (some k) = k.count ≡ k.capacity

-- Final IDs run without a gap, and so do the generations of each session; of a session's clusters
-- all but the latest are full.
abbrev pub IsLedger : Ledger → Type 0
IsLedger [] = Unit {0}
IsLedger (e ∷ l) =
    IsCluster e.cluster
    × (base_final e.cluster ≡ end_final l)
    × (base_generation e.cluster ≡ end_generation (tail_of e.session l))
    × IsFull (tail_of e.session l)
    × IsLedger l
