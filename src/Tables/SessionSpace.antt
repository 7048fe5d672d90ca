-- ===== src/Tables/SessionSpace.antt =====
-- tables/session_space.rs: `IdCluster`, `SessionSpace` and the references to them.
-- A mutable reference to a part is modelled by the part and the function that puts a changed part
-- back. A list's length and its indices are numbers without a bound, as a list fits in memory.
pub mod Chain
pub mod Lookup
pub mod Align
pub mod End
pub mod Grown
pub mod Grow
use Prim.Native.Nat.{Ordering}
use distributed_id_allocator.Common.{
  ℕ, ◌+◌, ◌-◌, List, [], ◌∷◌, ◌++◌, Option, none, some, Bool, true, false, ◌&&◌, ◌||◌, Run, done,
  Result, ok, err, ◌>>=◌, unwrap, ltb, ◌==◌, if◌then◌else◌, length, get_elem?, get_last?, set_last,
}
use distributed_id_allocator.Word.{sub_u64}
use distributed_id_allocator.Ids.Local.{LocalId, to_generation_count, local_sub, local_lt, local_eq}
use distributed_id_allocator.Ids.Final.{FinalId, final_add, final_sub, final_lt, final_eq}
use distributed_id_allocator.Ids.Stable.{
  StableId, SessionId, stable_from_session, session_add_local,
}
use distributed_id_allocator.Search.{binary_search_by, found_at}

pub record IdCluster : Type 0 where
  pub base_final_id : FinalId
  pub base_local_id : LocalId
  pub capacity : ℕ
  pub count : ℕ

unfoldable pub get_allocated_final : IdCluster → LocalId → Option FinalId
get_allocated_final c local_within =
    let cluster_offset =
      sub_u64 (to_generation_count local_within) (to_generation_count c.base_local_id) in
    if ltb cluster_offset c.capacity then some (final_add c.base_final_id cluster_offset) else none

unfoldable pub max_allocated_final : IdCluster → FinalId
max_allocated_final c = final_add c.base_final_id (sub_u64 c.capacity 1)

unfoldable pub get_aligned_local : IdCluster → FinalId → Option LocalId
get_aligned_local c contained_final =
    if final_lt contained_final c.base_final_id || final_lt (max_allocated_final c) contained_final
    then none
    else some (local_sub c.base_local_id (final_sub contained_final c.base_final_id))

unfoldable pub max_local : IdCluster → LocalId
max_local c = local_sub c.base_local_id (sub_u64 c.count 1)

unfoldable pub max_allocated_local : IdCluster → LocalId
max_allocated_local c = local_sub c.base_local_id (sub_u64 c.capacity 1)

-- `impl PartialEq for IdCluster`.
unfoldable pub cluster_eq : IdCluster → IdCluster → Bool
cluster_eq a b =
    final_eq a.base_final_id b.base_final_id
    && local_eq a.base_local_id b.base_local_id
    && (a.capacity == b.capacity)
    && (a.count == b.count)

pub record SessionSpaceRef : Type 0 where
  pub index : ℕ

abbrev pub get_index : SessionSpaceRef → ℕ
get_index r = r.index

-- `token as usize`, on a target with 64-bit pointers; the token is the bit pattern of an `i64`.
abbrev pub create_from_token : ℕ → SessionSpaceRef
create_from_token token = record { index = token }

abbrev pub ref_eq : SessionSpaceRef → SessionSpaceRef → Bool
ref_eq a b = a.index == b.index

pub record ClusterRef : Type 0 where
  pub session_space_ref : SessionSpaceRef
  pub cluster_chain_index : ℕ

abbrev pub get_session_space_ref : ClusterRef → SessionSpaceRef
get_session_space_ref r = r.session_space_ref

pub record SessionSpace : Type 0 where
  pub cluster_chain : List IdCluster

-- `SessionSpace::new`.
abbrev pub new_session_space : SessionSpace
new_session_space = record { cluster_chain = [] }

abbrev is_empty : List IdCluster → Bool
is_empty [] = true
is_empty (_ ∷ _) = false

unfoldable pub cluster_chain_is_empty : SessionSpace → Bool
cluster_chain_is_empty s = is_empty s.cluster_chain

-- The element at `len - 1`, if there is one.
unfoldable pub session_tail_cluster : SessionSpace → Option IdCluster
session_tail_cluster s = get_last? s.cluster_chain

-- `get_tail_cluster_mut`.
unfoldable pub session_tail_cluster_mut :
    SessionSpace → Option (IdCluster × (IdCluster → SessionSpace))
session_tail_cluster_mut s = elim (get_last? s.cluster_chain) [
  | none ↦ none
  | some tail ↦ some (tail, λ c. record { cluster_chain = set_last s.cluster_chain c })
]

unfoldable pub get_max_allocated_stable : SessionSpace → SessionId → StableId
get_max_allocated_stable s session_id = elim (get_last? s.cluster_chain) [
  | none ↦ stable_from_session session_id
  | some tail_cluster ↦ session_add_local session_id (max_allocated_local tail_cluster)
]

-- `SessionSpace::add_cluster` and `SessionSpace::add_empty_cluster`.
unfoldable pub session_add_cluster :
    SessionSpace → SessionSpaceRef → IdCluster → ClusterRef × SessionSpace
session_add_cluster s self_ref new_cluster =
    let chain = s.cluster_chain ++ (new_cluster ∷ []) in
    (
      record { session_space_ref = self_ref; cluster_chain_index = length chain - 1 },
      record { cluster_chain = chain },
    )

unfoldable pub session_add_empty_cluster :
    SessionSpace → SessionSpaceRef → FinalId → LocalId → ℕ → ClusterRef × SessionSpace
session_add_empty_cluster s self_ref base_final_id base_local_id capacity =
    session_add_cluster s self_ref (record {
      base_final_id = base_final_id;
      base_local_id = base_local_id;
      capacity = capacity;
      count = 0;
    })

-- The closure `last_valid_local`.
abbrev pub last_valid_local : Bool → IdCluster → ℕ
last_valid_local true c = sub_u64 c.capacity 1
last_valid_local false c = sub_u64 c.count 1

-- The order that `get_cluster_by_local` searches by.
unfoldable pub compare_local : LocalId → Bool → IdCluster → Ordering
compare_local search_local include_allocated c =
    let cluster_last_local = local_sub c.base_local_id (last_valid_local include_allocated c) in
    if local_lt search_local cluster_last_local
    then Ordering.lt
    else if local_lt c.base_local_id search_local
    then Ordering.gt
    else Ordering.eq

-- The order that `get_cluster_by_allocated_final` and `FinalSpace::search` search by.
unfoldable pub compare_final : FinalId → IdCluster → Ordering
compare_final search_final c =
    let cluster_last_final = final_add c.base_final_id (sub_u64 c.capacity 1) in
    if final_lt cluster_last_final search_final
    then Ordering.lt
    else if final_lt search_final c.base_final_id
    then Ordering.gt
    else Ordering.eq

unfoldable pub get_cluster_by_local : SessionSpace → LocalId → Bool → Run (Option IdCluster)
get_cluster_by_local s search_local include_allocated = do
  found ←
      binary_search_by s.cluster_chain (λ c. done (compare_local search_local include_allocated c))
  found_at s.cluster_chain found

unfoldable pub get_cluster_by_allocated_final : SessionSpace → FinalId → Run (Option IdCluster)
get_cluster_by_allocated_final s search_final = do
  found ← binary_search_by s.cluster_chain (λ c. done (compare_final search_final c))
  found_at s.cluster_chain found

-- The `unwrap` panics if the cluster found does not hold the local ID.
abbrev pub allocated_in : LocalId → Option IdCluster → Run (Option FinalId)
allocated_in search_local none = done none
allocated_in search_local (some c) =
    unwrap (get_allocated_final c search_local) >>= λ f. done (some f)

unfoldable pub try_convert_to_final : SessionSpace → LocalId → Bool → Run (Option FinalId)
try_convert_to_final s search_local include_allocated =
    get_cluster_by_local s search_local include_allocated >>= allocated_in search_local
