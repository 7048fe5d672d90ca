-- ===== src/Tables/SessionMap.antt =====
-- `BTreeMap<SessionId, SessionSpaceRef>` of Rust's standard library: entries in ascending order.
pub mod Order
use distributed_id_allocator.Common.{
  ℕ, List, [], ◌∷◌, Option, none, some, ◌&&◌, ltb, leb, ◌==◌, if◌then◌else◌,
}
use distributed_id_allocator.Ids.Stable.{SessionId, session_eq, stable_lt, stable_le}
use distributed_id_allocator.Tables.SessionSpace.{SessionSpaceRef}

abbrev pub SessionMap : Type 0
SessionMap = List (SessionId × SessionSpaceRef)

-- `BTreeMap::get`.
unfoldable pub map_get : SessionMap → SessionId → Option SessionSpaceRef
map_get [] key = none
map_get ((k, v) ∷ m) key = if session_eq k key then some v else map_get m key

-- `BTreeMap::insert` of a key that is not there.
unfoldable pub map_insert : SessionMap → SessionId → SessionSpaceRef → SessionMap
map_insert [] key value = (key, value) ∷ []
map_insert ((k, v) ∷ m) key value =
    if stable_lt key.id k.id then (key, value) ∷ (k, v) ∷ m else (k, v) ∷ map_insert m key value

-- `map.range((Excluded(low), Included(high))).rev().next()`: the last entry in the range.
unfoldable pub last_in_range :
    SessionMap → SessionId → SessionId → Option (SessionId × SessionSpaceRef)
last_in_range [] low high = none
last_in_range ((k, v) ∷ m) low high = elim (last_in_range m low high) [
  | some e ↦ some e
  | none ↦ if stable_lt low.id k.id && stable_le k.id high.id then some (k, v) else none
]
