-- ===== src/Tables/Normalizer.antt =====
-- tables/session_space_normalizer.rs: the ranges of local IDs that were handed out as local IDs.
pub mod Contains
pub mod Add
use Prim.Native.Nat.{Ordering}
use distributed_id_allocator.Common.{
  ℕ, ◌+◌, ◌-◌, List, [], ◌∷◌, ◌++◌, Option, none, some, Bool, true, false, Run, done, Result, ok,
  err, ◌>>=◌, length, get_last?, set_last, if◌then◌else◌,
}
use distributed_id_allocator.Word.{add_u64, sub_u64}
use distributed_id_allocator.Ids.Local.{LocalId, local_sub, local_lt, local_eq}
use distributed_id_allocator.Search.{binary_search_by}

pub record SessionSpaceNormalizer : Type 0 where
  pub leading_locals : List (LocalId × ℕ)

-- `SessionSpaceNormalizer::new`.
abbrev pub new_normalizer : SessionSpaceNormalizer
new_normalizer = record { leading_locals = [] }

-- `last_mut` and the update through it: the last range grows if the new one follows it.
unfoldable pub add_local_range : SessionSpaceNormalizer → LocalId → ℕ → SessionSpaceNormalizer
add_local_range n base_local count =
    let ranges = n.leading_locals in
    let pushed : SessionSpaceNormalizer = record {
      leading_locals = ranges ++ ((base_local, count) ∷ []);
    } in
    elim (get_last? ranges) [
      | none ↦ pushed
      | some (last_local, last_count) ↦
          if local_eq (local_sub last_local last_count) base_local
          then record { leading_locals = set_last ranges (last_local, add_u64 last_count count) }
          else pushed
    ]

-- The order that `contains` searches by.
unfoldable pub compare_range : LocalId → LocalId × ℕ → Ordering
compare_range query (current_local, current_count) =
    if local_lt current_local query
    then Ordering.gt
    else if local_lt query (local_sub current_local (sub_u64 current_count 1))
    then Ordering.lt
    else Ordering.eq

abbrev pub is_ok : Result ℕ ℕ → Bool
is_ok (ok _) = true
is_ok (err _) = false

unfoldable pub contains : SessionSpaceNormalizer → LocalId → Run Bool
contains n query = do
  found ← binary_search_by n.leading_locals (λ r. done (compare_range query r))
  done (is_ok found)
