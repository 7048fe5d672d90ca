-- ===== src/Examples/Witnesses.antt =====
-- The theorems at the compressor `used`, in which their conditions hold.
use distributed_id_allocator.Common.{
  ◌+◌, ◌-◌, ◌≡◌, refl, [], ◌∷◌, some, true, false, ◌||◌, ◌&&◌, ltb, leb, done, ok, arith,
}
use distributed_id_allocator.Word.{minus_one}
use distributed_id_allocator.Ids.Local.{LocalId, to_generation_count}
use distributed_id_allocator.Ids.Local.Generations.{IsLocal}
use distributed_id_allocator.Ids.Space.{SessionSpaceId}
use distributed_id_allocator.Tables.SessionSpace.{
  get_allocated_final, get_aligned_local, try_convert_to_final, get_cluster_by_local,
  get_cluster_by_allocated_final,
}
use distributed_id_allocator.Tables.SessionSpace.Chain.{IsCluster, IsChain}
use distributed_id_allocator.Tables.SessionSpace.Lookup.{cluster_of_local, cluster_of_final}
use distributed_id_allocator.Tables.Normalizer.Contains.{IsRange, IsNormalized}
use distributed_id_allocator.Compressor.{IdCompressor}
use distributed_id_allocator.Compressor.OwnSession.{IsOwn}
use distributed_id_allocator.Compressor.Handout.{
  id_of_generation, Generates, generate_next_id-Generates,
}
use distributed_id_allocator.Tables.SessionSpace.Lookup.{
  get_cluster_by_local-cluster_of_local, get_cluster_by_allocated_final-cluster_of_final,
}
use distributed_id_allocator.Tables.SessionSpace.Align.{
  final_of_local, try_convert_to_final-final_of_local,
}
use distributed_id_allocator.Tables.Normalizer.{contains, add_local_range}
use distributed_id_allocator.Tables.Normalizer.Contains.{covers, contains-covers}
use distributed_id_allocator.Tables.Normalizer.Add.{
  add_local_range-IsNormalized, covers-add_local_range,
}
use distributed_id_allocator.Tables.Sessions.{new_sessions, get_or_create}
use distributed_id_allocator.Tables.Sessions.Holds.{Holds, new_sessions-Holds}
use distributed_id_allocator.Tables.Sessions.Create.{ids_after, get_or_create-Holds}
use distributed_id_allocator.Compressor.{IdRange}
use distributed_id_allocator.Compressor.Normalize.{
  normalize_to_op_space, normalize_to_session_space_with_token,
}
use distributed_id_allocator.Compressor.Spaces.{
  op_of_generation, normalize_to_op_space_lem, normalize_to_session_space-op_of_generation,
}
use distributed_id_allocator.Compressor.Taken.{Takes, take_next_range-Takes}
use distributed_id_allocator.Examples.{session_a, cluster_a, space_a, used, program}

pub cluster_a-IsCluster : IsCluster cluster_a
unfolding program
cluster_a-IsCluster = record {
  base_IsLocal = omega arith;
  count_pos = omega arith;
  count_le = omega arith;
  local_fits = omega arith;
  final_fits = omega arith;
}

pub space_a-IsChain : IsChain 1 0 space_a.cluster_chain
unfolding program
space_a-IsChain = (cluster_a-IsCluster, refl, omega arith)

used-IsNormalized : IsNormalized 4 used.session_space_normalizer
unfolding program
used-IsNormalized = record {
  ranges = (record { base_IsLocal = omega arith; count_pos = omega arith; fits = omega arith }, tt);
  sorted = (tt, tt);
  below = (omega arith, tt);
}

pub used-IsOwn : IsOwn used space_a
unfolding program
used-IsOwn = record {
  own_space = refl;
  chain = space_a-IsChain;
  normalized = used-IsNormalized;
  generated_fits = omega arith;
  next_pos = omega arith;
  next_le = omega arith;
  finalized_le = λ t e. ground arith;
  eager = λ g p q e. ground arith;
}

generate_next_id-Generates_example :
    (id : SessionSpaceId) × (c' : IdCompressor) × Generates used space_a id c'
generate_next_id-Generates_example =
    generate_next_id-Generates used space_a used-IsOwn (omega arith)

-- The second generation has a final ID.
abbrev second : SessionSpaceId
second = record { id = 1 }

second-id : id_of_generation used space_a 2 ≡ some second
unfolding program
second-id = refl

normalize_to_op_space_example :
    normalize_to_op_space used second ≡ done (ok (op_of_generation space_a 2))
normalize_to_op_space_example =
    normalize_to_op_space_lem used space_a used-IsOwn 2 (omega arith) (omega arith) second second-id

normalize_to_session_space_example :
    normalize_to_session_space_with_token used (op_of_generation space_a 2) 0 ≡ done (ok second)
normalize_to_session_space_example =
    normalize_to_session_space-op_of_generation used space_a used-IsOwn 2 (omega arith)
      (omega arith) second second-id

take_next_range_example : (r : IdRange) × (c' : IdCompressor) × Takes used r c' × IsOwn c' space_a
take_next_range_example = take_next_range-Takes used space_a used-IsOwn

-- The local ID of the third generation.
abbrev third : LocalId
third = record { id = minus_one - 2 }

third-IsLocal : IsLocal third
third-IsLocal = omega arith

try_convert_to_final_example :
    try_convert_to_final space_a third true
    ≡ done (final_of_local third (cluster_of_local true third space_a.cluster_chain))
try_convert_to_final_example =
    try_convert_to_final-final_of_local space_a 1 0 space_a-IsChain third true third-IsLocal

get_cluster_by_local_example :
    get_cluster_by_local space_a third false
    ≡ done (cluster_of_local false third space_a.cluster_chain)
get_cluster_by_local_example =
    get_cluster_by_local-cluster_of_local space_a 1 0 space_a-IsChain third false third-IsLocal

get_cluster_by_allocated_final_example :
    get_cluster_by_allocated_final space_a (record { id = 2 })
    ≡ done (cluster_of_final (record { id = 2 }) space_a.cluster_chain)
get_cluster_by_allocated_final_example =
    get_cluster_by_allocated_final-cluster_of_final space_a 1 0 space_a-IsChain (record { id = 2 })

third-final : get_allocated_final cluster_a third ≡ some (record { id = 2 })
unfolding program
third-final = refl

final-third : get_aligned_local cluster_a (record { id = 2 }) ≡ some third
unfolding program
final-third = refl

contains_example :
    contains used.session_space_normalizer third
    ≡ done (covers used.session_space_normalizer.leading_locals (to_generation_count third))
contains_example =
    contains-covers 4 used.session_space_normalizer third used-IsNormalized third-IsLocal

-- The local ID of the fourth generation.
abbrev fourth : LocalId
fourth = record { id = minus_one - 3 }

fourth-IsRange : IsRange (fourth, 1)
unfolding program
fourth-IsRange = record { base_IsLocal = omega arith; count_pos = omega arith; fits = omega arith }

fourth-generation : to_generation_count fourth ≡ 4
unfolding program
fourth-generation = refl

add_local_range_example :
    IsNormalized
      (to_generation_count fourth + 1)
      (add_local_range used.session_space_normalizer fourth 1)
add_local_range_example =
    add_local_range-IsNormalized 4 used.session_space_normalizer fourth 1 used-IsNormalized
      fourth-IsRange (omega (arith, fourth-generation))

covers-add_local_range_example :
    covers (add_local_range used.session_space_normalizer fourth 1).leading_locals 4 ≡ (
      covers used.session_space_normalizer.leading_locals 4
      || (leb (to_generation_count fourth) 4 && ltb 4 (to_generation_count fourth + 1)))
covers-add_local_range_example =
    covers-add_local_range 4 used.session_space_normalizer fourth 1 used-IsNormalized fourth-IsRange
      (omega (arith, fourth-generation)) 4

get_or_create-Holds_example :
    Holds (get_or_create new_sessions session_a).1 (ids_after new_sessions [] session_a)
get_or_create-Holds_example =
    get_or_create-Holds new_sessions [] new_sessions-Holds session_a (omega arith)

opened-Holds : Holds (get_or_create new_sessions session_a).1 (session_a ∷ [])
unfolding program
opened-Holds = get_or_create-Holds new_sessions [] new_sessions-Holds session_a (omega arith)
