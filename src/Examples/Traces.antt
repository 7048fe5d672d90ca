-- ===== src/Examples/Traces.antt =====
-- The theorems on sequences of steps, from the compressor `used` on, on its stable IDs and on a range out of order.
use distributed_id_allocator.Common.{
  ℕ, zero, suc, get_elem?, ◌≡◌, refl, List, [], ◌∷◌, some, ◌&&◌, done, if◌then◌else◌, leb, ltb,
  arith,
}
use distributed_id_allocator.Tables.SessionSpace.{IdCluster}
use distributed_id_allocator.Compressor.{IdCompressor, IdRange}
use distributed_id_allocator.Compressor.OwnSession.{IsOwn}
use distributed_id_allocator.Compressor.Handout.{id_of_generation}
use distributed_id_allocator.Compressor.Trace.{
  Event, handed, took, Trace, start, generate, take, times_taken, trace-IsOwn, times_taken_lem,
}
use distributed_id_allocator.Tables.FinalSpace.{final_search}
use distributed_id_allocator.Tables.FinalSpace.Locate.{
  IsFinalSpace, first_final, final_capacity, final_search-find_interval,
}
use distributed_id_allocator.Search.Intervals.{find_interval}
use distributed_id_allocator.Common.{err}
use distributed_id_allocator.Ids.Errors.{range_finalized_out_of_order}
use distributed_id_allocator.Compressor.Finalize.{finalize_range}
use distributed_id_allocator.Compressor.Rejects.{finalize_range_out_of_order}
use distributed_id_allocator.Compressor.Uuids.{IsPlaced}
use distributed_id_allocator.Examples.{cluster_a, session_a, space_a, used, program}
use distributed_id_allocator.Examples.Witnesses.{cluster_a-IsCluster, used-IsOwn}

-- An ID is generated, a range is taken, and another ID is generated.
abbrev used₁ : IdCompressor
used₁ = record used {
  generated_id_count = 4;
  telemetry_stats = record used.telemetry_stats { eager_final_count = 3 };
}

abbrev used₂ : IdCompressor
used₂ = record used₁ { next_range_base_generation_count = 5 }

abbrev used₃ : IdCompressor
used₃ = record used₂ {
  generated_id_count = 5;
  telemetry_stats = record used.telemetry_stats { eager_final_count = 4 };
}

abbrev range_a : IdRange
range_a = record { id = session_a; range = some (2, 3) }

abbrev events : List Event
events = handed (record { id = 4 }) ∷ took range_a ∷ handed (record { id = 3 }) ∷ []

three_steps : Trace used events used₃
unfolding program
three_steps =
    generate (record { id = 4 }) (take range_a (generate (record { id = 3 }) start refl) refl) refl

times_taken_example : times_taken events 4 ≡ (
    if leb used.next_range_base_generation_count 4 && ltb 4 used₃.next_range_base_generation_count
    then 1
    else 0)
times_taken_example = times_taken_lem used space_a used-IsOwn (omega arith) three_steps 4

used-IsFinalSpace : IsFinalSpace used.sessions used.final_space
unfolding program
used-IsFinalSpace = record {
  leads = ((cluster_a, refl, cluster_a-IsCluster), tt);
  sorted = (tt, tt);
}

used-IsPlaced : IsPlaced used space_a
unfolding program
used-IsPlaced = record { final_valid = used-IsFinalSpace; session = refl; refers = placed }
  where
    placed :
        (i : ℕ) (k : IdCluster)
        → get_elem? space_a.cluster_chain i ≡ some k
        → (j : ℕ) × (get_elem? used.final_space.clusters j
            ≡ some (record { session_space_ref = used.local_session_ref; cluster_chain_index = i }))
    placed zero k e = (0, refl)
    placed (suc i) k e = ground arith

final_search_example :
    final_search used.final_space (record { id = 2 }) used.sessions
    ≡ done (
        find_interval
          (first_final used.sessions)
          (final_capacity used.sessions)
          2
          used.final_space.clusters)
final_search_example =
    final_search-find_interval used.sessions used.final_space used-IsFinalSpace (record { id = 2 })

id_of_third : id_of_generation used space_a 3 ≡ some (record { id = 2 })
unfolding program
id_of_third = refl

-- The cluster's next range begins at the second generation, not at the third.
out_of_order_example :
    finalize_range used (record { id = session_a; range = some (3, 1) })
    ≡ done (err range_finalized_out_of_order, used)
unfolding program
out_of_order_example =
    finalize_range_out_of_order used session_a 3 1 (omega arith) (record { index = 0 }) space_a
      cluster_a cluster_a refl refl refl refl cluster_a-IsCluster refl (omega arith) (omega arith)
      (λ e. omega (arith, e))

used₂-IsOwn : IsOwn used₂ space_a
unfolding program
used₂-IsOwn =
    trace-IsOwn used space_a used-IsOwn (omega arith)
      (take range_a (generate (record { id = 3 }) start refl) refl)
