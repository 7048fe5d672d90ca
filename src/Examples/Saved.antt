-- ===== src/Examples/Saved.antt =====
-- The theorems on a compressor that is written and read, at the compressor `used`.
use distributed_id_allocator.Common.{
  ◌++◌, ℕ, ◌≡◌, refl, List, [], ◌∷◌, true, false, done, ok, err, panicked, arith, inl, sym, subst,
  ◌∙◌, done-injective,
}
use distributed_id_allocator.Ids.Stable.{StableId}
use distributed_id_allocator.Ids.Local.{from_generation_count}
use distributed_id_allocator.Ids.Space.{session_from_final}
use distributed_id_allocator.Tables.SessionSpace.Lookup.{cluster_of_local}
use distributed_id_allocator.Tables.Sessions.{new_sessions, get_or_create, get_containing_cluster}
use distributed_id_allocator.Tables.FinalSpace.{new_final_space}
use distributed_id_allocator.Ledger.{Ledger, IsLedger}
use distributed_id_allocator.Ledger.Writes.{cons-Lays}
use distributed_id_allocator.Compressor.{empty_stats, IdCompressor, new_with_session_id}
use distributed_id_allocator.Compressor.Equals.{equals_test_only}
use distributed_id_allocator.Compressor.Equals.Shared.{equals_test_only-Shares}
use distributed_id_allocator.Compressor.Finalize.{finalize_range}
use distributed_id_allocator.Compressor.Finalizes.{Finalizes}
use distributed_id_allocator.Compressor.Refinement.{finalize_range-Follows}
use distributed_id_allocator.Compressor.Shares.{Shares}
use distributed_id_allocator.Compressor.Deliver.{Range, range_of, new_with_session_id-Shares}
use distributed_id_allocator.Compressor.Decompress.{decompress, recompress}
use distributed_id_allocator.Compressor.Life.{IsMember}
use distributed_id_allocator.Compressor.Containing.{stable_of, held_by, get_containing_cluster_lem}
use distributed_id_allocator.Compressor.Recompress.{recompress-decompress}
use distributed_id_allocator.Persistence.Truncated.{deserialize-append}
use distributed_id_allocator.Persistence.Write.{serialize}
use distributed_id_allocator.Persistence.Read.{invalid_resumed_session, deserialize}
use distributed_id_allocator.Persistence.RoundTrip.{
  IsWritable, Restores, deserialize-serialize, serialize-equals_test_only,
}
use distributed_id_allocator.Persistence.Resumed.{
  Resumes, deserialize-serialize_without_local, deserialize_resumed,
}
use distributed_id_allocator.Examples.Runs.{number_crate}
use distributed_id_allocator.Examples.Witnesses.{used-IsOwn, cluster_a-IsCluster}
use distributed_id_allocator.Examples.{session_a, session_b, cluster_a, used, program}

abbrev ledger_a : Ledger
ledger_a = record { session = session_a; cluster = cluster_a } ∷ []

ledger_a-IsLedger : IsLedger ledger_a
unfolding program
ledger_a-IsLedger = (cluster_a-IsCluster, refl, refl, tt, tt)

used-Shares : Shares used (session_a ∷ []) ledger_a
unfolding program
used-Shares = record {
  lays =
      cons-Lays (get_or_create new_sessions session_a).1 new_final_space (session_a ∷ []) []
        (new_with_session_id-Shares session_a (omega arith)).lays 0 session_a refl cluster_a;
  ledger = ledger_a-IsLedger;
  own = refl;
  limit = refl;
}

used-IsWritable : IsWritable used []
used-IsWritable = record {
  few_sessions = omega arith;
  few_ranges = omega arith;
  session_fits = omega arith;
  capacity_fits = omega arith;
}

deserialize-serialize_example :
    (bytes : List ℕ) × (d : IdCompressor) × (serialize used true ≡ done bytes)
    × (deserialize number_crate session_b bytes ≡ done (ok d))
    × Restores used [] ledger_a d
deserialize-serialize_example =
    deserialize-serialize number_crate session_b used [] ledger_a used-Shares used-IsOwn refl
      used-IsWritable

deserialize-serialize_without_local_example :
    (bytes : List ℕ) × (d : IdCompressor) × (serialize used false ≡ done bytes)
    × (deserialize number_crate session_b bytes ≡ done (ok d))
    × Resumes session_b used (session_a ∷ []) ledger_a d
deserialize-serialize_without_local_example =
    deserialize-serialize_without_local number_crate session_b used [] ledger_a used-Shares
      used-IsOwn (omega arith) (omega arith) (refl, tt) (omega arith)

deserialize_resumed_example :
    (bytes : List ℕ) × (serialize used false ≡ done bytes)
    × (deserialize number_crate session_a bytes ≡ done (err invalid_resumed_session))
deserialize_resumed_example =
    deserialize_resumed number_crate session_a used [] ledger_a used-Shares used-IsOwn (omega arith)
      (omega arith) 0 refl

used-IsMember : IsMember used ledger_a
unfolding program
used-IsMember = record { known = session_a ∷ []; shares = used-Shares; own = used-IsOwn }

-- The third generation's ID is a final ID.
recompress-decompress_example :
    (s : StableId) × (decompress used (session_from_final (record { id = 2 })) ≡ done (ok s))
    × (recompress used s ≡ done (ok (session_from_final (record { id = 2 }))))
unfolding program used-IsMember
recompress-decompress_example =
    recompress-decompress used ledger_a used-IsMember (omega arith) (omega arith) (inl refl, tt) 3
      (omega arith) (omega arith) (session_from_final (record { id = 2 })) refl

get_containing_cluster_example :
    get_containing_cluster used.sessions (stable_of session_a 3)
    ≡ done (
        held_by
          (record { index = 0 })
          (from_generation_count 3)
          (cluster_of_local true (from_generation_count 3) (cluster_a ∷ [])))
unfolding program
get_containing_cluster_example =
    get_containing_cluster_lem used (session_a ∷ []) ledger_a used-Shares 0 session_a refl
      (omega arith) (omega arith) (inl refl, tt) 3 (omega arith) (omega arith)

-- The other session's compressor, after it finalized the first session's range.
abbrev fresh_b : IdCompressor
fresh_b = new_with_session_id session_b

abbrev range_a : Range
range_a = record { session = session_a; base = 1; len = 1 }

abbrev with_a : IdCompressor
with_a = elim (finalize_range fresh_b (range_of range_a)) [ panicked ↦ fresh_b | done (_, c) ↦ c ]

with_a-Finalizes :
    Finalizes fresh_b
      (session_b ∷ session_a ∷ [])
      ledger_a
      (finalize_range fresh_b (range_of range_a))
unfolding program
with_a-Finalizes =
    finalize_range-Follows fresh_b (session_b ∷ []) []
      (new_with_session_id-Shares session_b (omega arith)) session_a (omega arith) 1 1 (omega arith)
      (omega arith) (omega arith) (omega arith) refl

with_a-Shares : Shares with_a (session_b ∷ session_a ∷ []) ledger_a
unfolding program
with_a-Shares =
    let run : finalize_range fresh_b (range_of range_a) ≡ done (ok tt, with_a) = refl in
    let same : (ok tt, with_a-Finalizes.after) ≡ (ok tt, with_a) =
      done-injective (sym with_a-Finalizes.returns ∙ run) in
    subst (λ p. Shares p.1 (session_b ∷ session_a ∷ []) ledger_a) same with_a-Finalizes.shares

equals_test_only_example : equals_test_only used with_a false ≡ done true
unfolding program
equals_test_only_example =
    equals_test_only-Shares used with_a (session_a ∷ []) (session_b ∷ session_a ∷ []) ledger_a
      used-Shares with_a-Shares refl

-- The two are not equal with their local state.
with_a-differs : equals_test_only used with_a true ≡ done false
unfolding program
with_a-differs = refl

serialize-equals_test_only_example :
    (bytes : List ℕ) × (d : IdCompressor) × (serialize used true ≡ done bytes)
    × (deserialize number_crate session_b bytes ≡ done (ok d))
    × (equals_test_only used d true ≡ done true)
serialize-equals_test_only_example =
    serialize-equals_test_only number_crate session_b used [] ledger_a used-Shares used-IsOwn refl
      used-IsWritable

-- The bytes of `used`, and what is read from them.
abbrev used_bytes : List ℕ
used_bytes = elim (serialize used true) [ done bytes ↦ bytes | panicked ↦ [] ]

abbrev read_back : IdCompressor
read_back = record used { telemetry_stats = empty_stats }

deserialize-append_example :
    deserialize number_crate session_b (used_bytes ++ (7 ∷ 9 ∷ [])) ≡ done (ok read_back)
unfolding program
deserialize-append_example =
    deserialize-append (7 ∷ 9 ∷ []) number_crate session_b used_bytes (ok read_back) refl
