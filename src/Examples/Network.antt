-- ===== src/Examples/Network.antt =====
-- The theorems on the shared ledger, at ranges of two sessions.
use distributed_id_allocator.Common.{
  ◌≡◌, refl, List, [], ◌∷◌, some, sym, subst, ◌∙◌, done-injective, panicked, Run, done, ◌>>=◌,
  Result, ok, err, arith,
}
use distributed_id_allocator.Ids.Errors.{AllocatorError, cluster_collision}
use distributed_id_allocator.Compressor.{IdCompressor, new_with_session_id}
use distributed_id_allocator.Ids.Stable.{SessionId}
use distributed_id_allocator.Word.{minus_one}
use distributed_id_allocator.Ids.Space.{session_from_final}
use distributed_id_allocator.Tables.SessionSpace.{IdCluster}
use distributed_id_allocator.Compressor.Decompress.{decompress}
use distributed_id_allocator.Compressor.Finalizes.{Finalizes}
use distributed_id_allocator.Compressor.Foreign.{decompress-finalized}
use distributed_id_allocator.Ledger.{Ledger, finalize_ledger}
use distributed_id_allocator.Compressor.Finalize.{finalize_range}
use distributed_id_allocator.Compressor.Refinement.{Follows, finalize_range-Follows}
use distributed_id_allocator.Compressor.Shares.{Shares}
use distributed_id_allocator.Compressor.Deliver.{
  Range, range_of, deliver, HasRoom, NoCollision, new_with_session_id-Shares,
}
use distributed_id_allocator.Compressor.Agree.{IsAgreed, new-deliver-IsAgreed}
use distributed_id_allocator.Examples.{session_a, session_b, program}

-- Both sessions begin, the first fills its cluster and needs another, a range comes too early, and
-- the first session's last cluster, then the latest of all, grows.
abbrev ranges : List Range
ranges =
    record { session = session_a; base = 1; len = 2 }
    ∷ record { session = session_b; base = 1; len = 3 }
    ∷ record { session = session_a; base = 3; len = 600 }
    ∷ record { session = session_b; base = 900; len = 1 }
    ∷ record { session = session_a; base = 603; len = 700 }
    ∷ []

ranges-HasRoom : HasRoom 512 [] ranges
unfolding program
ranges-HasRoom = ground arith

apart_a : NoCollision (new_with_session_id session_a) ranges
unfolding program
apart_a = (refl, (refl, (refl, (refl, (refl, tt)))))

apart_b : NoCollision (new_with_session_id session_b) ranges
unfolding program
apart_b = (refl, (refl, (refl, (refl, (refl, tt)))))

new-deliver-IsAgreed_example :
    (c d : IdCompressor) × (deliver (new_with_session_id session_a) ranges ≡ done c)
    × (deliver (new_with_session_id session_b) ranges ≡ done d)
    × IsAgreed c d
new-deliver-IsAgreed_example =
    new-deliver-IsAgreed session_a session_b ranges (omega arith) (omega arith) ranges-HasRoom
      apart_a apart_b

abbrev fresh_a : IdCompressor
fresh_a = new_with_session_id session_a

fresh_a-Shares : Shares fresh_a (session_a ∷ []) []
fresh_a-Shares = new_with_session_id-Shares session_a (omega arith)

-- A range of a session that is not known yet.
finalize_range-Follows_example :
    Follows fresh_a
      (session_a ∷ session_b ∷ [])
      []
      (finalize_ledger 512 [] session_b 1 3)
      (finalize_range fresh_a (record { id = session_b; range = some (1, 3) }))
unfolding program
finalize_range-Follows_example =
    finalize_range-Follows fresh_a (session_a ∷ []) [] fresh_a-Shares session_b (omega arith) 1 3
      (omega arith) (omega arith) (omega arith) (omega arith) refl

-- A session whose identifier lies among those of the first session's cluster.
abbrev session_near : SessionId
session_near = record { id = record { id = 5100 } }

abbrev near_ranges : List Range
near_ranges =
    record { session = session_a; base = 1; len = 1 }
    ∷ record { session = session_near; base = 1; len = 1 }
    ∷ []

abbrev outcomes : IdCompressor → List Range → Run (List (Result (Unit {0}) AllocatorError))
outcomes c [] = done []
outcomes c (r ∷ rs) = finalize_range c (range_of r) >>= λ (result, c').
    outcomes c' rs >>= λ results. done (result ∷ results)

-- The first session's compressor refuses the other session's range.
near_refused : outcomes fresh_a near_ranges ≡ done (ok tt ∷ err cluster_collision ∷ [])
unfolding program
near_refused = refl

-- The other session's compressor knows its session, and refuses the first session's range.
first_refused :
    outcomes (new_with_session_id session_near) near_ranges
    ≡ done (err cluster_collision ∷ ok tt ∷ [])
unfolding program
first_refused = refl

-- The first session's compressor after the other session's first range, whose final IDs are the
-- first three.
abbrev range_b : Range
range_b = record { session = session_b; base = 1; len = 3 }

abbrev with_b : IdCompressor
with_b = elim (finalize_range fresh_a (range_of range_b)) [ panicked ↦ fresh_a | done (_, c) ↦ c ]

abbrev cluster_b : IdCluster
cluster_b = record {
  base_final_id = record { id = 0 };
  base_local_id = record { id = minus_one };
  capacity = 515;
  count = 3;
}

abbrev ledger_b : Ledger
ledger_b = record { session = session_b; cluster = cluster_b } ∷ []

with_b-Finalizes :
    Finalizes fresh_a
      (session_a ∷ session_b ∷ [])
      ledger_b
      (finalize_range fresh_a (range_of range_b))
unfolding program
with_b-Finalizes =
    finalize_range-Follows fresh_a (session_a ∷ []) [] fresh_a-Shares session_b (omega arith) 1 3
      (omega arith) (omega arith) (omega arith) (omega arith) refl

with_b-Shares : Shares with_b (session_a ∷ session_b ∷ []) ledger_b
unfolding program
with_b-Shares =
    let run : finalize_range fresh_a (range_of range_b) ≡ done (ok tt, with_b) = refl in
    let same : (ok tt, with_b-Finalizes.after) ≡ (ok tt, with_b) =
      done-injective (sym with_b-Finalizes.returns ∙ run) in
    subst (λ p. Shares p.1 (session_a ∷ session_b ∷ []) ledger_b) same with_b-Finalizes.shares

decompress-finalized_example :
    decompress with_b (session_from_final (record { id = 2 })) ≡ done (ok (record { id = 9000002 }))
unfolding program
decompress-finalized_example =
    decompress-finalized with_b (session_a ∷ session_b ∷ []) ledger_b with_b-Shares 1 session_b refl
      0 cluster_b refl 2 (omega arith)
