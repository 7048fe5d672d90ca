-- ===== src/Examples/Apart.antt =====
-- The theorems on sessions whose identifiers are far apart.
use distributed_id_allocator.Common.{
  ◌^◌, ◌≡◌, refl, List, [], ◌∷◌, false, done, ok, arith, inl, inr, done-injective, sym, subst, ◌∙◌,
  panicked,
}
use distributed_id_allocator.Word.{minus_one}
use distributed_id_allocator.Ids.Stable.{SessionId, StableId}
use distributed_id_allocator.Ids.Space.{session_from_final}
use distributed_id_allocator.Tables.SessionSpace.{IdCluster}
use distributed_id_allocator.Tables.Sessions.{range_collides}
use distributed_id_allocator.Ledger.{Ledger}
use distributed_id_allocator.Compressor.{IdCompressor, new_with_session_id}
use distributed_id_allocator.Compressor.Decompress.{decompress, recompress}
use distributed_id_allocator.Compressor.Finalize.{finalize_range}
use distributed_id_allocator.Compressor.Finalizes.{Finalizes}
use distributed_id_allocator.Compressor.Refinement.{finalize_range-Follows}
use distributed_id_allocator.Compressor.Rejects.{base_stable, max_stable}
use distributed_id_allocator.Compressor.Shares.{Shares}
use distributed_id_allocator.Compressor.Deliver.{
  Range, range_of, deliver, HasRoom, new_with_session_id-Shares,
}
use distributed_id_allocator.Compressor.Agree.{IsAgreed}
use distributed_id_allocator.Compressor.Spread.{range_collides-spaced}
use distributed_id_allocator.Compressor.Separated.{IsSpread, sessions_of, spread-deliver-IsAgreed}
use distributed_id_allocator.Compressor.Recompress.{recompress-decompress_foreign}
use distributed_id_allocator.Examples.{session_a, program}

abbrev session_far : SessionId
session_far = record { id = record { id = 2 ^ 70 } }

abbrev ranges : List Range
ranges =
    record { session = session_a; base = 1; len = 2 }
    ∷ record { session = session_far; base = 1; len = 3 }
    ∷ record { session = session_a; base = 3; len = 600 }
    ∷ record { session = session_far; base = 900; len = 1 }
    ∷ []

ranges-HasRoom : HasRoom 512 [] ranges
unfolding program
ranges-HasRoom = ground arith

first-IsSpread : IsSpread (session_a ∷ sessions_of ranges)
first-IsSpread = (
  (
    (inl refl, (inr (inl (omega arith)), (inl refl, (inr (inl (omega arith)), tt)))),
    (
      (inr (inl (omega arith)), (inl refl, (inr (inl (omega arith)), tt))),
      ((inr (inr (omega arith)), (inl refl, tt)), ((inr (inl (omega arith)), tt), (tt, tt))),
    ),
  ),
  (omega arith, (omega arith, (omega arith, (omega arith, (omega arith, tt))))),
)

far-IsSpread : IsSpread (session_far ∷ sessions_of ranges)
far-IsSpread = (
  (
    (inr (inr (omega arith)), (inl refl, (inr (inr (omega arith)), (inl refl, tt)))),
    (
      (inr (inl (omega arith)), (inl refl, (inr (inl (omega arith)), tt))),
      ((inr (inr (omega arith)), (inl refl, tt)), ((inr (inl (omega arith)), tt), (tt, tt))),
    ),
  ),
  (omega arith, (omega arith, (omega arith, (omega arith, (omega arith, tt))))),
)

spread-deliver-IsAgreed_example :
    (c d : IdCompressor) × (deliver (new_with_session_id session_a) ranges ≡ done c)
    × (deliver (new_with_session_id session_far) ranges ≡ done d)
    × IsAgreed c d
spread-deliver-IsAgreed_example =
    spread-deliver-IsAgreed session_a session_far ranges ranges-HasRoom first-IsSpread far-IsSpread

abbrev fresh : IdCompressor
fresh = new_with_session_id session_a

fresh-Shares : Shares fresh (session_a ∷ []) []
fresh-Shares = new_with_session_id-Shares session_a (omega arith)

range_collides-spaced_example :
    range_collides fresh.sessions session_far
      (base_stable session_far 1)
      (max_stable fresh session_far 1 3)
    ≡ done false
unfolding program
range_collides-spaced_example =
    range_collides-spaced fresh (session_a ∷ []) [] fresh-Shares session_far (omega arith)
      (inr (inr (omega arith)), tt) 1 3 (omega arith) (omega arith)

abbrev range_far : Range
range_far = record { session = session_far; base = 1; len = 3 }

abbrev with_far : IdCompressor
with_far = elim (finalize_range fresh (range_of range_far)) [ panicked ↦ fresh | done (_, c) ↦ c ]

abbrev cluster_far : IdCluster
cluster_far = record {
  base_final_id = record { id = 0 };
  base_local_id = record { id = minus_one };
  capacity = 515;
  count = 3;
}

abbrev ledger_far : Ledger
ledger_far = record { session = session_far; cluster = cluster_far } ∷ []

with_far-Finalizes :
    Finalizes fresh
      (session_a ∷ session_far ∷ [])
      ledger_far
      (finalize_range fresh (range_of range_far))
unfolding program
with_far-Finalizes =
    finalize_range-Follows fresh (session_a ∷ []) [] fresh-Shares session_far (omega arith) 1 3
      (omega arith) (omega arith) (omega arith) (omega arith) refl

with_far-Shares : Shares with_far (session_a ∷ session_far ∷ []) ledger_far
unfolding program
with_far-Shares =
    let run : finalize_range fresh (range_of range_far) ≡ done (ok tt, with_far) = refl in
    let same : (ok tt, with_far-Finalizes.after) ≡ (ok tt, with_far) =
      done-injective (sym with_far-Finalizes.returns ∙ run) in
    subst (λ p. Shares p.1 (session_a ∷ session_far ∷ []) ledger_far) same with_far-Finalizes.shares

recompress-decompress_foreign_example :
    (s : StableId) × (decompress with_far (session_from_final (record { id = 2 })) ≡ done (ok s))
    × (recompress with_far s ≡ done (ok (session_from_final (record { id = 2 }))))
unfolding program
recompress-decompress_foreign_example =
    recompress-decompress_foreign with_far (session_a ∷ session_far ∷ []) ledger_far with_far-Shares
      1 session_far refl refl (omega arith) (omega arith) (inr (inr (omega arith)), (inl refl, tt))
      0 cluster_far refl 2 (omega arith)
