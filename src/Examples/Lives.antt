-- ===== src/Examples/Lives.antt =====
-- A life of the first session's compressor, for the theorems on lives.
use distributed_id_allocator.Common.{
  ℕ, ◌+◌, ◌-◌, ◌^◌, ◌≤◌, ◌<◌, ◌≡◌, ◌≢◌, refl, List, [], ◌∷◌, some, true, Run, done, panicked, ok,
  Sorted, length, arith,
}
use distributed_id_allocator.Word.{minus_one}
use distributed_id_allocator.Ids.Final.{FinalId}
use distributed_id_allocator.Ids.Local.{from_generation_count}
use distributed_id_allocator.Ids.Space.{SessionSpaceId, IsFinal, op_from_final}
use distributed_id_allocator.Tables.SessionSpace.Lookup.{cluster_of_local}
use distributed_id_allocator.Tables.SessionSpace.Align.{final_of_local}
use distributed_id_allocator.Compressor.{IdCompressor, new_with_session_id}
use distributed_id_allocator.Compressor.Allocate.{generate_next_id, take_next_range}
use distributed_id_allocator.Compressor.Finalize.{finalize_range}
use distributed_id_allocator.Compressor.Normalize.{normalize_to_op_space}
use distributed_id_allocator.Compressor.Handout.{id_of_generation}
use distributed_id_allocator.Compressor.Taken.{new_with_session_id-IsOwn}
use distributed_id_allocator.Compressor.Deliver.{Range, range_of, new_with_session_id-Shares}
use distributed_id_allocator.Compressor.Network.{space_in}
use distributed_id_allocator.Compressor.Delivers.{IsDeliverable, after_range}
use distributed_id_allocator.Compressor.Life.{
  Action, handed, took, delivered, Life, born, generate, take, finalize, ids_of, IsMember,
  life-IsMember, ids_of-distinct,
}
use distributed_id_allocator.Compressor.Stables.{IsStable, ids_of-IsStable}
use distributed_id_allocator.Compressor.Finals.{finalize_range-IsFinal}
use distributed_id_allocator.Ledger.{Ledger, chain_of}
use distributed_id_allocator.Examples.{session_a, session_b, program}

abbrev born_a : IdCompressor
born_a = new_with_session_id session_a

born_a-IsMember : IsMember born_a []
unfolding program
born_a-IsMember = record {
  known = session_a ∷ [];
  shares = new_with_session_id-Shares session_a (omega arith);
  own = new_with_session_id-IsOwn session_a;
}

-- The compressor after a call.
abbrev state_after : {A : Type 0} → IdCompressor → Run (A × IdCompressor) → IdCompressor
state_after c panicked = c
state_after c (done (_, d)) = d

abbrev one : IdCompressor
one = state_after born_a (generate_next_id born_a)

abbrev two : IdCompressor
two = state_after one (generate_next_id one)

abbrev sent : IdCompressor
sent = (take_next_range two).1

abbrev own_range : Range
own_range = record { session = session_a; base = 1; len = 2 }

abbrev other_range : Range
other_range = record { session = session_b; base = 1; len = 3 }

abbrev acknowledged : IdCompressor
acknowledged = state_after sent (finalize_range sent (range_of own_range))

abbrev three : IdCompressor
three = state_after acknowledged (generate_next_id acknowledged)

abbrev last : IdCompressor
last = state_after three (finalize_range three (range_of other_range))

abbrev first_ledger : Ledger
first_ledger = after_range sent [] own_range

abbrev last_ledger : Ledger
last_ledger = after_range three first_ledger other_range

abbrev own_actions : List Action
own_actions =
    took (range_of own_range)
    ∷ handed (record { id = minus_one - 1 })
    ∷ handed (record { id = minus_one })
    ∷ []

abbrev actions : List Action
actions = delivered other_range ∷ handed (record { id = 2 }) ∷ delivered own_range ∷ own_actions

own_range-IsDeliverable : IsDeliverable sent [] own_range
unfolding program
own_range-IsDeliverable = record {
  wide = omega arith;
  not_empty = omega arith;
  starts = omega arith;
  room = omega arith;
  final_room = omega arith;
  apart = refl;
  taken = λ e. omega arith;
}

other_range-IsDeliverable : IsDeliverable three first_ledger other_range
unfolding program
other_range-IsDeliverable = record {
  wide = omega arith;
  not_empty = omega arith;
  starts = omega arith;
  room = omega arith;
  final_room = omega arith;
  apart = refl;
  taken = λ e. ground arith;
}

until_sent : Life born_a [] own_actions sent []
unfolding program
until_sent =
    take (range_of own_range)
      (generate (record { id = minus_one - 1 }) (generate (record { id = minus_one }) born refl)
        refl)
      refl

until_last : Life born_a [] actions last last_ledger
unfolding program
until_last =
    finalize other_range (ok tt)
      (generate (record { id = 2 })
        (finalize own_range (ok tt) until_sent own_range-IsDeliverable refl) refl)
      other_range-IsDeliverable refl

few : born_a.generated_id_count + length actions < 2 ^ 63
unfolding program
few = omega arith

life-IsMember_example : IsMember last last_ledger
life-IsMember_example =
    life-IsMember born_a [] born_a-IsMember {acts = actions} {d = last} {m = last_ledger} few
      until_last

ids_of-distinct_example : Sorted (λ x y. x ≢ y) (ids_of actions)
ids_of-distinct_example =
    ids_of-distinct born_a [] born_a-IsMember {acts = actions} {d = last} {m = last_ledger} few
      until_last

-- The ID handed out last, which is the third.
ids_of-IsStable_example : IsStable born_a.session_id last 2 (record { id = 2 })
unfolding program
ids_of-IsStable_example =
    ids_of-IsStable born_a [] born_a-IsMember {acts = actions} {d = last} {m = last_ledger} few
      until_last 0 (record { id = 2 }) refl

sent-IsMember : IsMember sent []
unfolding program
sent-IsMember =
    life-IsMember born_a [] born_a-IsMember {acts = own_actions} {d = sent} {m = []} (omega arith)
      until_sent

finalize_range-IsFinal_example :
    (d : IdCompressor) × (finalize_range sent (range_of own_range) ≡ done (ok tt, d))
    × ((g : ℕ) (id : SessionSpaceId)
        → 1 ≤ g
        → g < 3
        → id_of_generation sent (space_in sent []) g ≡ some id
        → (f : FinalId) × (final_of_local (from_generation_count g) (
              cluster_of_local true
                (from_generation_count g)
                (chain_of sent.session_id first_ledger))
            ≡ some f)
          × IsFinal f
          × (normalize_to_op_space d id ≡ done (ok (op_from_final f))))
unfolding program
finalize_range-IsFinal_example =
    finalize_range-IsFinal sent [] first_ledger sent-IsMember own_range own_range-IsDeliverable refl
      refl
