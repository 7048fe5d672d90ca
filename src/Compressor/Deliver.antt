-- ===== src/Compressor/Deliver.antt =====
-- A total order of ranges, delivered to a compressor: after it the compressor shares the ledger that
-- the ranges make, whichever session it has.
use distributed_id_allocator.Common.{
  ℕ, ◌+◌, ◌^◌, ◌≤◌, ◌<◌, ◌≡◌, refl, sym, ap, subst, ◌∙◌, List, [], ◌∷◌, Option, none, some, false,
  Run, done, panicked, Result, ◌>>=◌, arith,
}
use distributed_id_allocator.Ids.Errors.{AllocatorError}
use distributed_id_allocator.Ids.Stable.{SessionId}
use distributed_id_allocator.Tables.SessionMap.{map_get}
use distributed_id_allocator.Tables.Sessions.{new_sessions, get_or_create, range_collides}
use distributed_id_allocator.Tables.Sessions.Holds.{new_sessions-Holds}
use distributed_id_allocator.Tables.Sessions.Create.{ids_after}
use distributed_id_allocator.Tables.FinalSpace.{new_final_space}
use distributed_id_allocator.Ledger.{Ledger, end_final, finalize_ledger}
use distributed_id_allocator.Ledger.Opens.{get_or_create-Lays}
use distributed_id_allocator.Compressor.{IdCompressor, IdRange, new_with_session_id}
use distributed_id_allocator.Compressor.Finalize.{finalize_range}
use distributed_id_allocator.Compressor.Shares.{
  IsSameLocal-tables, IsSameLocal-trans, Shares, IsSameLocal,
}
use distributed_id_allocator.Compressor.Rejects.{base_stable, max_stable}
use distributed_id_allocator.Compressor.Refinement.{Outcome, Follows, finalize_range-Follows}

pub new_with_session_id-Shares :
    (session_id : SessionId)
    → session_id.id.id < 2 ^ 128
    → Shares (new_with_session_id session_id) (session_id ∷ []) []
unfolding new_with_session_id get_or_create map_get
new_with_session_id-Shares s wide = record {
  lays =
      get_or_create-Lays new_sessions new_final_space [] []
        (record { tables = new_sessions-Holds; spaces = λ i key e. ground arith; clusters = refl })
        s wide;
  ledger = tt;
  own = refl;
  limit = refl;
}

-- A range of a session: its first generation and its length.
pub record Range : Type 0 where
  pub session : SessionId
  pub base : ℕ
  pub len : ℕ

abbrev pub range_of : Range → IdRange
range_of r = record { id = r.session; range = some (r.base, r.len) }

-- The calls of `finalize_range`, one after the other; a refused range does not end them.
abbrev pub deliver : IdCompressor → List Range → Run IdCompressor
deliver c [] = done c
deliver c (r ∷ rs) = finalize_range c (range_of r) >>= λ (_, c'). deliver c' rs

abbrev pub ledger_or : Ledger → Option Ledger → Ledger
ledger_or l none = l
ledger_or l (some m) = m

abbrev pub deliver_ledger : ℕ → Ledger → List Range → Ledger
deliver_ledger size l [] = l
deliver_ledger size l (r ∷ rs) =
    deliver_ledger size (ledger_or l (finalize_ledger size l r.session r.base r.len)) rs

-- The ranges are not empty, and their IDs fit in an `i64` with the room of a new cluster.
abbrev pub HasRoom : ℕ → Ledger → List Range → Type 0
HasRoom size l [] = Unit {0}
HasRoom size l (r ∷ rs) =
    (r.session.id.id < 2 ^ 128)
    × (1 ≤ r.len)
    × (1 ≤ r.base)
    × (r.base + r.len + size ≤ 2 ^ 63)
    × (end_final l + r.len + size ≤ 2 ^ 63)
    × HasRoom size (ledger_or l (finalize_ledger size l r.session r.base r.len)) rs

-- No range collides with another session's clusters where it is finalized.
abbrev pub NoCollision : IdCompressor → List Range → Type 0
NoCollision c [] = Unit {0}
NoCollision c (r ∷ rs) =
    (range_collides c.sessions r.session (base_stable r.session r.base)
        (max_stable c r.session r.base r.len)
      ≡ done false)
    × elim (finalize_range c (range_of r)) [
      | panicked ↦ Unit {0}
      | done (result, c') ↦ NoCollision c' rs
    ]

-- What each outcome leaves.
pub Follows-Shares :
    (c : IdCompressor) (ids : List SessionId) (l : Ledger) (o : Option Ledger) (run : Outcome)
    → Follows c ids l o run
    → (result : Result (Unit {0}) AllocatorError) × (c' : IdCompressor) × (run ≡ done (result, c'))
      × Shares c' ids (ledger_or l o)
      × IsSameLocal c c'
Follows-Shares c ids l none run f = (_, _, f.returns, f.shares, f.same)
Follows-Shares c ids l (some m) run f = (_, _, f.returns, f.shares, f.same)

pub deliver-Shares :
    (rs : List Range) (c : IdCompressor) (ids : List SessionId) (l : Ledger)
    → Shares c ids l
    → HasRoom c.cluster_capacity l rs
    → NoCollision c rs
    → (c' : IdCompressor) × (ids' : List SessionId) × (deliver c rs ≡ done c')
      × Shares c' ids' (deliver_ledger c.cluster_capacity l rs)
      × IsSameLocal c c'
deliver-Shares [] c ids l v h n = (c, ids, refl, v, IsSameLocal-tables _ _ _ _ _)
deliver-Shares (r ∷ rs) c ids l v (wide, pos, lo, room, final_room, later) (apart, next) =
    let o : Option Ledger = finalize_ledger c.cluster_capacity l r.session r.base r.len in
    let (result, c₁, returns, shares, same) =
      Follows-Shares c (ids_after c.sessions ids r.session) l o _ (
        finalize_range-Follows c ids l v r.session wide r.base r.len pos lo room final_room
          apart) in
    let (c₂, ids₂, rest, shares₂, same₂) =
      deliver-Shares rs c₁ (ids_after c.sessions ids r.session) (ledger_or l o) shares
        (subst (λ z. HasRoom z (ledger_or l o) rs) (sym same.size) later)
        (subst (λ z. elim z [ panicked ↦ Unit {0} | done (_, d) ↦ NoCollision d rs ]) returns
          next) in
    (
      c₂,
      ids₂,
      ap (λ z. z >>= λ (_, c'). deliver c' rs) returns ∙ rest,
      subst (λ z. Shares c₂ ids₂ (deliver_ledger z (ledger_or l o) rs)) same.size shares₂,
      IsSameLocal-trans same same₂,
    )
