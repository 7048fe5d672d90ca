-- ===== src/Compressor/Separated.antt =====
-- The agreement of two compressors, with conditions on the ranges and the sessions alone.
use distributed_id_allocator.Common.{
  ◌<◌, ◌^◌, ◌≡◌, sym, subst, List, [], ◌∷◌, Option, done, arith, All, All-imp, All-append, Sorted,
  Option-cases, inl, inr,
}
use distributed_id_allocator.Ids.Stable.{SessionId}
use distributed_id_allocator.Tables.SessionMap.{map_get}
use distributed_id_allocator.Tables.Sessions.Create.{ids_after}
use distributed_id_allocator.Ledger.{Ledger, finalize_ledger}
use distributed_id_allocator.Compressor.{IdCompressor, new_with_session_id}
use distributed_id_allocator.Compressor.Shares.{Shares}
use distributed_id_allocator.Compressor.Refinement.{finalize_range-Follows}
use distributed_id_allocator.Compressor.Deliver.{
  Range, deliver, ledger_or, HasRoom, NoCollision, Follows-Shares, new_with_session_id-Shares,
}
use distributed_id_allocator.Compressor.Agree.{IsAgreed, new-deliver-IsAgreed}
use distributed_id_allocator.Compressor.Spread.{IsSpaced, IsSpaced-sym, range_collides-spaced}

abbrev pub sessions_of : List Range → List SessionId
sessions_of [] = []
sessions_of (r ∷ rs) = r.session ∷ sessions_of rs

-- The identifiers leave the top six bits free, and each two are the same or far apart.
abbrev pub IsSpread : List SessionId → Type 0
IsSpread keys = Sorted IsSpaced keys × All (λ k. k.id.id < 2 ^ 122) keys

-- Each session that is known is apart from those of the ranges to come.
abbrev IsClear : List SessionId → List Range → Type 0
IsClear ids rs = All (λ k. All (IsSpaced k) (sessions_of rs)) ids

after-IsClear :
    (c : IdCompressor) (ids : List SessionId) (r : Range) (rs : List Range)
    → IsClear ids (r ∷ rs)
    → All (IsSpaced r.session) (sessions_of rs)
    → IsClear (ids_after c.sessions ids r.session) rs
after-IsClear c ids r rs clear spaced =
    let old : IsClear ids rs = All-imp ids (λ k p. p.1) clear in
    elim (Option-cases (map_get c.sessions.session_map r.session)) [
      | inl n ↦
          rw (ids_after, n)
            (All-append (λ k. All (IsSpaced k) (sessions_of rs)) ids (r.session ∷ []) old
              (spaced, tt))
      | inr (s, n) ↦ rw (ids_after, n) old
    ]

NoCollision-spread :
    (rs : List Range) (c : IdCompressor) (ids : List SessionId) (l : Ledger)
    → Shares c ids l
    → HasRoom c.cluster_capacity l rs
    → IsSpread (sessions_of rs)
    → IsClear ids rs
    → NoCollision c rs
NoCollision-spread [] c ids l v h spread clear = tt
NoCollision-spread (r ∷ rs) c ids l v (wide, pos, lo, room, final_room, later) spread clear =
    let o : Option Ledger = finalize_ledger c.cluster_capacity l r.session r.base r.len in
    let apart =
      range_collides-spaced c ids l v r.session spread.1.0
        (All-imp ids (λ k p. IsSpaced-sym k r.session p.0) clear) r.base r.len lo room in
    let (result, c₁, returns, shares, same) =
      Follows-Shares c (ids_after c.sessions ids r.session) l o _ (
        finalize_range-Follows c ids l v r.session wide r.base r.len pos lo room final_room
          apart) in
    (
      apart,
      rw (returns) (
          NoCollision-spread rs c₁ (ids_after c.sessions ids r.session) (ledger_or l o) shares
            (subst (λ z. HasRoom z (ledger_or l o) rs) (sym same.size) later)
            (spread.0.1, spread.1.1) (after-IsClear c ids r rs clear spread.0.0)),
    )

-- Two new compressors, of any two sessions, that finalize the same ranges in the same order both
-- get through without a panic, and afterwards they hold the same clusters for each session that
-- both know and have the same limit of final IDs, if for each compressor the identifiers of its
-- session and of the ranges' sessions are below 2 ^ 122 and each two of them are the same or at
-- least 2 ^ 64 apart. The ranges may be refused, but none is empty, and each stays with the room
-- for a new cluster within an `i64`.
pub spread-deliver-IsAgreed :
    (a b : SessionId) (rs : List Range)
    → HasRoom 512 [] rs
    → IsSpread (a ∷ sessions_of rs)
    → IsSpread (b ∷ sessions_of rs)
    → (c d : IdCompressor) × (deliver (new_with_session_id a) rs ≡ done c)
      × (deliver (new_with_session_id b) rs ≡ done d)
      × IsAgreed c d
unfolding new_with_session_id
spread-deliver-IsAgreed a b rs room p q =
    let wide_a : a.id.id < 2 ^ 128 = omega (arith, p.1.0) in
    let wide_b : b.id.id < 2 ^ 128 = omega (arith, q.1.0) in
    new-deliver-IsAgreed a b rs wide_a wide_b room
      (NoCollision-spread rs (new_with_session_id a) (a ∷ []) []
        (new_with_session_id-Shares a wide_a) room (p.0.1, p.1.1) (p.0.0, tt))
      (NoCollision-spread rs (new_with_session_id b) (b ∷ []) []
        (new_with_session_id-Shares b wide_b) room (q.0.1, q.1.1) (q.0.0, tt))
