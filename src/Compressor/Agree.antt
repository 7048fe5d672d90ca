-- ===== src/Compressor/Agree.antt =====
-- Two compressors that share a ledger, and the same ranges delivered to both.
use distributed_id_allocator.Common.{◌<◌, ◌^◌, ◌≡◌, refl, sym, ◌∙◌, List, [], ◌∷◌, some, done}
use distributed_id_allocator.Ids.Stable.{SessionId}
use distributed_id_allocator.Tables.SessionSpace.{SessionSpaceRef}
use distributed_id_allocator.Tables.Sessions.{Sessions, sessions_get, deref_session_space}
use distributed_id_allocator.Tables.FinalSpace.{FinalSpace}
use distributed_id_allocator.Ledger.{Ledger, chain_of}
use distributed_id_allocator.Ledger.Lays.{Lays}
use distributed_id_allocator.Compressor.{IdCompressor, new_with_session_id}
use distributed_id_allocator.Compressor.Shares.{Shares}
use distributed_id_allocator.Compressor.Deliver.{
  Range, deliver, deliver_ledger, HasRoom, NoCollision, deliver-Shares, new_with_session_id-Shares,
}

-- The two know the same clusters of each session that both know, and the same limit.
pub record IsAgreed (c d : IdCompressor) : Type 0 where
  pub spaces :
      (key : SessionId) (r q : SessionSpaceRef)
      → sessions_get c.sessions key ≡ some r
      → sessions_get d.sessions key ≡ some q
      → deref_session_space c.sessions r ≡ deref_session_space d.sessions q
  pub limit : c.final_id_limit ≡ d.final_id_limit

-- A known session's space holds its chain.
space_of-Lays :
    (s : Sessions) (f : FinalSpace) (ids : List SessionId) (l : Ledger)
    → Lays s f ids l
    → (key : SessionId) (r : SessionSpaceRef) → sessions_get s key ≡ some r
    → deref_session_space s r ≡ done (record { cluster_chain = chain_of key l })
unfolding sessions_get deref_session_space
space_of-Lays s f ids l v key r e = rw (v.spaces r.index key (v.tables.refers key r e)) refl

Shares-IsAgreed :
    (c d : IdCompressor) (ids js : List SessionId) (l : Ledger)
    → Shares c ids l
    → Shares d js l
    → IsAgreed c d
Shares-IsAgreed c d ids js l v w = record {
  spaces = λ key r q e f.
      space_of-Lays c.sessions c.final_space ids l v.lays key r e
      ∙ sym (space_of-Lays d.sessions d.final_space js l w.lays key q f);
  limit = v.limit ∙ sym w.limit;
}

-- Two new compressors, of any two sessions, that finalize the same ranges in the same order both
-- get through without a panic, and afterwards they hold the same clusters for each session that
-- both know and have the same limit of final IDs. The ranges may be refused, but none is empty,
-- each stays with the room for a new cluster within an `i64`, and none collides on either
-- compressor.
pub new-deliver-IsAgreed :
    (a b : SessionId) (rs : List Range)
    → a.id.id < 2 ^ 128
    → b.id.id < 2 ^ 128
    → HasRoom 512 [] rs
    → NoCollision (new_with_session_id a) rs
    → NoCollision (new_with_session_id b) rs
    → (c d : IdCompressor) × (deliver (new_with_session_id a) rs ≡ done c)
      × (deliver (new_with_session_id b) rs ≡ done d)
      × IsAgreed c d
unfolding new_with_session_id
new-deliver-IsAgreed a b rs p q room n m =
    let (c, ids, runs_c, v, _) =
      deliver-Shares rs (new_with_session_id a) (a ∷ []) [] (new_with_session_id-Shares a p) room
        n in
    let (d, js, runs_d, w, _) =
      deliver-Shares rs (new_with_session_id b) (b ∷ []) [] (new_with_session_id-Shares b q) room
        m in
    (c, d, runs_c, runs_d, Shares-IsAgreed c d ids js (deliver_ledger 512 [] rs) v w)
