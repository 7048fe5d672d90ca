-- ===== src/Persistence/Opened.antt =====
-- The sessions that `deserialize` opens, with the local state and without.
use distributed_id_allocator.Common.{
  ℕ, suc, ◌+◌, ◌^◌, ◌<◌, ◌≡◌, refl, ap, ◌∙◌, List, [], ◌∷◌, ◌++◌, Bool, true, false, done, ok,
  arith, length, get_elem?, All, All-imp, ◌==◌, Bool-cases, inl, inr,
}
use distributed_id_allocator.Ids.Stable.{SessionId, session_eq}
use distributed_id_allocator.Bytes.{to_le_bytes}
use mathlib.Core.List.{append_assoc}
use distributed_id_allocator.Tables.Sessions.{Sessions}
use distributed_id_allocator.Tables.Sessions.Holds.{id_bytes}
use distributed_id_allocator.Tables.Sessions.Create.{get_or_create_known}
use distributed_id_allocator.Ledger.{Ledger}
use distributed_id_allocator.Ledger.Lays.{Lays}
use distributed_id_allocator.Compressor.{IdCompressor}
use distributed_id_allocator.Compressor.Shares.{Shares}
use distributed_id_allocator.Persistence.Read.{read_sessions}
use distributed_id_allocator.Ledger.Distinct.{All-from, IsDistinct, Holds-IsDistinct}
use distributed_id_allocator.Persistence.Sessions.{
  refs_from, read_one_session, read_sessions-id_bytes,
}
use distributed_id_allocator.Persistence.Encodes.{written}

module _ (c : IdCompressor) (others : List SessionId) (l : Ledger)
    (v : Shares c (c.session_id ∷ others) l) where
  wide : All (λ key. key.id.id < 2 ^ 128) (c.session_id ∷ others)
  wide = v.lays.tables.wide

  distinct : IsDistinct (c.session_id ∷ others)
  distinct = Holds-IsDistinct v.lays.tables

  -- What the loop over the sessions makes of a compressor `d`, whose references start at `n`.
  pub record IsOpened (with_local : Bool) (d : IdCompressor) (ids : List SessionId) (tail : List ℕ)
      : Type 0 where
    pub n : ℕ
    pub shift : (j : ℕ) → get_elem? ids (n + j) ≡ get_elem? (written c others l v) j
    pub sessions : Sessions
    pub lays : Lays sessions d.final_space ids []
    pub runs :
        read_sessions
          (length (written c others l v))
          with_local
          []
          d
          (id_bytes (written c others l v) ++ tail)
        ≡ done (ok (refs_from n (written c others l v), record d { sessions = sessions }), tail)

  -- With the local state the sessions are those that were there.
  pub local-IsOpened :
      (d : IdCompressor) (tail : List ℕ)
      → Lays d.sessions d.final_space (c.session_id ∷ []) []
      → IsOpened true d (c.session_id ∷ others) tail
  local-IsOpened d tail empty = elim (Bool-cases (c.generated_id_count == 0)) [
    | inl b ↦
        let (s, u, runs) =
          read_sessions-id_bytes true others (c.session_id ∷ []) [] d tail empty distinct wide.1
            (All-from _ others (λ i key e. refl)) in
        record {
          n = 1;
          shift = λ j.
              rw b
                (ap (get_elem? (c.session_id ∷ others)) (let e : 1 + j ≡ suc j = omega arith in e));
          sessions = s;
          lays = u;
          runs = rw b runs;
        }
    | inr b ↦
        let (s, u, runs) =
          read_sessions-id_bytes true others (c.session_id ∷ []) (record { index = 0 } ∷ []) d tail
            empty distinct wide.1 (All-from _ others (λ i key e. refl)) in
        let known =
          get_or_create_known d.sessions (c.session_id ∷ []) empty.tables c.session_id
            (empty.tables.known c.session_id 0 refl) in
        record {
          n = 0;
          shift = λ j. rw b (ap (get_elem? (c.session_id ∷ others)) (omega arith));
          sessions = s;
          lays = u;
          runs = rw b (
              ap (λ z. read_sessions (suc (length others)) true [] d z)
                (append_assoc (to_le_bytes 16 c.session_id.id.id) (id_bytes others) tail)
              ∙ read_one_session true (length others) c.session_id [] d (id_bytes others ++ tail)
                  wide.0 refl
              ∙ ap
                  (λ z.
                    read_sessions (length others) true (z.0 ∷ []) (record d { sessions = z.1 })
                      (id_bytes others ++ tail))
                  known
              ∙ runs);
        }
  ]

  pub written_wide : All (λ key. key.id.id < 2 ^ 128) (written c others l v)
  written_wide = elim (Bool-cases (c.generated_id_count == 0)) [
    | inl b ↦ rw b wide.1
    | inr b ↦ rw b wide
  ]

  written-IsDistinct : IsDistinct (written c others l v)
  written-IsDistinct = elim (Bool-cases (c.generated_id_count == 0)) [
    | inl b ↦ rw b distinct.1
    | inr b ↦ rw b distinct
  ]

  -- Without it they come after the session of the new compressor, which is none of them.
  pub fresh-IsOpened :
      (key : SessionId) (d : IdCompressor) (tail : List ℕ)
      → d.session_id ≡ key
      → Lays d.sessions d.final_space (key ∷ []) []
      → All (λ other. session_eq key other ≡ false) (written c others l v)
      → IsOpened false d (key ∷ written c others l v) tail
  fresh-IsOpened key d tail is empty apart =
      let (s, u, runs) =
        read_sessions-id_bytes false (written c others l v) (key ∷ []) [] d tail empty
          (apart, written-IsDistinct) written_wide
          (All-imp (written c others l v) (λ other e. rw is (ground (arith, e))) apart) in
      record {
        n = 1;
        shift = λ j.
            ap (get_elem? (key ∷ written c others l v)) (let e : 1 + j ≡ suc j = omega arith in e);
        sessions = s;
        lays = u;
        runs = runs;
      }
