-- ===== src/Persistence/Truncated.antt =====
-- The deserializer on bytes that are followed by more.
use mathlib.Core.List.{append-nil}
use distributed_id_allocator.Common.{
  ℕ, zero, suc, ◌≡◌, refl, sym, ap, subst, ◌∙◌, ◌∷◌, ◌<◌, ◌^◌, length, length-append,
  done-injective, panicked, arith, List, [], ◌++◌, Run, done, ◌>>=◌, if◌then◌else◌, Bool, true,
  false, Result, ok, err, ◌==◌,
}
use distributed_id_allocator.Bytes.Longer.{
  Extends, longer, >>=-Extends, done-Extends, take_one-Extends,
}
use distributed_id_allocator.Ids.Final.{FinalId}
use distributed_id_allocator.Ids.Local.{LocalId}
use distributed_id_allocator.Ids.Stable.{SessionId, UuidCrate}
use distributed_id_allocator.Tables.SessionSpace.{SessionSpaceRef}
use distributed_id_allocator.Compressor.{IdCompressor}
use distributed_id_allocator.Persistence.Ranges.{
  serialize_normalizer, read_ranges, deserialize_normalizer,
}
use distributed_id_allocator.Persistence.Ranges.RoundTrip.{
  deserialize_normalizer-serialize_normalizer,
}
use distributed_id_allocator.Tables.Normalizer.{SessionSpaceNormalizer}
use distributed_id_allocator.Tables.Normalizer.Contains.{IsNormalized}
use distributed_id_allocator.Persistence.Read.{
  DeserializationError, read_sessions, read_cluster, read_clusters, read_finalized, read_local,
  deserialize_v1, deserialize,
}

abbrev same {ℓ} : {A : Type ℓ} → A → A
same a = a

Extends-same {ℓ} : {A : Type ℓ} (m : Run A) → Extends same m m
Extends-same m a h = h

branch-Extends {ℓ} :
    {A : Type ℓ} {extend : A → A} (b : Bool) {x x' y y' : Run A}
    → Extends extend x x'
    → Extends extend y y'
    → Extends extend (elim b [ true ↦ x | false ↦ y ]) (elim b [ true ↦ x' | false ↦ y' ])
branch-Extends true p q = p
branch-Extends false p q = q

if-Extends {ℓ} :
    {A : Type ℓ} {extend : A → A} (b : Bool) {x x' y y' : Run A}
    → Extends extend x x'
    → Extends extend y y'
    → Extends extend (if b then x else y) (if b then x' else y')
if-Extends true p q = p
if-Extends false p q = q

module _ (more : List ℕ) where
  read_ranges-Extends :
      (len : ℕ) (ranges : List (LocalId × ℕ)) (bytes : List ℕ)
      → Extends
          (longer more)
          (read_ranges len ranges bytes)
          (read_ranges len ranges (bytes ++ more))
  unfolding read_ranges
  read_ranges-Extends zero ranges bytes = done-Extends _ _
  read_ranges-Extends (suc len) ranges bytes =
      >>=-Extends _ _ _ _ (take_one-Extends 8 bytes more) (λ (g, left).
        >>=-Extends _ _ _ _ (take_one-Extends 8 left more)
          (λ (n, left'). read_ranges-Extends len _ left'))

  deserialize_normalizer-Extends :
      (bytes : List ℕ)
      → Extends
          (longer more)
          (deserialize_normalizer bytes)
          (deserialize_normalizer (bytes ++ more))
  unfolding deserialize_normalizer
  deserialize_normalizer-Extends bytes =
      >>=-Extends _ _ _ _ (take_one-Extends 8 bytes more)
        (λ (n, left). read_ranges-Extends n [] left)

  read_sessions-Extends :
      (n : ℕ) (with_local : Bool) (remap : List SessionSpaceRef) (c : IdCompressor) (bytes : List ℕ)
      → Extends
          (longer more)
          (read_sessions n with_local remap c bytes)
          (read_sessions n with_local remap c (bytes ++ more))
  unfolding read_sessions
  read_sessions-Extends zero with_local remap c bytes = done-Extends _ _
  read_sessions-Extends (suc n) with_local remap c bytes =
      >>=-Extends _ _ _ _ (take_one-Extends 16 bytes more) (λ (id, left).
        branch-Extends _ (done-Extends _ _) (read_sessions-Extends n with_local _ _ left))

  read_cluster-Extends :
      (narrow : Bool) (bytes : List ℕ)
      → Extends
          (λ (index, capacity, count, left). (index, capacity, count, left ++ more))
          (read_cluster narrow bytes)
          (read_cluster narrow (bytes ++ more))
  unfolding read_cluster
  read_cluster-Extends true bytes =
      >>=-Extends _ _ _ _ (take_one-Extends 4 bytes more) (λ (index, left).
        >>=-Extends _ _ _ _ (take_one-Extends 4 left more) (λ (capacity, left').
          >>=-Extends _ _ _ _ (take_one-Extends 4 left' more)
            (λ (count, left''). done-Extends _ (index, capacity, count, left''))))
  read_cluster-Extends false bytes =
      >>=-Extends _ _ _ _ (take_one-Extends 8 bytes more) (λ (index, left).
        >>=-Extends _ _ _ _ (take_one-Extends 8 left more) (λ (capacity, left').
          >>=-Extends _ _ _ _ (take_one-Extends 8 left' more)
            (λ (count, left''). done-Extends _ (index, capacity, count, left''))))

  read_clusters-Extends :
      (n : ℕ) (narrow : Bool) (remap : List SessionSpaceRef) (base : FinalId) (c : IdCompressor)
      (bytes : List ℕ)
      → Extends
          (longer more)
          (read_clusters n narrow remap base c bytes)
          (read_clusters n narrow remap base c (bytes ++ more))
  unfolding read_clusters
  read_clusters-Extends zero narrow remap base c bytes = done-Extends _ _
  read_clusters-Extends (suc n) narrow remap base c bytes =
      >>=-Extends _ _ _ _ (read_cluster-Extends narrow bytes) (λ (index, capacity, count, left).
        >>=-Extends _ _ _ _ (Extends-same _) (λ c'. read_clusters-Extends n narrow remap _ c' left))

  read_finalized-Extends :
      (narrow : Bool) (remap : List SessionSpaceRef) (c : IdCompressor) (bytes : List ℕ)
      → Extends same
          (read_finalized narrow remap c bytes)
          (read_finalized narrow remap c (bytes ++ more))
  unfolding read_finalized
  read_finalized-Extends narrow remap c bytes =
      >>=-Extends _ _ _ _ (take_one-Extends 8 bytes more) (λ (n, left).
        >>=-Extends _ _ _ _ (read_clusters-Extends n narrow remap _ c left)
          (λ (c', left'). Extends-same _))

  module _ (crate : UuidCrate) (make_session_id : SessionId) where
    read_local-Extends :
        (with_local : Bool) (bytes : List ℕ)
        → Extends
            (longer more)
            (read_local crate make_session_id with_local bytes)
            (read_local crate make_session_id with_local (bytes ++ more))
    unfolding read_local
    read_local-Extends false bytes = done-Extends _ _
    read_local-Extends true bytes =
        >>=-Extends _ _ _ _ (take_one-Extends 16 bytes more) (λ (session, left₁).
          >>=-Extends _ _ _ _ (take_one-Extends 8 left₁ more) (λ (generated, left₂).
            >>=-Extends _ _ _ _ (take_one-Extends 8 left₂ more) (λ (base, left₃).
              >>=-Extends _ _ _ _ (deserialize_normalizer-Extends left₃)
                (λ (normalizer, left₄). done-Extends _ _))))

    deserialize_v1-Extends :
        (bytes : List ℕ)
        → Extends same
            (deserialize_v1 crate make_session_id bytes)
            (deserialize_v1 crate make_session_id (bytes ++ more))
    unfolding deserialize_v1
    deserialize_v1-Extends bytes =
        >>=-Extends _ _ _ _ (take_one-Extends 4 bytes more) (λ (local_flag, left₁).
          >>=-Extends _ _ _ _ (take_one-Extends 4 left₁ more) (λ (bits_flag, left₂).
            >>=-Extends _ _ _ _ (read_local-Extends _ left₂) (λ (c, left₃).
              >>=-Extends _ _ _ _ (take_one-Extends 8 left₃ more) (λ (capacity, left₄).
                >>=-Extends _ _ _ _ (take_one-Extends 8 left₄ more) (λ (n, left₅).
                  >>=-Extends _ _ _ _ (read_sessions-Extends n _ [] _ left₅)
                    (λ (sessions, left₆). finalized _ sessions left₆))))))
      where
        finalized :
            (narrow : Bool)
            (sessions : Result (List SessionSpaceRef × IdCompressor) DeserializationError)
            (left : List ℕ)
            → Extends {A = Result IdCompressor DeserializationError} same
                (elim sessions [
                  | err e ↦ done (err e)
                  | ok (remap, c) ↦ read_finalized narrow remap c left >>= λ c'. done (ok c')
                ])
                (elim sessions [
                  | err e ↦ done (err e)
                  | ok (remap, c) ↦
                      read_finalized narrow remap c (left ++ more) >>= λ c'. done (ok c')
                ])
        finalized narrow (err e) left = Extends-same _
        finalized narrow (ok (remap, c)) left =
            >>=-Extends _ _ _ _ (read_finalized-Extends narrow remap c left) (λ c'. Extends-same _)

    deserialize-Extends :
        (bytes : List ℕ)
        → Extends same
            (deserialize crate make_session_id bytes)
            (deserialize crate make_session_id (bytes ++ more))
    unfolding deserialize
    deserialize-Extends bytes =
        >>=-Extends _ _ _ _ (take_one-Extends 4 bytes more) (λ (version, left).
          if-Extends (version == 1) (deserialize_v1-Extends left) (Extends-same _))

    -- Whatever `deserialize` returns for some bytes, a compressor or an error, with or without
    -- local state, it returns for these bytes with any others behind them: where the front part of
    -- an input gives a result and not a panic, it is that of the whole input.
    pub deserialize-append :
        (bytes : List ℕ) (result : Result IdCompressor DeserializationError)
        → deserialize crate make_session_id bytes ≡ done result
        → deserialize crate make_session_id (bytes ++ more) ≡ done result
    deserialize-append bytes = deserialize-Extends bytes

-- Of the bytes that `serialize_normalizer` writes for a valid normalizer with fewer than 2 ^ 64
-- ranges, no shorter front part is taken: where at least one byte at the end is missing,
-- `deserialize_normalizer` panics.
pub deserialize_normalizer_cut :
    (limit : ℕ) (n : SessionSpaceNormalizer) (front back : List ℕ) (byte : ℕ)
    → IsNormalized limit n
    → length n.leading_locals < 2 ^ 64
    → serialize_normalizer n [] ≡ front ++ (byte ∷ back)
    → deserialize_normalizer front ≡ panicked
deserialize_normalizer_cut limit n front back byte v short cut =
    let (code, writes, reads) = deserialize_normalizer-serialize_normalizer limit n v short in
    let whole : deserialize_normalizer (front ++ (byte ∷ back)) ≡ done (n, []) =
      subst (λ bytes. deserialize_normalizer bytes ≡ done (n, []))
        (append-nil code ∙ sym (writes []) ∙ cut) (reads []) in
    panics (deserialize_normalizer front) (λ a h.
      let same =
        done-injective (sym (deserialize_normalizer-Extends (byte ∷ back) front a h) ∙ whole) in
      let none_left = ap (λ z. length z.1) same in
      omega (arith, none_left, length-append a.1 (byte ∷ back)))
  where
    panics :
        (m : Run (SessionSpaceNormalizer × List ℕ))
        → ((a : SessionSpaceNormalizer × List ℕ) → m ≡ done a → ⊥)
        → m ≡ panicked
    panics panicked never = refl
    panics (done a) never = absurd (never a refl)
