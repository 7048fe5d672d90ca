-- ===== src/Persistence/Clusters.antt =====
-- The bytes of clusters: what is written for each is read back.
use mathlib.Core.List.{append_assoc, append-nil}
use distributed_id_allocator.Common.{
  ℕ, ◌%◌, ◌^◌, ◌<◌, ◌≡◌, refl, sym, ap, ◌∙◌, List, [], ◌∷◌, ◌++◌, Bool, true, false, done, arith,
}
use distributed_id_allocator.Word.{sub_u64}
use distributed_id_allocator.Bytes.{to_le_bytes, write_to_vec}
use distributed_id_allocator.Bytes.RoundTrip.{take_one-to_le_bytes}
use distributed_id_allocator.Tables.SessionSpace.{IdCluster, ClusterRef}
use distributed_id_allocator.Persistence.Write.{write_cluster, write_clusters}
use distributed_id_allocator.Persistence.Read.{read_cluster}

-- A number that the chosen width holds.
abbrev pub IsNarrow : Bool → ℕ → Type 0
IsNarrow true x = x < 2 ^ 32
IsNarrow false x = x < 2 ^ 64

abbrev pub index_of : ℕ → IdCluster × ClusterRef → ℕ
index_of delta p = sub_u64 p.1.session_space_ref.index delta

abbrev pub encode_cluster : Bool → ℕ → IdCluster × ClusterRef → List ℕ
encode_cluster narrow delta p = write_cluster narrow p.0 (index_of delta p) []

abbrev pub encode_clusters : Bool → ℕ → List (IdCluster × ClusterRef) → List ℕ
encode_clusters narrow delta [] = []
encode_clusters narrow delta (p ∷ ps) =
    encode_cluster narrow delta p ++ encode_clusters narrow delta ps

append_three : (bytes a b c : List ℕ) → ((bytes ++ a) ++ b) ++ c ≡ bytes ++ ((a ++ b) ++ c)
append_three bytes a b c = ap (λ z. z ++ c) (append_assoc bytes a b) ∙ append_assoc bytes (a ++ b) c

write_cluster-append :
    (narrow : Bool) (k : IdCluster) (i : ℕ) (bytes : List ℕ)
    → write_cluster narrow k i bytes ≡ bytes ++ write_cluster narrow k i []
unfolding write_cluster write_to_vec
write_cluster-append true k i bytes =
    append_three bytes (to_le_bytes 4 (i % 2 ^ 32)) (to_le_bytes 4 (k.capacity % 2 ^ 32))
      (to_le_bytes 4 (k.count % 2 ^ 32))
write_cluster-append false k i bytes =
    append_three bytes (to_le_bytes 8 i) (to_le_bytes 8 k.capacity) (to_le_bytes 8 k.count)

pub write_clusters-encode_clusters :
    (narrow : Bool) (delta : ℕ) (ps : List (IdCluster × ClusterRef)) (bytes : List ℕ)
    → write_clusters narrow delta ps bytes ≡ bytes ++ encode_clusters narrow delta ps
unfolding write_clusters
write_clusters-encode_clusters narrow delta [] bytes = sym (append-nil bytes)
write_clusters-encode_clusters narrow delta (p ∷ ps) bytes =
    write_clusters-encode_clusters narrow delta ps
      (write_cluster narrow p.0 (index_of delta p) bytes)
    ∙ ap (λ z. z ++ encode_clusters narrow delta ps)
        (write_cluster-append narrow p.0 (index_of delta p) bytes)
    ∙ append_assoc bytes (encode_cluster narrow delta p) (encode_clusters narrow delta ps)

pub encode_clusters-append :
    (narrow : Bool) (delta : ℕ) (ps : List (IdCluster × ClusterRef)) (p : IdCluster × ClusterRef)
    (rest : List ℕ)
    → encode_clusters narrow delta (ps ++ (p ∷ [])) ++ rest
      ≡ encode_clusters narrow delta ps ++ (encode_cluster narrow delta p ++ rest)
encode_clusters-append narrow delta [] p rest =
    ap (λ z. z ++ rest) (append-nil (encode_cluster narrow delta p))
encode_clusters-append narrow delta (q ∷ ps) p rest =
    append_assoc (encode_cluster narrow delta q) (encode_clusters narrow delta (ps ++ (p ∷ [])))
      rest
    ∙ ap (λ z. encode_cluster narrow delta q ++ z) (encode_clusters-append narrow delta ps p rest)
    ∙ sym (
        append_assoc (encode_cluster narrow delta q) (encode_clusters narrow delta ps)
          (encode_cluster narrow delta p ++ rest))

module _ (delta : ℕ) (p : IdCluster × ClusterRef) (rest : List ℕ) where
  pub read_cluster-encode_cluster :
      (narrow : Bool)
      → IsNarrow narrow (index_of delta p)
      → IsNarrow narrow p.0.capacity
      → IsNarrow narrow p.0.count
      → read_cluster narrow (encode_cluster narrow delta p ++ rest)
        ≡ done (index_of delta p, p.0.capacity, p.0.count, rest)
  unfolding read_cluster write_cluster write_to_vec
  read_cluster-encode_cluster true h k j =
      let i' : index_of delta p % 2 ^ 32 ≡ index_of delta p = omega (arith, h) in
      let k' : p.0.capacity % 2 ^ 32 ≡ p.0.capacity = omega (arith, k) in
      let j' : p.0.count % 2 ^ 32 ≡ p.0.count = omega (arith, j) in
      let a = to_le_bytes 4 (index_of delta p) in
      let b = to_le_bytes 4 p.0.capacity in
      let c = to_le_bytes 4 p.0.count in
      rw
        (
          i',
          k',
          j',
          append_assoc (a ++ b) c rest,
          append_assoc a b (c ++ rest),
          take_one-to_le_bytes 4 (index_of delta p) (b ++ (c ++ rest)) (omega (arith, h)),
          take_one-to_le_bytes 4 p.0.capacity (c ++ rest) (omega (arith, k)),
          take_one-to_le_bytes 4 p.0.count rest (omega (arith, j)),
        )
        refl
  read_cluster-encode_cluster false h k j =
      let a = to_le_bytes 8 (index_of delta p) in
      let b = to_le_bytes 8 p.0.capacity in
      let c = to_le_bytes 8 p.0.count in
      rw
        (
          append_assoc (a ++ b) c rest,
          append_assoc a b (c ++ rest),
          take_one-to_le_bytes 8 (index_of delta p) (b ++ (c ++ rest)) (omega (arith, h)),
          take_one-to_le_bytes 8 p.0.capacity (c ++ rest) (omega (arith, k)),
          take_one-to_le_bytes 8 p.0.count rest (omega (arith, j)),
        )
        refl
