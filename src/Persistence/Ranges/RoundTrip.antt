-- ===== src/Persistence/Ranges/RoundTrip.antt =====
-- The normalizer that was serialized is deserialized.
use mathlib.Core.List.{append_assoc, append-nil}
use distributed_id_allocator.Common.{
  ℕ, ◌^◌, ◌<◌, ◌≡◌, sym, ap, ◌∙◌, List, [], ◌∷◌, ◌++◌, done, length, All, arith,
}
use distributed_id_allocator.Bytes.{to_le_bytes, write_to_vec}
use distributed_id_allocator.Bytes.RoundTrip.{take_one-to_le_bytes}
use distributed_id_allocator.Ids.Local.{LocalId, to_generation_count}
use distributed_id_allocator.Ids.Local.Generations.{
  generation_bounds, from_generation_count-to_generation_count,
}
use distributed_id_allocator.Tables.Normalizer.{SessionSpaceNormalizer}
use distributed_id_allocator.Tables.Normalizer.Contains.{IsRange, IsNormalized}
use distributed_id_allocator.Persistence.Ranges.{
  write_ranges, serialize_normalizer, read_ranges, deserialize_normalizer,
}

-- The bytes of the ranges, one range after the other.
abbrev encode_ranges : List (LocalId × ℕ) → List ℕ
encode_ranges [] = []
encode_ranges (r ∷ rs) =
    to_le_bytes 8 (to_generation_count r.0) ++ (to_le_bytes 8 r.1 ++ encode_ranges rs)

write_ranges-append :
    (rs : List (LocalId × ℕ)) (bytes : List ℕ) → write_ranges rs bytes ≡ bytes ++ encode_ranges rs
unfolding write_ranges write_to_vec
write_ranges-append [] bytes = sym (append-nil bytes)
write_ranges-append ((l, n) ∷ rs) bytes =
    let a = to_le_bytes 8 (to_generation_count l) in
    let b = to_le_bytes 8 n in
    write_ranges-append rs ((bytes ++ a) ++ b)
    ∙ append_assoc (bytes ++ a) b (encode_ranges rs)
    ∙ append_assoc bytes a (b ++ encode_ranges rs)

read_ranges-encode_ranges :
    (rs acc : List (LocalId × ℕ)) (rest : List ℕ)
    → All IsRange rs
    → read_ranges (length rs) acc (encode_ranges rs ++ rest)
      ≡ done (record { leading_locals = acc ++ rs }, rest)
unfolding read_ranges
read_ranges-encode_ranges [] acc rest h =
    ap (λ t. done (record { leading_locals = t }, rest)) (sym (append-nil acc))
read_ranges-encode_ranges ((l, n) ∷ rs) acc rest (k, ks) =
    let g = to_generation_count l in
    let bounds = generation_bounds l k.base_IsLocal in
    rw
      (
        append_assoc (to_le_bytes 8 g) (to_le_bytes 8 n ++ encode_ranges rs) rest,
        append_assoc (to_le_bytes 8 n) (encode_ranges rs) rest,
        take_one-to_le_bytes 8 g (to_le_bytes 8 n ++ (encode_ranges rs ++ rest))
            (omega (arith, bounds)),
        take_one-to_le_bytes 8 n (encode_ranges rs ++ rest) (omega (arith, bounds, k.fits)),
        from_generation_count-to_generation_count l k.base_IsLocal,
      )
      (read_ranges-encode_ranges rs (acc ++ ((l, n) ∷ [])) rest ks
        ∙ ap (λ t. done (record { leading_locals = t }, rest)) (append_assoc acc ((l, n) ∷ []) rs))

-- A valid normalizer with fewer than 2 ^ 64 ranges is written as some bytes behind what is there,
-- and reading these bytes gives it back and leaves what follows them.
pub deserialize_normalizer-serialize_normalizer :
    (limit : ℕ) (n : SessionSpaceNormalizer)
    → IsNormalized limit n
    → length n.leading_locals < 2 ^ 64
    → (code : List ℕ) × ((bytes : List ℕ) → serialize_normalizer n bytes ≡ bytes ++ code)
      × ((rest : List ℕ) → deserialize_normalizer (code ++ rest) ≡ done (n, rest))
unfolding serialize_normalizer deserialize_normalizer write_to_vec
deserialize_normalizer-serialize_normalizer limit n v short =
    let head = to_le_bytes 8 (length n.leading_locals) in
    let tail = encode_ranges n.leading_locals in
    (
      head ++ tail,
      λ bytes. write_ranges-append n.leading_locals (bytes ++ head) ∙ append_assoc bytes head tail,
      λ rest.
          rw
            (
              append_assoc head tail rest,
              take_one-to_le_bytes 8 (length n.leading_locals) (tail ++ rest) (omega arith),
            )
            (read_ranges-encode_ranges n.leading_locals [] rest v.ranges),
    )
