-- ===== src/Interop/Exact.antt =====
-- Numbers that pass to JavaScript and back without loss, and what the wrapper does with them.
use distributed_id_allocator.Common.{
  ℕ, ◌-◌, ◌^◌, ◌≤◌, ◌<◌, ◌≡◌, refl, some, false, ◌==◌, if◌then◌else◌, ltb, done, ok, err, ◌⊎◌, inl,
  arith,
}
use distributed_id_allocator.Ids.Errors.{invalid_cluster_capacity}
use distributed_id_allocator.Ids.Space.{SessionSpaceId}
use distributed_id_allocator.Tables.SessionSpace.{SessionSpace}
use distributed_id_allocator.Compressor.{IdCompressor, set_cluster_capacity}
use distributed_id_allocator.Compressor.OwnSession.{IsOwn}
use distributed_id_allocator.Compressor.Handout.{id_of_generation}
use distributed_id_allocator.Compressor.Spaces.{
  op_of_generation, normalize_to_op_space_lem, normalize_to_session_space-op_of_generation,
}
use distributed_id_allocator.Interop.{
  Js, InteropCompressor, into_jserror, interop_set_cluster_capacity, interop_normalize_to_op_space,
  interop_normalize_to_session_space,
}

-- The bit pattern of an `i64` from -2 ^ 53 to 2 ^ 53.
abbrev pub IsExact : ℕ → Type 0
IsExact x = (x ≤ 2 ^ 53) ⊎ ((2 ^ 64 - 2 ^ 53 ≤ x) × (x < 2 ^ 64))

-- Whole numbers up to 2 ^ 53 are numbers of f64, without a fraction and in their order.
pub record IsJs (js : Js) : Type 0 where
  pub to_u64-from_u64 : (n : ℕ) → n ≤ 2 ^ 53 → js.to_u64 (js.from_u64 n) ≡ n
  pub to_i64-from_i64 : (x : ℕ) → IsExact x → js.to_i64 (js.from_i64 x) ≡ x
  pub from_i64-from_u64 : (n : ℕ) → n ≤ 2 ^ 53 → js.from_i64 n ≡ js.from_u64 n
  pub whole : (n : ℕ) → n ≤ 2 ^ 53 → js.has_fraction (js.from_u64 n) ≡ false
  pub order : (m n : ℕ) → m ≤ 2 ^ 53 → n ≤ 2 ^ 53 → js.lt (js.from_u64 m) (js.from_u64 n) ≡ ltb m n

module _ (js : Js) (laws : IsJs js) where
  -- For the f64 of a natural number up to 2 ^ 53, the wrapper's `set_cluster_capacity` returns
  -- InvalidClusterCapacity for 0 and an error of its own above 2048, and the compressor stays;
  -- else it returns ok and the cluster capacity is that number. The casts between f64 and integers
  -- are exact on these numbers, which have no fraction and keep their order.
  pub interop_set_cluster_capacity_lem :
      (w : InteropCompressor) (n : ℕ)
      → n ≤ 2 ^ 53
      → interop_set_cluster_capacity js w (js.from_u64 n) ≡ (
          if n == 0
          then (err (into_jserror js invalid_cluster_capacity), w)
          else if ltb 2048 n
          then (err (js.js_error "Clusters must not exceed max cluster size."), w)
          else (ok tt, record { compressor = record w.compressor { cluster_capacity = n } }))
  unfolding interop_set_cluster_capacity set_cluster_capacity
  interop_set_cluster_capacity_lem w n small =
      rw
        (
          interop_set_cluster_capacity,
          laws.whole n small,
          laws.order n 0 small (omega arith),
          laws.from_i64-from_u64 2048 (omega arith),
          laws.order 2048 n (omega arith) small,
          laws.to_u64-from_u64 n small,
        )
        (ground arith)

  module _ (c : IdCompressor) (space : SessionSpace) (v : IsOwn c space) (g : ℕ) (pos : 1 ≤ g)
      (generated : g ≤ c.generated_id_count) (id : SessionSpaceId)
      (handed : id_of_generation c space g ≡ some id) (exact : IsExact id.id)
      (op_exact : IsExact (op_of_generation space g).id)
      (token_exact : c.local_session_ref.index ≤ 2 ^ 53) where
    -- On a compressor whose own state is valid, the wrapper for JavaScript takes the f64 of the
    -- session space ID of a generated generation to the f64 of its op space ID in the most final
    -- form, and that f64, with the f64 of the session's own token, back to the f64 of the session
    -- space ID, without NaN, as long as the two IDs lie between -2 ^ 53 and 2 ^ 53 and the token
    -- is at most 2 ^ 53. The casts between f64 and integers are exact on these numbers.
    pub interop-roundtrip :
        (interop_normalize_to_op_space js (record { compressor = c }) (js.from_i64 id.id)
          ≡ done (js.from_i64 (op_of_generation space g).id))
        × (interop_normalize_to_session_space js
              (record { compressor = c })
              (js.from_i64 (op_of_generation space g).id)
              (js.from_i64 c.local_session_ref.index)
            ≡ done (js.from_i64 id.id))
    unfolding interop_normalize_to_op_space interop_normalize_to_session_space
    interop-roundtrip = (
      rw
          (
            interop_normalize_to_op_space,
            laws.to_i64-from_i64 id.id exact,
            normalize_to_op_space_lem c space v g pos generated id handed,
          )
          refl,
      rw
          (
            interop_normalize_to_session_space,
            laws.to_i64-from_i64 (op_of_generation space g).id op_exact,
            laws.to_i64-from_i64 c.local_session_ref.index (inl token_exact),
            normalize_to_session_space-op_of_generation c space v g pos generated id handed,
          )
          refl,
    )
