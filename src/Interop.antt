-- ===== src/Interop.antt =====
-- wasm-id-allocator/src/lib.rs: the wrapper for JavaScript. Numbers pass as f64 values, and errors as
-- JavaScript errors; both are parameters.
pub mod Exact
use Prim.Native.String.{String}
use distributed_id_allocator.Common.{
  ℕ, ◌^◌, List, Option, none, some, Bool, true, false, ◌||◌, if◌then◌else◌, Run, done, panicked,
  ◌>>=◌, Result, ok, err,
}
use distributed_id_allocator.Ids.Errors.{AllocatorError, invalid_cluster_capacity, to_error_string}
use distributed_id_allocator.Ids.Stable.{SessionId, UuidCrate, stable_from_session, stable_add}
use distributed_id_allocator.Ids.Uuids.{UuidText, from_uuid_string, bytes_from_stable}
use distributed_id_allocator.Compressor.{
  IdCompressor, IdRange, TelemetryStats, nil_token, get_default_cluster_capacity,
  new_with_session_id, get_local_session_id, get_session_token_from_session_id,
  get_cluster_capacity, set_cluster_capacity, get_telemetry_stats,
}
use distributed_id_allocator.Compressor.Allocate.{generate_next_id, take_next_range}
use distributed_id_allocator.Compressor.Finalize.{finalize_range}
use distributed_id_allocator.Compressor.Normalize.{
  normalize_to_op_space, normalize_to_session_space_with_token,
}
use distributed_id_allocator.Compressor.Decompress.{decompress, recompress}
use distributed_id_allocator.Compressor.Equals.{equals_test_only}
use distributed_id_allocator.Persistence.Write.{serialize}
use distributed_id_allocator.Persistence.Read.{deserialize, deserialization_error_string}

-- What the wrapper uses of JavaScript's numbers and errors: the casts of u64 and i64 (a bit pattern)
-- from and to f64, `NAN`, `fract() != 0.0`, the order, and `JsError::new`.
pub record Js : Type 1 where
  pub F64 : Type 0
  pub JsError : Type 0
  pub from_u64 : ℕ → F64
  pub from_i64 : ℕ → F64
  pub to_u64 : F64 → ℕ
  pub to_i64 : F64 → ℕ
  pub nan : F64
  pub has_fraction : F64 → Bool
  pub lt : F64 → F64 → Bool
  pub js_error : String → JsError

-- The wrapper's own `IdCompressor`.
pub record InteropCompressor : Type 0 where
  pub compressor : IdCompressor

module _ (js : Js) where
  open js use {F64, JsError, from_u64, from_i64, to_u64, to_i64, nan, has_fraction, lt, js_error}

  pub record InteropTelemetryStats : Type 0 where
    pub eager_final_count : F64
    pub local_id_count : F64
    pub expansion_count : F64
    pub cluster_creation_count : F64

  pub record InteropIds : Type 0 where
    pub first_local_gen_count : F64
    pub count : F64

  abbrev pub max_default_cluster_capacity : F64
  max_default_cluster_capacity = from_i64 (2 ^ 11)

  abbrev pub into_jserror : AllocatorError → JsError
  into_jserror error = js_error (to_error_string error)

  unfoldable pub interop_get_default_cluster_capacity : F64
  interop_get_default_cluster_capacity = from_u64 get_default_cluster_capacity

  abbrev pub interop_get_nil_token : F64
  interop_get_nil_token = from_i64 nil_token

  abbrev pub interop_get_cluster_capacity : InteropCompressor → F64
  interop_get_cluster_capacity w = from_u64 (get_cluster_capacity w.compressor)

  abbrev pub from_core_result :
      Result (Unit {0}) AllocatorError × IdCompressor
      → Result (Unit {0}) JsError × InteropCompressor
  from_core_result (ok u, c) = (ok u, record { compressor = c })
  from_core_result (err e, c) = (err (into_jserror e), record { compressor = c })

  unfoldable pub interop_set_cluster_capacity :
      InteropCompressor → F64 → Result (Unit {0}) JsError × InteropCompressor
  interop_set_cluster_capacity w new_cluster_capacity =
      if has_fraction new_cluster_capacity || lt new_cluster_capacity (from_u64 0)
      then (err (into_jserror invalid_cluster_capacity), w)
      else if lt max_default_cluster_capacity new_cluster_capacity
      then (err (js_error "Clusters must not exceed max cluster size."), w)
      else from_core_result (set_cluster_capacity w.compressor (to_u64 new_cluster_capacity))

  unfoldable pub interop_generate_next_id : InteropCompressor → Run (F64 × InteropCompressor)
  interop_generate_next_id w = do
    (id, c) ← generate_next_id w.compressor
    done (from_i64 id.id, record { compressor = c })

  unfoldable pub interop_take_next_range : InteropCompressor → Option InteropIds × InteropCompressor
  interop_take_next_range w =
      let (r, c) = take_next_range w.compressor in (interop_ids r.range, record { compressor = c })
    where
      interop_ids : Option (ℕ × ℕ) → Option InteropIds
      interop_ids none = none
      interop_ids (some (first_local_gen_count, count)) = some (record {
        first_local_gen_count = from_u64 first_local_gen_count;
        count = from_u64 count;
      })

  unfoldable pub interop_normalize_to_op_space : InteropCompressor → F64 → Run F64
  interop_normalize_to_op_space w session_space_id =
      normalize_to_op_space w.compressor (record { id = to_i64 session_space_id }) >>= λ r. elim r [
        | err _ ↦ done nan
        | ok op_space_id ↦ done (from_i64 op_space_id.id)
      ]

  unfoldable pub interop_normalize_to_session_space : InteropCompressor → F64 → F64 → Run F64
  interop_normalize_to_session_space w op_space_id originator_token =
      normalize_to_session_space_with_token w.compressor (record { id = to_i64 op_space_id })
        (to_i64 originator_token)
      >>= λ r. elim r [
        | err _ ↦ done nan
        | ok session_space_id ↦ done (from_i64 session_space_id.id)
      ]

  unfoldable pub interop_serialize : InteropCompressor → Bool → Run (List ℕ)
  interop_serialize w include_local_state = serialize w.compressor include_local_state

  abbrev pub interop_stats : TelemetryStats → InteropTelemetryStats
  interop_stats stats = record {
    eager_final_count = from_u64 stats.eager_final_count;
    local_id_count = from_u64 stats.local_id_count;
    expansion_count = from_u64 stats.expansion_count;
    cluster_creation_count = from_u64 stats.cluster_creation_count;
  }

  -- `compressor_equals`, which debug builds have.
  unfoldable pub interop_compressor_equals :
      InteropCompressor → InteropCompressor → Bool → Run (Result Bool JsError)
  interop_compressor_equals a b compare_local_state =
      equals_test_only a.compressor b.compressor compare_local_state >>= λ same. done (ok same)

  module _ (crate : UuidCrate) (text : UuidText crate) where
    -- `increment_uuid`, which debug builds have; a text that is no UUID makes it panic.
    unfoldable pub increment_uuid : String → F64 → Run (Result (List ℕ) JsError)
    increment_uuid uuid_string offset = elim (from_uuid_string crate text uuid_string) [
      | err _ ↦ panicked
      | ok session_id ↦ done (
          ok (
            bytes_from_stable crate text
              (stable_add (stable_from_session session_id) (to_u64 offset))))
    ]

    unfoldable pub interop_new : String → Result InteropCompressor JsError
    interop_new session_id_string = elim (from_uuid_string crate text session_id_string) [
      | err e ↦ err (into_jserror e)
      | ok session_id ↦ ok (record { compressor = new_with_session_id session_id })
    ]

    unfoldable pub interop_get_local_session_id : InteropCompressor → List ℕ
    interop_get_local_session_id w =
        bytes_from_stable crate text (stable_from_session (get_local_session_id w.compressor))

    unfoldable pub interop_get_token : InteropCompressor → String → Result F64 JsError
    interop_get_token w session_uuid_string =
        elim (from_uuid_string crate text session_uuid_string) [
          | err e ↦ err (into_jserror e)
          | ok session_id ↦ elim (get_session_token_from_session_id w.compressor session_id) [
            | err _ ↦ ok interop_get_nil_token
            | ok x ↦ ok (from_i64 x)
          ]
        ]

    -- On success the telemetry is read, which resets it.
    unfoldable pub interop_finalize_range :
        InteropCompressor
        → String
        → F64
        → F64
        → Run (Result (Option InteropTelemetryStats) JsError × InteropCompressor)
    interop_finalize_range w session_id_str range_base_count range_len =
        elim (from_uuid_string crate text session_id_str) [
          | err e ↦ done (err (into_jserror e), w)
          | ok session_id ↦
              finalize_range w.compressor (record {
                id = session_id;
                range = some (to_u64 range_base_count, to_u64 range_len);
              })
              >>= λ (r, c). elim r [
                | err e ↦ done (err (into_jserror e), record { compressor = c })
                | ok _ ↦
                    let (stats, c') = get_telemetry_stats c in
                    done (ok (some (interop_stats stats)), record { compressor = c' })
              ]
        ]

    unfoldable pub interop_decompress : InteropCompressor → F64 → Run (Option (List ℕ))
    interop_decompress w id_to_decompress =
        decompress w.compressor (record { id = to_i64 id_to_decompress }) >>= λ r. elim r [
          | err _ ↦ done none
          | ok stable_id ↦ done (some (bytes_from_stable crate text stable_id))
        ]

    unfoldable pub interop_recompress : InteropCompressor → String → Run (Option F64)
    interop_recompress w id_to_recompress = elim (from_uuid_string crate text id_to_recompress) [
      | err _ ↦ done none
      | ok session_id ↦ recompress w.compressor (stable_from_session session_id) >>= λ r. elim r [
        | err _ ↦ done none
        | ok id ↦ done (some (from_i64 id.id))
      ]
    ]

    unfoldable pub interop_deserialize : List ℕ → String → Run (Result InteropCompressor JsError)
    interop_deserialize bytes session_id_string =
        elim (from_uuid_string crate text session_id_string) [
          | err e ↦ done (err (into_jserror e))
          | ok session_id ↦ deserialize crate session_id bytes >>= λ r. elim r [
            | err e ↦ done (err (js_error (deserialization_error_string e)))
            | ok c ↦ done (ok (record { compressor = c }))
          ]
        ]
