-- ===== src/Examples/Numbers.antt =====
-- Whole numbers in place of f64, and the theorems on the wrapper for JavaScript.
use Prim.Native.String.{String}
use distributed_id_allocator.Common.{
  ℕ, ◌≡◌, refl, Option, none, some, Bool, true, false, if◌then◌else◌, ltb, ◌==◌, done, ok, err, inl,
  arith,
}
use distributed_id_allocator.Word.{is_negative, ltb_i64}
use distributed_id_allocator.Ids.Errors.{invalid_cluster_capacity}
use distributed_id_allocator.Compressor.Spaces.{op_of_generation}
use distributed_id_allocator.Interop.{
  Js, InteropCompressor, into_jserror, interop_set_cluster_capacity, interop_normalize_to_op_space,
  interop_normalize_to_session_space,
}
use distributed_id_allocator.Interop.Exact.{
  IsJs, interop_set_cluster_capacity_lem, interop-roundtrip,
}
use distributed_id_allocator.Examples.{used, space_a, program}
use distributed_id_allocator.Examples.Witnesses.{used-IsOwn}

-- A number is the bit pattern of an `i64`, or none for NaN.
abbrev Number : Type 0
Number = Option ℕ

abbrev number_to_u64 : Number → ℕ
number_to_u64 none = 0
number_to_u64 (some x) = if is_negative x then 0 else x

abbrev number_to_i64 : Number → ℕ
number_to_i64 none = 0
number_to_i64 (some x) = x

abbrev is_nan : Number → Bool
is_nan none = true
is_nan (some x) = false

abbrev number_lt : Number → Number → Bool
number_lt (some x) (some y) = ltb_i64 x y
number_lt _ _ = false

abbrev numbers : Js
numbers = record {
  F64 = Number;
  JsError = String;
  from_u64 = λ n. some n;
  from_i64 = λ x. some x;
  to_u64 = number_to_u64;
  to_i64 = number_to_i64;
  nan = none;
  has_fraction = is_nan;
  lt = number_lt;
  js_error = λ s. s;
}

numbers-IsJs : IsJs numbers
numbers-IsJs = record {
  to_u64-from_u64 = λ n h. ground arith;
  to_i64-from_i64 = λ x h. refl;
  from_i64-from_u64 = λ n h. refl;
  whole = λ n h. refl;
  order = λ m n h k. ground arith;
}

abbrev wrapper : InteropCompressor
wrapper = record { compressor = used }

interop_set_cluster_capacity_example : interop_set_cluster_capacity numbers wrapper (some 1024) ≡ (
    if 1024 == 0
    then (err (into_jserror numbers invalid_cluster_capacity), wrapper)
    else if ltb 2048 1024
    then (err "Clusters must not exceed max cluster size.", wrapper)
    else (ok tt, record { compressor = record used { cluster_capacity = 1024 } }))
interop_set_cluster_capacity_example =
    interop_set_cluster_capacity_lem numbers numbers-IsJs wrapper 1024 (omega arith)

interop-roundtrip_example :
    (interop_normalize_to_op_space numbers wrapper (some 2)
      ≡ done (some (op_of_generation space_a 3).id))
    × (interop_normalize_to_session_space numbers wrapper
          (some (op_of_generation space_a 3).id)
          (some 0)
        ≡ done (some 2))
unfolding program
interop-roundtrip_example =
    interop-roundtrip numbers numbers-IsJs used space_a used-IsOwn 3 (omega arith) (omega arith)
      (record { id = 2 }) refl (inl (omega arith)) (inl (omega arith)) (omega arith)
