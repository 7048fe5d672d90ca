-- ===== src/Bytes.antt =====
-- compressor/persistence_utils.rs: little-endian numbers in a vector of bytes.
pub mod RoundTrip
pub mod Longer
use distributed_id_allocator.Common.{
  ℕ, zero, suc, ◌+◌, ◌*◌, ◌/◌, ◌%◌, List, [], ◌∷◌, ◌++◌, Option, none, some, Run, done, panicked,
  ◌>>=◌, unwrap, length, take, drop, leb, if◌then◌else◌,
}

-- `to_le_bytes` and `from_le_bytes` of a number of `size` bytes.
unfoldable pub to_le_bytes : ℕ → ℕ → List ℕ
to_le_bytes zero num = []
to_le_bytes (suc size) num = (num % 256) ∷ to_le_bytes size (num / 256)

unfoldable pub from_le_bytes : List ℕ → ℕ
from_le_bytes [] = 0
from_le_bytes (b ∷ bytes) = b + 256 * from_le_bytes bytes

-- `&bytes[index..index + size]`, which panics where the slice ends too soon.
abbrev pub slice : List ℕ → ℕ → ℕ → Run (List ℕ)
slice bytes index size =
    if leb (index + size) (length bytes) then done (take size (drop index bytes)) else panicked

-- The deserializer is the bytes that are left. `take_one` takes `size` of them.
unfoldable pub take_one : ℕ → List ℕ → Run (ℕ × List ℕ)
take_one size bytes = do val_arr ← slice bytes 0 size; done (from_le_bytes val_arr, drop size bytes)

abbrev pub take_u32 : List ℕ → Run (ℕ × List ℕ)
take_u32 = take_one 4

abbrev pub take_u64 : List ℕ → Run (ℕ × List ℕ)
take_u64 = take_one 8

abbrev pub take_u128 : List ℕ → Run (ℕ × List ℕ)
take_u128 = take_one 16

unfoldable pub write_to_vec : ℕ → List ℕ → ℕ → List ℕ
write_to_vec size bytes val = bytes ++ to_le_bytes size val

abbrev pub write_u32_to_vec : List ℕ → ℕ → List ℕ
write_u32_to_vec = write_to_vec 4

abbrev pub write_u64_to_vec : List ℕ → ℕ → List ℕ
write_u64_to_vec = write_to_vec 8

abbrev pub write_u128_to_vec : List ℕ → ℕ → List ℕ
write_u128_to_vec = write_to_vec 16
