-- ===== src/Bytes/RoundTrip.antt =====
-- A number that was written is read back, and what follows it is left.
use native.Mathlib.Nat.{pow-suc}
use distributed_id_allocator.Common.{
  ℕ, zero, suc, ◌/◌, ◌^◌, ◌<◌, ◌≡◌, refl, ap, List, [], ◌∷◌, ◌++◌, done, length, take, drop, All,
  arith, length-append,
}
use distributed_id_allocator.Bytes.{to_le_bytes, from_le_bytes, slice, take_one}

pub length-to_le_bytes : (size num : ℕ) → length (to_le_bytes size num) ≡ size
unfolding to_le_bytes
length-to_le_bytes zero num = refl
length-to_le_bytes (suc size) num = ap suc (length-to_le_bytes size (num / 256))

pub from_le_bytes-to_le_bytes :
    (size num : ℕ) → num < 256 ^ size → from_le_bytes (to_le_bytes size num) ≡ num
unfolding to_le_bytes from_le_bytes
from_le_bytes-to_le_bytes zero num h = omega arith
from_le_bytes-to_le_bytes (suc size) num h =
    omega (arith, from_le_bytes-to_le_bytes size (num / 256) (omega (arith, pow-suc 256 size)))

pub to_le_bytes-bytes : (size num : ℕ) → All (λ b. b < 256) (to_le_bytes size num)
unfolding to_le_bytes
to_le_bytes-bytes zero num = tt
to_le_bytes-bytes (suc size) num = (omega arith, to_le_bytes-bytes size (num / 256))

pub take-append : (xs ys : List ℕ) → take (length xs) (xs ++ ys) ≡ xs
take-append [] ys = refl
take-append (x ∷ xs) ys = ap (λ t. x ∷ t) (take-append xs ys)

pub drop-append : (xs ys : List ℕ) → drop (length xs) (xs ++ ys) ≡ ys
drop-append [] ys = refl
drop-append (x ∷ xs) ys = drop-append xs ys

take_at : (xs ys : List ℕ) (n : ℕ) → n ≡ length xs → take n (xs ++ ys) ≡ xs
take_at xs ys n e = rw e (take-append xs ys)

pub drop_at : (xs ys : List ℕ) (n : ℕ) → n ≡ length xs → drop n (xs ++ ys) ≡ ys
drop_at xs ys n e = rw e (drop-append xs ys)

-- The slice between two other parts.
pub slice_at :
    (front mid back : List ℕ) (i n : ℕ)
    → i ≡ length front
    → n ≡ length mid
    → slice (front ++ (mid ++ back)) i n ≡ done mid
slice_at front mid back i n e f = ground (
  arith,
  length-append front (mid ++ back),
  length-append mid back,
  drop_at front (mid ++ back) i,
  take_at mid back n,
)

-- The deserializer takes a number below 256 ^ size, written in `size` little-endian bytes, back
-- from the front and leaves the bytes that follow.
pub take_one-to_le_bytes :
    (size num : ℕ) (rest : List ℕ)
    → num < 256 ^ size
    → take_one size (to_le_bytes size num ++ rest) ≡ done (num, rest)
unfolding take_one
take_one-to_le_bytes size num rest h = ground (
  arith,
  slice_at [] (to_le_bytes size num) rest 0 size,
  length-to_le_bytes size num,
  drop_at (to_le_bytes size num) rest size,
  from_le_bytes-to_le_bytes size num,
)
