-- ===== src/Search.antt =====
-- `slice::binary_search_by` of Rust's standard library, which the tables call. Its loop keeps `left`,
-- `right` and `size`, the distance between them.
pub mod Locates
pub mod First
pub mod Agree
pub mod Intervals
pub mod Fuel
use Prim.Native.Nat.{Ordering}
use distributed_id_allocator.Common.{
  ℕ, zero, suc, ◌+◌, ◌-◌, ◌/◌, List, Option, none, some, Run, done, panicked, Result, ok, err,
  ◌>>=◌, unwrap, ltb, get_elem?, length, if◌then◌else◌,
}

module _ {ℓ} {A : Type ℓ} (xs : List A) (compare : A → Run Ordering) where
  -- The fuel bounds the rounds; it runs out in no call from `binary_search_by`, as every round
  -- makes `size` smaller. The closure may panic, and so may the search.
  unfoldable pub search_loop : ℕ → ℕ → ℕ → ℕ → Run (Result ℕ ℕ)
  search_loop zero left right size = if ltb left right then panicked else done (err left)
  search_loop (suc fuel) left right size =
      let mid = left + size / 2 in
      let round : Run (Result ℕ ℕ) = (do
        x ← unwrap (get_elem? xs mid)
        order ← compare x
        elim order [
          | Ordering.lt ↦ search_loop fuel (mid + 1) right (right - (mid + 1))
          | Ordering.gt ↦ search_loop fuel left mid (mid - left)
          | Ordering.eq ↦ done (ok mid)
        ]) in
      if ltb left right then round else done (err left)

  unfoldable pub binary_search_by : Run (Result ℕ ℕ)
  binary_search_by = search_loop (length xs) 0 (length xs) (length xs)

-- What the callers make of an answer: `Ok(index) => Some(&slice[index]), Err(_) => None`.
abbrev pub found_at {ℓ} : {A : Type ℓ} → List A → Result ℕ ℕ → Run (Option A)
found_at xs (err _) = done none
found_at xs (ok i) = unwrap (get_elem? xs i) >>= λ x. done (some x)
