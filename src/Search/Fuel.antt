-- ===== src/Search/Fuel.antt =====
-- The fuel of the binary search does not run out.
use Prim.Native.Nat.{Ordering}
use distributed_id_allocator.Common.{
  ℕ, zero, suc, ◌+◌, ◌-◌, ◌/◌, ◌≤◌, ◌≡◌, refl, subst, List, Run, done, panicked, Result, ok, ◌>>=◌,
  unwrap, false, ltb, length, get_elem?, arith, Bool-cases, inl, inr,
}
use distributed_id_allocator.Search.{search_loop, binary_search_by}

>>=-ext {ℓ κ} :
    {A : Type ℓ} {B : Type κ} (m : Run A) (f g : A → Run B)
    → ((a : A) → f a ≡ g a)
    → (m >>= f) ≡ (m >>= g)
>>=-ext (done a) f g h = h a
>>=-ext panicked f g h = refl

abbrev next : Run (Result ℕ ℕ) → Run (Result ℕ ℕ) → ℕ → Ordering → Run (Result ℕ ℕ)
next low high mid Ordering.lt = low
next low high mid Ordering.gt = high
next low high mid Ordering.eq = done (ok mid)

next_equal :
    {low low' high high' : Run (Result ℕ ℕ)} (mid : ℕ) (order : Ordering)
    → low ≡ low'
    → high ≡ high'
    → next low high mid order ≡ next low' high' mid order
next_equal mid Ordering.lt p q = p
next_equal mid Ordering.gt p q = q
next_equal mid Ordering.eq p q = refl

module _ {ℓ} {A : Type ℓ} (xs : List A) (compare : A → Run Ordering) where
  -- Any fuel that reaches is as good as another.
  search_loop_fuel :
      (fuel other left right : ℕ)
      → right - left ≤ fuel
      → right - left ≤ other
      → search_loop xs compare fuel left right (right - left)
        ≡ search_loop xs compare other left right (right - left)
  unfolding search_loop
  search_loop_fuel zero zero left right p q = refl
  search_loop_fuel zero (suc other) left right p q =
      let past : ltb left right ≡ false = ground (arith, p) in rw past refl
  search_loop_fuel (suc fuel) zero left right p q =
      let past : ltb left right ≡ false = ground (arith, q) in rw past refl
  search_loop_fuel (suc fuel) (suc other) left right p q = elim (Bool-cases (ltb left right)) [
    | inr past ↦ rw past refl
    | inl within ↦
        let mid = left + (right - left) / 2 in
        let below : left + 1 ≤ right = ground (arith, within) in
        let low =
          search_loop_fuel fuel other (mid + 1) right (omega (arith, p)) (omega (arith, q)) in
        let high =
          search_loop_fuel fuel other left mid (omega (arith, p, below))
            (omega (arith, q, below)) in
        rw within (
          >>=-ext (unwrap (get_elem? xs mid)) _ _
            (λ x. >>=-ext (compare x) _ _ (λ order. next_equal mid order low high)))
  ]

  search_loop-binary_search_by :
      (fuel : ℕ)
      → length xs ≤ fuel
      → search_loop xs compare fuel 0 (length xs) (length xs) ≡ binary_search_by xs compare
  unfolding binary_search_by
  search_loop-binary_search_by fuel h =
      let n : length xs - 0 ≡ length xs = omega arith in
      subst
        (λ size.
          search_loop xs compare fuel 0 (length xs) size
          ≡ search_loop xs compare (length xs) 0 (length xs) size)
        n (search_loop_fuel fuel (length xs) 0 (length xs) (omega (arith, h)) (omega arith))
