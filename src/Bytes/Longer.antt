-- ===== src/Bytes/Longer.antt =====
-- Reading from bytes that are longer: what is read is the same, and more is left.
use distributed_id_allocator.Common.{
  ℕ, zero, suc, ◌+◌, ◌≤◌, ◌≡◌, refl, ap, ◌∙◌, List, [], ◌∷◌, ◌++◌, Run, done, ◌>>=◌, >>=-eq-done,
  done-injective, length, length-append, take, drop, leb, true, Bool-cases, inl, inr, arith,
}
use distributed_id_allocator.Bytes.{from_le_bytes, take_one}

-- Where the first run returns, the other one returns what `extend` makes of it.
abbrev pub Extends {ℓ} : {A : Type ℓ} → (A → A) → Run A → Run A → Type ℓ
Extends {A = A} extend m m' = (a : A) → m ≡ done a → m' ≡ done (extend a)

-- The same value, and more bytes left.
abbrev pub longer {ℓ} : {A : Type ℓ} → List ℕ → A × List ℕ → A × List ℕ
longer more (a, left) = (a, left ++ more)

pub >>=-Extends {ℓ κ} :
    {A : Type ℓ} {B : Type κ} {extend : A → A} {extend' : B → B} (m m' : Run A) (f f' : A → Run B)
    → Extends extend m m'
    → ((a : A) → Extends extend' (f a) (f' (extend a)))
    → Extends extend' (m >>= f) (m' >>= f')
>>=-Extends m m' f f' first rest b h =
    let (a, p, q) = >>=-eq-done m f h in ap (λ n. n >>= f') (first a p) ∙ rest a b q

pub done-Extends {ℓ} :
    {A : Type ℓ} (extend : A → A) (a : A) → Extends extend (done a) (done (extend a))
done-Extends extend a b h = ap (λ z. done (extend z)) (done-injective h)

take_longer : (n : ℕ) (xs ys : List ℕ) → n ≤ length xs → take n (xs ++ ys) ≡ take n xs
take_longer zero xs ys h = refl
take_longer (suc n) [] ys h = absurd (omega (arith, h))
take_longer (suc n) (x ∷ xs) ys h = ap (λ t. x ∷ t) (take_longer n xs ys (omega (arith, h)))

drop_longer : (n : ℕ) (xs ys : List ℕ) → n ≤ length xs → drop n (xs ++ ys) ≡ drop n xs ++ ys
drop_longer zero xs ys h = refl
drop_longer (suc n) [] ys h = absurd (omega (arith, h))
drop_longer (suc n) (x ∷ xs) ys h = drop_longer n xs ys (omega (arith, h))

pub take_one-Extends :
    (size : ℕ) (bytes more : List ℕ)
    → Extends (longer more) (take_one size bytes) (take_one size (bytes ++ more))
unfolding take_one
take_one-Extends size bytes more a h = elim (Bool-cases (leb (0 + size) (length bytes))) [
  | inr short ↦ ground (arith, short, h)
  | inl fits ↦
      let le : size ≤ length bytes = ground (arith, fits) in
      let still : leb (0 + size) (length (bytes ++ more)) ≡ true =
        ground (arith, le, length-append bytes more) in
      let same : (from_le_bytes (take size bytes), drop size bytes) ≡ a =
        done-injective (rw (fits) at h) in
      rw (still, take_longer size bytes more le, drop_longer size bytes more le)
        (ap (λ p. done (longer more p)) same)
]
