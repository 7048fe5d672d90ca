-- ===== src/Ids/Stable/Masks.antt =====
-- `&` with a mask of adjacent bits and `|` of disjoint fields, as arithmetic.
use Prim.Native.Nat.{min, max, bit_and, bit_or, digits, bit_and-bitwise, bit_or-bitwise}
use native.Mathlib.Nat.{pow-suc, one-le-pow, div-add-mod}
use distributed_id_allocator.Common.{
  ℕ, zero, suc, ◌+◌, ◌-◌, ◌*◌, ◌/◌, ◌%◌, ◌^◌, ◌≤◌, ◌<◌, ◌≡◌, refl, ap, ◌∙◌, arith,
}

-- Both operations walk the binary digits of the first number; more fuel than that changes nothing.
module _ (rest : ℕ → ℕ) (digit : ℕ → ℕ → ℕ) where
  digits-enough : (x y f g : ℕ) → x ≤ f → x ≤ g → digits rest digit f x y ≡ digits rest digit g x y
  digits-enough zero y zero zero hf hg = refl
  digits-enough zero y zero (suc g) hf hg = refl
  digits-enough zero y (suc f) zero hf hg = refl
  digits-enough zero y (suc f) (suc g) hf hg = refl
  digits-enough (suc x) y zero g hf hg = absurd (omega arith)
  digits-enough (suc x) y (suc f) zero hf hg = absurd (omega arith)
  digits-enough (suc x) y (suc f) (suc g) hf hg =
      omega (arith, digits-enough (suc x / 2) (y / 2) f g (omega arith) (omega arith))

-- The lowest digit and the rest.
and_digit : (x y : ℕ) → bit_and x y ≡ bit_and (x / 2) (y / 2) * 2 + min (x % 2) (y % 2)
and_digit zero y = omega (arith, bit_and-bitwise 0 y, bit_and-bitwise 0 (y / 2))
and_digit (suc x) y = omega (
  arith,
  bit_and-bitwise (suc x) y,
  bit_and-bitwise (suc x / 2) (y / 2),
  digits-enough (λ _. 0) min (suc x / 2) (y / 2) x (suc x / 2) (omega arith) (omega arith),
)

or_digit : (x y : ℕ) → bit_or x y ≡ bit_or (x / 2) (y / 2) * 2 + max (x % 2) (y % 2)
or_digit zero y = omega (arith, bit_or-bitwise 0 y, bit_or-bitwise 0 (y / 2))
or_digit (suc x) y = omega (
  arith,
  bit_or-bitwise (suc x) y,
  bit_or-bitwise (suc x / 2) (y / 2),
  digits-enough (λ v. v) max (suc x / 2) (y / 2) x (suc x / 2) (omega arith) (omega arith),
)

-- A shift by one more place.
shift-suc : (x k : ℕ) → x * 2 ^ suc k ≡ 2 * (x * 2 ^ k)
shift-suc x k = omega (arith, ap (λ (t : ℕ). x * t) (pow-suc 2 k))

module _ (x y : ℕ) where
  -- Bits below a mask's lowest one do not matter.
  bit_and-shifted :
      (k r : ℕ) → r < 2 ^ k → bit_and (x * 2 ^ k + r) (y * 2 ^ k) ≡ bit_and x y * 2 ^ k
  bit_and-shifted zero r h = ground arith
  bit_and-shifted (suc k) r h = ground (
    arith,
    and_digit (x * 2 ^ suc k + r) (y * 2 ^ suc k),
    shift-suc x k,
    shift-suc y k,
    shift-suc (bit_and x y) k,
    pow-suc 2 k,
    bit_and-shifted k (r / 2) (omega (arith, pow-suc 2 k)),
  )

bit_and-zero : (f x : ℕ) → x ≤ f → bit_and x 0 ≡ 0
bit_and-zero f zero h = refl
bit_and-zero zero (suc x) h = absurd (omega arith)
bit_and-zero (suc f) (suc x) h =
    omega (arith, and_digit (suc x) 0, bit_and-zero f (suc x / 2) (omega arith))

-- A mask of the low bits keeps them.
bit_and-low : (n x r : ℕ) → r < 2 ^ n → bit_and (x * 2 ^ n + r) (2 ^ n - 1) ≡ r
bit_and-low zero x r h = omega (arith, bit_and-zero (x * 2 ^ 0 + r) (x * 2 ^ 0 + r) (omega arith))
bit_and-low (suc n) x r h = ground (
  arith,
  and_digit (x * 2 ^ suc n + r) (2 ^ suc n - 1),
  shift-suc x n,
  pow-suc 2 n,
  one-le-pow n 2,
  bit_and-low n x (r / 2) (omega (arith, pow-suc 2 n)),
)

split : (u k : ℕ) → u ≡ u / 2 ^ k * 2 ^ k + u % 2 ^ k
split u k = omega (arith, div-add-mod u (2 ^ k))

-- `&` with a mask of `n` bits from bit `k` on.
pub bit_and_field : (k n u : ℕ) → bit_and u ((2 ^ n - 1) * 2 ^ k) ≡ u / 2 ^ k % 2 ^ n * 2 ^ k
bit_and_field k n u =
    ap (λ v. bit_and v ((2 ^ n - 1) * 2 ^ k)) (split u k)
    ∙ bit_and-shifted (u / 2 ^ k) (2 ^ n - 1) k (u % 2 ^ k) (ground (arith, one-le-pow k 2))
    ∙ ap (λ v. bit_and v (2 ^ n - 1) * 2 ^ k) (split (u / 2 ^ k) n)
    ∙ ap (λ v. v * 2 ^ k)
        (bit_and-low n (u / 2 ^ k / 2 ^ n) (u / 2 ^ k % 2 ^ n) (ground (arith, one-le-pow n 2)))

bit_or-zero : (f x : ℕ) → x ≤ f → bit_or x 0 ≡ x
bit_or-zero f zero h = refl
bit_or-zero zero (suc x) h = absurd (omega arith)
bit_or-zero (suc f) (suc x) h =
    omega (arith, or_digit (suc x) 0, bit_or-zero f (suc x / 2) (omega arith))

-- `|` of a field from bit `k` on with one below it.
pub bit_or_below : (k x r : ℕ) → r < 2 ^ k → bit_or (x * 2 ^ k) r ≡ x * 2 ^ k + r
bit_or_below zero x r h = ground (arith, bit_or-zero (x * 2 ^ 0) (x * 2 ^ 0) (omega arith))
bit_or_below (suc k) x r h = ground (
  arith,
  or_digit (x * 2 ^ suc k) r,
  shift-suc x k,
  pow-suc 2 k,
  bit_or_below k x (r / 2) (omega (arith, pow-suc 2 k)),
)
