-- ===== src/Common/Lists.antt =====
-- Vectors as lists with native indices; order and membership by recursion.
use distributed_id_allocator.Common.Tests.{if◌then◌else◌, ◌==◌}
use Prim.Native.Nat.{ℕ, zero, suc, ◌+◌, ◌<◌}
use mathlib.Core.Path.{◌≡◌, refl, subst}
use mathlib.Core.List.{List, [], ◌∷◌, ◌++◌}
use mathlib.Core.Option.{Option, none, some, some-injective}
use native.Mathlib.Omega.{arith}

module _ {ℓ} {A : Type ℓ} where
  abbrev pub length : List A → ℕ
  length [] = 0
  length (x ∷ xs) = suc (length xs)

  abbrev pub get_elem? : List A → ℕ → Option A
  get_elem? [] i = none
  get_elem? (x ∷ xs) zero = some x
  get_elem? (x ∷ xs) (suc i) = get_elem? xs i

  -- A write out of bounds changes nothing.
  abbrev pub set : List A → ℕ → A → List A
  set [] i v = []
  set (x ∷ xs) zero v = v ∷ xs
  set (x ∷ xs) (suc i) v = x ∷ set xs i v

  abbrev pub take : ℕ → List A → List A
  take zero xs = []
  take (suc n) [] = []
  take (suc n) (x ∷ xs) = x ∷ take n xs

  abbrev pub drop : ℕ → List A → List A
  drop zero xs = xs
  drop (suc n) [] = []
  drop (suc n) (x ∷ xs) = drop n xs

  abbrev pub get_last? : List A → Option A
  get_last? [] = none
  get_last? (x ∷ []) = some x
  get_last? (x ∷ y ∷ ys) = get_last? (y ∷ ys)

  abbrev pub All {κ} : (A → Type κ) → List A → Type κ
  All P [] = Unit {κ}
  All P (x ∷ xs) = P x × All P xs

  -- Every element is related to every later one.
  abbrev pub Sorted {κ} : (A → A → Type κ) → List A → Type κ
  Sorted R [] = Unit {κ}
  Sorted R (x ∷ xs) = All (R x) xs × Sorted R xs

module _ {ℓ} {A : Type ℓ} where
  pub length-append : (xs ys : List A) → length (xs ++ ys) ≡ length xs + length ys
  length-append [] ys = omega arith
  length-append (x ∷ xs) ys = omega (arith, length-append xs ys)

  pub get_elem?-append_left :
      (xs ys : List A) (i : ℕ) → i < length xs → get_elem? (xs ++ ys) i ≡ get_elem? xs i
  get_elem?-append_left [] ys i h = elim h [ ]
  get_elem?-append_left (x ∷ xs) ys zero h = refl
  get_elem?-append_left (x ∷ xs) ys (suc i) h = get_elem?-append_left xs ys i (omega arith)

  pub get_elem?-append_length :
      (xs : List A) (y : A) → get_elem? (xs ++ (y ∷ [])) (length xs) ≡ some y
  get_elem?-append_length [] y = refl
  get_elem?-append_length (x ∷ xs) y = get_elem?-append_length xs y

  pub get_elem?_lt : (xs : List A) (i : ℕ) {x : A} → get_elem? xs i ≡ some x → i < length xs
  get_elem?_lt [] i h = ground arith
  get_elem?_lt (x ∷ xs) zero h = omega arith
  get_elem?_lt (x ∷ xs) (suc i) h = omega (arith, get_elem?_lt xs i h)

  pub get_elem?-some : (xs : List A) (i : ℕ) → i < length xs → (x : A) × (get_elem? xs i ≡ some x)
  get_elem?-some [] i h = elim h [ ]
  get_elem?-some (x ∷ xs) zero h = (x, refl)
  get_elem?-some (x ∷ xs) (suc i) h = get_elem?-some xs i (omega arith)

  -- The last element of a non-empty vector stands at its length less one.
  pub get_last?-cons_some : (x : A) (xs : List A) → (y : A) × (get_last? (x ∷ xs) ≡ some y)
  get_last?-cons_some x [] = (x, refl)
  get_last?-cons_some x (y ∷ ys) = get_last?-cons_some y ys

  pub get_last?-append : (xs : List A) (y : A) → get_last? (xs ++ (y ∷ [])) ≡ some y
  get_last?-append [] y = refl
  get_last?-append (x ∷ []) y = refl
  get_last?-append (x ∷ z ∷ zs) y = get_last?-append (z ∷ zs) y

  module _ {κ} (P : A → Type κ) where
    pub All-get : (xs : List A) (i : ℕ) {x : A} → All P xs → get_elem? xs i ≡ some x → P x
    All-get [] i a h = ground arith
    All-get (y ∷ xs) zero a h = subst P (some-injective _ _ h) a.0
    All-get (y ∷ xs) (suc i) a h = All-get xs i a.1 h

    pub All-append : (xs ys : List A) → All P xs → All P ys → All P (xs ++ ys)
    All-append [] ys a b = b
    All-append (x ∷ xs) ys a b = (a.0, All-append xs ys a.1 b)

  module _ {κ} (R : A → A → Type κ) where
    -- An earlier element is related to a later one.
    pub Sorted-get :
        (xs : List A) (i j : ℕ) {x y : A}
        → Sorted R xs
        → i < j
        → get_elem? xs i ≡ some x
        → get_elem? xs j ≡ some y
        → R x y
    Sorted-get [] i j s h p q = ground arith
    Sorted-get (z ∷ xs) i zero s h p q = elim h [ ]
    Sorted-get (z ∷ xs) zero (suc j) {y = y} s h p q =
        subst (λ w. R w y) (some-injective _ _ p) (All-get (R z) xs j s.0 q)
    Sorted-get (z ∷ xs) (suc i) (suc j) s h p q = Sorted-get xs i j s.1 (omega arith) p q

    pub Sorted-append :
        (xs : List A) (y : A) → Sorted R xs → All (λ x. R x y) xs → Sorted R (xs ++ (y ∷ []))
    Sorted-append [] y s a = (tt, tt)
    Sorted-append (x ∷ xs) y s a =
        (All-append (R x) xs (y ∷ []) s.0 (a.0, tt), Sorted-append xs y s.1 a.1)

pub All-imp {ℓ κ ι} :
    {A : Type ℓ} {P : A → Type κ} {Q : A → Type ι} (xs : List A)
    → ((x : A) → P x → Q x)
    → All P xs
    → All Q xs
All-imp [] f h = tt
All-imp (x ∷ xs) f h = (f x h.0, All-imp xs f h.1)

module _ {ℓ} {A : Type ℓ} where
  -- What was written is there.
  pub get_elem?-set :
      (xs : List A) (i : ℕ) (v : A) {x : A}
      → get_elem? xs i ≡ some x
      → get_elem? (set xs i v) i ≡ some v
  get_elem?-set [] i v e = ground arith
  get_elem?-set (x ∷ xs) zero v e = refl
  get_elem?-set (x ∷ xs) (suc i) v e = get_elem?-set xs i v e

  -- A write elsewhere leaves an element at its place, if another one perhaps.
  pub get_elem?-set_any :
      (xs : List A) (i j : ℕ) (v : A) {x : A}
      → get_elem? xs j ≡ some x
      → (y : A) × (get_elem? (set xs i v) j ≡ some y)
  get_elem?-set_any [] i j v e = ground arith
  get_elem?-set_any (x ∷ xs) zero zero v e = (v, refl)
  get_elem?-set_any (x ∷ xs) zero (suc j) v {x = y} e = (y, e)
  get_elem?-set_any (x ∷ xs) (suc i) zero v e = (x, refl)
  get_elem?-set_any (x ∷ xs) (suc i) (suc j) v e = get_elem?-set_any xs i j v e

  pub get_elem?-set_test :
      (xs : List A) (i j : ℕ) (v : A) {x : A}
      → get_elem? xs i ≡ some x
      → get_elem? (set xs i v) j ≡ (if j == i then some v else get_elem? xs j)
  get_elem?-set_test [] i j v e = ground arith
  get_elem?-set_test (x ∷ xs) zero zero v e = refl
  get_elem?-set_test (x ∷ xs) zero (suc j) v e = ground arith
  get_elem?-set_test (x ∷ xs) (suc i) zero v e = ground arith
  get_elem?-set_test (x ∷ xs) (suc i) (suc j) v e = ground (arith, get_elem?-set_test xs i j v e)

  pub length-set : (xs : List A) (i : ℕ) (v : A) → length (set xs i v) ≡ length xs
  length-set [] i v = refl
  length-set (x ∷ xs) zero v = refl
  length-set (x ∷ xs) (suc i) v = omega (arith, length-set xs i v)
