-- ===== src/Common/Last.antt =====
-- A non-empty vector as its front and its last element.
use Prim.Native.Nat.{suc, ◌-◌}
use mathlib.Core.Path.{◌≡◌, refl, ap, ◌∙◌}
use mathlib.Core.List.{List, [], ◌∷◌, ◌++◌}
use mathlib.Core.Option.{some, some-injective}
use native.Mathlib.Omega.{arith}
use distributed_id_allocator.Common.Lists.{length, length-append, get_last?, set, All, Sorted}

module _ {ℓ} {A : Type ℓ} where
  -- `xs[xs.len() - 1] = v`.
  abbrev pub set_last : List A → A → List A
  set_last xs v = set xs (length xs - 1) v

  set_last-cons :
      (x y : A) (ys : List A) (v : A) → set_last (x ∷ y ∷ ys) v ≡ x ∷ set_last (y ∷ ys) v
  set_last-cons x y ys v =
      ap (λ i. set (x ∷ y ∷ ys) i v)
        (let e : suc (suc (length ys)) - 1 ≡ suc (suc (length ys) - 1) = omega arith in e)

  set_last-one : (x v : A) → set_last (x ∷ []) v ≡ v ∷ []
  set_last-one x v = refl

  -- A vector that has a last element, and what a write to it makes.
  pub record Snoc (xs : List A) (y : A) : Type ℓ where
    pub front : List A
    pub shape : xs ≡ front ++ (y ∷ [])
    pub write : (v : A) → set_last xs v ≡ front ++ (v ∷ [])

  pub get_last?-Snoc : (xs : List A) (y : A) → get_last? xs ≡ some y → Snoc xs y
  get_last?-Snoc [] y e = ground arith
  get_last?-Snoc (x ∷ []) y e = record {
    front = [];
    shape = ap (λ z. z ∷ []) (some-injective _ _ e);
    write = set_last-one x;
  }
  get_last?-Snoc (x ∷ z ∷ zs) y e =
      let s = get_last?-Snoc (z ∷ zs) y e in
      record {
        front = x ∷ s.front;
        shape = ap (λ t. x ∷ t) s.shape;
        write = λ v. set_last-cons x z zs v ∙ ap (λ t. x ∷ t) (s.write v);
      }

  module _ {κ} (P : A → Type κ) where
    pub All-front : (xs ys : List A) → All P (xs ++ ys) → All P xs
    All-front [] ys a = tt
    All-front (x ∷ xs) ys a = (a.0, All-front xs ys a.1)

    pub All-back : (xs ys : List A) → All P (xs ++ ys) → All P ys
    All-back [] ys a = a
    All-back (x ∷ xs) ys a = All-back xs ys a.1

  module _ {κ} (R : A → A → Type κ) where
    pub Sorted-front : (xs ys : List A) → Sorted R (xs ++ ys) → Sorted R xs
    Sorted-front [] ys s = tt
    Sorted-front (x ∷ xs) ys s = (All-front (R x) xs ys s.0, Sorted-front xs ys s.1)

    pub Sorted-last : (xs : List A) (y : A) → Sorted R (xs ++ (y ∷ [])) → All (λ x. R x y) xs
    Sorted-last [] y s = tt
    Sorted-last (x ∷ xs) y s = ((All-back (R x) xs (y ∷ []) s.0).0, Sorted-last xs y s.1)

module _ {ℓ} {A : Type ℓ} where
  pub get_last?-append_one : (xs : List A) (x : A) → get_last? (xs ++ (x ∷ [])) ≡ some x
  get_last?-append_one [] x = refl
  get_last?-append_one (y ∷ []) x = refl
  get_last?-append_one (y ∷ z ∷ xs) x = get_last?-append_one (z ∷ xs) x

  pub set-append_one : (xs : List A) (x v : A) → set (xs ++ (x ∷ [])) (length xs) v ≡ xs ++ (v ∷ [])
  set-append_one [] x v = refl
  set-append_one (y ∷ xs) x v = ap (λ t. y ∷ t) (set-append_one xs x v)

  pub set_last-append_one : (xs : List A) (x v : A) → set_last (xs ++ (x ∷ [])) v ≡ xs ++ (v ∷ [])
  set_last-append_one xs x v =
      let e : length (xs ++ (x ∷ [])) - 1 ≡ length xs = omega (arith, length-append xs (x ∷ [])) in
      ap (λ i. set (xs ++ (x ∷ [])) i v) e ∙ set-append_one xs x v
