-- ===== src/Base/Lists.antt =====
-- Lists measured and indexed by native numbers, under the library's names.
use Prim.Native.Nat.{ℕ, zero, suc, ◌+◌, ◌<◌}
use mathlib.Core.Path.{◌≡◌, refl}
use mathlib.Core.Option.{Option, none, some}
use mathlib.Core.List.{List, [], ◌∷◌, ◌++◌, map}
use native.Mathlib.Omega.{arith}

module _ {ℓ} {A : Type ℓ} where
  abbrev pub length : List A → ℕ
  length [] = 0
  length (x ∷ xs) = suc (length xs)

  abbrev pub get_elem? : List A → ℕ → Option A
  get_elem? [] i = none
  get_elem? (x ∷ xs) zero = some x
  get_elem? (x ∷ xs) (suc i) = get_elem? xs i

  pub length-append : (xs ys : List A) → length (xs ++ ys) ≡ length xs + length ys
  length-append [] ys = omega arith
  length-append (x ∷ xs) ys = omega (arith, length-append xs ys)

  -- An index within the list reads an element.
  pub get_elem?-total : (xs : List A) (i : ℕ) → i < length xs → (x : A) × (get_elem? xs i ≡ some x)
  get_elem?-total [] i h = elim h [ ]
  get_elem?-total (x ∷ xs) zero h = (x, refl)
  get_elem?-total (x ∷ xs) (suc i) h = get_elem?-total xs i (omega arith)

-- A predicate by recursion computes to tuples, which the tactics read and build.
abbrev pub All {ℓ κ} : {A : Type ℓ} → (A → Type κ) → List A → Type κ
All P [] = Unit
All P (x ∷ xs) = P x × All P xs

module _ {ℓ κ} {A : Type ℓ} where
  pub All-append : (P : A → Type κ) (xs ys : List A) → All P xs → All P ys → All P (xs ++ ys)
  All-append P [] ys hx hy = hy
  All-append P (x ∷ xs) ys hx hy = (hx.0, All-append P xs ys hx.1 hy)

  pub All-map :
      (P : A → Type κ) (f : A → A) (xs : List A)
      → ((x : A) → P x → P (f x))
      → All P xs
      → All P (map f xs)
  All-map P f [] keep h = tt
  All-map P f (x ∷ xs) keep h = (keep x h.0, All-map P f xs keep h.1)

-- A predicate on the value of an option, if it has one.
abbrev pub OnSome {ℓ κ} : {A : Type ℓ} → (A → Type κ) → Option A → Type κ
OnSome P none = Unit
OnSome P (some x) = P x
