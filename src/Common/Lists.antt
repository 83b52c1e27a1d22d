-- ===== src/Common/Lists.antt =====
-- Lists measured and indexed by native numbers, under the library's names.
use Prim.Native.Nat.{ℕ, zero, suc, ◌+◌, ◌<◌}
use mathlib.Core.Path.{◌≡◌, refl, ap}
use mathlib.Core.Logic.{◌≢◌, ◌⊎◌, inl, inr}
use mathlib.Core.List.{List, [], ◌∷◌, ◌++◌}
use mathlib.Core.Option.{Option, none, some}
use native.Mathlib.Omega.{arith}

module _ {ℓ} {A : Type ℓ} where
  abbrev pub length : List A → ℕ
  length [] = 0
  length (x ∷ xs) = suc (length xs)

  abbrev pub get_elem? : List A → ℕ → Option A
  get_elem? [] i = none
  get_elem? (x ∷ xs) zero = some x
  get_elem? (x ∷ xs) (suc i) = get_elem? xs i

  -- A write out of bounds changes nothing.
  abbrev pub set : List A → ℕ → A → List A
  set [] i v = []
  set (x ∷ xs) zero v = v ∷ xs
  set (x ∷ xs) (suc i) v = x ∷ set xs i v

  abbrev pub take : ℕ → List A → List A
  take zero xs = []
  take (suc n) [] = []
  take (suc n) (x ∷ xs) = x ∷ take n xs

  abbrev pub drop : ℕ → List A → List A
  drop zero xs = xs
  drop (suc n) [] = []
  drop (suc n) (x ∷ xs) = drop n xs

  abbrev pub replicate : ℕ → A → List A
  replicate zero a = []
  replicate (suc n) a = a ∷ replicate n a

  abbrev pub All {κ} : (A → Type κ) → List A → Type κ
  All P [] = Unit
  All P (x ∷ xs) = P x × All P xs

  pub length-append : (xs ys : List A) → length (xs ++ ys) ≡ length xs + length ys
  length-append [] ys = omega arith
  length-append (x ∷ xs) ys = omega (arith, length-append xs ys)

  pub length-set : (xs : List A) (i : ℕ) (v : A) → length (set xs i v) ≡ length xs
  length-set [] i v = refl
  length-set (x ∷ xs) zero v = refl
  length-set (x ∷ xs) (suc i) v = ap suc (length-set xs i v)

  pub drop-append : (xs ys : List A) → drop (length xs) (xs ++ ys) ≡ ys
  drop-append [] ys = refl
  drop-append (x ∷ xs) ys = drop-append xs ys

  pub take-append : (xs ys : List A) → take (length xs) (xs ++ ys) ≡ xs
  take-append [] ys = refl
  take-append (x ∷ xs) ys = ap (◌∷◌ x) (take-append xs ys)

module _ {ℓ} {A : Type ℓ} where
  pub get_elem?-set_self :
      (xs : List A) (i : ℕ) (v : A) → i < length xs → get_elem? (set xs i v) i ≡ some v
  get_elem?-set_self [] i v h = elim h [ ]
  get_elem?-set_self (x ∷ xs) zero v h = refl
  get_elem?-set_self (x ∷ xs) (suc i) v h = get_elem?-set_self xs i v (omega arith)

  pub get_elem?-set_ne :
      (xs : List A) (i j : ℕ) (v : A) → i ≢ j → get_elem? (set xs i v) j ≡ get_elem? xs j
  get_elem?-set_ne [] i j v h = refl
  get_elem?-set_ne (x ∷ xs) zero zero v h = absurd (h refl)
  get_elem?-set_ne (x ∷ xs) zero (suc j) v h = refl
  get_elem?-set_ne (x ∷ xs) (suc i) zero v h = refl
  get_elem?-set_ne (x ∷ xs) (suc i) (suc j) v h = get_elem?-set_ne xs i j v (λ e. h (ap suc e))

  pub get_elem?-lt : (xs : List A) (i : ℕ) (a : A) → get_elem? xs i ≡ some a → i < length xs
  get_elem?-lt [] i a e = cc
  get_elem?-lt (x ∷ xs) zero a e = omega arith
  get_elem?-lt (x ∷ xs) (suc i) a e = omega (arith, get_elem?-lt xs i a e)

  pub get_elem?-concat_self : (xs : List A) (a : A) → get_elem? (xs ++ a ∷ []) (length xs) ≡ some a
  get_elem?-concat_self [] a = refl
  get_elem?-concat_self (x ∷ xs) a = get_elem?-concat_self xs a

  pub get_elem?-concat_lt :
      (xs : List A) (a : A) (i : ℕ) → i < length xs → get_elem? (xs ++ a ∷ []) i ≡ get_elem? xs i
  get_elem?-concat_lt [] a i h = elim h [ ]
  get_elem?-concat_lt (x ∷ xs) a zero h = refl
  get_elem?-concat_lt (x ∷ xs) a (suc i) h = get_elem?-concat_lt xs a i (omega arith)

  pub set_twice : (xs : List A) (i : ℕ) (a b : A) → set (set xs i a) i b ≡ set xs i b
  set_twice [] i a b = refl
  set_twice (x ∷ xs) zero a b = refl
  set_twice (x ∷ xs) (suc i) a b = ap (◌∷◌ x) (set_twice xs i a b)

  pub get_elem?-some : (xs : List A) (i : ℕ) → i < length xs → (a : A) × (get_elem? xs i ≡ some a)
  get_elem?-some [] i h = elim h [ ]
  get_elem?-some (x ∷ xs) zero h = (x, refl)
  get_elem?-some (x ∷ xs) (suc i) h = get_elem?-some xs i (omega arith)

  -- What stands in a list after a write, and in one that is longer by one.
  pub set_cases :
      (xs : List A) (i j : ℕ) (v a : A)
      → get_elem? (set xs i v) j ≡ some a
      → ((j ≡ i) × (a ≡ v)) ⊎ ((j ≢ i) × (get_elem? xs j ≡ some a))
  set_cases [] i j v a e = cc
  set_cases (x ∷ xs) zero zero v a e = inl (refl, cc)
  set_cases (x ∷ xs) zero (suc j) v a e = inr (omega arith, e)
  set_cases (x ∷ xs) (suc i) zero v a e = inr (omega arith, e)
  set_cases (x ∷ xs) (suc i) (suc j) v a e = elim (set_cases xs i j v a e) [
    | inl (p, q) ↦ inl (omega arith, q)
    | inr (p, q) ↦ inr (omega arith, q)
  ]

  pub concat_cases :
      (xs : List A) (v : A) (j : ℕ) (a : A)
      → get_elem? (xs ++ v ∷ []) j ≡ some a
      → ((j ≡ length xs) × (a ≡ v)) ⊎ ((j < length xs) × (get_elem? xs j ≡ some a))
  concat_cases [] v zero a e = inl (refl, cc)
  concat_cases [] v (suc j) a e = cc
  concat_cases (x ∷ xs) v zero a e = inr (omega arith, e)
  concat_cases (x ∷ xs) v (suc j) a e = elim (concat_cases xs v j a e) [
    | inl (p, q) ↦ inl (omega arith, q)
    | inr (p, q) ↦ inr (omega arith, q)
  ]
