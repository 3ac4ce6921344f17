-- ===== src/Prelude/Lists.antt =====
-- Lists measured and cut by native numbers, under the library's names.
use Prim.Native.Nat.{ℕ, zero, suc, ◌+◌, ◌-◌, ◌≤◌, min}
use mathlib.Core.Path.{◌≡◌, refl, ap}
use mathlib.Core.List.{List, [], ◌∷◌, ◌++◌}
use mathlib.Core.Option.{Option, none, some}
use native.Mathlib.Omega.{arith}

module _ {ℓ} {A : Type ℓ} where
  abbrev pub length : List A → ℕ
  length [] = 0
  length (x ∷ xs) = suc (length xs)

  abbrev pub get_elem? : List A → ℕ → Option A
  get_elem? [] i = none
  get_elem? (x ∷ xs) zero = some x
  get_elem? (x ∷ xs) (suc i) = get_elem? xs i

  abbrev pub take : ℕ → List A → List A
  take zero xs = []
  take (suc n) [] = []
  take (suc n) (x ∷ xs) = x ∷ take n xs

  abbrev pub drop : ℕ → List A → List A
  drop zero xs = xs
  drop (suc n) [] = []
  drop (suc n) (x ∷ xs) = drop n xs

  abbrev pub All {κ} : (A → Type κ) → List A → Type κ
  All P [] = Unit
  All P (x ∷ xs) = P x × All P xs

module _ {ℓ} {A : Type ℓ} where
  pub length-append : (xs ys : List A) → length (xs ++ ys) ≡ length xs + length ys
  length-append [] ys = omega arith
  length-append (x ∷ xs) ys = omega (arith, length-append xs ys)

  pub length-take : (n : ℕ) (xs : List A) → length (take n xs) ≡ min n (length xs)
  length-take zero xs = omega arith
  length-take (suc n) [] = omega arith
  length-take (suc n) (x ∷ xs) = omega (arith, length-take n xs)

  pub length-drop : (n : ℕ) (xs : List A) → length (drop n xs) ≡ length xs - n
  length-drop zero xs = omega arith
  length-drop (suc n) [] = omega arith
  length-drop (suc n) (x ∷ xs) = omega (arith, length-drop n xs)

  pub take-append_le : (n : ℕ) (xs ys : List A) → n ≤ length xs → take n (xs ++ ys) ≡ take n xs
  take-append_le zero xs ys h = refl
  take-append_le (suc n) [] ys h = absurd (omega arith)
  take-append_le (suc n) (x ∷ xs) ys h = ap (λ t. x ∷ t) (take-append_le n xs ys (omega arith))

  pub drop-append_le :
      (n : ℕ) (xs ys : List A) → n ≤ length xs → drop n (xs ++ ys) ≡ drop n xs ++ ys
  drop-append_le zero xs ys h = refl
  drop-append_le (suc n) [] ys h = absurd (omega arith)
  drop-append_le (suc n) (x ∷ xs) ys h = drop-append_le n xs ys (omega arith)

  pub take-length_append : (xs ys : List A) → take (length xs) (xs ++ ys) ≡ xs
  take-length_append [] ys = refl
  take-length_append (x ∷ xs) ys = ap (λ t. x ∷ t) (take-length_append xs ys)

  pub drop-length_append : (xs ys : List A) → drop (length xs) (xs ++ ys) ≡ ys
  drop-length_append [] ys = refl
  drop-length_append (x ∷ xs) ys = drop-length_append xs ys
