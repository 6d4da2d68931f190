-- ===== src/Prelude/Each.antt =====
-- A property of all elements of a list, under the operations on the list.
use Prim.Native.Nat.{ℕ, zero, suc, ◌<◌}
use mathlib.Core.Path.{◌≡◌, subst}
use mathlib.Core.Option.{some}
use mathlib.Core.List.{List, [], ◌∷◌, ◌++◌}
use native.Mathlib.Omega.{arith}
use cmpt201_coursework.Prelude.Lists.{length, get_elem?, get_or, set, take}

abbrev pub All {ℓ κ} : {A : Type ℓ} → (A → Type κ) → List A → Type κ
All P [] = Unit
All P (x ∷ xs) = P x × All P xs

module _ {ℓ κ} {A : Type ℓ} (P : A → Type κ) where
  pub All-set : (xs : List A) (i : ℕ) (v : A) → All P xs → P v → All P (set xs i v)
  All-set [] i v a p = a
  All-set (x ∷ xs) zero v a p = (p, a.1)
  All-set (x ∷ xs) (suc i) v a p = (a.0, All-set xs i v a.1 p)

  pub All-take : (n : ℕ) (xs : List A) → All P xs → All P (take n xs)
  All-take zero xs a = tt
  All-take (suc n) [] a = tt
  All-take (suc n) (x ∷ xs) a = (a.0, All-take n xs a.1)

  pub All-append : (xs ys : List A) → All P xs → All P ys → All P (xs ++ ys)
  All-append [] ys a b = b
  All-append (x ∷ xs) ys a b = (a.0, All-append xs ys a.1 b)

  pub All-get_or : (i : ℕ) (d : A) (xs : List A) → All P xs → i < length xs → P (get_or xs i d)
  All-get_or i d [] a h = absurd (omega arith)
  All-get_or zero d (x ∷ xs) a h = a.0
  All-get_or (suc i) d (x ∷ xs) a h = All-get_or i d xs a.1 (omega arith)

  pub All-get_elem? : (i : ℕ) (x : A) (xs : List A) → All P xs → get_elem? xs i ≡ some x → P x
  All-get_elem? i x [] a e = cc
  All-get_elem? zero x (y ∷ xs) a e = let k : y ≡ x = cc in subst P k a.0
  All-get_elem? (suc i) x (y ∷ xs) a e = All-get_elem? i x xs a.1 e

-- What holds of all elements, and what follows from it.
pub All_mono {ℓ κ μ} :
    {A : Type ℓ} (P : A → Type κ) (Q : A → Type μ) (xs : List A)
    → ((x : A) → P x → Q x)
    → All P xs
    → All Q xs
All_mono P Q [] f a = tt
All_mono P Q (x ∷ xs) f a = (f x a.0, All_mono P Q xs f a.1)
