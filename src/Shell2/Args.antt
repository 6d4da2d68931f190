-- ===== src/Shell2/Args.antt =====
-- The array `args` of lecture/test/test2.c: what `tokenize` and `is_background` leave in it, and the
-- tests of its entries.
use cmpt201_coursework.Prelude.{
  ℕ, zero, suc, ◌-◌, ◌<◌, ◌≡◌, ◌≢◌, refl, ap, ◌∙◌, inl, inr, Bool-cases, Bool, true, false, ◌&&◌,
  some, List, [], ◌∷◌, arith, leb, length, length-set, get_elem?, All, All-set, ok,
}
use cmpt201_coursework.Text.{Text, same, eq_of_same}
use cmpt201_coursework.Shell.Words.{ampersand}
use cmpt201_coursework.Shell2.{
  Slot, unset, null_slot, word, store, count_args, is_ampersand, is_background, has_arg,
}

-- The entry has been set.
abbrev pub IsGiven : Slot → Type 0
IsGiven unset = ⊥
IsGiven null_slot = Unit
IsGiven (word t) = Unit

-- All 16 entries have been set.
pub record Given (args : List Slot) : Type 0 where
  pub all : All IsGiven args
  pub size : length args ≡ 16

store-IsGiven : (ts : List Text) (args : List Slot) → All IsGiven args → All IsGiven (store ts args)
unfolding store
store-IsGiven ts [] g = tt
store-IsGiven [] (a ∷ args) g = (tt, g.1)
store-IsGiven (t ∷ ts) (a ∷ args) g = (tt, store-IsGiven ts args g.1)

length-store : (ts : List Text) (args : List Slot) → length (store ts args) ≡ length args
unfolding store
length-store ts [] = refl
length-store [] (a ∷ args) = refl
length-store (t ∷ ts) (a ∷ args) = ap suc (length-store ts args)

pub count_args-store :
    (ts : List Text) (args : List Slot)
    → length ts < length args
    → count_args (store ts args) ≡ length ts
unfolding store count_args
count_args-store ts [] h = absurd (omega arith)
count_args-store [] (a ∷ args) h = refl
count_args-store (t ∷ ts) (a ∷ args) h = rw (count_args-store ts args (omega arith)) (omega arith)

pub store-Given : (ts : List Text) (args : List Slot) → Given args → Given (store ts args)
store-Given ts args g = record {
  all = store-IsGiven ts args g.all;
  size = length-store ts args ∙ g.size;
}

pub is_background-Given : (args : List Slot) (n : ℕ) → Given args → Given ((is_background args n).1)
unfolding is_background
is_background-Given args n g =
    elim (Bool-cases (leb 1 n && is_ampersand (get_elem? args (n - 1)))) [
      | inl e ↦ rw (e) (record {
        all = All-set IsGiven args (n - 1) null_slot g.all tt;
        size = length-set args (n - 1) null_slot ∙ g.size;
      })
      | inr e ↦ rw (e) g
    ]

is_background-behind :
    (t : Text) (args : List Slot) (n : ℕ)
    → get_elem? ((is_background (word t ∷ args) (suc (suc n))).1) 0 ≡ some (word t)
unfolding is_background
is_background-behind t args n =
    let k : suc (suc n) - 1 ≡ suc n = omega arith in
    elim (Bool-cases
      (leb 1 (suc (suc n)) && is_ampersand (get_elem? (word t ∷ args) (suc (suc n) - 1)))) [
        | inl e ↦ rw (e, k)
        | inr e ↦ rw (e)
      ]

-- The first word stays, unless it is "&" and the only one.
pub is_background-first :
    (t : Text) (ts : List Text) (args : List Slot)
    → Given args
    → length (t ∷ ts) < 16
    → t ∷ ts ≢ ampersand ∷ []
    → get_elem? ((is_background (store (t ∷ ts) args) (length (t ∷ ts))).1) 0 ≡ some (word t)
unfolding is_background store
is_background-first t ts [] g few h = absurd (omega (arith, g.size))
is_background-first t [] (a ∷ args) g few h = elim (Bool-cases (same t ampersand)) [
  | inl e ↦ absurd (h (ap (λ z. z ∷ []) (eq_of_same t ampersand e)))
  | inr e ↦ rw (is_background, e)
]
is_background-first t (u ∷ ts) (a ∷ args) g few h =
    is_background-behind t (store (u ∷ ts) args) (length ts)

-- The test of an entry that has been set.
pub has_arg-some :
    (i : ℕ) (args : List Slot)
    → All IsGiven args
    → i < length args
    → (b : Bool) × (has_arg i args ≡ ok b)
unfolding has_arg
has_arg-some i [] g h = absurd (omega arith)
has_arg-some zero (unset ∷ args) g h = absurd g.0
has_arg-some zero (null_slot ∷ args) g h = (false, refl)
has_arg-some zero (word t ∷ args) g h = (true, refl)
has_arg-some (suc i) (a ∷ args) g h = has_arg-some i args g.1 (omega arith)
