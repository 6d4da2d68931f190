-- ===== src/Grouping/Double.antt =====
-- The mapping and the grouping of lab/lab7.c together, against the inputs.
use cmpt201_coursework.Prelude.{
  ℕ, ◌≤◌, ◌≡◌, refl, ap, ◌∙◌, true, Bool-cases, inl, inr, List, [], ◌∷◌, arith, if◌then◌else◌,
  length, ok,
}
use cmpt201_coursework.Prelude.Int.{ℤ, ◌+ℤ◌}
use cmpt201_coursework.Grouping.{
  max_input, same_int, fits_int, Input, IntermediateInput, Output, map_input, map_all, group_all,
}
use cmpt201_coursework.Grouping.Group.{lines_of, given, Distinct, group_all-given}

-- The doubled values are `int`s.
abbrev pub InRange : List Input → Type 0
InRange [] = Unit
InRange (i ∷ is) = (fits_int (i.value +ℤ i.value) ≡ true) × InRange is

-- The line numbers of the inputs with a value, in order.
unfoldable pub lines_with : ℤ → List Input → List ℕ
lines_with v [] = []
lines_with v (i ∷ is) =
    if same_int i.value v then i.line_number ∷ lines_with v is else lines_with v is

same_int-double : (a b : ℤ) → same_int (a +ℤ a) (b +ℤ b) ≡ same_int a b
unfolding same_int ◌+ℤ◌
same_int-double a b = ground arith

map_all-doubled :
    (is : List Input)
    → InRange is
    → (ms : List IntermediateInput) × (map_all is ≡ ok ms)
      × (length ms ≡ length is)
      × ((v : ℤ) → given (v +ℤ v) ms ≡ lines_with v is)
unfolding map_all map_input given lines_with
map_all-doubled [] r = ([], refl, refl, λ v. refl)
map_all-doubled (i ∷ is) r =
    let (ms, e, l, h) = map_all-doubled is r.1 in
    let m : IntermediateInput = record {
      line_number = i.line_number;
      doubled_value = i.value +ℤ i.value;
    } in
    (
      m ∷ ms,
      rw (r.0, e),
      omega (arith, l),
      λ v. elim (Bool-cases (same_int i.value v)) [
        | inl s ↦ rw (same_int-double i.value v, s) (ap (λ t. i.line_number ∷ t) (h v))
        | inr s ↦ rw (same_int-double i.value v, s) (h v)
      ],
    )

-- Of at most 100 inputs whose doubles are `int`s, the mapping and the grouping end without a fault:
-- no doubled value has two entries, and the entry of the double of a value lists the lines on which
-- the value was entered, in their order.
pub group_all-lines :
    (is : List Input)
    → InRange is
    → length is ≤ max_input
    → (ms : List IntermediateInput) × (ys : List Output) × (map_all is ≡ ok ms)
      × (group_all ms [] ≡ ok ys)
      × Distinct ys
      × ((v : ℤ) → lines_of (v +ℤ v) ys ≡ lines_with v is)
group_all-lines is r few =
    let (ms, e, l, h) = map_all-doubled is r in
    let (ys, e', d, g) = group_all-given ms (omega (arith, l)) in
    (ms, ys, e, e', d, λ v. g (v +ℤ v) ∙ h v)
