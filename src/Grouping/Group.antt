-- ===== src/Grouping/Group.antt =====
-- The grouping of lab/lab7.c against the inputs that it groups.
use cmpt201_coursework.Prelude.{
  ℕ, ◌+◌, ◌≤◌, ◌<◌, ◌≡◌, refl, sym, ◌∙◌, inl, inr, Bool-cases, true, false, ◌||◌, List, [], ◌∷◌,
  ◌++◌, arith, ltb, if◌then◌else◌, length, length-append, ok,
}
use mathlib.Core.List.{append-nil, append_assoc}
use cmpt201_coursework.Prelude.Int.{ℤ}
use cmpt201_coursework.Grouping.{
  max_input, same_int, IntermediateInput, Output, matches, add_line, group_by_key, group_all,
}

-- The line numbers of a value: those of its first entry.
unfoldable pub lines_of : ℤ → List Output → List ℕ
lines_of v [] = []
lines_of v (o ∷ os) = if same_int o.doubled_value v then o.line_numbers else lines_of v os

-- No value has two entries.
abbrev pub Distinct : List Output → Type 0
Distinct [] = Unit
Distinct (o ∷ os) = (matches o.doubled_value os ≡ false) × Distinct os

-- The line numbers of the inputs with a value, in order.
unfoldable pub given : ℤ → List IntermediateInput → List ℕ
given v [] = []
given v (m ∷ ms) = if same_int m.doubled_value v then m.line_number ∷ given v ms else given v ms

same_int_trans : (a b c : ℤ) → same_int a b ≡ true → same_int a c ≡ same_int b c
unfolding same_int
same_int_trans a b c h = ground arith

same_int_refl : (a : ℤ) → same_int a a ≡ true
unfolding same_int
same_int_refl a = ground arith

same_int_sym : (a b : ℤ) → same_int a b ≡ same_int b a
unfolding same_int
same_int_sym a b = ground arith

-- `ys` is `xs` with the line `n` behind those of `v`.
record Grouped (v : ℤ) (n : ℕ) (xs ys : List Output) : Type 0 where
  lines_eq :
      (w : ℤ) → lines_of w ys ≡ (if same_int v w then lines_of w xs ++ (n ∷ []) else lines_of w xs)
  known : (w : ℤ) → matches w ys ≡ (matches w xs || same_int v w)
  distinct : Distinct ys
  grows : length ys ≤ length xs + 1

add_line-Grouped :
    (v : ℤ) (n : ℕ) (xs : List Output)
    → matches v xs ≡ true
    → length (lines_of v xs) < max_input
    → Distinct xs
    → (ys : List Output) × (add_line v n xs ≡ ok ys) × Grouped v n xs ys × (length ys ≡ length xs)
unfolding add_line matches lines_of
add_line-Grouped v n [] h room d = cc
add_line-Grouped v n (o ∷ xs) h room d = elim (Bool-cases (same_int o.doubled_value v)) [
  | inl hit ↦ (
    record o { line_numbers = o.line_numbers ++ (n ∷ []) } ∷ xs,
    ground arith,
    record {
      lines_eq = λ w. ground (arith, same_int_trans o.doubled_value v w);
      known = λ w. ground (arith, same_int_trans o.doubled_value v w);
      distinct = d;
      grows = omega arith;
    },
    refl,
  )
  | inr miss ↦
      let (ys, e, g, l) = add_line-Grouped v n xs (ground arith) (ground arith) d.1 in
      (
        o ∷ ys,
        rw (miss, e),
        record {
          lines_eq = λ w.
              ground (arith, g.lines_eq w, same_int_trans o.doubled_value w v, same_int_sym v w);
          known = λ w. ground (arith, g.known w);
          distinct =
              (ground (arith, g.known o.doubled_value, same_int_sym v o.doubled_value), g.distinct);
          grows = omega (arith, g.grows);
        },
        omega arith,
      )
]

lines-fresh :
    (v w : ℤ) (n : ℕ) (xs : List Output)
    → matches v xs ≡ false
    → lines_of w (xs ++ (record { doubled_value = v; line_numbers = n ∷ [] } ∷ []))
      ≡ (if same_int v w then lines_of w xs ++ (n ∷ []) else lines_of w xs)
unfolding lines_of matches
lines-fresh v w n [] h = ground arith
lines-fresh v w n (o ∷ xs) h =
    ground (arith, lines-fresh v w n xs, same_int_trans o.doubled_value w v, same_int_sym v w)

matches-fresh :
    (v w : ℤ) (n : ℕ) (xs : List Output)
    → matches w (xs ++ (record { doubled_value = v; line_numbers = n ∷ [] } ∷ []))
      ≡ (matches w xs || same_int v w)
unfolding matches
matches-fresh v w n [] = ground arith
matches-fresh v w n (o ∷ xs) = ground (arith, matches-fresh v w n xs)

Distinct-fresh :
    (v : ℤ) (n : ℕ) (xs : List Output)
    → matches v xs ≡ false
    → Distinct xs
    → Distinct (xs ++ (record { doubled_value = v; line_numbers = n ∷ [] } ∷ []))
unfolding matches
Distinct-fresh v n [] h d = (refl, tt)
Distinct-fresh v n (o ∷ xs) h d = (
  ground (arith, matches-fresh v o.doubled_value n xs, same_int_sym v o.doubled_value),
  Distinct-fresh v n xs (ground arith) d.1,
)

group-Grouped :
    (m : IntermediateInput) (xs : List Output)
    → length xs < max_input
    → length (lines_of m.doubled_value xs) < max_input
    → Distinct xs
    → (ys : List Output) × (group_by_key m xs ≡ ok ys) × Grouped m.doubled_value m.line_number xs ys
unfolding group_by_key
group-Grouped m xs few room d = elim (Bool-cases (matches m.doubled_value xs)) [
  | inl old ↦
      let (ys, e, g, _) = add_line-Grouped m.doubled_value m.line_number xs old room d in
      (ys, rw (old, e), g)
  | inr new ↦
      let v = m.doubled_value in
      let n = m.line_number in
      let q : ltb (length xs) max_input ≡ true = ground arith in
      (
        xs ++ (record { doubled_value = v; line_numbers = n ∷ [] } ∷ []),
        rw (new, q),
        record {
          lines_eq = λ w. lines-fresh v w n xs new;
          known = λ w. matches-fresh v w n xs;
          distinct = Distinct-fresh v n xs new d;
          grows =
              omega (
                arith,
                length-append xs (record { doubled_value = v; line_numbers = n ∷ [] } ∷ []),
              );
        },
      )
]

group_from :
    (ms : List IntermediateInput) (xs : List Output)
    → length xs + length ms ≤ max_input
    → ((w : ℤ) → length (lines_of w xs) + length ms ≤ max_input)
    → Distinct xs
    → (ys : List Output) × (group_all ms xs ≡ ok ys)
      × Distinct ys
      × ((w : ℤ) → lines_of w ys ≡ lines_of w xs ++ given w ms)
unfolding group_all given
group_from [] xs few room d = (xs, refl, d, λ w. sym (append-nil (lines_of w xs)))
group_from (m ∷ ms) xs few room d =
    let v = m.doubled_value in
    let n = m.line_number in
    let r = room v in
    let (ys, e, g) = group-Grouped m xs (omega arith) (omega arith) d in
    let (zs, e', d', h) =
      group_from ms ys (omega (arith, g.grows))
        (λ w. ground (arith, room w, g.lines_eq w, length-append (lines_of w xs) (n ∷ [])))
        g.distinct in
    (
      zs,
      rw (e, e'),
      d',
      λ w. h w ∙ elim (Bool-cases (same_int v w)) [
        | inl s ↦ rw (g.lines_eq w, s) (append_assoc (lines_of w xs) (n ∷ []) (given w ms))
        | inr s ↦ rw (g.lines_eq w, s)
      ],
    )

-- The grouping of at most 100 inputs stays within its arrays: it ends without a fault, no value has
-- two entries, and the lines of each value are those of the inputs with that value, in their order.
pub group_all-given :
    (ms : List IntermediateInput)
    → length ms ≤ max_input
    → (ys : List Output) × (group_all ms [] ≡ ok ys)
      × Distinct ys
      × ((w : ℤ) → lines_of w ys ≡ given w ms)
unfolding lines_of
group_all-given ms few = group_from ms [] (omega arith) (λ w. omega arith) tt
