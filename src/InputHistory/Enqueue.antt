-- ===== src/InputHistory/Enqueue.antt =====
-- What lab/lab3.c does on a sequence of inputs.
use cmpt201_coursework.Prelude.{
  ◌+◌, ◌≤◌, ◌<◌, ◌≡◌, ap, sym, ◌∙◌, true, false, List, [], ◌∷◌, ◌++◌, arith, ltb, leb,
  if◌then◌else◌, length, length-append, ok, fault, Bool-cases, inl, inr,
}
use mathlib.Core.List.{append-nil, append_assoc}
use cmpt201_coursework.Text.{Text}
use cmpt201_coursework.InputHistory.{max_len, History, enqueue, enqueue_all}

enqueue-room :
    (input : Text) (hist : History)
    → length hist < max_len
    → enqueue input hist ≡ ok (hist ++ (input ∷ []))
unfolding enqueue
enqueue-room input hist h =
    let e : ltb max_len (length hist) ≡ false = ground arith in
    let e' : ltb (length hist) max_len ≡ true = ground arith in rw (e, e')

enqueue-full : (input : Text) (hist : History) → length hist ≡ max_len → enqueue input hist ≡ fault
unfolding enqueue
enqueue-full input hist h =
    let e : ltb max_len (length hist) ≡ false = ground arith in
    let e' : ltb (length hist) max_len ≡ false = ground arith in rw (e, e')

from :
    (inputs : List Text) (hist : History)
    → length hist ≤ max_len
    → enqueue_all inputs hist
      ≡ (if leb (length hist + length inputs) max_len then ok (hist ++ inputs) else fault)
unfolding enqueue_all
from [] hist h =
    let e : leb (length hist + 0) max_len ≡ true = ground arith in
    rw (e) (ap ok (sym (append-nil hist)))
from (x ∷ inputs) hist h = elim (Bool-cases (ltb (length hist) max_len)) [
  | inl room ↦
      let l = length-append hist (x ∷ []) in
      let e : length (hist ++ (x ∷ [])) + length inputs ≡ length hist + length (x ∷ inputs) =
        omega arith in
      rw (enqueue-room x hist (ground arith))
        (from inputs (hist ++ (x ∷ [])) (ground arith) ∙ rw (e, append_assoc hist (x ∷ []) inputs))
  | inr full ↦
      let e : leb (length hist + length (x ∷ inputs)) max_len ≡ false = ground arith in
      rw (enqueue-full x hist (ground arith), e)
]

-- Up to five inputs are kept, in their order; the sixth is written behind the array, which has
-- room for five.
pub enqueue_all_lem :
    (inputs : List Text)
    → enqueue_all inputs [] ≡ (if leb (length inputs) max_len then ok inputs else fault)
enqueue_all_lem inputs =
    let e : length {A = Text} [] + length inputs ≡ length inputs = omega arith in
    from inputs [] (omega arith) ∙ rw (e)
