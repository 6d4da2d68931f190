-- ===== src/Alloc/FreeList.antt =====
-- The loops of alloc.c over the free list. `k` bounds the nodes that a loop visits.
pub mod Fit
pub mod Merge
pub mod Coalesce
use cmpt201_coursework.Prelude.{
  ℕ, zero, suc, ◌-◌, ◌^◌, Bool, true, false, ◌&&◌, ltb, leb, ◌==◌, if◌then◌else◌, Run, ok, fault,
  out_of_fuel, add64,
}
use cmpt201_coursework.Memory.{Mem, set_size, set_next, null, header_size}

-- `head` and the headers.
pub record Free : Type 0 where
  pub head : ℕ
  pub mem : Mem

-- `enum algs`
pub data Algs : Type 0 where
  first_fit best_fit worst_fit : Algs

abbrev pub uint64_max : ℕ
uint64_max = 2 ^ 64 - 1

unfoldable pub find_first_fit : ℕ → Mem → ℕ → ℕ → Run ℕ
find_first_fit zero m p size = out_of_fuel
find_first_fit (suc k) m p size =
    let rest = find_first_fit k m (m.next p) size in
    if p == null then ok null else if leb size (m.size p) then ok p else rest

unfoldable pub best_fit_loop : ℕ → Mem → ℕ → ℕ → ℕ → ℕ → Run ℕ
best_fit_loop zero m p size best best_size = out_of_fuel
best_fit_loop (suc k) m p size best best_size =
    let better = leb size (m.size p) && ltb (m.size p) best_size in
    let rest =
      best_fit_loop k m (m.next p) size (if better then p else best)
        (if better then m.size p else best_size) in
    if p == null then ok best else rest

unfoldable pub find_best_fit : ℕ → Mem → ℕ → ℕ → Run ℕ
find_best_fit k m p size = best_fit_loop k m p size null uint64_max

unfoldable pub worst_fit_loop : ℕ → Mem → ℕ → ℕ → ℕ → ℕ → Run ℕ
worst_fit_loop zero m p size worst worst_size = out_of_fuel
worst_fit_loop (suc k) m p size worst worst_size =
    let worse = leb size (m.size p) && ltb worst_size (m.size p) in
    let rest =
      worst_fit_loop k m (m.next p) size (if worse then p else worst)
        (if worse then m.size p else worst_size) in
    if p == null then ok worst else rest

unfoldable pub find_worst_fit : ℕ → Mem → ℕ → ℕ → Run ℕ
find_worst_fit k m p size = worst_fit_loop k m p size null 0

-- The `switch` of `alloc`.
unfoldable pub find_fit : Algs → ℕ → Mem → ℕ → ℕ → Run ℕ
find_fit first_fit = find_first_fit
find_fit best_fit = find_best_fit
find_fit worst_fit = find_worst_fit

unfoldable pub get_next : ℕ → Mem → ℕ → ℕ → Run ℕ
get_next zero m p block = out_of_fuel
get_next (suc k) m p block =
    let rest = get_next k m (m.next p) block in
    if p == null then ok null else if p == block then ok (m.next p) else rest

unfoldable pub get_last_loop : ℕ → Mem → ℕ → ℕ → ℕ → Run ℕ
get_last_loop zero m temp last block = out_of_fuel
get_last_loop (suc k) m temp last block =
    let rest = get_last_loop k m (m.next temp) temp block in
    if temp == null then ok null else if temp == block then ok last else rest

unfoldable pub get_last : ℕ → Mem → ℕ → ℕ → Run ℕ
unfolding get_last_loop
get_last k m head block = get_last_loop k m head null block

-- Takes the block `drop` out of the list, behind `prev`.
pub unlink : Free → (drop prev : ℕ) → Free
unlink f drop prev =
    if prev == null
    then record f { head = f.mem.next drop }
    else record f { mem = set_next f.mem prev (f.mem.next drop) }

-- `keep->size += drop->size`, and `drop` is taken out.
pub merge : Free → (keep drop prev : ℕ) → Free
unfolding unlink
merge f keep drop prev =
    let grown = add64 (f.mem.size keep) (f.mem.size drop) in
    unlink (record f { mem = set_size f.mem keep grown }) drop prev

-- `(char *)a + sizeof(struct header) + a->size == (char *)b + sizeof(struct header)`
abbrev pub meets : Mem → ℕ → ℕ → Bool
meets m a b = add64 (add64 a header_size) (m.size a) == add64 b header_size

-- The loop over `b`: whether it merged, and the list after it.
pub coalesce_inner : ℕ → Free → (a prev b b_prev : ℕ) → Run (Bool × Free)
coalesce_inner zero f a prev b b_prev = out_of_fuel
coalesce_inner (suc k) f a prev b b_prev =
    let rest = coalesce_inner k f a prev (f.mem.next b) b in
    if b == null
    then ok (false, f)
    else if a == b
    then rest
    else if meets f.mem a b
    then ok (true, merge f a b b_prev)
    else if meets f.mem b a
    then ok (true, merge f b a prev)
    else rest

-- The loop over `a`; `n` bounds the loop over `b`.
pub coalesce_outer : ℕ → ℕ → Free → (a prev : ℕ) → Run (Bool × Free)
coalesce_outer zero n f a prev = out_of_fuel
coalesce_outer (suc k) n f a prev =
    let rest = coalesce_outer k n f (f.mem.next a) a in
    if a == null then ok (false, f) else elim (coalesce_inner n f a prev f.head null) [
      | ok (merged, f') ↦ if merged then ok (true, f') else rest
      | fault ↦ fault
      | out_of_fuel ↦ out_of_fuel
    ]

-- `do … while (merged)`
unfoldable pub coalesce_unsorted : ℕ → ℕ → Free → Run Free
unfolding coalesce_inner coalesce_outer merge
coalesce_unsorted zero n f = out_of_fuel
coalesce_unsorted (suc k) n f = elim (coalesce_outer n n f f.head null) [
  | ok (merged, f') ↦ elim merged [ true ↦ coalesce_unsorted k n f' | false ↦ ok f' ]
  | fault ↦ fault
  | out_of_fuel ↦ out_of_fuel
]
