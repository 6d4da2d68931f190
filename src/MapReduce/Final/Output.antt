-- ===== src/MapReduce/Final/Output.antt =====
-- What `mr_exec` writes to its output.
use mathlib.Core.List.{Permᴰ}
use cmpt201_coursework.Prelude.{
  ℕ, ◌+◌, ◌^◌, ◌≤◌, ◌<◌, ◌≡◌, refl, sym, ap, ◌∙◌, subst, Bool, true, false, not, ◌||◌, List, [],
  ◌∷◌, arith, ◌==◌, if◌then◌else◌, length, All, ok,
}
use cmpt201_coursework.Text.{Text, same}
use cmpt201_coursework.MapReduce.{
  max_values_per_key, Pair, OutKv, Intermediate, find_intermediate, thread_emits, map_phase,
}
use cmpt201_coursework.MapReduce.Emit.{values, Distinct, clash, same-sym}
use cmpt201_coursework.MapReduce.Threads.{
  Interleave, phase-count, count, count-append, sent, Short, to_key, is_pair, is_short, length-sent,
  count-sent, texts_fit, fits_none,
}
use cmpt201_coursework.MapReduce.Final.{
  Ordered, Uthash, leb_text, final_kv_cmp, reducers, copy_entries, reduce_phase, write_output,
  mr_exec,
}
use cmpt201_coursework.MapReduce.Final.Emit.{emit_all_f-sent}

leb_text_total : (s t : Text) → (leb_text s t || leb_text t s) ≡ true
unfolding leb_text
leb_text_total [] t = refl
leb_text_total (a ∷ s) [] = refl
leb_text_total (a ∷ s) (b ∷ t) = ground (arith, leb_text_total s t)

leb_text_trans : (s t u : Text) → leb_text s t ≡ true → leb_text t u ≡ true → leb_text s u ≡ true
unfolding leb_text
leb_text_trans [] t u h h' = refl
leb_text_trans (a ∷ s) [] u h h' = cc
leb_text_trans (a ∷ s) (b ∷ t) [] h h' = cc
leb_text_trans (a ∷ s) (b ∷ t) (c ∷ u) h h' = ground (arith, leb_text_trans s t u)

-- Two tables with the same entries, in any order.
record Same (xs ys : Intermediate) : Type 0 where
  pub distinct : Distinct ys
  pub finds : (k : Text) → find_intermediate k ys ≡ find_intermediate k xs
  pub holds : (k : Text) → values k ys ≡ values k xs

perm-Same : {xs ys : Intermediate} → Permᴰ xs ys → Distinct xs → Same xs ys
unfolding find_intermediate values
perm-Same Permᴰ.nil d = record { distinct = tt; finds = λ k. refl; holds = λ k. refl }
perm-Same (Permᴰ.cons {a} {b} {l₁ = xs} {l₂ = ys} e p) d =
    let r = perm-Same p d.1 in
    subst (λ z. Same (a ∷ xs) (z ∷ ys)) e
      (record {
        distinct = (r.finds a.key ∙ d.0, r.distinct);
        finds = λ k. ap (λ z. if same a.key k then true else z) (r.finds k);
        holds = λ k. ap (λ z. if same a.key k then a.value else z) (r.holds k);
      })
perm-Same (Permᴰ.swap {a} {b} {a'} {b'} {l = xs} e f) d =
    subst (λ z. Same (a ∷ b ∷ xs) (z ∷ b' ∷ xs)) f
      (subst (λ z. Same (a ∷ b ∷ xs) (b ∷ z ∷ xs)) e
        (record {
          distinct = ground (arith, same-sym a.key b.key);
          finds = λ k. ground arith;
          holds = λ k. ground (arith, clash b.key a.key k);
        }))
perm-Same (Permᴰ.trans p q) d =
    let r = perm-Same p d in
    let s = perm-Same q r.distinct in
    record {
      distinct = s.distinct;
      finds = λ k. s.finds k ∙ r.finds k;
      holds = λ k. s.holds k ∙ r.holds k;
    }

copy-all : (kvs : List OutKv) → copy_entries (length kvs) kvs ≡ ok kvs
unfolding copy_entries
copy-all [] = refl
copy-all (kv ∷ kvs) = rw (copy-all kvs)

module _ (uthash : Uthash) where
  open uthash use {Table, items, hash_sort, hash_count, items-sort, sort-Ordered, items-count}

  abbrev sorted : Table → Table
  sorted = hash_sort final_kv_cmp

  -- The output has room for all entries, and is sorted.
  write-sorted :
      (t : Table)
      → Distinct (items t)
      → (write_output uthash t ≡ ok (items (sorted t), sorted t))
        × Ordered final_kv_cmp (items (sorted t))
        × Same (items t) (items (sorted t))
  unfolding write_output
  write-sorted t d = (
    rw (items-count (sorted t), copy-all (items (sorted t))),
    sort-Ordered final_kv_cmp t (λ a b. leb_text_total a.key b.key)
        (λ a b c. leb_text_trans a.key b.key c.key),
    perm-Same (items-sort final_kv_cmp t) d,
  )

-- `mr_exec` with at least one reducer, where its map phase ends, the emissions of its reducers interleave
-- in any way, the entries and reducers together are fewer than 2^64, and `final_table` has no two entries
-- for a key before the call: it ends, the output is sorted by key, no key has two entries, and a key has each value as often as
-- `final_table` had it before the call and one reducer that goes through all intermediate entries
-- emits it. The texts must fit, and the values of a key be no more than a value array holds.
pub mr_exec-output :
    (uthash : Uthash) (mapper_count : ℕ) (map_order : List Pair) (intermediate : Intermediate)
    (reduce : OutKv → List Pair) (reducer_count : ℕ) (order : List Pair) (t : uthash.Table)
    → let all = thread_emits reduce intermediate in
      map_phase mapper_count map_order ≡ ok intermediate
      → Interleave (reducers reduce intermediate reducer_count) order
      → 0 < reducer_count
      → length intermediate + reducer_count < 2 ^ 64
      → Distinct (uthash.items t)
      → All Short all
      → ((k : Text) → length (values k (uthash.items t)) + length (sent k all) ≤ max_values_per_key)
      → (out : List OutKv) × (t' : uthash.Table) × (mr_exec uthash mapper_count map_order
            reducer_count order t
          ≡ ok (out, t'))
        × Ordered final_kv_cmp out
        × Distinct out
        × ((k v : Text)
            → count (λ w. same w v) (values k out)
              ≡ count (λ w. same w v) (values k (uthash.items t))
                + count (λ w. same w v) (sent k all))
unfolding mr_exec reduce_phase
mr_exec-output uthash mapper_count map_order intermediate reduce reducer_count order t mapped i some
      small d short room =
    let (t1, e, d1, v) =
      emit_all_f-sent uthash order t
        (texts_fit order (same_count (λ e. not (is_short e)) ∙ fits_none all short))
        (λ k.
          rw (length-sent k order, same_count (to_key k), ← length-sent k all)
            (omega (arith, room k)))
        d in
    let (w, ordered, same_entries) = write-sorted uthash t1 d1 in
    let running : (reducer_count == 0) ≡ false = ground arith in
    (
      uthash.items (sorted uthash t1),
      sorted uthash t1,
      rw (mapped, running, e, w),
      ordered,
      same_entries.distinct,
      λ k v'.
          ap (count (λ w. same w v')) (same_entries.holds k ∙ v k)
          ∙ count-append (λ w. same w v') (values k (uthash.items t)) (sent k order)
          ∙ ap (λ n. count (λ w. same w v') (values k (uthash.items t)) + n)
              (count-sent k v' order ∙ same_count (is_pair k v') ∙ sym (count-sent k v' all)),
    )
  where
    all : List Pair
    all = thread_emits reduce intermediate

    same_count : (p : Pair → Bool) → count p order ≡ count p all
    same_count = phase-count reduce intermediate reducer_count order i some small
