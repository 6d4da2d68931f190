-- ===== src/MapReduce/Final/Emit.antt =====
-- The final table of map-reduce under `mr_emit_f`.
use mathlib.Core.List.{append-nil, append_assoc}
use cmpt201_coursework.Prelude.{
  ◌+◌, ◌≤◌, ◌<◌, ◌≡◌, refl, sym, ap, ◌∙◌, subst, inl, inr, Bool-cases, Option-cases, true, false,
  ◌&&◌, none, some, List, [], ◌∷◌, ◌++◌, arith, ltb, if◌then◌else◌, length, length-append, All, ok,
}
use cmpt201_coursework.Text.{Text, same, same_refl, eq_of_same}
use cmpt201_coursework.MapReduce.{
  max_values_per_key, max_size, Pair, OutKv, find_intermediate, add_value,
}
use cmpt201_coursework.MapReduce.Emit.{
  values, Distinct, Added, add_value-Added, fresh, values-fresh, find-fresh, Distinct-fresh,
}
use cmpt201_coursework.MapReduce.Threads.{sent, Short}
use cmpt201_coursework.MapReduce.Final.{
  find_item, replace_item, Uthash, push_value, mr_emit_f, emit_all_f,
}

found-item :
    (key : Text) (kv : OutKv) (xs : List OutKv)
    → find_item key xs ≡ some kv
    → (same kv.key key ≡ true) × (find_intermediate key xs ≡ true) × (values key xs ≡ kv.value)
unfolding find_item find_intermediate values
found-item key kv [] h = cc
found-item key kv (x ∷ xs) h = elim (Bool-cases (same x.key key)) [
  | inl e ↦
      let q : x ≡ kv = ground arith in
      subst
        (λ z.
          (same z.key key ≡ true)
          × ((if same x.key key then true else find_intermediate key xs) ≡ true)
          × ((if same x.key key then x.value else values key xs) ≡ z.value))
        q (rw (e) (refl, refl, refl))
  | inr e ↦ let q : find_item key xs ≡ some kv = ground arith in rw (e) (found-item key kv xs q)
]

no-item :
    (key : Text) (xs : List OutKv) → find_item key xs ≡ none → find_intermediate key xs ≡ false
unfolding find_item find_intermediate
no-item key [] h = refl
no-item key (x ∷ xs) h = ground (arith, no-item key xs)

fresh-item :
    (key : Text) (xs : List OutKv)
    → find_item key xs ≡ none
    → find_item key (xs ++ (fresh key ∷ [])) ≡ some (fresh key)
unfolding find_item
fresh-item key [] h = ground (arith, same_refl key)
fresh-item key (x ∷ xs) h = ground (arith, fresh-item key xs)

-- An item with one more value.
abbrev more : OutKv → Text → OutKv
more kv value = record kv { value = kv.value ++ (value ∷ []) }

replace-head :
    (kv : OutKv) (value : Text) (xs : List OutKv)
    → replace_item (more kv value) (kv ∷ xs) ≡ more kv value ∷ xs
unfolding replace_item
replace-head kv value xs = rw (same_refl kv.key)

-- A write of one more value to the item of a key is what an emission to an array of entries does.
add-replace :
    (key value : Text) (kv : OutKv) (xs : List OutKv)
    → find_item key xs ≡ some kv
    → length kv.value < max_values_per_key
    → length value < max_size
    → add_value key value xs ≡ ok (replace_item (more kv value) xs)
unfolding find_item add_value replace_item
add-replace key value kv [] h room short = cc
add-replace key value kv (x ∷ xs) h room short =
    let fits : (ltb (length kv.value) max_values_per_key && ltb (length value) max_size) ≡ true =
      ground arith in
    elim (Bool-cases (same x.key key)) [
      | inl e ↦
          let q : kv ≡ x = ground arith in
          let e' : same kv.key key ≡ true = ap (λ z. same z.key key) q ∙ e in
          subst (λ z. add_value key value (z ∷ xs) ≡ ok (replace_item (more kv value) (z ∷ xs))) q
            (rw (add_value, e', fits, same_refl kv.key))
      | inr e ↦
          let q : find_item key xs ≡ some kv = ground arith in
          let k : same x.key kv.key ≡ false =
            ap (λ z. same x.key z) (eq_of_same kv.key key (found-item key kv xs q).0) ∙ e in
          rw (e, k, add-replace key value kv xs q room short)
    ]

module _ (uthash : Uthash) where
  open uthash use {
    Table, items, hash_find, hash_add, hash_write, items-find, items-add, items-write,
  }

  push-Added :
      (key value : Text) (kv : OutKv) (t : Table)
      → find_item key (items t) ≡ some kv
      → length value < max_size
      → length kv.value < max_values_per_key
      → Distinct (items t)
      → (t' : Table) × (push_value uthash value kv t ≡ ok t')
        × Added key value (items t) (items t')
        × (length (items t') ≡ length (items t))
  unfolding push_value
  push-Added key value kv t f short room d =
      let (_, known, v) = found-item key kv (items t) f in
      let (ys, e, a, l) = add_value-Added key value short (items t) known (rw (v) room) d in
      let q : ok (replace_item (more kv value) (items t)) ≡ ok ys =
        sym (add-replace key value kv (items t) f room short) ∙ e in
      let q' : replace_item (more kv value) (items t) ≡ ys = cc in
      let fits : (ltb (length kv.value) max_values_per_key && ltb (length value) max_size) ≡ true =
        ground arith in
      (
        hash_write (more kv value) t,
        rw (fits),
        subst (λ z. Added key value (items t) z) (sym (items-write (more kv value) t ∙ q')) a,
        ap length (items-write (more kv value) t ∙ q') ∙ l,
      )

  emit-new :
      (key value : Text) (t : Table)
      → find_item key (items t) ≡ none
      → length key < max_size
      → mr_emit_f uthash (key, value) t
        ≡ push_value uthash value (fresh key) (hash_add (fresh key) t)
  unfolding mr_emit_f
  emit-new key value t n short =
      let fits : ltb (length key) max_size ≡ true = ground arith in
      rw (mr_emit_f, items-find key t ∙ n, fits)

  emit-old :
      (key value : Text) (kv : OutKv) (t : Table)
      → find_item key (items t) ≡ some kv
      → mr_emit_f uthash (key, value) t ≡ push_value uthash value kv t
  unfolding mr_emit_f
  emit-old key value kv t f = rw (mr_emit_f, items-find key t ∙ f)

  -- An emission whose texts fit, where the key has room for one more value, succeeds and adds the
  -- value.
  mr_emit_f-Added :
      (key value : Text) (t : Table)
      → length key < max_size
      → length value < max_size
      → length (values key (items t)) < max_values_per_key
      → Distinct (items t)
      → (t' : Table) × (mr_emit_f uthash (key, value) t ≡ ok t')
        × Added key value (items t) (items t')
  mr_emit_f-Added key value t short short' room d = elim (Option-cases (find_item key (items t))) [
    | inl n ↦
        let new = no-item key (items t) n in
        let t1 = hash_add (fresh key) t in
        let added = items-add (fresh key) t in
        let (t', e, a, l) =
          push-Added key value (fresh key) t1
            (ap (find_item key) added ∙ fresh-item key (items t) n) short' (omega arith)
            (subst (λ z. Distinct z) (sym added) (Distinct-fresh key (items t) new d)) in
        (
          t',
          emit-new key value t n short ∙ e,
          record {
            at_key = λ k.
                a.at_key k
                ∙ ap (λ z. if same key k then z ++ (value ∷ []) else z)
                    (ap (values k) added ∙ values-fresh key k (items t) new);
            distinct = a.distinct;
            grows = omega (arith, l, ap length added, length-append (items t) (fresh key ∷ []));
            found = λ k.
                ground
                  (arith, a.found k, ap (find_intermediate k) added, find-fresh key k (items t));
          },
        )
    | inr (kv, f) ↦
        let (_, _, v) = found-item key kv (items t) f in
        let (t', e, a, _) = push-Added key value kv t f short' (rw⁻¹ (v) room) d in
        (t', emit-old key value kv t f ∙ e, a)
  ]

  -- Emissions whose texts fit succeed in any order, where no key gets more values than a value
  -- array holds. Each key then has its values in the order of emission.
  pub emit_all_f-sent :
      (es : List Pair) (t : Table)
      → All Short es
      → ((k : Text) → length (values k (items t)) + length (sent k es) ≤ max_values_per_key)
      → Distinct (items t)
      → (t' : Table) × (emit_all_f uthash es t ≡ ok t')
        × Distinct (items t')
        × ((k : Text) → values k (items t') ≡ values k (items t) ++ sent k es)
  unfolding emit_all_f sent
  emit_all_f-sent [] t short room d = (t, refl, d, λ k. sym (append-nil (values k (items t))))
  emit_all_f-sent ((key, value) ∷ es) t short room d =
      let (t1, e, a) =
        mr_emit_f-Added key value t short.0.0 short.0.1 (ground (arith, room key, same_refl key))
          d in
      let (t', e', d', v) =
        emit_all_f-sent es t1 short.1
          (λ k. ground (arith, room k, a.at_key k, length-append (values k (items t)) (value ∷ [])))
          a.distinct in
      (
        t',
        rw e e',
        d',
        λ k. v k ∙ elim (Bool-cases (same key k)) [
          | inl h ↦ rw (a.at_key k, h) (append_assoc (values k (items t)) (value ∷ []) (sent k es))
          | inr h ↦ rw (a.at_key k, h)
        ],
      )
