-- ===== src/Collect/Chain.antt =====
-- The list of messages of lab/server.c.
use cmpt201_coursework.Prelude.{
  ℕ, zero, suc, ◌+◌, ◌%◌, ◌^◌, ◌<◌, ◌≡◌, ◌≢◌, refl, sym, ap, subst, ◌∙◌, Bool, Bool-cases, inl, inr,
  true, false, ◌&&◌, ◌||◌, List, [], ◌∷◌, ◌++◌, map, arith, ◌==◌, if◌then◌else◌, length, All, ok,
  fault,
}
use cmpt201_coursework.Text.{Text, before_nul}
use cmpt201_coursework.Collect.{
  null, Nodes, Handle, set_next, new_node, add_to_list, c_string, collect_loop, collect_all,
}

-- An address and a message.
abbrev pub Entry : Type 0
Entry = ℕ × Text

-- From the node `p` the `next` pointers lead through the entries to `l`, the last node.
abbrev pub Linked : Nodes → ℕ → List Entry → ℕ → Type 0
Linked m p [] l = (p ≡ l) × (m.next p ≡ null)
Linked m p ((a, msg) ∷ xs) l = (m.next p ≡ a) × (a ≢ null) × (m.data_of a ≡ msg) × Linked m a xs l

-- An address that no entry has.
abbrev pub IsFresh : ℕ → List Entry → Type 0
IsFresh new xs = All (λ x. x.0 ≢ new) xs

last-null : (m : Nodes) (p l : ℕ) (xs : List Entry) → Linked m p xs l → m.next l ≡ null
last-null m p l [] c = ap m.next (sym c.0) ∙ c.1
last-null m p l ((a, d) ∷ xs) c = last-null m a l xs c.3

module _ (new : ℕ) (msg : Text) (h : Handle) where
  -- The nodes once the message is added.
  abbrev pub added : Nodes
  added = set_next (new_node h.nodes new msg) h.last new

  next-added : (p : ℕ) → p ≢ h.last → p ≢ new → added.next p ≡ h.nodes.next p
  next-added p e f = ground arith

  Linked-added :
      (p : ℕ) (xs : List Entry)
      → Linked h.nodes p xs h.last
      → new ≢ null
      → p ≢ new
      → IsFresh new xs
      → Linked added p (xs ++ ((new, msg) ∷ [])) new
  Linked-added p [] c live ne f =
      let e = c.0 in (ground arith, live, ground arith, (refl, ground arith))
  Linked-added p ((a, d) ∷ xs) c live ne f =
      let z = last-null h.nodes a h.last xs c.3 in
      let other : p ≢ h.last = λ e. c.1 (sym c.0 ∙ ap h.nodes.next e ∙ z) in
      (
        next-added p other ne ∙ c.0,
        c.1,
        (let q = f.0 in ground (arith, c.2)),
        Linked-added a xs c.3 live f.0 f.1,
      )

  -- An addition puts its message behind those of the list, and counts it.
  pub add-Linked :
      (head : ℕ) (xs : List Entry)
      → Linked h.nodes head xs h.last
      → new ≢ null
      → head ≢ new
      → IsFresh new xs
      → let t = add_to_list new (record h { nodes = new_node h.nodes new msg }) in
        Linked t.nodes head (xs ++ ((new, msg) ∷ [])) t.last × (t.count ≡ (h.count + 1) % 2 ^ 32)
  unfolding add_to_list
  add-Linked head xs c live ne f =
      let e : new ≡ added.next h.last = ground arith in
      (
        subst (λ l. Linked added head (xs ++ ((new, msg) ∷ [])) l) e
            (Linked-added head xs c live ne f),
        refl,
      )

-- Whether a message has a NUL.
unfoldable pub has_nul : Text → Bool
has_nul [] = false
has_nul (b ∷ buf) = (b == 0) || has_nul buf

c_string_lem : (buf : Text) → c_string buf ≡ (if has_nul buf then ok (before_nul buf) else fault)
unfolding c_string has_nul before_nul
c_string_lem [] = refl
c_string_lem (b ∷ buf) = elim (Bool-cases (b == 0)) [
  | inl z ↦ rw (z)
  | inr z ↦ elim (Bool-cases (has_nul buf)) [
    | inl n ↦ rw (z, c_string_lem buf, n)
    | inr n ↦ rw (z, c_string_lem buf, n)
  ]
]

-- Whether every message has a NUL, and the messages up to their NULs.
unfoldable pub all_end : List Entry → Bool
all_end [] = true
all_end ((a, msg) ∷ xs) = has_nul msg && all_end xs

abbrev pub messages : List Entry → List Text
messages xs = map (λ x. before_nul x.1) xs

collect_loop-Linked :
    (k : ℕ) (m : Nodes) (p l : ℕ) (xs : List Entry)
    → Linked m p xs l
    → length xs < k
    → collect_loop k m (m.next p) ≡ (if all_end xs then ok (messages xs) else fault)
unfolding collect_loop all_end
collect_loop-Linked zero m p l xs c h = absurd (omega arith)
collect_loop-Linked (suc k) m p l [] c h = rw (c.1)
collect_loop-Linked (suc k) m p l ((a, d) ∷ xs) c h =
    let live : (a == null) ≡ false = let ne = c.1 in ground arith in
    let rest = collect_loop-Linked k m a l xs c.3 (omega arith) in
    elim (Bool-cases (has_nul d)) [
      | inr n ↦ rw (c.0, live, rest, c.2, c_string_lem d, n)
      | inl n ↦ elim (Bool-cases (all_end xs)) [
        | inl e ↦ rw (c.0, live, rest, c.2, c_string_lem d, n, e)
        | inr e ↦ rw (c.0, live, rest, c.2, c_string_lem d, n, e)
      ]
    ]

-- `collect_all` prints the messages of the list up to their NULs, in their order, and reads behind a
-- buffer if one has none.
pub collect_all-Linked :
    (k : ℕ) (m : Nodes) (head l : ℕ) (xs : List Entry)
    → Linked m head xs l
    → length xs < k
    → collect_all k m head ≡ (if all_end xs then ok (messages xs) else fault)
unfolding collect_all
collect_all-Linked k m head l xs = collect_loop-Linked k m head l xs
