-- ===== src/Trie/Slots.antt =====
-- One slot of a node of src/trie.c.
use pokerunicorn_server.Prelude.{
  ℕ, ◌≡◌, refl, sym, subst, false, Option, List, [], ◌∷◌, if◌then◌else◌, ◌==◌, Bool-cases, inl, inr,
  ==_iff, if_either,
}
use pokerunicorn_server.Trie.{Pointer, node, is_null, store, index_of, node_new}
use pokerunicorn_server.Trie.Shape.{
  IsAscii, same_key, IsChild, IsTree, read, read-null, node_new-IsTree, read-node_new, child_index,
  null_lem,
}

module _ {D : Type 0} where
  -- A new slot after the write of a child, as a map.
  pub read-store :
      (v w : Option D) (slots : ℕ → Pointer D) (l m x c : ℕ) (p : Pointer D) (key : List ℕ)
      (u : Option D)
      → ((j : List ℕ) → IsAscii j → read p j ≡ (if same_key j key then u else read (slots c) j))
      → (j : List ℕ) → IsAscii j
      → read (node v (store slots c p) m x) j
        ≡ (if same_key j (c ∷ key) then u else read (node v slots l x) j)
  read-store v w slots l m x c p key u below [] a = refl
  read-store v w slots l m x c p key u below (d ∷ j) a = elim (Bool-cases (d == c)) [
    | inl here ↦
        rw (here, below j a.1)
          (subst
            (λ (k : ℕ).
              (if same_key j key then u else read (slots k) j)
              ≡ (if same_key j key then u else read (slots d) j))
            ((==_iff d c).0 here) refl)
    | inr elsewhere ↦ rw elsewhere refl
  ]

  -- What a walk to an absent or a present slot starts from.
  abbrev pub child : (ℕ → Pointer D) → ℕ → Pointer D
  child slots c = if is_null (slots c) then node_new c else slots c

  pub child-IsTree : (slots : ℕ → Pointer D) (c : ℕ) → IsTree (slots c) → IsTree (child slots c)
  child-IsTree slots c t = if_either IsTree (is_null (slots c)) (node_new-IsTree D c) t

  pub child_live : (slots : ℕ → Pointer D) (c : ℕ) → is_null (child slots c) ≡ false
  child_live slots c = elim (Bool-cases (is_null (slots c))) [
    | inl e ↦ rw (e, is_null) refl
    | inr e ↦ rw (e, e) refl
  ]

  pub child-index_of :
      (slots : ℕ → Pointer D) (c : ℕ) → IsChild c (slots c) → index_of (child slots c) ≡ c
  child-index_of slots c h = elim (Bool-cases (is_null (slots c))) [
    | inl e ↦ rw e refl
    | inr e ↦ rw e (child_index c (slots c) h e)
  ]

  pub read-child :
      (slots : ℕ → Pointer D) (c : ℕ) (j : List ℕ) → read (child slots c) j ≡ read (slots c) j
  read-child slots c j = elim (Bool-cases (is_null (slots c))) [
    | inl e ↦ rw (e, null_lem (slots c) e, read-node_new c j) (sym (read-null j))
    | inr e ↦ rw e refl
  ]
