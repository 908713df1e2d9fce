-- ===== src/Trie/Walk.antt =====
-- How `pkrsrv_trie_node_key__ascii` of src/trie.c walks along a key.
use pokerunicorn_server.Prelude.{
  ℕ, ◌<◌, ◌≡◌, refl, ap, sym, ◌∙◌, true, false, Option, List, [], ◌∷◌, Bool-cases, inl, inr, lt→ltb,
}
use pokerunicorn_server.Prelude.Result.{ok, ok_injective}
use pokerunicorn_server.Trie.{Pointer, null, freed, node, is_null, value_of, node_key}
use pokerunicorn_server.Trie.Shape.{IsAscii, IsTree, read, read-null, null_lem}

module _ {D : Type 0} where
  -- A step of the walk, at a slot that is free or taken.
  node_key_free :
      (v : Option D) (slots : ℕ → Pointer D) (l x c : ℕ) (key : List ℕ)
      → c < 128
      → is_null (slots c) ≡ true
      → node_key (node v slots l x) (c ∷ key) ≡ ok null
  unfolding node_key
  node_key_free v slots l x c key h gone = rw (lt→ltb c 128 h, gone) refl

  node_key_taken :
      (v : Option D) (slots : ℕ → Pointer D) (l x c : ℕ) (key : List ℕ)
      → c < 128
      → is_null (slots c) ≡ false
      → node_key (node v slots l x) (c ∷ key) ≡ node_key (slots c) key
  unfolding node_key
  node_key_taken v slots l x c key h there = rw (lt→ltb c 128 h, there) refl

  pub node_key_step :
      (v : Option D) (slots : ℕ → Pointer D) (l x c : ℕ) (key : List ℕ) {p : Pointer D}
      → c < 128
      → node_key (node v slots l x) (c ∷ key) ≡ ok p
      → is_null p ≡ false
      → (is_null (slots c) ≡ false) × (node_key (slots c) key ≡ ok p)
  node_key_step v slots l x c key h found live = elim (Bool-cases (is_null (slots c))) [
    | inl gone ↦
        let same = ok_injective (sym (node_key_free v slots l x c key h gone) ∙ found) in
        absurd (cc (ap is_null same, live))
    | inr there ↦ (there, sym (node_key_taken v slots l x c key h there) ∙ found)
  ]

  -- The walk of a key ends, and finds what the trie stands for.
  pub node_key_lem :
      (root : Pointer D) (key : List ℕ)
      → is_null root ≡ false
      → IsTree root
      → IsAscii key
      → (p : Pointer D) × (node_key root key ≡ ok p) × (value_of p ≡ read root key)
  unfolding node_key
  node_key_lem null key live t a = cc
  node_key_lem freed key live t a = absurd t
  node_key_lem (node v slots l x) [] live t a = (node v slots l x, refl, refl)
  node_key_lem (node v slots l x) (c ∷ key) live t a = elim (Bool-cases (is_null (slots c))) [
    | inl gone ↦ (
      null,
      node_key_free v slots l x c key a.0 gone,
      sym (rw (null_lem (slots c) gone) (read-null key)),
    )
    | inr there ↦
        let (p, runs, same) = node_key_lem (slots c) key there (t.2 c) a.1 in
        (p, node_key_taken v slots l x c key a.0 there ∙ runs, same)
  ]
