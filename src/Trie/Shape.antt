-- ===== src/Trie/Shape.antt =====
-- The representation of the tries of src/trie.c.
use pokerunicorn_server.Prelude.{
  ℕ, zero, suc, ◌+◌, ◌≤◌, ◌<◌, ◌≡◌, refl, sym, subst, ◌∙◌, Bool, true, false, ◌&&◌, Option, none,
  some, List, [], ◌∷◌, if◌then◌else◌, ◌==◌, is_none, arith, Bool-cases, inl, inr, ==_iff, All,
}
use pokerunicorn_server.Trie.{
  Pointer, null, freed, node, is_null, is_empty, store, value_of, index_of, node_new,
}

-- The bytes of a key that `char` has no sign for.
abbrev pub IsAscii : List ℕ → Type 0
IsAscii key = All (λ c. c < 128) key

-- Two keys are the same bytes.
abbrev pub same_key : List ℕ → List ℕ → Bool
same_key [] [] = true
same_key [] (d ∷ k) = false
same_key (c ∷ j) [] = false
same_key (c ∷ j) (d ∷ k) = c == d && same_key j k

module _ {D : Type 0} where
  -- How many of the first `n` slots hold a node.
  abbrev pub count : ℕ → (ℕ → Pointer D) → ℕ
  count zero slots = 0
  count (suc n) slots = count n slots + (if is_null (slots n) then 0 else 1)

  -- A slot is free, or holds a live node that knows its index and is not empty.
  abbrev pub IsChild : ℕ → Pointer D → Type 0
  IsChild i null = Unit {0}
  IsChild i freed = ⊥
  IsChild i (node v slots l x) = (x ≡ i) × ((l == 0 && is_none v) ≡ false)

  -- Every node counts its children, and every slot is as it should be, down to the leaves.
  abbrev pub IsTree : Pointer D → Type 0
  IsTree null = Unit {0}
  IsTree freed = ⊥
  IsTree (node v slots l x) =
      (l ≡ count 128 slots) × ((i : ℕ) → IsChild i (slots i)) × ((i : ℕ) → IsTree (slots i))

  -- The trie itself: its root is a node.
  abbrev pub IsTrie : Pointer D → Type 0
  IsTrie root = (is_null root ≡ false) × IsTree root

  -- The map that a trie stands for.
  abbrev pub read : Pointer D → List ℕ → Option D
  read p [] = value_of p
  read null (c ∷ key) = none
  read freed (c ∷ key) = none
  read (node v slots l x) (c ∷ key) = read (slots c) key

  pub count-store_over :
      (n : ℕ) (slots : ℕ → Pointer D) (c : ℕ) (p : Pointer D)
      → n ≤ c
      → count n (store slots c p) ≡ count n slots
  count-store_over zero slots c p h = refl
  count-store_over (suc n) slots c p h = ground (arith, count-store_over n slots c p)

  -- A write at a slot below `n` changes the count by what it replaces.
  pub count-store :
      (n : ℕ) (slots : ℕ → Pointer D) (c : ℕ) (p : Pointer D)
      → c < n
      → count n (store slots c p) + (if is_null (slots c) then 0 else 1)
        ≡ count n slots + (if is_null p then 0 else 1)
  count-store zero slots c p h = absurd (omega arith)
  count-store (suc n) slots c p h =
      ground (arith, count-store n slots c p, count-store_over n slots c p)

  -- Where nothing is counted, every slot is free.
  pub count_zero :
      (n : ℕ) (slots : ℕ → Pointer D) (i : ℕ) → count n slots ≡ 0 → i < n → is_null (slots i) ≡ true
  count_zero zero slots i none_left h = absurd (omega arith)
  count_zero (suc n) slots i none_left h = ground (arith, count_zero n slots i)

pub count_empty : (D : Type 0) (n : ℕ) → count {D = D} n (λ i. null) ≡ 0
count_empty D zero = refl
count_empty D (suc n) = ground (arith, count_empty D n)

pub node_new-IsTree : (D : Type 0) (c : ℕ) → IsTree {D = D} (node_new c)
node_new-IsTree D c = (sym (count_empty D 128), λ i. tt, λ i. tt)

unused_count : {D : Type 0} (l : ℕ) (v : Option D) → (l == 0 && is_none v) ≡ true → l ≡ 0
unused_count l v h = ground arith

unused_value : {D : Type 0} (l : ℕ) (v : Option D) → (l == 0 && is_none v) ≡ true → v ≡ none
unused_value l none h = refl
unused_value l (some w) h = ground arith

module _ {D : Type 0} where
  -- What holds of every slot holds after a write of what it holds of.
  pub store_all :
      (P : ℕ → Pointer D → Type 0) (slots : ℕ → Pointer D) (c : ℕ) (p : Pointer D)
      → ((i : ℕ) → P i (slots i))
      → P c p
      → (i : ℕ) → P i (store slots c p i)
  store_all P slots c p all one i = elim (Bool-cases (i == c)) [
    | inl here ↦ rw here (subst (λ (k : ℕ). P k p) (sym ((==_iff i c).0 here)) one)
    | inr elsewhere ↦ rw elsewhere (all i)
  ]

  -- What a slot may hold: a live node with the slot's index that is not empty.
  pub live-IsChild :
      (i : ℕ) (p : Pointer D)
      → IsTree p
      → is_null p ≡ false
      → index_of p ≡ i
      → is_empty p ≡ false
      → IsChild i p
  live-IsChild i null t h e n = tt
  live-IsChild i freed t h e n = t
  live-IsChild i (node v slots l x) t h e n = (e, n)

  pub read-null : (j : List ℕ) → read {D = D} null j ≡ none
  read-null [] = refl
  read-null (c ∷ j) = refl

  pub read-node_new : (c : ℕ) (j : List ℕ) → read {D = D} (node_new c) j ≡ none
  read-node_new c [] = refl
  read-node_new c (d ∷ j) = read-null j

  pub child_index : (i : ℕ) (p : Pointer D) → IsChild i p → is_null p ≡ false → index_of p ≡ i
  child_index i null h n = cc
  child_index i freed h n = absurd h
  child_index i (node v slots l x) h n = h.0

  pub null_lem : (p : Pointer D) → is_null p ≡ true → p ≡ null
  null_lem null h = refl
  null_lem freed h = cc
  null_lem (node v slots l x) h = cc

  -- An empty node has nothing below it.
  pub read_empty :
      (p : Pointer D) → IsTree p → is_empty p ≡ true → (j : List ℕ) → IsAscii j → read p j ≡ none
  read_empty null t h j a = read-null j
  read_empty freed t h j a = absurd t
  read_empty (node v slots l x) t h [] a = unused_value l v h
  read_empty (node v slots l x) t h (c ∷ j) a =
      let free = count_zero 128 slots c (sym t.0 ∙ unused_count l v h) a.0 in
      rw (null_lem (slots c) free) (read-null j)
