-- ===== src/Trie.antt =====
-- The tries of src/trie.c: here `__ascii`, in Unicode `__unicode` and `__index`. A node stands in exactly one slot of `map`, and
-- its `parent` is the node with that slot, so that a trie is a tree of pointers. Memory does not run
-- out. A key is the bytes of a C string, without the zero that ends it.
pub mod Shape
pub mod Slots
pub mod Walk
pub mod Insert
pub mod Clear
pub mod Laws
pub mod Unicode
use pokerunicorn_server.Prelude.{
  ℕ, zero, suc, ◌+◌, ◌-◌, ◌≡◌, Bool, true, false, not, ◌&&◌, Option, none, some, List, [], ◌∷◌,
  if◌then◌else◌, ◌==◌, ltb, is_none,
}
use pokerunicorn_server.Prelude.Result.{
  Result, ok, fault, ◌>>=◌, null_pointer, out_of_bounds, use_after_free,
}

-- What a pointer to a node leads to: nothing, memory that has been freed, or
-- `pkrsrv_trie_node__ascii_t` with `value`, `map`, `len` and `index`. The node of the other tries is
-- the same without `index`, which is then 0.
pub data Pointer (D : Type 0) : Type 0 where
  null : Pointer D
  freed : Pointer D
  node : Option D → (ℕ → Pointer D) → ℕ → ℕ → Pointer D

module _ {D : Type 0} where
  abbrev pub is_null : Pointer D → Bool
  is_null null = true
  is_null freed = false
  is_null (node v slots l x) = false

  -- `node->value` where there is a node, else nothing.
  abbrev pub value_of : Pointer D → Option D
  value_of null = none
  value_of freed = none
  value_of (node v slots l x) = v

  -- `map[c] = p`
  abbrev pub store : (ℕ → Pointer D) → ℕ → Pointer D → ℕ → Pointer D
  store slots c p i = if i == c then p else slots i

  -- `pkrsrv_trie_node_new__ascii` with the `index` that `pkrsrv_trie_set__ascii` gives it.
  abbrev pub node_new : ℕ → Pointer D
  node_new c = node none (λ i. null) 0 c

  -- `pkrsrv_trie_node_key__ascii`. `char` is signed: no byte is above 127, and a byte that is 128 or
  -- more is a negative index.
  unfoldable pub node_key : Pointer D → List ℕ → Result (Pointer D)
  node_key current [] = ok current
  node_key null (c ∷ key) = fault null_pointer
  node_key freed (c ∷ key) = fault use_after_free
  node_key (node v slots l x) (c ∷ key) =
      if ltb c 128
      then elim (is_null (slots c)) [ true ↦ ok null | false ↦ node_key (slots c) key ]
      else fault out_of_bounds

  -- `pkrsrv_trie_get__ascii`
  abbrev pub get : Pointer D → List ℕ → Result (Pointer D)
  get root key = node_key root key

  -- The loop of `pkrsrv_trie_set__ascii`, and the value that it writes at the end.
  unfoldable pub insert : Pointer D → List ℕ → Option D → Result (Pointer D)
  insert null key w = fault null_pointer
  insert freed key w = fault use_after_free
  insert (node v slots l x) [] w = ok (node w slots l x)
  insert (node v slots l x) (c ∷ key) w =
      if ltb c 128
      then (insert (if is_null (slots c) then node_new c else slots c) key w >>= λ child.
          ok (node v (store slots c child) (if is_null (slots c) then l + 1 else l) x))
      else fault out_of_bounds

  -- `current->len == 0 && !current->value`
  abbrev pub is_empty : Pointer D → Bool
  is_empty null = false
  is_empty freed = false
  is_empty (node v slots l x) = l == 0 && is_none v

  -- `current->index`
  abbrev pub index_of : Pointer D → ℕ
  index_of null = 0
  index_of freed = 0
  index_of (node v slots l x) = x

  -- A round of the loop of `pkrsrv_trie_unset__ascii` on a child, seen from its parent: it goes on
  -- where the child has been removed.
  abbrev pub prune : Option D → (ℕ → Pointer D) → ℕ → ℕ → ℕ → Pointer D × Bool → Pointer D × Bool
  prune v slots l x c (child, going) =
      if going && is_empty child
      then (node v (store (store slots c child) (index_of child) null) (l - 1) x, true)
      else (node v (store slots c child) l x, false)

  -- The end of `pkrsrv_trie_unset__ascii`, at the node that the key leads to and up from there.
  unfoldable pub clear : Pointer D → List ℕ → Result (Pointer D × Bool)
  clear null key = fault null_pointer
  clear freed key = fault use_after_free
  clear (node v slots l x) [] = ok (node none slots l x, true)
  clear (node v slots l x) (c ∷ key) =
      clear (slots c) key >>= λ below. ok (prune v slots l x c below)

  -- `pkrsrv_trie_unset__ascii`
  unfoldable pub unset : Pointer D → List ℕ → Result (Pointer D)
  unset root key = node_key root key >>= λ current.
      if is_null current then ok root else (clear root key >>= λ done. ok done.0)

  -- `pkrsrv_trie_set__ascii`
  unfoldable pub set_value : Pointer D → List ℕ → Option D → Result (Pointer D)
  set_value root key w = unset root key >>= λ root'. insert root' key w

  -- What a caller finds under a key: `value` of the node that `pkrsrv_trie_get__ascii` gives.
  abbrev pub value_at : Pointer D → List ℕ → Result (Option D)
  value_at root key = get root key >>= λ found. ok (value_of found)

  -- `pkrsrv_trie_new__ascii`
  abbrev pub trie_new : Pointer D
  trie_new = node_new 0
