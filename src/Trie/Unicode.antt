-- ===== src/Trie/Unicode.antt =====
-- The other tries of src/trie.c: `__unicode`, with 256 slots in a node, and `__index`, with 10. Their
-- code is the same. `unsigned char` is the index of a slot, and nothing else bounds it.
use pokerunicorn_server.Prelude.{
  ℕ, ◌+◌, ◌-◌, ◌<◌, ◌≡◌, refl, ap, ◌∙◌, Bool, true, false, ◌==◌, ◌&&◌, ltb, Option, none, some,
  List, [], ◌∷◌, if◌then◌else◌, is_none, All, lt→ltb, ==_refl,
}
use pokerunicorn_server.Prelude.Result.{
  Result, ok, fault, ◌>>=◌, null_pointer, use_after_free, out_of_bounds,
}
use pokerunicorn_server.Trie.{Pointer, null, freed, node, is_null, store, node_new}

module _ {D : Type 0} (size : ℕ) where
  -- The loop of `pkrsrv_trie_node_key__unicode`, with `current` and the node found so far.
  unfoldable pub walk : Pointer D → Pointer D → List ℕ → Result (Pointer D)
  walk current found [] = ok found
  walk null found (c ∷ key) = fault null_pointer
  walk freed found (c ∷ key) = fault use_after_free
  walk (node v slots l x) found (c ∷ key) =
      if ltb c size
      then elim (is_null (slots c)) [ true ↦ ok null | false ↦ walk (slots c) (slots c) key ]
      else fault out_of_bounds

  -- `pkrsrv_trie_get__unicode`: an empty key is not found.
  abbrev pub find_node : Pointer D → List ℕ → Result (Pointer D)
  find_node root key = walk root null key

  -- `pkrsrv_trie_set__unicode`
  unfoldable pub put : Pointer D → List ℕ → Option D → Result (Pointer D)
  put null key w = fault null_pointer
  put freed key w = fault use_after_free
  put (node v slots l x) [] w = ok (node w slots l x)
  put (node v slots l x) (c ∷ key) w =
      if ltb c size
      then (put (if is_null (slots c) then node_new 0 else slots c) key w >>= λ child.
          ok (node v (store slots c child) (if is_null (slots c) then l + 1 else l) x))
      else fault out_of_bounds

  -- A round of the loop of `pkrsrv_trie_unset__unicode`, seen from the parent of the node that it looks
  -- at. A node that is freed counts as gone in `len`, and the slot in `map` still points to it. A node
  -- with a child has a `len` of at least 1.
  abbrev pub release : Option D → (ℕ → Pointer D) → ℕ → ℕ → ℕ → Pointer D × Bool → Pointer D × Bool
  release v slots l x c (child, going) =
      if going
      then (if l - 1 == 0 && is_none v
          then (freed, true)
          else (node v (store slots c child) (l - 1) x, false))
      else (node v (store slots c child) l x, false)

  unfoldable pub free_path : Pointer D → List ℕ → Result (Pointer D × Bool)
  free_path null key = fault null_pointer
  free_path freed key = fault use_after_free
  free_path (node v slots l x) [] = ok (freed, true)
  free_path (node v slots l x) (c ∷ key) =
      free_path (slots c) key >>= λ below. ok (release v slots l x c below)

  -- `pkrsrv_trie_unset__unicode`: the root has no parent whose `len` could be changed.
  unfoldable pub erase : Pointer D → List ℕ → Result (Pointer D)
  erase root key = find_node root key >>= λ current.
      if is_null current
      then ok root
      else (free_path root key >>= λ done. if done.1 then fault null_pointer else ok done.0)

  -- The trie with one value, under `key`.
  chain : List ℕ → D → Pointer D
  chain [] w = node (some w) (λ i. null) 0 0
  chain (c ∷ key) w = node none (store (λ i. null) c (chain key w)) 1 0

  put-chain :
      (key : List ℕ) (w : D)
      → All (λ c. c < size) key
      → put (node_new 0) key (some w) ≡ ok (chain key w)
  unfolding put chain
  put-chain [] w a = refl
  put-chain (c ∷ key) w a = rw (lt→ltb c size a.0, put-chain key w a.1) refl

  chain_live : (key : List ℕ) (w : D) → is_null (chain key w) ≡ false
  unfolding chain
  chain_live [] w = refl
  chain_live (c ∷ key) w = refl

  walk_taken :
      (v : Option D) (slots : ℕ → Pointer D) (l x c : ℕ) (key : List ℕ) (found p : Pointer D)
      → c < size
      → slots c ≡ p
      → is_null p ≡ false
      → walk (node v slots l x) found (c ∷ key) ≡ walk p p key
  unfolding walk
  walk_taken v slots l x c key found p h here live =
      let there : is_null (slots c) ≡ false = ap is_null here ∙ live in
      rw (lt→ltb c size h, there) (ap (λ q. walk q q key) here)

  store_self : (c : ℕ) (p : Pointer D) → store (λ i. null) c p c ≡ p
  store_self c p = rw (==_refl c) refl

  walk-chain_step :
      (c : ℕ) (key : List ℕ) (w : D) (found : Pointer D)
      → c < size
      → walk (chain (c ∷ key) w) found (c ∷ key) ≡ walk (chain key w) (chain key w) key
  unfolding chain
  walk-chain_step c key w found h =
      let below : Pointer D = chain key w in
      walk_taken none (store (λ i. null) c below) 1 0 c key found below h (store_self c below)
        (chain_live key w)

  walk-chain :
      (key : List ℕ) (w : D)
      → All (λ c. c < size) key
      → (p : Pointer D) × (walk (chain key w) (chain key w) key ≡ ok p) × (is_null p ≡ false)
  walk-chain [] w a = (chain [] w, unfold walk in refl, chain_live [] w)
  walk-chain (c ∷ key) w a =
      let (p, runs, there) = walk-chain key w a.1 in
      (p, walk-chain_step c key w (chain (c ∷ key) w) a.0 ∙ runs, there)

  free_path-chain : (key : List ℕ) (w : D) → free_path (chain key w) key ≡ ok (freed, true)
  unfolding free_path chain
  free_path-chain [] w = refl
  free_path-chain (c ∷ key) w = rw (==_refl c, free_path-chain key w) refl

  -- In a trie of this kind, a set of a key that is not empty, the first one, and the unset of that key
  -- end at the root, whose parent is NULL and is followed.
  pub erase-put :
      (c : ℕ) (key : List ℕ) (w : D)
      → All (λ d. d < size) (c ∷ key)
      → (put (node_new 0) (c ∷ key) (some w) >>= λ root. erase root (c ∷ key)) ≡ fault null_pointer
  unfolding erase
  erase-put c key w a =
      let (p, runs, live) = walk-chain key w a.1 in
      rw
        (
          put-chain (c ∷ key) w a,
          walk-chain_step c key w null a.0,
          runs,
          live,
          free_path-chain (c ∷ key) w,
        )
        refl
