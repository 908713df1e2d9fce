-- ===== src/Trie/Laws.antt =====
-- The calls of `__ascii` of src/trie.c, in any sequence from `pkrsrv_trie_new__ascii`.
use pokerunicorn_server.Prelude.{
  ℕ, ◌≡◌, arith, refl, ap, sym, ◌∙◌, true, false, Option, none, some, List, [], ◌∷◌, if◌then◌else◌,
  Bool-cases, inl, inr, All,
}
use pokerunicorn_server.Prelude.Result.{Result, ok, ◌>>=◌}
use pokerunicorn_server.Trie.{Pointer, is_null, value_of, unset, set_value, value_at, trie_new}
use pokerunicorn_server.Trie.Shape.{
  IsAscii, IsTree, IsTrie, read, same_key, null_lem, node_new-IsTree, read-node_new,
}
use pokerunicorn_server.Trie.Walk.{node_key_lem}
use pokerunicorn_server.Trie.Insert.{insert_lem}
use pokerunicorn_server.Trie.Clear.{clear_lem}

same_key-eq : (j k : List ℕ) → same_key j k ≡ true → j ≡ k
same_key-eq [] [] h = refl
same_key-eq [] (d ∷ k) h = cc
same_key-eq (c ∷ j) [] h = cc
same_key-eq (c ∷ j) (d ∷ k) h = ground (arith, same_key-eq j k)

-- The calls that change a trie.
pub data Command (D : Type 0) : Type 0 where
  assign : List ℕ → D → Command D
  remove : List ℕ → Command D

module _ {D : Type 0} where
  abbrev pub key_of : Command D → List ℕ
  key_of (assign key w) = key
  key_of (remove key) = key

  -- The value that a call leaves under its key.
  abbrev pub outcome : Command D → Option D
  outcome (assign key w) = some w
  outcome (remove key) = none

  -- A call, as a change to a map.
  abbrev pub change : (List ℕ → Option D) → Command D → List ℕ → Option D
  change f call j = if same_key j (key_of call) then outcome call else f j

  -- A sequence of calls, as a change to a map.
  abbrev pub changes : (List ℕ → Option D) → List (Command D) → List ℕ → Option D
  changes f [] = f
  changes f (call ∷ calls) = changes (change f call) calls

  abbrev pub call_trie : Pointer D → Command D → Result (Pointer D)
  call_trie root (assign key w) = set_value root key (some w)
  call_trie root (remove key) = unset root key

  unfoldable pub call_all : Pointer D → List (Command D) → Result (Pointer D)
  call_all root [] = ok root
  call_all root (call ∷ calls) = call_trie root call >>= λ root'. call_all root' calls

  -- The trie `root` stands for the map `f`.
  pub record Shows (root : Pointer D) (f : List ℕ → Option D) : Type 0 where
    pub live : is_null root ≡ false
    pub tree : IsTree root
    pub same : (j : List ℕ) → IsAscii j → read root j ≡ f j

  pub value_at_lem :
      (root : Pointer D) (f : List ℕ → Option D) (j : List ℕ)
      → Shows root f
      → IsAscii j
      → value_at root j ≡ ok (f j)
  value_at_lem root f j shown a =
      let (p, runs, found) = node_key_lem root j shown.live shown.tree a in
      rw (runs, found, shown.same j a) refl

  -- A key that has no value is removed already.
  unchanged :
      (f : List ℕ → Option D) (key j : List ℕ) → f key ≡ none → f j ≡ change f (remove key) j
  unchanged f key j e = elim (Bool-cases (same_key j key)) [
    | inl here ↦ rw (here, same_key-eq j key here) e
    | inr elsewhere ↦ rw elsewhere refl
  ]

  written :
      (w : D) (f : List ℕ → Option D) (key j : List ℕ) {o : Option D}
      → o ≡ change f (remove key) j
      → (if same_key j key then some w else o) ≡ change f (assign key w) j
  written w f key j e = elim (Bool-cases (same_key j key)) [
    | inl here ↦ rw here refl
    | inr elsewhere ↦ ground (arith, elsewhere, e)
  ]

  unset_lem :
      (root : Pointer D) (f : List ℕ → Option D) (key : List ℕ)
      → Shows root f
      → IsAscii key
      → (root' : Pointer D) × (unset root key ≡ ok root') × Shows root' (change f (remove key))
  unfolding unset
  unset_lem root f key shown a =
      let (p, runs, found) = node_key_lem root key shown.live shown.tree a in
      elim (Bool-cases (is_null p)) [
        | inl gone ↦ (
          root,
          rw (runs, gone) refl,
          record {
            live = shown.live;
            tree = shown.tree;
            same = λ j b.
                shown.same j b
                ∙ unchanged f key j
                    (sym (shown.same key a) ∙ sym found ∙ ap value_of (null_lem p gone));
          },
        )
        | inr there ↦
            let (root', going, done) = clear_lem root key shown.tree a runs there in
            (
              root',
              rw (runs, there, done.runs) refl,
              record {
                live = done.live;
                tree = done.tree;
                same = λ j b.
                    done.reads j b ∙ ap (λ o. if same_key j key then none else o) (shown.same j b);
              },
            )
      ]

  call_trie_lem :
      (root : Pointer D) (f : List ℕ → Option D) (call : Command D)
      → Shows root f
      → IsAscii (key_of call)
      → (root' : Pointer D) × (call_trie root call ≡ ok root') × Shows root' (change f call)
  unfolding set_value
  call_trie_lem root f (remove key) shown a = unset_lem root f key shown a
  call_trie_lem root f (assign key w) shown a =
      let (mid, runs, there) = unset_lem root f key shown a in
      let (root', done) = insert_lem mid key w there.live there.tree a in
      (
        root',
        rw (runs, done.runs) refl,
        record {
          live = done.live;
          tree = done.tree;
          same = λ j b. done.reads j b ∙ written w f key j (there.same j b);
        },
      )

  call_all_lem :
      (root : Pointer D) (f : List ℕ → Option D) (calls : List (Command D))
      → Shows root f
      → All (λ call. IsAscii (key_of call)) calls
      → (root' : Pointer D) × (call_all root calls ≡ ok root') × Shows root' (changes f calls)
  unfolding call_all
  call_all_lem root f [] shown a = (root, refl, shown)
  call_all_lem root f (call ∷ calls) shown a =
      let (mid, runs, there) = call_trie_lem root f call shown a.0 in
      let (root', rest, done) = call_all_lem mid (change f call) calls there a.1 in
      (root', rw (runs, rest) refl, done)

  -- Any sequence of sets (of values that are not NULL) and unsets, with keys of bytes below 128, runs
  -- from a new trie without a fault. The trie that it gives has the counts and the indexes of its nodes
  -- right and no freed or empty node below the root, and the value under each key is the one that the
  -- last of these calls with that key has left, and none where there is no such call.
  pub call_all-changes :
      (calls : List (Command D))
      → All (λ call. IsAscii (key_of call)) calls
      → (root : Pointer D) × (call_all trie_new calls ≡ ok root)
        × IsTrie root
        × ((j : List ℕ) → IsAscii j → value_at root j ≡ ok (changes (λ k. none) calls j))
  call_all-changes calls a =
      let fresh : Shows trie_new (λ k. none) = record {
        live = refl;
        tree = node_new-IsTree D 0;
        same = λ j b. read-node_new 0 j;
      } in
      let (root, runs, done) = call_all_lem trie_new (λ k. none) calls fresh a in
      (
        root,
        runs,
        (done.live, done.tree),
        λ j b. value_at_lem root (changes (λ k. none) calls) j done b,
      )
