-- ===== src/Trie/Insert.antt =====
-- The loop of `pkrsrv_trie_set__ascii` of src/trie.c.
use pokerunicorn_server.Prelude.{
  ℕ, ◌+◌, ◌<◌, ◌≡◌, refl, ap, sym, subst, ◌∙◌, Bool, true, false, ◌&&◌, Option, some, List, [], ◌∷◌,
  if◌then◌else◌, ◌==◌, is_none, arith, Bool-cases, inl, inr, lt→ltb, ==_iff, ==_refl,
}
use pokerunicorn_server.Prelude.Result.{ok}
use pokerunicorn_server.Trie.{
  Pointer, null, freed, node, is_null, is_empty, store, index_of, insert,
}
use pokerunicorn_server.Trie.Shape.{
  IsAscii, same_key, count, IsChild, IsTree, read, count-store, count_zero, store_all, live-IsChild,
}
use pokerunicorn_server.Trie.Slots.{
  read-store, child, child-IsTree, child_live, child-index_of, read-child,
}

module _ {D : Type 0} where
  -- What the loop of a set gives.
  pub record IsInserted (root : Pointer D) (key : List ℕ) (v : D) (root' : Pointer D) : Type 0 where
    pub runs : insert root key (some v) ≡ ok root'
    pub tree : IsTree root'
    pub live : is_null root' ≡ false
    pub index : index_of root' ≡ index_of root
    pub full : is_empty root' ≡ false
    pub reads :
        (j : List ℕ) → IsAscii j → read root' j ≡ (if same_key j key then some v else read root j)

  -- The count of a node whose slot `c` is taken.
  count-insert :
      (n : ℕ) (slots : ℕ → Pointer D) (c : ℕ) (p : Pointer D)
      → c < n
      → is_null p ≡ false
      → (if is_null (slots c) then count n slots + 1 else count n slots) ≡ count n (store slots c p)
  count-insert n slots c p h live = ground (arith, count-store n slots c p h)

  -- A node with a live child is not empty.
  pub grown_full :
      (n : ℕ) (slots : ℕ → Pointer D) (c : ℕ) (p : Pointer D) (l : ℕ) (v : Option D)
      → c < n
      → is_null p ≡ false
      → l ≡ count n (store slots c p)
      → (l == 0 && is_none v) ≡ false
  grown_full n slots c p l v h live e = elim (Bool-cases (l == 0)) [
    | inl zero_left ↦
        let gone = count_zero n (store slots c p) c (sym e ∙ (==_iff l 0).0 zero_left) h in
        let here : is_null p ≡ true =
          subst (λ (b : Bool). is_null (if b then p else slots c) ≡ true) (==_refl c) gone in
        absurd (cc (here, live))
    | inr more ↦ rw more refl
  ]

  -- The node above the one that the loop has come to.
  insert-node :
      (v : Option D) (slots : ℕ → Pointer D) (l x c : ℕ) (key : List ℕ) (w : D) (p : Pointer D)
      → IsTree (node v slots l x)
      → c < 128
      → IsInserted (child slots c) key w p
      → (q : Pointer D) × IsInserted (node v slots l x) (c ∷ key) w q
  unfolding insert
  insert-node v slots l x c key w p t h below =
      let l' : ℕ = if is_null (slots c) then l + 1 else l in
      let counted : l' ≡ count 128 (store slots c p) =
        subst (λ (k : ℕ). (if is_null (slots c) then k + 1 else k) ≡ count 128 (store slots c p))
          (sym t.0) (count-insert 128 slots c p h below.live) in
      (
        node v (store slots c p) l' x,
        record {
          runs = rw (lt→ltb c 128 h, below.runs) refl;
          tree = (
            counted,
            store_all IsChild slots c p t.1 (
                live-IsChild c p below.tree below.live
                  (below.index ∙ child-index_of slots c (t.1 c)) below.full),
            store_all (λ i q. IsTree q) slots c p t.2 below.tree,
          );
          live = refl;
          index = refl;
          full = grown_full 128 slots c p l' v h below.live counted;
          reads = read-store v v slots l l' x c p key (some w) (λ j a.
              below.reads j a
              ∙ ap (λ o. if same_key j key then some w else o) (read-child slots c j));
        },
      )

  reads_here :
      (v : Option D) (w : D) (slots : ℕ → Pointer D) (l x : ℕ) (j : List ℕ)
      → IsAscii j
      → read (node (some w) slots l x) j
        ≡ (if same_key j [] then some w else read (node v slots l x) j)
  reads_here v w slots l x [] a = refl
  reads_here v w slots l x (c ∷ j) a = refl

  -- The loop of a set ends with the value under the key, and every other key as it was.
  pub insert_lem :
      (root : Pointer D) (key : List ℕ) (w : D)
      → is_null root ≡ false
      → IsTree root
      → IsAscii key
      → (root' : Pointer D) × IsInserted root key w root'
  unfolding insert
  insert_lem null key w live t a = cc
  insert_lem freed key w live t a = absurd t
  insert_lem (node v slots l x) [] w live t a = (
    node (some w) slots l x,
    record {
      runs = refl;
      tree = t;
      live = refl;
      index = refl;
      full = ground arith;
      reads = reads_here v w slots l x;
    },
  )
  insert_lem (node v slots l x) (c ∷ key) w live t a =
      let (p, below) =
        insert_lem (child slots c) key w (child_live slots c) (child-IsTree slots c (t.2 c)) a.1 in
      insert-node v slots l x c key w p t a.0 below
