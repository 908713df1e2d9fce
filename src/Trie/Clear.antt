-- ===== src/Trie/Clear.antt =====
-- The end of `pkrsrv_trie_unset__ascii` of src/trie.c: the value is cleared and empty nodes go.
use mathlib.Core.Path.{fun_ext}
use pokerunicorn_server.Prelude.{
  ℕ, ◌-◌, ◌<◌, ◌≡◌, refl, ap, sym, subst, ◌∙◌, Bool, true, false, ◌&&◌, Option, none, List, [], ◌∷◌,
  if◌then◌else◌, ◌==◌, arith, Bool-cases, inl, inr,
}
use pokerunicorn_server.Prelude.Result.{ok, ok_injective}
use pokerunicorn_server.Trie.{
  Pointer, null, freed, node, is_null, is_empty, store, index_of, node_key, clear,
}
use pokerunicorn_server.Trie.Shape.{
  IsAscii, same_key, count, IsChild, IsTree, read, count-store, store_all, live-IsChild, read-null,
  child_index, read_empty,
}
use pokerunicorn_server.Trie.Slots.{read-store}
use pokerunicorn_server.Trie.Walk.{node_key_step}
use pokerunicorn_server.Trie.Insert.{grown_full}

and_no : (b : Bool) → (b && false) ≡ false
and_no true = refl
and_no false = refl

module _ {D : Type 0} where
  -- What the end of an unset gives.
  pub record IsCleared (root : Pointer D) (key : List ℕ) (root' : Pointer D) (going : Bool)
      : Type 0 where
    pub runs : clear root key ≡ ok (root', going)
    pub tree : IsTree root'
    pub live : is_null root' ≡ false
    pub index : index_of root' ≡ index_of root
    pub kept : going ≡ false → is_empty root' ≡ false
    pub reads :
        (j : List ℕ) → IsAscii j → read root' j ≡ (if same_key j key then none else read root j)

  -- The two writes at the slot of a removed child are one.
  store_null :
      (slots : ℕ → Pointer D) (c x : ℕ) (p : Pointer D)
      → x ≡ c
      → store (store slots c p) x null ≡ store slots c null
  store_null slots c x p e = fun_ext λ i. elim (Bool-cases (i == c)) [
    | inl here ↦ rw (e, here) refl
    | inr elsewhere ↦ rw (e, elsewhere) refl
  ]

  count_removed :
      (n : ℕ) (slots : ℕ → Pointer D) (c : ℕ)
      → c < n
      → is_null (slots c) ≡ false
      → count n slots - 1 ≡ count n (store slots c null)
  count_removed n slots c h live = ground (arith, count-store n slots c null h)

  count_kept :
      (n : ℕ) (slots : ℕ → Pointer D) (c : ℕ) (p : Pointer D)
      → c < n
      → is_null (slots c) ≡ false
      → is_null p ≡ false
      → count n slots ≡ count n (store slots c p)
  count_kept n slots c p h live live' = ground (arith, count-store n slots c p h)

  -- The node above one that the loop removes.
  clear_removes :
      (v : Option D) (slots : ℕ → Pointer D) (l x c : ℕ) (key : List ℕ) (p : Pointer D)
      → IsTree (node v slots l x)
      → c < 128
      → is_null (slots c) ≡ false
      → IsCleared (slots c) key p true
      → is_empty p ≡ true
      → IsCleared (node v slots l x) (c ∷ key) (node v (store slots c null) (l - 1) x) true
  unfolding clear
  clear_removes v slots l x c key p t h live below gone = record {
    runs =
        rw
          (
            below.runs,
            gone,
            store_null slots c (index_of p) p (below.index ∙ child_index c (slots c) (t.1 c) live),
          )
          refl;
    tree = (
      ap (λ k. k - 1) t.0 ∙ count_removed 128 slots c h live,
      store_all IsChild slots c null t.1 tt,
      store_all (λ i q. IsTree q) slots c null t.2 tt,
    );
    live = refl;
    index = refl;
    kept = λ no_end. cc;
    reads =
        read-store v v slots l (l - 1) x c null key none
          (λ j a. read-null j ∙ sym (read_empty p below.tree gone j a) ∙ below.reads j a);
  }

  -- The node above one that the loop stops at.
  clear_keeps :
      (v : Option D) (slots : ℕ → Pointer D) (l x c : ℕ) (key : List ℕ) (p : Pointer D)
      (going : Bool)
      → IsTree (node v slots l x)
      → c < 128
      → is_null (slots c) ≡ false
      → IsCleared (slots c) key p going
      → is_empty p ≡ false
      → IsCleared (node v slots l x) (c ∷ key) (node v (store slots c p) l x) false
  unfolding clear
  clear_keeps v slots l x c key p going t h live below full =
      let counted = t.0 ∙ count_kept 128 slots c p h live below.live in
      record {
        runs = rw (below.runs, full, and_no) refl;
        tree = (
          counted,
          store_all IsChild slots c p t.1 (
              live-IsChild c p below.tree below.live
                (below.index ∙ child_index c (slots c) (t.1 c) live) full),
          store_all (λ i q. IsTree q) slots c p t.2 below.tree,
        );
        live = refl;
        index = refl;
        kept = λ stops. grown_full 128 slots c p l v h below.live counted;
        reads = read-store v v slots l l x c p key none below.reads;
      }

  reads_cleared :
      (v : Option D) (slots : ℕ → Pointer D) (l x : ℕ) (j : List ℕ)
      → IsAscii j
      → read (node none slots l x) j ≡ (if same_key j [] then none else read (node v slots l x) j)
  reads_cleared v slots l x [] a = refl
  reads_cleared v slots l x (c ∷ j) a = refl

  -- The end of an unset, where the key leads to a node.
  pub clear_lem :
      (root : Pointer D) (key : List ℕ) {p : Pointer D}
      → IsTree root
      → IsAscii key
      → node_key root key ≡ ok p
      → is_null p ≡ false
      → (root' : Pointer D) × (going : Bool) × IsCleared root key root' going
  unfolding clear
  clear_lem null [] t a found live = absurd (unfold node_key in cc (ok_injective found))
  clear_lem null (c ∷ key) t a found live = absurd (unfold node_key in cc found)
  clear_lem freed key t a found live = absurd t
  clear_lem (node v slots l x) [] t a found live = (
    node none slots l x,
    true,
    record {
      runs = refl;
      tree = t;
      live = refl;
      index = refl;
      kept = λ stops. cc;
      reads = reads_cleared v slots l x;
    },
  )
  clear_lem (node v slots l x) (c ∷ key) t a found live =
      let (there, on) = node_key_step v slots l x c key a.0 found live in
      let (p, going, below) = clear_lem (slots c) key (t.2 c) a.1 on live in
      elim (Bool-cases (is_empty p)) [
        | inr full ↦ (
          node v (store slots c p) l x,
          false,
          clear_keeps v slots l x c key p going t a.0 there below full,
        )
        | inl gone ↦ elim (Bool-cases going) [
          | inl on_and_on ↦ (
            node v (store slots c null) (l - 1) x,
            true,
            clear_removes v slots l x c key p t a.0 there
                (subst (λ (b : Bool). IsCleared (slots c) key p b) on_and_on below) gone,
          )
          | inr stopped ↦ absurd (cc (gone, below.kept stopped))
        ]
      ]
