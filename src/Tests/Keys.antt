-- ===== src/Tests/Keys.antt =====
-- Runs of the tries of src/trie.c.
use pokerunicorn_server.Prelude.{ℕ, ◌≡◌, refl, none, some, List, [], ◌∷◌, arith}
use pokerunicorn_server.Prelude.Result.{
  ok, fault, ◌>>=◌, null_pointer, use_after_free, out_of_bounds,
}
use pokerunicorn_server.Trie.{
  Pointer, node_new, node_key, value_at, trie_new, set_value, unset, insert, clear,
}
use pokerunicorn_server.Trie.Shape.{IsAscii, IsTrie}
use pokerunicorn_server.Trie.Laws.{Command, assign, remove, changes, call_all, call_all-changes}
use pokerunicorn_server.Trie.Unicode.{put, erase, walk, find_node, free_path, erase-put}

-- The keys "ab" and "a".
abbrev ab : List ℕ
ab = 97 ∷ 98 ∷ []

abbrev a : List ℕ
a = 97 ∷ []

abbrev calls : List (Command ℕ)
calls = assign ab 5 ∷ assign a 7 ∷ assign ab 6 ∷ remove a ∷ []

call_all-changes_example :
    (root : Pointer ℕ) × (call_all trie_new calls ≡ ok root)
    × IsTrie root
    × ((j : List ℕ) → IsAscii j → value_at root j ≡ ok (changes (λ k. none) calls j))
call_all-changes_example = call_all-changes calls (omega arith)

-- The value that stays, and a prefix of its key.
calls_lem :
    ((call_all {D = ℕ} trie_new calls >>= λ root. value_at root ab) ≡ ok (some 6))
    × ((call_all {D = ℕ} trie_new calls >>= λ root. value_at root a) ≡ ok none)
unfolding call_all set_value unset insert clear node_key
calls_lem = (refl, refl)

-- A byte above 127 is a negative index.
get_beyond : value_at {D = ℕ} trie_new (200 ∷ []) ≡ fault out_of_bounds
unfolding node_key
get_beyond = refl

-- In the trie of digits no printable character is an index: `0` is 48.
index_beyond : put {D = ℕ} 10 (node_new 0) (48 ∷ []) (some 1) ≡ fault out_of_bounds
unfolding put
index_beyond = refl

-- The unset of the only key follows the root's parent.
erase_only :
    (put {D = ℕ} 256 (node_new 0) ab (some 1) >>= λ root. erase 256 root ab) ≡ fault null_pointer
erase_only = erase-put 256 97 (98 ∷ []) 1 (omega arith)

-- The walk to a longer key after its prefix has been removed goes through freed memory.
erase_prefix :
    (put {D = ℕ} 256 (node_new 0) ab (some 1) >>= λ root. put 256 root a (some 2) >>= λ root.
    put 256 root (99 ∷ []) (some 3) >>= λ root. erase 256 root a >>= λ root. find_node 256 root ab)
    ≡ fault use_after_free
unfolding put erase walk free_path
erase_prefix = refl
