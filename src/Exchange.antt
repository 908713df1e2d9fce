-- ===== src/Exchange.antt =====
-- The exchange sort that src/card.c (`pkrsrv_card_sort_sevens`) and src/poker.c
-- (`pkrsrv_poker_players_get_sorted`, the ranks of a showdown) write out three times: for each i, for
-- each j, exchange the elements at i and j if they stand the wrong way round.
pub mod Order
pub mod Members
use pokerunicorn_server.Prelude.{ℕ, zero, suc, Bool, List, [], ◌∷◌, ◌++◌, if◌then◌else◌, length}

module _ {ℓ} {A : Type ℓ} (wrong : A → A → Bool) where
  -- The inner loop over a run of indexes j that does not hold i. `x` is the element at i; the result
  -- is the run after the exchanges, and the element then at i.
  pub pass : A → List A → List A × A
  pass x [] = ([], x)
  pass x (y ∷ ys) =
      let (ys', x') = pass (if wrong x y then y else x) ys in
      ((if wrong x y then x else y) ∷ ys', x')

  -- The outer loop with `n` rounds left. `p` holds the elements before i, the other list those from
  -- i on. At j = i an element is compared with itself, and an exchange would change nothing.
  pub rounds : ℕ → List A → List A → List A
  rounds zero p s = p ++ s
  rounds (suc n) p [] = p
  rounds (suc n) p (x ∷ s) =
      let (p', x1) = pass x p in let (s', x2) = pass x1 s in rounds n (p' ++ (x2 ∷ [])) s'

  unfoldable pub exchange_sort : List A → List A
  unfolding rounds pass
  exchange_sort xs = rounds (length xs) [] xs
