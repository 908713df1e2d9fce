-- ===== src/Tests/Cards.antt =====
-- The theorems on the cards of src/card.c at hands and draws of the tests.
use mathlib.Core.Logic.{◌↔◌}
use pokerunicorn_server.Prelude.{
  ℕ, ◌≡◌, ◌≤◌, ◌<◌, refl, true, Option, none, some, List, [], ◌∷◌, ◌++◌, arith, All,
}
use pokerunicorn_server.Prelude.Result.{ok}
use pokerunicorn_server.Card.Types.{Card, Five}
use pokerunicorn_server.Card.Check.{
  check_royal_flush, check_straight_flush, check_quad, check_full_house, check_flush,
  check_straight, check_three_kind, check_two_pair, check_pair, check_high_card,
}
use pokerunicorn_server.Card.Score.{get_best_fives_score, get_fives_score, get_fives, sort_sevens}
use pokerunicorn_server.Card.Bands.{category, category_decides}
use pokerunicorn_server.Card.Best.{best_is_highest, best-NoStraight, NoStraight, Among, rank_of}
use pokerunicorn_server.Card.Kinds.{HasKind, kinds_exact}
use pokerunicorn_server.Card.Draw.{Draw, get_random, generated, random_range, look}
use pokerunicorn_server.Card.Draw.Fresh.{
  drawn, IsPacked, IsNew, IsOfDeck, get_random-IsNew, get_random_finds,
}

abbrev card : ℕ → ℕ → Card
card i k = record { index = i; kind = k }

-- A three of kings with an ace and a two, and a pair of aces.
abbrev kings : Five
kings = record { c0 = card 12 0; c1 = card 11 1; c2 = card 11 2; c3 = card 11 0; c4 = card 0 0 }

abbrev aces : Five
aces = record { c0 = card 12 0; c1 = card 12 1; c2 = card 11 2; c3 = card 9 0; c4 = card 3 1 }

-- Seven cards that hold a run from a two to a six.
abbrev run : List Card
run = card 0 0 ∷ card 1 1 ∷ card 2 2 ∷ card 3 0 ∷ card 4 1 ∷ card 9 0 ∷ card 11 2 ∷ []

best_is_highest_example :
    Among (get_best_fives_score run) (get_fives (sort_sevens run))
    × All
        (λ f. rank_of f ≤ (get_best_fives_score run).check_result.rank)
        (get_fives (sort_sevens run))
best_is_highest_example = best_is_highest run

best-NoStraight_example : NoStraight (get_best_fives_score run)
best-NoStraight_example = best-NoStraight run

category_decides_example :
    (get_fives_score aces).check_result.rank < (get_fives_score kings).check_result.rank
unfolding get_fives_score category check_royal_flush check_straight_flush check_quad
    check_full_house check_flush check_straight check_three_kind check_two_pair check_pair
    check_high_card
category_decides_example =
    category_decides aces kings
      (record {
        in0 = ground arith;
        in1 = ground arith;
        in2 = ground arith;
        in3 = ground arith;
        in4 = ground arith;
      })
      (record {
        in0 = ground arith;
        in1 = ground arith;
        in2 = ground arith;
        in3 = ground arith;
        in4 = ground arith;
      })
      (ground arith)

kinds_exact_example :
    (((check_pair kings).is_exists ≡ true) ↔ HasKind 2 kings)
    × (((check_three_kind kings).is_exists ≡ true) ↔ HasKind 3 kings)
    × (((check_quad kings).is_exists ≡ true) ↔ HasKind 4 kings)
kinds_exact_example = kinds_exact kings (record {
  down1 = ground arith;
  down2 = ground arith;
  down3 = ground arith;
  down4 = ground arith;
})

-- A history with one card; the first draw gives it again, and the second a new one.
abbrev history : List (Option Card)
history = some (card 3 1) ∷ none ∷ none ∷ []

get_random-IsNew_example :
    IsOfDeck (card 5 2)
    × IsNew (card 5 2) (drawn history)
    × (drawn (some (card 3 1) ∷ some (card 5 2) ∷ none ∷ []) ≡ drawn history ++ (card 5 2 ∷ []))
    × IsPacked (some (card 3 1) ∷ some (card 5 2) ∷ none ∷ [])
unfolding get_random generated random_range look
get_random-IsNew_example =
    get_random-IsNew ((16, 4) ∷ (5, 2) ∷ []) history (card 5 2)
      (some (card 3 1) ∷ some (card 5 2) ∷ none ∷ []) [] (refl, tt) (ground arith) refl

get_random_finds_example :
    (c : Card) × (h : List (Option Card)) × (rest : List Draw) × (get_random
        ((16, 4) ∷ (5, 2) ∷ [])
        history
      ≡ ok (c, h, rest))
unfolding generated random_range
get_random_finds_example = get_random_finds ((16, 4) ∷ []) (5, 2) [] history (ground arith)
