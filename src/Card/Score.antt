-- ===== src/Card/Score.antt =====
-- `pkrsrv_card_get_get_fives_score`, `pkrsrv_card_sort_sevens`, `pkrsrv_card_get_fives` and
-- `pkrsrv_card_get_best_fives_score` of src/card.c.
use pokerunicorn_server.Prelude.{
  ℕ, zero, suc, ◌+◌, ◌*◌, true, List, [], ◌∷◌, map, if◌then◌else◌, ltb,
}
use pokerunicorn_server.Exchange.{exchange_sort}
use pokerunicorn_server.Card.Types.{Card, Five, CheckResult, ScoreResult, zero_card, zero_score}
use pokerunicorn_server.Card.Check.{
  check_high_card, check_two_pair, check_pair, check_three_kind, check_straight, check_flush,
  check_full_house, check_quad, check_straight_flush, check_royal_flush,
}

-- From the start to the label RETURN: the first check that succeeds sets its flag and the result.
unfoldable pub score_check : Five → ScoreResult
score_check f =
    if royal.is_exists
    then record zero_score { is_royal_flush = true; check_result = royal }
    else if sflush.is_exists
    then record zero_score { is_straight_flush = true; check_result = sflush }
    else if four.is_exists
    then record zero_score { is_quad = true; check_result = four }
    else if full.is_exists
    then record zero_score { is_full_house = true; check_result = full }
    else if suit.is_exists
    then record zero_score { is_flush = true; check_result = suit }
    else if run.is_exists
    then record zero_score { is_straight = true; check_result = run }
    else if three.is_exists
    then record zero_score { is_three_kind = true; check_result = three }
    else if two.is_exists
    then record zero_score { is_two_pair = true; check_result = two }
    else if one.is_exists
    then record zero_score { is_pair = true; check_result = one }
    else record zero_score { is_high_card = true; check_result = check_high_card f }
  where
    royal : CheckResult
    royal = check_royal_flush f

    sflush : CheckResult
    sflush = check_straight_flush f

    four : CheckResult
    four = check_quad f

    full : CheckResult
    full = check_full_house f

    suit : CheckResult
    suit = check_flush f

    run : CheckResult
    run = check_straight f

    three : CheckResult
    three = check_three_kind f

    two : CheckResult
    two = check_two_pair f

    one : CheckResult
    one = check_pair f

-- `result.check_result.rank += n`
abbrev pub add_rank : ScoreResult → ℕ → ScoreResult
add_rank s n = record s {
  check_result = record (s.check_result) { rank = s.check_result.rank + n };
}

-- From the label RETURN on: the weights of the cards within a category.
unfoldable pub score_rank : ScoreResult → ScoreResult
score_rank s =
    if s.is_royal_flush
    then s
    else if s.is_straight_flush
    then add_rank s ((c4.index + 1) * 10000)
    else if s.is_quad
    then add_rank s ((c0.index + 1) * 10000 + (c4.index + 1) * 100)
    else if s.is_full_house
    then add_rank s ((c0.index + 1) * 10000 + (c4.index + 1))
    else if s.is_flush
    then add_rank s ((c0.index + 1) * 10000)
    else if s.is_straight
    then add_rank s ((c4.index + 1) * 10000)
    else if s.is_three_kind
    then add_rank s ((c0.index + 1) * 10000 + (c4.index + 1))
    else if s.is_two_pair
    then add_rank s ((c2.index + 1) * 10000 + (c0.index + 1) * 100 + (c4.index + 1))
    else if s.is_pair
    then add_rank s ((c0.index + 1) * 10000 + (c4.index + 1))
    else add_rank s ((c4.index + 1) * 10000)
  where
    open s use {check_result.{cards.{c0, c2, c4}}}

unfoldable pub get_fives_score : Five → ScoreResult
unfolding score_check score_rank
get_fives_score f = score_rank (score_check f)

-- `x` stands at i and `y` at j: exchange where `sevens[i].index > sevens[j].index`.
unfoldable pub sort_sevens : List Card → List Card
unfolding exchange_sort
sort_sevens sevens = exchange_sort (λ x y. ltb y.index x.index) sevens

-- FIVES_INDEXES, a row at a time.
abbrev pub fives_indexes : List (ℕ × ℕ × ℕ × ℕ × ℕ)
fives_indexes =
    (0, 1, 2, 3, 4)
    ∷ (0, 1, 2, 3, 5)
    ∷ (0, 1, 2, 3, 6)
    ∷ (0, 1, 2, 4, 5)
    ∷ (0, 1, 2, 4, 6)
    ∷ (0, 1, 2, 5, 6)
    ∷ (0, 1, 3, 4, 5)
    ∷ (0, 1, 3, 4, 6)
    ∷ (0, 1, 3, 5, 6)
    ∷ (0, 1, 4, 5, 6)
    ∷ (0, 2, 3, 4, 5)
    ∷ (0, 2, 3, 4, 6)
    ∷ (0, 2, 3, 5, 6)
    ∷ (0, 2, 4, 5, 6)
    ∷ (0, 3, 4, 5, 6)
    ∷ (1, 2, 3, 4, 5)
    ∷ (1, 2, 3, 4, 6)
    ∷ (1, 2, 3, 5, 6)
    ∷ (1, 2, 4, 5, 6)
    ∷ (1, 3, 4, 5, 6)
    ∷ (2, 3, 4, 5, 6)
    ∷ []

-- `sevens[i]`; the array has seven cards, so the last case is not met.
abbrev pub card_at : List Card → ℕ → Card
card_at [] i = zero_card
card_at (c ∷ cs) zero = c
card_at (c ∷ cs) (suc i) = card_at cs i

abbrev pub pick_five : List Card → ℕ × ℕ × ℕ × ℕ × ℕ → Five
pick_five sevens (a, b, c, d, e) = record {
  c0 = card_at sevens a;
  c1 = card_at sevens b;
  c2 = card_at sevens c;
  c3 = card_at sevens d;
  c4 = card_at sevens e;
}

unfoldable pub get_fives : List Card → List Five
get_fives sevens = map (pick_five sevens) fives_indexes

-- `if (score.check_result.rank > highest.check_result.rank) highest = score;`
abbrev pub better : ScoreResult → ScoreResult → ScoreResult
better highest score =
    if ltb highest.check_result.rank score.check_result.rank then score else highest

-- The loop over the hands, `highest` in hand.
unfoldable pub highest_score : ScoreResult → List Five → ScoreResult
highest_score highest [] = highest
highest_score highest (f ∷ fs) = highest_score (better highest (get_fives_score f)) fs

unfoldable pub get_best_fives_score : List Card → ScoreResult
unfolding sort_sevens get_fives highest_score
get_best_fives_score sevens = highest_score zero_score (get_fives (sort_sevens sevens))
