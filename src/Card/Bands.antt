-- ===== src/Card/Bands.antt =====
-- The rank that `pkrsrv_card_get_get_fives_score` of src/card.c gives a hand of five, by its category.
use pokerunicorn_server.Prelude.{◌+◌, ◌<◌, ◌≤◌, ◌≡◌, true, false, arith, if◌then◌else◌}
use pokerunicorn_server.Card.Types.{
  Five, CheckResult, ScoreResult, HandRank, hand_rank, high_card, pair, two_pair, three_kind,
  straight, flush, full_house, quad, straight_flush, royal_flush,
}
use pokerunicorn_server.Card.Check.{
  check_high_card, check_two_pair, check_pair, check_three_kind, check_straight, check_flush,
  check_full_house, check_quad, check_straight_flush, check_royal_flush,
}
use pokerunicorn_server.Card.Score.{score_check, score_rank, get_fives_score}

-- Every card's index is that of a two up to an ace.
pub record InDeck (f : Five) : Type 0 where
  pub in0 : f.c0.index < 13
  pub in1 : f.c1.index < 13
  pub in2 : f.c2.index < 13
  pub in3 : f.c3.index < 13
  pub in4 : f.c4.index < 13

-- The category that a score's flags name.
unfoldable pub category : ScoreResult → HandRank
category s =
    if s.is_royal_flush
    then royal_flush
    else if s.is_straight_flush
    then straight_flush
    else if s.is_quad
    then quad
    else if s.is_full_house
    then full_house
    else if s.is_flush
    then flush
    else if s.is_straight
    then straight
    else if s.is_three_kind
    then three_kind
    else if s.is_two_pair
    then two_pair
    else if s.is_pair
    then pair
    else high_card

-- What a check hands to the score: the number of its category, and cards of the deck.
record IsOf (r : HandRank) (c : CheckResult) : Type 0 where
  of_rank : c.rank ≡ hand_rank r
  of_deck : InDeck c.cards

check_quad-IsOf : (f : Five) → InDeck f → (check_quad f).is_exists ≡ true → IsOf quad (check_quad f)
unfolding check_quad
check_quad-IsOf f d = ground arith

check_full_house-IsOf :
    (f : Five)
    → InDeck f
    → (check_full_house f).is_exists ≡ true
    → IsOf full_house (check_full_house f)
unfolding check_full_house
check_full_house-IsOf f d = ground arith

check_three_kind-IsOf :
    (f : Five)
    → InDeck f
    → (check_three_kind f).is_exists ≡ true
    → IsOf three_kind (check_three_kind f)
unfolding check_three_kind
check_three_kind-IsOf f d = ground arith

check_two_pair-IsOf :
    (f : Five) → InDeck f → (check_two_pair f).is_exists ≡ true → IsOf two_pair (check_two_pair f)
unfolding check_two_pair
check_two_pair-IsOf f d = ground arith

check_pair-IsOf : (f : Five) → InDeck f → (check_pair f).is_exists ≡ true → IsOf pair (check_pair f)
unfolding check_pair
check_pair-IsOf f d = ground arith

check_flush-IsOf :
    (f : Five) → InDeck f → (check_flush f).is_exists ≡ true → IsOf flush (check_flush f)
unfolding check_flush
check_flush-IsOf f d = ground arith

check_straight-IsOf :
    (f : Five) → InDeck f → (check_straight f).is_exists ≡ true → IsOf straight (check_straight f)
unfolding check_straight
check_straight-IsOf f d = ground arith

check_straight_flush-IsOf :
    (f : Five)
    → InDeck f
    → (check_straight_flush f).is_exists ≡ true
    → IsOf straight_flush (check_straight_flush f)
unfolding check_straight_flush
check_straight_flush-IsOf f d = ground arith

-- No hand passes the check of a royal flush.
pub check_royal_flush_never : (f : Five) → (check_royal_flush f).is_exists ≡ false
unfolding check_royal_flush
check_royal_flush_never f = ground arith

check_high_card-IsOf : (f : Five) → InDeck f → IsOf high_card (check_high_card f)
unfolding check_high_card
check_high_card-IsOf f d = ground arith

score_check-IsOf :
    (f : Five) → InDeck f → IsOf (category (score_check f)) (score_check f).check_result
unfolding score_check category
score_check-IsOf f d = ground (
  arith,
  check_royal_flush_never f,
  check_straight_flush-IsOf f d,
  check_quad-IsOf f d,
  check_full_house-IsOf f d,
  check_flush-IsOf f d,
  check_straight-IsOf f d,
  check_three_kind-IsOf f d,
  check_two_pair-IsOf f d,
  check_pair-IsOf f d,
  check_high_card-IsOf f d,
)

category-score_rank : (s : ScoreResult) → category (score_rank s) ≡ category s
unfolding category score_rank
category-score_rank s = ground arith

score_rank_band :
    (s : ScoreResult)
    → IsOf (category s) s.check_result
    → (hand_rank (category s) ≤ (score_rank s).check_result.rank)
      × ((score_rank s).check_result.rank < hand_rank (category s) + 1000000)
unfolding category score_rank
score_rank_band s h = ground arith

-- The rank of a hand from the deck is that of its category, and less than a million more.
pub score_band :
    (f : Five)
    → InDeck f
    → let s = get_fives_score f in
      (hand_rank (category s) ≤ s.check_result.rank)
      × (s.check_result.rank < hand_rank (category s) + 1000000)
unfolding get_fives_score
score_band f d =
    rw (category-score_rank (score_check f))
      (score_rank_band (score_check f) (score_check-IsOf f d))

hand_rank_step : (c d : HandRank) → hand_rank c < hand_rank d → hand_rank c + 1000000 ≤ hand_rank d
hand_rank_step c d h = ground arith

-- Of two hands of five whose indexes are below 13, the one whose category has the higher number
-- has the higher rank, whatever the cards are.
pub category_decides :
    (f g : Five)
    → InDeck f
    → InDeck g
    → hand_rank (category (get_fives_score f)) < hand_rank (category (get_fives_score g))
    → (get_fives_score f).check_result.rank < (get_fives_score g).check_result.rank
category_decides f g d e h = omega (
  arith,
  score_band f d,
  score_band g e,
  hand_rank_step (category (get_fives_score f)) (category (get_fives_score g)) h,
)
