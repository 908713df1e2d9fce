-- ===== src/Card/Types.antt =====
-- The types of include/card.h. A card's index runs from 0 (a two) to 12 (an ace). The mark of a slot
-- with no card, `{.index = -1, .kind = -1}`, is the `none` of `Option Card`.
use pokerunicorn_server.Prelude.{ℕ, Bool, true, false}

-- `pkrsrv_card_t`
pub record Card : Type 0 where
  pub index : ℕ
  pub kind : ℕ

-- An array of five cards.
pub record Five : Type 0 where
  pub c0 : Card
  pub c1 : Card
  pub c2 : Card
  pub c3 : Card
  pub c4 : Card

-- What C's initialisers leave in the members that they do not name.
abbrev pub zero_card : Card
zero_card = record { index = 0; kind = 0 }

abbrev pub zero_five : Five
zero_five = record {
  c0 = zero_card;
  c1 = zero_card;
  c2 = zero_card;
  c3 = zero_card;
  c4 = zero_card;
}

-- `pkrsrv_card_hand_rank_t`
pub data HandRank : Type 0 where
  high_card pair two_pair three_kind straight flush full_house quad straight_flush royal_flush :
      HandRank

-- The numbers of the enumeration.
abbrev pub hand_rank : HandRank → ℕ
hand_rank high_card = 1000000
hand_rank pair = 2000000
hand_rank two_pair = 3000000
hand_rank three_kind = 4000000
hand_rank straight = 5000000
hand_rank flush = 6000000
hand_rank full_house = 7000000
hand_rank quad = 8000000
hand_rank straight_flush = 9000000
hand_rank royal_flush = 10000000

-- `pkrsrv_card_check_result_t`
pub record CheckResult : Type 0 where
  pub is_exists : Bool
  pub rank : ℕ
  pub cards : Five

-- `pkrsrv_card_score_result_t`. Nothing writes or reads its own `cards`.
pub record ScoreResult : Type 0 where
  pub is_high_card : Bool
  pub is_pair : Bool
  pub is_two_pair : Bool
  pub is_three_kind : Bool
  pub is_straight : Bool
  pub is_flush : Bool
  pub is_full_house : Bool
  pub is_quad : Bool
  pub is_straight_flush : Bool
  pub is_royal_flush : Bool
  pub check_result : CheckResult

abbrev pub zero_check : CheckResult
zero_check = record { is_exists = false; rank = 0; cards = zero_five }

-- `{0}`
abbrev pub zero_score : ScoreResult
zero_score = record {
  is_high_card = false;
  is_pair = false;
  is_two_pair = false;
  is_three_kind = false;
  is_straight = false;
  is_flush = false;
  is_full_house = false;
  is_quad = false;
  is_straight_flush = false;
  is_royal_flush = false;
  check_result = zero_check;
}

-- The result that each check starts from.
abbrev pub no_result : HandRank → CheckResult
no_result r = record { is_exists = false; rank = hand_rank r; cards = zero_five }

-- The result of a check that has found the five cards, in this order.
abbrev pub found : HandRank → Card → Card → Card → Card → Card → CheckResult
found r a b c d e = record {
  is_exists = true;
  rank = hand_rank r;
  cards = record { c0 = a; c1 = b; c2 = c; c3 = d; c4 = e };
}
