-- ===== src/Poker/Types.antt =====
-- The types of include/poker.h and include/table.h. A pointer to a player is the player's address: a
-- number that tells apart the players of the list. An `int` that is -1 where it has no value is an
-- `Option`.
use pokerunicorn_server.Prelude.{ℕ, Bool, Option, List, map, if◌then◌else◌, ◌==◌, ltb, leb, find}
use pokerunicorn_server.Card.Types.{Card}

-- `pkrsrv_poker_state_t`
pub data State : Type 0 where
  created w4p starting small_blind big_blind preflop flop turn river done : State

-- The numbers of the enumeration, by which the code compares states.
abbrev pub state_num : State → ℕ
state_num created = 0
state_num w4p = 1
state_num starting = 2
state_num small_blind = 3
state_num big_blind = 4
state_num preflop = 5
state_num flop = 6
state_num turn = 7
state_num river = 8
state_num done = 9

-- `pkrsrv_poker_actions_action_kind_t`. The kind comes from the client's packet as a number, and
-- nothing checks it: `unknown` is one outside the enumeration.
pub data ActionKind : Type 0 where
  small_blind big_blind raise check fold : ActionKind
  unknown : ℕ → ActionKind

-- `pkrsrv_poker_hand_kind_t`
pub data HandKind : Type 0 where
  preflop flop turn river : HandKind

-- `pkrsrv_poker_action_t`, with the id of its account.
pub record Action : Type 0 where
  pub account : ℕ
  pub kind : ActionKind
  pub amount : ℕ

-- `pkrsrv_poker_actions_action_t`
pub record HandAction : Type 0 where
  pub action : Action
  pub player : ℕ

-- `pkrsrv_poker_hand_t`
pub record Hand : Type 0 where
  pub kind : HandKind
  pub card0 : Option Card
  pub card1 : Option Card
  pub card2 : Option Card
  pub is_checked : Bool
  pub actions : List HandAction
  pub is_raised : Bool

-- `pkrsrv_poker_player_t`, with the id of its account.
pub record Player : Type 0 where
  pub addr : ℕ
  pub account : ℕ
  pub card0 : Option Card
  pub card1 : Option Card
  pub is_playing : Bool
  pub is_dealt : Bool
  pub is_folded : Bool
  pub is_left : Bool
  pub is_allin : Bool
  pub position : ℕ
  pub enterance_balance : ℕ
  pub balance : ℕ
  pub bet : ℕ

-- `pkrsrv_table_t`, as far as the machine reads it.
pub record Table : Type 0 where
  pub big_blind : ℕ
  pub small_blind : ℕ
  pub max_players : ℕ
  pub action_timeout : ℕ

-- `pkrsrv_poker_player_score_t`
pub record PlayerScore : Type 0 where
  pub player : ℕ
  pub bet_diff : ℕ

-- `pkrsrv_poker_t` with its `pkrsrv_poker_players_t`.
pub record Poker : Type 0 where
  pub table : Table
  pub players : List Player
  pub sorted_players : List ℕ
  pub sb_player : Option ℕ
  pub bb_player : Option ℕ
  pub button_position : ℕ
  pub is_dealt : Bool
  pub state : State
  pub hand_preflop : Hand
  pub hand_flop : Hand
  pub hand_turn : Hand
  pub hand_river : Hand
  pub hand_kind : HandKind
  pub action_time : ℕ
  pub proceed_time : ℕ
  pub starting_time : ℕ
  pub card_history : List (Option Card)
  pub current_raise : ℕ
  pub current_raise_total : ℕ
  pub current_bet : ℕ
  pub playing_position : Option ℕ
  pub pot_amount : ℕ
  pub starter_players_num : ℕ
  pub last_raised_pos : Option ℕ
  pub last_pos_before_last_raise : Option ℕ
  pub synced_action_counter : ℕ
  pub is_playing_last : Bool
  pub is_sb_must_call : Bool
  pub winner : Option ℕ
  pub scores : List PlayerScore

-- `a < b`, `a <= b` and `a == b` on states.
abbrev pub state_lt : State → State → Bool
state_lt a b = ltb (state_num a) (state_num b)

abbrev pub state_le : State → State → Bool
state_le a b = leb (state_num a) (state_num b)

abbrev pub state_eq : State → State → Bool
state_eq a b = state_num a == state_num b

-- The player at an address.
abbrev pub deref : ℕ → List Player → Option Player
deref a ps = find (λ p. p.addr == a) ps

-- A write through a pointer to a player.
abbrev pub write : ℕ → (Player → Player) → List Player → List Player
write a f ps = map (λ p. if p.addr == a then f p else p) ps
