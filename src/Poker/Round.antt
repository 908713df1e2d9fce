-- ===== src/Poker/Round.antt =====
-- The rounds of the machine in src/poker.c: making it, dealing and starting.
-- `now` stands for the time that `pkrsrv_util_get_time_msec` reads.
pub mod Seats
pub mod Restart
pub mod Ready
pub mod Deal
use pokerunicorn_server.Prelude.{
  ℕ, zero, suc, ◌+◌, ◌%◌, Bool, true, false, not, ◌&&◌, ◌||◌, Option, none, some, List, [], ◌∷◌,
  ◌++◌, map, if◌then◌else◌, ◌==◌, ltb, leb, u64_max, sub64, length, replicate,
}
use pokerunicorn_server.Prelude.Result.{Result, ok, fault, endless, ◌>>=◌}
use pokerunicorn_server.Card.Types.{Card}
use pokerunicorn_server.Card.Draw.{Draw}
use pokerunicorn_server.Poker.Types.{
  State, ActionKind, HandKind, Action, Hand, Player, Poker, Table, state_lt, state_le, state_eq,
}
use pokerunicorn_server.Poker.Players.{
  get_playable_count, get_playing_count, getby_position, get_sorted,
}
use pokerunicorn_server.Poker.Betting.{put}
use pokerunicorn_server.Poker.Turn.{Dealing, follow, draw_card}
use pokerunicorn_server.Poker.Action.{Outcome, do_action}

-- A history of 52 slots with no card.
abbrev pub empty_history : List (Option Card)
empty_history = replicate 52 none

abbrev pub hand_new : HandKind → Hand
hand_new kind = record {
  kind = kind;
  card0 = none;
  card1 = none;
  card2 = none;
  is_checked = false;
  actions = [];
  is_raised = false;
}

-- `pkrsrv_poker_new` with `pkrsrv_poker_players_new`. `proceed_time` is not written there; the
-- argument is what the memory holds.
unfoldable pub poker_new : Table → ℕ → Poker
poker_new table memory = record {
  table = table;
  players = [];
  sorted_players = [];
  sb_player = none;
  bb_player = none;
  button_position = 0;
  is_dealt = false;
  state = State.created;
  hand_preflop = hand_new HandKind.preflop;
  hand_flop = hand_new HandKind.flop;
  hand_turn = hand_new HandKind.turn;
  hand_river = hand_new HandKind.river;
  hand_kind = HandKind.preflop;
  action_time = 0;
  proceed_time = memory;
  starting_time = 0;
  card_history = empty_history;
  current_raise = u64_max;
  current_raise_total = u64_max;
  current_bet = u64_max;
  playing_position = none;
  pot_amount = 0;
  starter_players_num = 0;
  last_raised_pos = none;
  last_pos_before_last_raise = none;
  synced_action_counter = 0;
  is_playing_last = false;
  is_sb_must_call = false;
  winner = none;
  scores = [];
}

-- `pkrsrv_poker_ready`
unfoldable pub poker_ready : Poker → Poker
poker_ready poker = record poker { state = State.w4p; button_position = 0 }

-- `pkrsrv_poker_starting`
unfoldable pub poker_starting : ℕ → Poker → Poker
poker_starting now poker = record poker { state = State.starting; starting_time = now }

-- `pkrsrv_poker_player_deal`
unfoldable pub player_deal : Dealing → Player → Result Dealing
unfolding draw_card
player_deal d p = draw_card d >>= λ (a, d1). draw_card d1 >>= λ (b, d2).
    ok (put d2.0 (record p { is_dealt = true; card0 = some a; card1 = some b }), d2.1)

-- The loop of `pkrsrv_poker_players_deal` over the list.
unfoldable pub deal_players : List Player → Dealing → Result Dealing
unfolding player_deal
deal_players [] d = ok d
deal_players (p ∷ ps) d = player_deal d p >>= λ d1. deal_players ps d1

-- `pkrsrv_poker_deal` and `pkrsrv_poker_players_deal`
unfoldable pub deal : Dealing → Result Dealing
unfolding deal_players
deal d = deal_players d.0.players d >>= λ e. ok (record (e.0) { is_dealt = true }, e.1)

abbrev pub is_seated : Option Player → Bool
is_seated none = false
is_seated (some p) = not p.is_left

-- The loops of `pkrsrv_poker_start`: the first seat from `i` on, ten seats round, whose player has not
-- left. `endless` says that the fuel ran out.
unfoldable pub find_seat : ℕ → List Player → ℕ → Result Player
find_seat zero ps i = fault endless
find_seat (suc fuel) ps i = elim (is_seated (getby_position ps (i % 10))) [
  | true ↦ follow (getby_position ps (i % 10))
  | false ↦ find_seat fuel ps (i % 10 + 1)
]

abbrev pub seat_fuel : ℕ
seat_fuel = 10

-- The machine, the result of the call, the values of rand() that are left, and the tasks put on the
-- event loop.
pub record Started : Type 0 where
  pub poker : Poker
  pub is_started : Bool
  pub draws : List Draw
  pub tasks : List (Option (ℕ × Action))

-- The members that the start sets for the two players of the blinds.
unfoldable pub blinds_at : ℕ → Player → Player → Poker → Poker
blinds_at now sb bb poker = record poker {
  state = State.small_blind;
  action_time = now;
  proceed_time = now;
  sb_player = some sb.addr;
  bb_player = some bb.addr;
  button_position = sb.position;
  playing_position = some sb.position;
}

-- Up to the first blind: the seats of the blinds.
unfoldable pub seat_blinds : ℕ → Poker → Result (Poker × Player × Player)
unfolding find_seat blinds_at
seat_blinds now poker = find_seat seat_fuel poker.players poker.button_position >>= λ sb.
    find_seat seat_fuel poker.players (sb.position + 1) >>= λ bb.
    ok (blinds_at now sb bb poker, sb, bb)

-- Behind the big blind.
unfoldable pub open_preflop : Dealing → Result Dealing
unfolding deal
open_preflop (poker, draws) =
    deal (counted, draws) >>= λ d. ok (record (d.0) { state = State.preflop }, d.1)
  where
    counted : Poker
    counted = record poker {
      current_bet = poker.table.big_blind;
      current_raise = poker.table.big_blind;
      current_raise_total = poker.table.big_blind;
      starter_players_num = get_playing_count poker.players;
    }

-- `pkrsrv_poker_start`
unfoldable pub start : ℕ → List Draw → Poker → Result Started
unfolding seat_blinds do_action open_preflop
start now draws poker =
    if ltb (get_playable_count poker.players) 2
    then ok (record { poker = poker; is_started = false; draws = draws; tasks = [] })
    else blinds
  where
    blinds : Result Started
    blinds = seat_blinds now poker >>= λ (q, sb, bb).
        do_action now draws q sb.addr (record {
          account = sb.account;
          kind = ActionKind.small_blind;
          amount = q.table.small_blind;
        })
        >>= λ s.
            do_action now s.draws (record (s.poker) { state = State.big_blind }) bb.addr
              (record {
                account = bb.account;
                kind = ActionKind.big_blind;
                amount = q.table.big_blind;
              })
            >>= λ b. open_preflop (b.poker, b.draws) >>= λ d. ok (record {
              poker = d.0;
              is_started = true;
              draws = d.1;
              tasks = s.task ∷ b.task ∷ [];
            })
