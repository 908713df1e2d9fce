-- ===== src/Poker/Round/Restart.antt =====
-- The next round of the machine in src/poker.c: `pkrsrv_poker_restart`; and the timeout,
-- `pkrsrv_poker_proceed`.
use pokerunicorn_server.Prelude.{
  ℕ, ◌+◌, Bool, true, false, ◌&&◌, none, List, [], map, if◌then◌else◌, ltb, leb, u64_max, sub64,
  length,
}
use pokerunicorn_server.Prelude.Result.{Result, ok, ◌>>=◌}
use pokerunicorn_server.Card.Draw.{Draw}
use pokerunicorn_server.Poker.Types.{State, ActionKind, HandKind, Hand, Player, Poker, state_le}
use pokerunicorn_server.Poker.Players.{getby_position, get_sorted}
use pokerunicorn_server.Poker.Turn.{follow}
use pokerunicorn_server.Poker.Action.{Outcome, do_action}
use pokerunicorn_server.Poker.Round.{Started, start, empty_history}

-- What the loops of `pkrsrv_poker_restart` do to a hand and to a player.
abbrev pub hand_reset : HandKind → Hand → Hand
hand_reset kind h = record h { kind = kind; actions = []; is_raised = false }

abbrev pub player_reset : Player → Player
player_reset p = record p {
  is_playing = true;
  is_dealt = false;
  is_folded = false;
  is_allin = false;
  bet = 0;
  card0 = none;
  card1 = none;
}

-- `pkrsrv_poker_restart` up to the call of `pkrsrv_poker_start`.
unfoldable pub reset : Poker → Poker
unfolding get_sorted
reset poker = record poker {
  state = State.w4p;
  hand_kind = HandKind.preflop;
  synced_action_counter = 0;
  last_raised_pos = none;
  last_pos_before_last_raise = none;
  is_sb_must_call = false;
  winner = none;
  scores = [];
  is_playing_last = false;
  pot_amount = 0;
  current_raise = u64_max;
  current_raise_total = u64_max;
  current_bet = u64_max;
  hand_preflop = hand_reset HandKind.preflop poker.hand_preflop;
  hand_flop = hand_reset HandKind.flop poker.hand_flop;
  hand_turn = hand_reset HandKind.turn poker.hand_turn;
  hand_river = hand_reset HandKind.river poker.hand_river;
  card_history = empty_history;
  sb_player = none;
  bb_player = none;
  button_position =
      if leb (length poker.players) (poker.button_position + 1)
      then 0
      else poker.button_position + 1;
  players = map player_reset poker.players;
  sorted_players = get_sorted (map player_reset poker.players);
}

-- `pkrsrv_poker_restart`
unfoldable pub restart : ℕ → List Draw → Poker → Result Started
unfolding reset start
restart now draws poker = start now draws (reset poker)

-- The three states in which `pkrsrv_poker_proceed` has nothing to do.
abbrev pub is_idle : State → Bool
is_idle State.w4p = true
is_idle State.created = true
is_idle State.done = true
is_idle st = false

-- The fold of the player whose time has run out.
unfoldable pub time_out : ℕ → List Draw → Poker → Result Outcome
unfolding do_action
time_out now draws poker = follow poker.playing_position >>= λ pos.
    follow (getby_position poker.players pos) >>= λ p.
    do_action now draws poker p.addr
      (record { account = p.account; kind = ActionKind.fold; amount = 0 })

-- `pkrsrv_poker_proceed`, at the times of its first and last reading of the clock and that of
-- `pkrsrv_poker_do_action`.
unfoldable pub proceed : ℕ → ℕ → ℕ → List Draw → Poker → Result (Poker × List Draw)
unfolding time_out
proceed now acted later draws poker =
    if is_idle w.state
    then ok (stamped w, draws)
    else if ltb w.table.action_timeout (sub64 now w.action_time)
        && state_le State.small_blind w.state
    then timed_out
    else ok (stamped w, draws)
  where
    w : Poker
    w = record poker { state = if ltb (length poker.players) 2 then State.w4p else poker.state }

    stamped : Poker → Poker
    stamped p = record p { proceed_time = later }

    timed_out : Result (Poker × List Draw)
    timed_out = time_out acted draws w >>= λ o. ok (stamped o.poker, o.draws)
