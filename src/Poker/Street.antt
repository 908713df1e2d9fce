-- ===== src/Poker/Street.antt =====
-- The four blocks of `pkrsrv_poker_do_action` of src/poker.c on the state PREFLOP, FLOP, TURN and
-- RIVER, and the dealing of what is left when nobody can act any more. The blocks are written once:
-- they differ in the next state, in the cards dealt, and in whether a fold is counted.
pub mod Money
pub mod Steps
use pokerunicorn_server.Prelude.{
  ℕ, ◌+◌, Bool, true, false, ◌||◌, Option, none, some, if◌then◌else◌, ◌==◌, find,
}
use pokerunicorn_server.Prelude.Result.{Result, ok, ◌>>=◌}
use pokerunicorn_server.Poker.Types.{
  State, ActionKind, raise, check, fold, Player, Poker, state_eq, deref,
}
use pokerunicorn_server.Poker.Players.{add_balance, player_is_ingame}
use pokerunicorn_server.Poker.Betting.{put}
use pokerunicorn_server.Poker.Turn.{
  Dealing, follow, is_last_to_act, deal_flop, deal_turn, deal_river,
}

abbrev pub next_state : State → State
next_state State.preflop = State.flop
next_state State.flop = State.turn
next_state State.turn = State.river
next_state State.river = State.done
next_state st = st

abbrev pub is_street : State → Bool
is_street State.preflop = true
is_street State.flop = true
is_street State.turn = true
is_street State.river = true
is_street st = false

-- The cards that the block on a state deals when its round ends.
abbrev pub deal_street : State → Dealing → Result Dealing
deal_street State.preflop d = deal_flop d
deal_street State.flop d = deal_turn d
deal_street State.turn d = deal_river d
deal_street st d = ok d

-- `synced_action_counter++` on a fold stands in the blocks on FLOP and TURN only.
abbrev pub fold_counts : State → ℕ
fold_counts State.flop = 1
fold_counts State.turn = 1
fold_counts st = 0

-- Heads-up, the turn goes to the big blind.
abbrev pub heads_up_turn : Poker → Result Poker
heads_up_turn poker = if poker.starter_players_num == 2 then to_big_blind else ok poker
  where
    to_big_blind : Result Poker
    to_big_blind = follow poker.bb_player >>= λ a. follow (deref a poker.players) >>= λ b.
        ok (record poker { playing_position = some b.position })

-- The members that a block resets when its round ends.
abbrev pub round_reset : State → Poker → Poker
round_reset st poker = record poker {
  state = next_state st;
  synced_action_counter = 0;
  last_raised_pos = none;
  last_pos_before_last_raise = none;
}

-- What a block does on `is_last_to_act`.
unfoldable pub end_round : State → Dealing → Result Dealing
end_round st (poker, draws) =
    heads_up_turn (round_reset st poker) >>= λ turned. deal_street st (turned, draws)

-- `synced_action_counter++`, `n` times.
abbrev pub count_action : ℕ → Poker → Poker
count_action n poker = record poker { synced_action_counter = poker.synced_action_counter + n }

-- A check or a fold that leaves players in the hand: count it, and end the round if it was the last.
unfoldable pub close_round : State → Dealing → ℕ → ℕ → ℕ → Result Dealing
unfolding end_round is_last_to_act
close_round st (poker, draws) counts position playing_count =
    is_last_to_act (count_action counts poker) position playing_count >>= λ last.
    if last
    then end_round st (count_action counts poker, draws)
    else ok (count_action counts poker, draws)

-- All others have folded: the one in the game takes the pot.
unfoldable pub win_by_fold : Poker → Result Poker
unfolding add_balance
win_by_fold poker = follow (find player_is_ingame poker.players) >>= λ w.
    ok (record (put poker (add_balance w poker.pot_amount)) {
      winner = some w.addr;
      state = State.done;
    })

-- How a block ends: with the jump to DO_ACTION_END, or by going on behind the blocks.
pub data Flow : Type 0 where
  ends goes_on : Dealing → Flow

unfoldable pub fold_street : State → Dealing → ℕ → ℕ → ℕ → Result Flow
unfolding close_round win_by_fold
fold_street st d position playing_count ingame_count =
    if ingame_count == 1 then (win_by_fold d.0 >>= λ w. ok (ends (w, d.1))) else remaining
  where
    remaining : Result Flow
    remaining = close_round st d (fold_counts st) position playing_count >>= λ e. ok (goes_on e)

-- The block on the state `st`, for the position of the player who has acted.
unfoldable pub street : State → Dealing → ℕ → ActionKind → ℕ → ℕ → Result Flow
unfolding close_round fold_street
street st d position kind playing_count ingame_count =
    if is_street st then by_kind else ok (goes_on d)
  where
    by_kind : Result Flow
    by_kind = elim kind [
      | check ↦ close_round st d 1 position playing_count >>= λ e. ok (goes_on e)
      | fold ↦ fold_street st d position playing_count ingame_count
      | _ ↦ ok (goes_on d)
    ]

-- Nobody can act any more: the cards that are missing are dealt.
unfoldable pub run_out : Dealing → Result Dealing
unfolding deal_flop deal_turn deal_river
run_out d = elim (d.0.state) [
  | State.preflop ↦ deal_flop d >>= λ d1. deal_turn d1 >>= λ d2. deal_river d2
  | State.flop ↦ deal_turn d >>= λ d1. deal_river d1
  | State.turn ↦ deal_river d
  | _ ↦ ok d
]
