-- ===== src/Poker/Action.antt =====
-- `pkrsrv_poker_do_action` of src/poker.c, put together from its parts, and
-- `pkrsrv_poker_get_last_action`.
pub mod Cases
pub mod Refusal
pub mod Bets
pub mod Money
pub mod Steps
pub mod Pass
use pokerunicorn_server.Prelude.{
  ℕ, Bool, true, false, not, ◌&&◌, ◌||◌, Option, none, some, List, [], ◌∷◌, if◌then◌else◌, ◌==◌,
}
use pokerunicorn_server.Prelude.Result.{Result, ok, ◌>>=◌}
use pokerunicorn_server.Card.Draw.{Draw}
use pokerunicorn_server.Poker.Types.{
  State, HandKind, Action, HandAction, Hand, Player, Poker, state_eq, deref,
}
use pokerunicorn_server.Poker.Players.{get_playing_count, get_ingame_count}
use pokerunicorn_server.Poker.Betting.{
  Stage, goes, refused, get_current_hand, hand_of, may_act, small_blind_stage, big_blind_stage,
  bet_stage, record_action,
}
use pokerunicorn_server.Poker.Turn.{Dealing, follow, pass_turn}
use pokerunicorn_server.Poker.Street.{Flow, ends, goes_on, street, run_out}
use pokerunicorn_server.Poker.Showdown.{showdown}

-- What a call leaves: the machine, `is_done`, the values of rand() that are left, and the player and
-- action of the task that is put on the event loop.
pub record Outcome : Type 0 where
  pub poker : Poker
  pub is_done : Bool
  pub draws : List Draw
  pub task : Option (ℕ × Action)

-- The jump to RETURN with `is_done` false.
abbrev pub refuse : Poker → List Draw → Outcome
refuse poker draws = record { poker = poker; is_done = false; draws = draws; task = none }

-- From DO_ACTION_END on.
abbrev pub finish : ℕ → ℕ → Action → Dealing → Outcome
finish now addr action d = record {
  poker = record (d.0) { action_time = now };
  is_done = true;
  draws = d.1;
  task = some (addr, action);
}

-- Behind the blocks on the states: the showdown, at once or after dealing what is left, or the note
-- that one player alone can act. `entered` is the state in which the blocks were entered.
unfoldable pub after_street : State → ℕ → Dealing → Result Dealing
unfolding showdown run_out
after_street entered playing_count d =
    if state_eq entered State.river && state_eq d.0.state State.done
    then shown
    else if d.0.is_playing_last || playing_count == 0
    then dealt_and_shown
    else if playing_count == 1
    then ok (record (d.0) { is_playing_last = true }, d.1)
    else ok d
  where
    shown : Result Dealing
    shown = showdown d.0 >>= λ s. ok (s, d.1)

    dealt_and_shown : Result Dealing
    dealt_and_shown =
        run_out d >>= λ e. showdown (record (e.0) { state = State.done }) >>= λ s. ok (s, e.1)

-- From the counts of the players to DO_ACTION_END.
unfoldable pub move_on : Poker → List Draw → Player → Action → Result Dealing
unfolding pass_turn street after_street
move_on poker draws p action = turned >>= λ next.
    street poker.state (next, draws) p.position action.kind playing ingame >>= λ flow. elim flow [
      | ends d ↦ ok d
      | goes_on d ↦ after_street poker.state playing d
    ]
  where
    playing : ℕ
    playing = get_playing_count poker.players

    ingame : ℕ
    ingame = get_ingame_count poker.players

    turned : Result Poker
    turned = if playing == 0 then ok poker else pass_turn poker

-- The stages of a bet, each on the player as the one before has left it.
unfoldable pub bets : HandKind → Poker → ℕ → Action → Result Stage
unfolding small_blind_stage big_blind_stage bet_stage
bets hand poker addr action = follow (deref addr poker.players) >>= λ p.
    elim (small_blind_stage poker p action) [
      | refused q ↦ ok (refused q)
      | goes q ↦ follow (deref addr q.players) >>= λ p1. elim (big_blind_stage hand q p1 action) [
        | refused r ↦ ok (refused r)
        | goes r ↦ follow (deref addr r.players) >>= λ p2. bet_stage hand r p2 action
      ]
    ]

-- What follows the bet.
unfoldable pub settle_action : HandKind → ℕ → List Draw → Poker → ℕ → Action → Result Outcome
unfolding record_action move_on
settle_action hand now draws poker addr action = follow (deref addr poker.players) >>= λ p.
    move_on (record_action hand poker p action) draws p action >>= λ d.
    ok (finish now addr action d)

-- `pkrsrv_poker_do_action` for the player at an address, at the time `now`.
unfoldable pub do_action : ℕ → List Draw → Poker → ℕ → Action → Result Outcome
unfolding may_act bets settle_action
do_action now draws poker addr action = follow (deref addr poker.players) >>= λ p.
    if may_act poker p then acts else ok (refuse poker draws)
  where
    acts : Result Outcome
    acts = follow (get_current_hand poker.state) >>= λ hand.
        bets hand poker addr action >>= λ stage. elim stage [
          | refused q ↦ ok (refuse q draws)
          | goes q ↦ settle_action hand now draws q addr action
        ]

-- `pkrsrv_poker_get_last_action`: the terminal of the current hand's list.
unfoldable pub get_last_action : Poker → Option HandAction
unfolding get_current_hand
get_last_action poker = elim (get_current_hand poker.state) [
  | none ↦ none
  | some hand ↦ terminal (hand_of hand poker).actions
]
  where
    terminal : List HandAction → Option HandAction
    terminal [] = none
    terminal (a ∷ []) = some a
    terminal (a ∷ b ∷ l) = terminal (b ∷ l)
