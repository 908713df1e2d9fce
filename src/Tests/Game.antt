-- ===== src/Tests/Game.antt =====
-- A heads-up game: two players at the seats 0 and 3, with 5000 chips each, blinds of 50 and 100.
use pokerunicorn_server.Prelude.{ℕ, ◌≡◌, refl, true, false, none, some, List, [], ◌∷◌}
use pokerunicorn_server.Prelude.Result.{Result, ok, fault}
use pokerunicorn_server.Card.Draw.{Draw, get_random}
use pokerunicorn_server.Poker.Types.{State, ActionKind, Action, Player, Poker, Table, check}
use pokerunicorn_server.Poker.Players.{players_add, getby_position_in_sorted}
use pokerunicorn_server.Poker.Betting.{get_current_hand}
use pokerunicorn_server.Prelude.{add64, sub64}
use pokerunicorn_server.Poker.Round.{poker_new, poker_ready, start, Started}
use pokerunicorn_server.Poker.Action.{do_action, Outcome}
use pokerunicorn_server.Poker.Store.{total}

abbrev pub table : Table
table = record { big_blind = 100; small_blind = 50; max_players = 9; action_timeout = 30000 }

abbrev pub player : ℕ → ℕ → ℕ → Player
player addr account position = record {
  addr = addr;
  account = account;
  card0 = none;
  card1 = none;
  is_playing = true;
  is_dealt = false;
  is_folded = false;
  is_left = false;
  is_allin = false;
  position = position;
  enterance_balance = 0;
  balance = 5000;
  bet = 0;
}

unfoldable pub seated : Poker
unfolding poker_new poker_ready players_add
seated =
    (players_add (players_add (poker_ready (poker_new table 0)) (player 10 1 0)).0
      (player 20 2 3)).0

-- Enough values of rand() for a hand.
abbrev pub draws : List Draw
draws =
    (0, 0)
    ∷ (1, 1)
    ∷ (2, 2)
    ∷ (0, 0)
    ∷ (12, 0)
    ∷ (7, 1)
    ∷ (7, 2)
    ∷ (8, 0)
    ∷ (9, 1)
    ∷ (3, 2)
    ∷ (4, 0)
    ∷ (5, 1)
    ∷ []

abbrev pub poker_of : Result Started → Poker
poker_of (ok s) = s.poker
poker_of (fault e) = seated

unfoldable pub started : Poker
unfolding start
started = poker_of (start 1 draws seated)

abbrev pub after : Result Outcome → Outcome
after (ok o) = o
after (fault e) = record { poker = started; is_done = false; draws = []; task = none }

abbrev pub act : ActionKind → ℕ → ℕ → Action
act kind account amount = record { account = account; kind = kind; amount = amount }

-- The small blind calls.
unfoldable pub called : Result Outcome
unfolding do_action
called = do_action 2 [] started 10 (act check 1 0)

-- The blinds are in the pot, the small blind is to act, and no chip is lost.
started_lem :
    (started.state ≡ State.preflop)
    × (started.pot_amount ≡ 150)
    × (total started ≡ 10000)
    × (started.playing_position ≡ some 0)
unfolding started start seated get_current_hand sub64 getby_position_in_sorted get_random add64
started_lem = (refl, refl, refl, refl)

called_lem :
    ((after called).is_done ≡ true)
    × ((after called).poker.pot_amount ≡ 200)
    × ((after called).poker.playing_position ≡ some 3)
unfolding started start seated get_current_hand sub64 getby_position_in_sorted get_random add64
    called do_action
called_lem = (refl, refl, refl)
