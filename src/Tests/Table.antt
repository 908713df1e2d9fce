-- ===== src/Tests/Table.antt =====
-- The theorems on the machine of src/poker.c at the game of the tests.
use pokerunicorn_server.Prelude.{◌≡◌, refl, true, none, some, [], arith, add64, sub64}
use pokerunicorn_server.Prelude.Result.{Result}
use pokerunicorn_server.Card.Draw.{get_random}
use pokerunicorn_server.Poker.Types.{ActionKind, Player, check, fold, deref}
use pokerunicorn_server.Poker.Players.{getby_position_in_sorted}
use pokerunicorn_server.Poker.Betting.{get_current_hand, may_act}
use pokerunicorn_server.Poker.Betting.Chips.{IsFunded, Keeps}
use pokerunicorn_server.Poker.Action.{do_action, Outcome, refuse}
use pokerunicorn_server.Poker.Action.Money.{do_action-Keeps}
use pokerunicorn_server.Poker.Action.Refusal.{do_action_refusal}
use pokerunicorn_server.Poker.Action.Pass.{free_pass}
use pokerunicorn_server.Poker.Action.Steps.{do_action-Step}
use pokerunicorn_server.Poker.Street.Steps.{Step}
use pokerunicorn_server.Poker.Round.{start}
use pokerunicorn_server.Tests.Game.{player, seated, draws, started, after, act, called}

started-IsFunded : IsFunded started
unfolding started start seated get_current_hand sub64 getby_position_in_sorted get_random add64
started-IsFunded = record { apart = ground arith; fits = ground arith }

do_action-Keeps_example : Keeps started (after called).poker
unfolding started start seated get_current_hand sub64 getby_position_in_sorted get_random add64
    called do_action
do_action-Keeps_example =
    do_action-Keeps 2 [] started 10 (act check 1 0) (after called) started-IsFunded (λ e. cc e) refl
      (λ e. cc e)

-- The big blind acts out of turn.
abbrev early : Result Outcome
unfolding do_action
early = do_action 2 draws started 20 (act check 2 0)

do_action_refusal_example : after early ≡ refuse started draws
unfolding started start seated get_current_hand sub64 getby_position_in_sorted get_random add64
    early do_action
do_action_refusal_example =
    do_action_refusal 2 draws started 20 (act check 2 0) (after early) refl refl

-- The small blind folds, and the game is over.
abbrev folded : Result Outcome
unfolding do_action
folded = do_action 2 draws started 10 (act fold 1 0)

do_action-Step_example : Step started.state (after folded).poker.state
unfolding started start seated get_current_hand sub64 getby_position_in_sorted get_random add64
    folded do_action
do_action-Step_example = do_action-Step 2 draws started 10 (act fold 1 0) (after folded) refl

-- The small blind, who owes the rest of the big blind, calls with a kind outside the enumeration.
abbrev owing : Player
unfolding started
owing = elim (deref 10 started.players) [ some p ↦ p | none ↦ player 10 0 0 ]

abbrev passed : Result Outcome
unfolding do_action
passed = do_action 2 [] started 10 (act (ActionKind.unknown 9) 1 0)

free_pass_example :
    ((after passed).is_done ≡ true)
    × ((after passed).poker.players ≡ started.players)
    × ((after passed).poker.pot_amount ≡ started.pot_amount)
unfolding started start seated get_current_hand sub64 getby_position_in_sorted get_random add64
    owing passed do_action may_act
free_pass_example =
    free_pass 2 [] started 10 owing (act (ActionKind.unknown 9) 1 0) (after passed) refl refl refl
      refl tt (ground arith) refl (λ e. cc e)
