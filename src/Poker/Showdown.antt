-- ===== src/Poker/Showdown.antt =====
-- The showdown at the label DONE of `pkrsrv_poker_do_action` of src/poker.c: the ranks of the hands,
-- and what each player is paid.
pub mod Winner
pub mod Payments
use pokerunicorn_server.Prelude.{
  ℕ, zero, suc, length, ◌+◌, ◌-◌, Bool, true, false, not, ◌&&◌, ◌||◌, Option, none, some, List, [],
  ◌∷◌, ◌++◌, map, if◌then◌else◌, ◌==◌, ltb, leb, add64, sub64,
}
use pokerunicorn_server.Prelude.Result.{
  Result, ok, fault, null_pointer, uninitialised, no_card, out_of_bounds, ◌>>=◌,
}
use pokerunicorn_server.Exchange.{exchange_sort}
use pokerunicorn_server.Card.Types.{Card}
use pokerunicorn_server.Card.Score.{get_best_fives_score}
use pokerunicorn_server.Poker.Types.{Player, PlayerScore, Poker, deref, write}
use pokerunicorn_server.Poker.Players.{add_balance}
use pokerunicorn_server.Poker.Turn.{follow}

-- An element of the local array `ranks`.
pub record Rank : Type 0 where
  pub player : ℕ
  pub bet : ℕ
  pub rank : ℕ

-- The seven slots that are scored.
abbrev pub seven_slots : Poker → Player → List (Option Card)
seven_slots poker p =
    p.card0 ∷ p.card1 ∷ poker.hand_flop.card0 ∷ poker.hand_flop.card1 ∷ poker.hand_flop.card2
    ∷ poker.hand_turn.card0 ∷ poker.hand_river.card0 ∷ []

-- The cards of the slots. The code scores an empty slot as a card of index -1, which the model of the
-- cards leaves out: `no_card` says that it has come to that.
abbrev pub all_cards : List (Option Card) → Result (List Card)
all_cards [] = ok []
all_cards (none ∷ l) = fault no_card
all_cards (some c ∷ l) = all_cards l >>= λ cs. ok (c ∷ cs)

-- The players who are not left out of the ranks.
abbrev pub contends : Player → Bool
contends p = p.is_playing && not p.is_folded && not p.is_left

unfoldable pub rank_player : Poker → Player → Result Rank
unfolding get_best_fives_score
rank_player poker p = all_cards (seven_slots poker p) >>= λ cs.
    ok (record { player = p.addr; bet = p.bet; rank = (get_best_fives_score cs).check_result.rank })

-- The element that is read for a player. That of one who does not contend is never written, and the
-- sort that follows the loop reads every element: `uninitialised`.
unfoldable pub rank_of_player : Poker → Player → Result Rank
unfolding rank_player
rank_of_player poker p = if contends p then rank_player poker p else fault uninitialised

-- The array after the loop over the players.
unfoldable pub rank_players : Poker → List Player → Result (List Rank)
unfolding rank_of_player
rank_players poker [] = ok []
rank_players poker (p ∷ ps) =
    rank_of_player poker p >>= λ r. rank_players poker ps >>= λ rs. ok (r ∷ rs)

-- Exchange where `ranks[j].rank < ranks[i].rank`.
unfoldable pub sort_ranks : List Rank → List Rank
unfolding exchange_sort
sort_ranks rs = exchange_sort (λ x y. ltb y.rank x.rank) rs

-- The loop over j: what the others' shares pay to the player `w` of `r`, whose bet in the game is
-- `bet`. In the else branch the share is set to 0 before it is paid out.
unfoldable pub collect : Rank → ℕ → List Rank → Player → List Rank × Player
unfolding add_balance
collect r bet [] w = ([], w)
collect r bet (o ∷ os) w =
    let share = if leb bet o.bet then sub64 o.bet r.bet else 0 in
    let paid = if leb bet o.bet then r.bet else 0 in
    let (os', w') = collect r bet os (add_balance w paid) in (record o { bet = share } ∷ os', w')

-- The length of the array `scores` of `pkrsrv_poker_t`.
abbrev pub scores_size : ℕ
scores_size = 10

-- The loop over i with `n` rounds left, where `slots` elements of the array `scores` are not written
-- yet: the players as paid, and the scores.
unfoldable pub settle :
    ℕ → ℕ → ℕ → ℕ → List Rank → List Player → Result (List Player × List PlayerScore)
unfolding collect
settle slots zero current_bet pot_diff rs ps = ok (ps, [])
settle slots (suc n) current_bet pot_diff [] ps = ok (ps, [])
settle slots (suc n) current_bet pot_diff (r ∷ rs) ps = elim (deref r.player ps) [
  | none ↦ fault null_pointer
  | some p ↦
      let (rs', w) = collect r p.bet rs (add_balance p r.bet) in
      let ps' = write p.addr (λ _. w) ps in
      let score : PlayerScore = record { player = r.player; bet_diff = sub64 current_bet p.bet } in
      let rest = settle (slots - 1) n current_bet (sub64 pot_diff p.bet) rs' ps' in
      if slots == 0
      then fault out_of_bounds
      else if sub64 pot_diff p.bet == 0
      then ok (ps', score ∷ [])
      else rest >>= λ (qs, scores). ok (qs, score ∷ scores)
]

-- `ranks[0].player`
abbrev pub first_player : List Rank → Option ℕ
first_player [] = none
first_player (r ∷ rs) = some r.player

-- From DONE to DO_ACTION_END.
unfoldable pub showdown : Poker → Result Poker
unfolding rank_players sort_ranks settle
showdown poker = rank_players poker poker.players >>= λ ranks.
    settle scores_size (length poker.players) poker.current_bet poker.pot_amount (sort_ranks ranks)
      poker.players
    >>= λ (ps, scores). follow (first_player (sort_ranks ranks)) >>= λ w.
        ok (record poker { players = ps; scores = scores; winner = some w })
