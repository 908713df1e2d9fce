-- ===== src/Tests/Hands.antt =====
-- The theorems on the turn, the deal, the seats and the showdown of src/poker.c at the game of the tests.
use mathlib.Core.List.{Mem, Perm}
use pokerunicorn_server.Prelude.{
  count_if, leb, ◌*◌, ℕ, ◌+◌, ◌-◌, ◌%◌, ◌≡◌, ◌≢◌, ◌≤◌, refl, true, none, some, List, [], ◌∷◌, arith,
  add64, sub64, map, length, All,
}
use pokerunicorn_server.Prelude.Result.{Result, ok, fault}
use pokerunicorn_server.Exchange.Order.{IsRising}
use pokerunicorn_server.Card.Types.{Card}
use pokerunicorn_server.Card.Draw.{get_random}
use pokerunicorn_server.Card.Draw.Fresh.{AreDistinct}
use pokerunicorn_server.Card.Score.{get_best_fives_score, get_fives_score}
use pokerunicorn_server.Card.Check.{
  check_royal_flush, check_straight_flush, check_quad, check_full_house, check_flush,
  check_straight, check_three_kind, check_two_pair, check_pair, check_high_card,
}
use pokerunicorn_server.Poker.Types.{Player, Poker, deref, HandKind}
use pokerunicorn_server.Poker.Players.{
  getby_position_in_sorted, player_is_playing, get_sorted, players_addby_account, players_remove,
}
use pokerunicorn_server.Poker.Players.Seating.{get_sorted_lem, join_and_leave}
use pokerunicorn_server.Poker.Betting.{get_current_hand, goes, raise_stage}
use pokerunicorn_server.Poker.Betting.Flaws.{raise_below_loses}
use pokerunicorn_server.Poker.Turn.{Dealing, next_player, turn_fuel}
use pokerunicorn_server.Poker.Turn.Next.{
  next_player_total, next_player_stops, getby_position_in_sorted_safe,
}
use pokerunicorn_server.Poker.Street.{run_out, win_by_fold}
use pokerunicorn_server.Poker.Street.Money.{win_by_fold-chips}
use pokerunicorn_server.Poker.Showdown.{Rank, showdown, collect}
use pokerunicorn_server.Poker.Showdown.Payments.{collect-balance}
use pokerunicorn_server.Poker.Round.Restart.{reset}
use pokerunicorn_server.Poker.Round.Ready.{reset_lem}
use pokerunicorn_server.Poker.Showdown.Winner.{IsRanked, showdown_winner}
use pokerunicorn_server.Poker.Round.{start, deal, seat_blinds}
use pokerunicorn_server.Poker.Round.Deal.{pockets, deal_hands}
use pokerunicorn_server.Poker.Round.Seats.{IsTaken, seat_blinds_total}
use pokerunicorn_server.Poker.Store.{AreApart, total, chips}
use pokerunicorn_server.Tests.Game.{player, seated, draws, started}

abbrev player_at : ℕ → Poker → Player
player_at a poker = elim (deref a poker.players) [ some p ↦ p | none ↦ player a 0 0 ]

-- From the seat 0, the turn goes to the seat 3.
next_player_total_example :
    (n : ℕ) × (next_player (turn_fuel 3) started.players started.sorted_players 0 3 (some 0) ≡ ok n)
unfolding started start seated get_current_hand sub64 getby_position_in_sorted get_random add64
next_player_total_example =
    next_player_total started.players started.sorted_players 0 3 3 (player_at 20 started) (some 0)
      refl refl
      (λ m.
        getby_position_in_sorted_safe started.players started.sorted_players m
          ((player_at 10 started, refl), ((player_at 20 started, refl), tt)))
      (ground arith) (ground arith)

next_player_stops_example :
    (p : Player) × (getby_position_in_sorted started.players started.sorted_players 3 ≡ ok (some p))
    × (player_is_playing p ≡ true)
unfolding started start seated get_current_hand sub64 getby_position_in_sorted get_random add64
    next_player
next_player_stops_example =
    next_player_stops started.players started.sorted_players 0 3 9 (some 0) 3 refl

abbrev dealing_of : Result Dealing → Dealing
dealing_of (ok d) = d
dealing_of (fault e) = (seated, [])

abbrev dealt : Dealing
unfolding deal
dealt = dealing_of (deal (seated, draws))

deal_hands_example :
    (cs : List Card) × AreDistinct cs
    × (map (λ c. some c) cs ≡ pockets dealt.0.players)
    × (length dealt.0.players ≡ length seated.players)
unfolding started start seated get_current_hand sub64 getby_position_in_sorted get_random add64
    dealt deal
deal_hands_example = deal_hands seated draws dealt (ground arith) refl (ground arith) refl

seat_blinds_total_example :
    (q : Poker) × (sb : Player) × (bb : Player) × (seat_blinds 1 seated ≡ ok (q, sb, bb))
    × IsTaken seated.players sb.position
    × IsTaken seated.players bb.position
    × (sb.position ≢ bb.position)
    × (q.sb_player ≡ some sb.addr)
    × (q.bb_player ≡ some bb.addr)
    × (q.playing_position ≡ some sb.position)
unfolding started start seated get_current_hand sub64 getby_position_in_sorted get_random add64
seat_blinds_total_example =
    seat_blinds_total 1 seated 0 3 refl refl (ground arith) (ground arith) (ground arith)

-- The machine when all cards are dealt.
abbrev full : Dealing
unfolding run_out
full =
    dealing_of
      (run_out (started, (12, 0) ∷ (7, 1) ∷ (7, 2) ∷ (8, 0) ∷ (9, 1) ∷ (3, 2) ∷ (4, 0) ∷ []))

abbrev poker_or : Result Poker → Poker
poker_or (ok q) = q
poker_or (fault e) = seated

abbrev shown : Poker
unfolding showdown
shown = poker_or (showdown full.0)

showdown_winner_example :
    (w : Player) × (r : Rank) × Mem w full.0.players
    × IsRanked full.0 w r
    × (shown.winner ≡ some w.addr)
    × All (λ p. (s : Rank) × IsRanked full.0 p s × (s.rank ≤ r.rank)) full.0.players
unfolding started start seated get_current_hand sub64 getby_position_in_sorted get_random add64 full
    shown showdown run_out get_best_fives_score get_fives_score check_royal_flush
    check_straight_flush check_quad check_full_house check_flush check_straight check_three_kind
    check_two_pair check_pair check_high_card
showdown_winner_example = showdown_winner full.0 shown refl

-- The player at the seat 3 has folded, and the other takes the pot of 150.
abbrev alone : Poker
alone = record started {
  players = record (player 10 1 0) { bet = 50 } ∷ record (player 20 2 3) { is_folded = true } ∷ [];
}

abbrev won : Poker
unfolding win_by_fold
won = poker_or (win_by_fold alone)

win_by_fold-chips_example :
    (chips won.players ≡ chips alone.players + alone.pot_amount)
    × (won.pot_amount ≡ alone.pot_amount)
unfolding started start seated get_current_hand sub64 getby_position_in_sorted get_random add64 won
    win_by_fold
win_by_fold-chips_example =
    win_by_fold-chips alone won (record { apart = ground arith; fits = ground arith }) refl

join_and_leave_example :
    let joined = (players_addby_account seated 30 7 14).0 in
    ((players_addby_account seated 30 7 14).1 ≡ some 30)
    × ((p : Player) × (deref 30 joined.players ≡ some p)
        × (p.account ≡ 7)
        × (p.balance ≡ 0)
        × (p.position ≡ 14 % 9))
    × (length joined.players ≡ length seated.players + 1)
    × ((players_remove joined 30).players ≡ seated.players)
unfolding started start seated get_current_hand sub64 getby_position_in_sorted get_random add64
join_and_leave_example = join_and_leave seated 30 7 14 (ground arith) (ground arith)

get_sorted_lem_example :
    (qs : List Player) × Perm (player 20 2 3 ∷ player 10 1 0 ∷ []) qs
    × IsRising (λ p. p.position) qs
    × (get_sorted (player 20 2 3 ∷ player 10 1 0 ∷ []) ≡ map (λ p. p.addr) qs)
get_sorted_lem_example = get_sorted_lem (player 20 2 3 ∷ player 10 1 0 ∷ [])

-- The current bet is 400, and the big blind, who has bet 100, raises to 200.
abbrev high : Poker
high = record started { current_bet = 400; current_raise = 300; playing_position = some 3 }

raise_below_loses_example :
    (q : Poker) × (raise_stage HandKind.preflop high (player_at 20 high) 200 ≡ goes q)
    × (total q + (200 - (player_at 20 high).bet) ≡ total high)
unfolding started start seated get_current_hand sub64 getby_position_in_sorted get_random add64
raise_below_loses_example =
    raise_below_loses HandKind.preflop high (player_at 20 high) 200
      (record { apart = ground arith; fits = ground arith }) refl (ground arith) (ground arith)
      (ground arith) (ground arith) (ground arith) refl

-- Behind a bet of 300 stand bets of 300, 100 and 500.
abbrev rank_with : ℕ → ℕ → Rank
rank_with addr bet = record { player = addr; bet = bet; rank = 1000000 }

collect-balance_example :
    (collect
      (rank_with 10 300)
      300
      (rank_with 20 300 ∷ rank_with 30 100 ∷ rank_with 40 500 ∷ [])
      (player 10 1 0)).1.balance
    ≡ 5000
      + count_if (λ o. leb 300 o.bet) (rank_with 20 300 ∷ rank_with 30 100 ∷ rank_with 40 500 ∷ [])
        * 300
collect-balance_example =
    collect-balance (rank_with 10 300) 300
      (rank_with 20 300 ∷ rank_with 30 100 ∷ rank_with 40 500 ∷ []) (player 10 1 0) (ground arith)

reset_lem_example :
    AreApart (reset won).players
    × (chips (reset won).players ≡ chips won.players)
    × ((reset won).pot_amount ≡ 0)
    × All (λ p. (player_is_playing p ≡ true) × (p.bet ≡ 0)) (reset won).players
unfolding won win_by_fold
reset_lem_example = reset_lem won (ground arith)
