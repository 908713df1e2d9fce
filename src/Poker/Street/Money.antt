-- ===== src/Poker/Street/Money.antt =====
-- The chips and the pot through the turn, the cards dealt and the end of a betting round in
-- `pkrsrv_poker_do_action` of src/poker.c.
use pokerunicorn_server.Prelude.{
  ℕ, ◌+◌, ◌≡◌, refl, subst, arith, inl, inr, ◌==◌, Bool-cases, Option-cases, find,
}
use pokerunicorn_server.Prelude.Result.{ok, ◌>>=◌, >>=-eq-ok, ok_injective}
use pokerunicorn_server.Card.Types.{Card}
use pokerunicorn_server.Poker.Types.{State, ActionKind, check, fold, Poker, write}
use pokerunicorn_server.Poker.Players.{player_is_ingame, add_balance, add_balance_lem}
use pokerunicorn_server.Poker.Betting.Chips.{IsFunded}
use pokerunicorn_server.Poker.Turn.{
  Dealing, pass_turn, draw_card, deal_flop, deal_turn, deal_river, is_last_to_act, turn_position,
}
use pokerunicorn_server.Poker.Street.{
  Flow, heads_up_turn, round_reset, count_action, ends, goes_on, street, close_round, end_round,
  fold_street, deal_street, is_street, win_by_fold, fold_counts,
}
use pokerunicorn_server.Poker.Store.{chips, chips-write, deref_found, balance-le-chips}

-- Nothing of the money is touched.
abbrev pub SameMoney : Poker → Poker → Type 0
SameMoney poker q = (q.players ≡ poker.players) × (q.pot_amount ≡ poker.pot_amount)

draw_card_money :
    (d : Dealing) (c : Card) (e : Dealing) → draw_card d ≡ ok (c, e) → SameMoney d.0 e.0
unfolding draw_card
draw_card_money (poker, draws) c e h = ground (arith, h)

deal_turn_money : (d e : Dealing) → deal_turn d ≡ ok e → SameMoney d.0 e.0
unfolding deal_turn
deal_turn_money d e h =
    let (x, p, q) = >>=-eq-ok (draw_card d) _ h in ground (arith, draw_card_money d x.0 x.1 p, q)

deal_river_money : (d e : Dealing) → deal_river d ≡ ok e → SameMoney d.0 e.0
unfolding deal_river
deal_river_money d e h =
    let (x, p, q) = >>=-eq-ok (draw_card d) _ h in ground (arith, draw_card_money d x.0 x.1 p, q)

deal_flop_money : (d e : Dealing) → deal_flop d ≡ ok e → SameMoney d.0 e.0
unfolding deal_flop
deal_flop_money d e h =
    let (x, p, q) = >>=-eq-ok (draw_card d) _ h in
    let (y, r, s) = >>=-eq-ok (draw_card x.1) _ q in
    let (z, t, u) = >>=-eq-ok (draw_card y.1) _ s in
    ground (
      arith,
      draw_card_money d x.0 x.1 p,
      draw_card_money x.1 y.0 y.1 r,
      draw_card_money y.1 z.0 z.1 t,
      u,
    )

deal_street_money : (st : State) (d e : Dealing) → deal_street st d ≡ ok e → SameMoney d.0 e.0
deal_street_money State.preflop d e h = deal_flop_money d e h
deal_street_money State.flop d e h = deal_turn_money d e h
deal_street_money State.turn d e h = deal_river_money d e h
deal_street_money _ d e h = ground (arith, h)

heads_up_money : (poker q : Poker) → heads_up_turn poker ≡ ok q → SameMoney poker q
heads_up_money poker q h = ground (arith, h)

end_round_money : (st : State) (d e : Dealing) → end_round st d ≡ ok e → SameMoney d.0 e.0
unfolding end_round
end_round_money st (poker, draws) e h =
    let (x, p, q) = >>=-eq-ok (heads_up_turn (round_reset st poker)) _ h in
    ground (arith, heads_up_money (round_reset st poker) x p, deal_street_money st (x, draws) e q)

close_round_money :
    (st : State) (d e : Dealing) (counts position playing : ℕ)
    → close_round st d counts position playing ≡ ok e
    → SameMoney d.0 e.0
unfolding close_round
close_round_money st (poker, draws) e counts position playing h =
    let (x, p, q) = >>=-eq-ok (is_last_to_act (count_action counts poker) position playing) _ h in
    ground (arith, q, end_round_money st (count_action counts poker, draws) e)

pub pass_turn_money : (poker q : Poker) → pass_turn poker ≡ ok q → SameMoney poker q
unfolding pass_turn
pass_turn_money poker q h = let (x, p, s) = >>=-eq-ok (turn_position poker) _ h in ground (arith, s)

-- In a machine whose players stand apart and whose chips fit a word, a win by folds that returns
-- adds the pot to the players' chips, and leaves the amount of the pot as it was.
pub win_by_fold-chips :
    (poker q : Poker)
    → IsFunded poker
    → win_by_fold poker ≡ ok q
    → (chips q.players ≡ chips poker.players + poker.pot_amount) × (q.pot_amount ≡ poker.pot_amount)
unfolding win_by_fold
win_by_fold-chips poker q f h = elim (Option-cases (find player_is_ingame poker.players)) [
  | inl z ↦ absurd (ground (arith, h, z))
  | inr (w, z) ↦
      let at_w = deref_found player_is_ingame poker.players w f.apart z in
      let here : q.players ≡ write w.addr (λ _. add_balance w poker.pot_amount) poker.players =
        ground (arith, h, z) in
      let paid = chips-write w.addr w (add_balance w poker.pot_amount) poker.players f.apart at_w in
      let room = balance-le-chips w.addr w poker.players at_w in
      (
        rw here (omega (arith, paid, room, f.fits, add_balance_lem w poker.pot_amount)),
        ground (arith, h, z),
      )
]

win_by_fold_state : (poker q : Poker) → win_by_fold poker ≡ ok q → q.state ≡ State.done
unfolding win_by_fold
win_by_fold_state poker q h = elim (Option-cases (find player_is_ingame poker.players)) [
  | inl z ↦ absurd (ground (arith, h, z))
  | inr (w, z) ↦ ground (arith, h, z)
]

-- A block that goes on leaves the money, and one that ends has ended the game.
abbrev pub StreetMoney : Dealing → Flow → Type 0
StreetMoney d (ends e) = e.0.state ≡ State.done
StreetMoney d (goes_on e) = SameMoney d.0 e.0

fold_street_money :
    (st : State) (d : Dealing) (position playing ingame : ℕ) (flow : Flow)
    → fold_street st d position playing ingame ≡ ok flow
    → StreetMoney d flow
unfolding fold_street
fold_street_money st d position playing ingame flow h = elim (Bool-cases (ingame == 1)) [
  | inl b ↦
      let (w, p, q) = >>=-eq-ok (win_by_fold d.0) (λ w. ok (ends (w, d.1))) (rw b at h) in
      subst (StreetMoney d) (ok_injective q) (win_by_fold_state d.0 w p)
  | inr b ↦
      let (e, p, q) =
        >>=-eq-ok (close_round st d (fold_counts st) position playing) (λ e. ok (goes_on e))
          (rw b at h) in
      subst (StreetMoney d) (ok_injective q)
        (close_round_money st d e (fold_counts st) position playing p)
]

pub street_money :
    (st : State) (d : Dealing) (position : ℕ) (kind : ActionKind) (playing ingame : ℕ) (flow : Flow)
    → street st d position kind playing ingame ≡ ok flow
    → StreetMoney d flow
unfolding street
street_money st d position kind playing ingame flow h = elim (Bool-cases (is_street st)) [
  | inl b ↦ by_kind kind (rw b at h)
  | inr b ↦ subst (StreetMoney d) (ok_injective (rw b at h)) (refl, refl)
]
  where
    by_kind :
        (k : ActionKind)
        → (elim k [
          | check ↦ close_round st d 1 position playing >>= λ e. ok (goes_on e)
          | fold ↦ fold_street st d position playing ingame
          | _ ↦ ok (goes_on d)
        ])
          ≡ ok flow
        → StreetMoney d flow
    by_kind check g =
        let (e, p, q) = >>=-eq-ok (close_round st d 1 position playing) (λ e. ok (goes_on e)) g in
        subst (StreetMoney d) (ok_injective q) (close_round_money st d e 1 position playing p)
    by_kind fold g = fold_street_money st d position playing ingame flow g
    by_kind _ g = subst (StreetMoney d) (ok_injective g) (refl, refl)
