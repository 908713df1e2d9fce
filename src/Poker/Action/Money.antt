-- ===== src/Poker/Action/Money.antt =====
-- The chips and the pot through a whole call of `pkrsrv_poker_do_action` of src/poker.c.
use pokerunicorn_server.Prelude.{
  ℕ, ◌≤◌, ◌≡◌, ◌≢◌, ◌∙◌, refl, ap, sym, subst, some, List, arith, ◌⊎◌, inl, inr, if◌then◌else◌,
  ◌==◌, Bool-cases, length, ◌||◌, ◌&&◌,
}
use pokerunicorn_server.Prelude.Result.{Result, ok, >>=-eq-ok, ok_injective}
use pokerunicorn_server.Card.Draw.{Draw}
use pokerunicorn_server.Poker.Types.{State, raise, HandKind, Action, Player, Poker, deref, state_eq}
use pokerunicorn_server.Poker.Players.{get_playing_count, get_ingame_count}
use pokerunicorn_server.Poker.Betting.{record_action}
use pokerunicorn_server.Poker.Betting.Chips.{IsFunded, Keeps}
use pokerunicorn_server.Poker.Turn.{Dealing, pass_turn, follow, follow_lem}
use pokerunicorn_server.Poker.Street.Money.{SameMoney, StreetMoney, street_money, pass_turn_money}
use pokerunicorn_server.Poker.Street.{Flow, run_out, ends, goes_on, street}
use pokerunicorn_server.Poker.Showdown.{
  showdown, rank_players, settle, scores_size, sort_ranks, first_player,
}
use pokerunicorn_server.Poker.Action.Bets.{
  record_action-Keeps, IsFunded-Keeps, Keeps-trans, own_addr, bets-Keeps,
}
use pokerunicorn_server.Poker.Action.Cases.{Went, barred, declined, acted, do_action-Went}
use pokerunicorn_server.Poker.Action.{
  after_street, move_on, do_action, settle_action, Outcome, refuse,
}
use pokerunicorn_server.Poker.Action.Refusal.{bets_refused}
use pokerunicorn_server.Poker.Store.{AreApart, total}

pub showdown_state : (poker q : Poker) → showdown poker ≡ ok q → q.state ≡ poker.state
unfolding showdown
showdown_state poker q h =
    let (ranks, _, h1) = >>=-eq-ok (rank_players poker poker.players) _ h in
    let (paid, _, h2) =
      >>=-eq-ok
        (settle scores_size (length poker.players) poker.current_bet poker.pot_amount
          (sort_ranks ranks) poker.players)
        _ h1 in
    let (w, _, h3) = >>=-eq-ok (follow (first_player (sort_ranks ranks))) _ h2 in ground (arith, h3)

-- Behind the blocks the game is over, or the money is as it was.
after_street_money :
    (entered : State) (playing : ℕ) (d e : Dealing)
    → after_street entered playing d ≡ ok e
    → (e.0.state ≡ State.done) ⊎ SameMoney d.0 e.0
unfolding after_street
after_street_money entered playing d e h =
    elim (Bool-cases (state_eq entered State.river && state_eq d.0.state State.done)) [
      | inl b ↦
          let (s, p, q) = >>=-eq-ok (showdown d.0) _ (rw b at h) in
          inl (ground (arith, b, showdown_state d.0 s p, q))
      | inr b ↦ elim (Bool-cases (d.0.is_playing_last || playing == 0)) [
        | inl c ↦
            let (r, p, q) = >>=-eq-ok (run_out d) _ (rw (b, c) at h) in
            let (s, t, u) = >>=-eq-ok (showdown (record (r.0) { state = State.done })) _ q in
            inl (ground (arith, showdown_state (record (r.0) { state = State.done }) s t, u))
        | inr c ↦ inr (ground (arith, b, c, h))
      ]
    ]

-- What follows the bet keeps the sum, unless it ends the game.
pub move_on_money :
    (poker : Poker) (draws : List Draw) (p : Player) (action : Action) (d : Dealing)
    → move_on poker draws p action ≡ ok d
    → (d.0.state ≡ State.done) ⊎ SameMoney poker d.0
unfolding move_on
move_on_money poker draws p action d h =
    let (next, w, t) = >>=-eq-ok turned _ h in
    let (flow, z, u) =
      >>=-eq-ok (street poker.state (next, draws) p.position action.kind playing ingame) _ t in
    after next flow
      (street_money poker.state (next, draws) p.position action.kind playing ingame flow z)
      (turned_money next w) u
  where
    playing : ℕ
    playing = get_playing_count poker.players

    ingame : ℕ
    ingame = get_ingame_count poker.players

    turned : Result Poker
    turned = if playing == 0 then ok poker else pass_turn poker

    turned_money : (q : Poker) → turned ≡ ok q → SameMoney poker q
    turned_money q e = elim (Bool-cases (playing == 0)) [
      | inl b ↦ subst (SameMoney poker) (ok_injective (rw b at e)) (refl, refl)
      | inr b ↦ pass_turn_money poker q (rw b at e)
    ]

    after :
        (next : Poker) (flow : Flow)
        → StreetMoney (next, draws) flow
        → SameMoney poker next
        → (elim flow [ ends e ↦ ok e | goes_on e ↦ after_street poker.state playing e ]) ≡ ok d
        → (d.0.state ≡ State.done) ⊎ SameMoney poker d.0
    after next (ends e) m n u = inl (ground (arith, m, u))
    after next (goes_on e) m n u = elim (after_street_money poker.state playing e d u) [
      | inl x ↦ inl x
      | inr y ↦ inr (y.0 ∙ m.0 ∙ n.0, y.1 ∙ m.1 ∙ n.1)
    ]

-- What `settle_action` does after the bets.
settle_action_money :
    (hand : HandKind) (now : ℕ) (draws : List Draw) (poker : Poker) (addr : ℕ) (action : Action)
    (o : Outcome)
    → IsFunded poker
    → settle_action hand now draws poker addr action ≡ ok o
    → o.poker.state ≢ State.done
    → Keeps poker o.poker
unfolding settle_action
settle_action_money hand now draws poker addr action o f h n =
    let (p, w, t) = >>=-eq-ok (follow (deref addr poker.players)) _ h in
    let e : deref addr poker.players ≡ some p = follow_lem (deref addr poker.players) w in
    let r = record_action hand poker p action in
    let (d, z, u) = >>=-eq-ok (move_on r draws p action) _ t in
    let k = record_action-Keeps hand poker p action f (own_addr addr poker.players p e) in
    elim (move_on_money r draws p action d z) [
      | inl x ↦ absurd (n (ground (arith, u, x)))
      | inr (ps, pot) ↦ record {
        same_total = rw (← ok_injective u, ps, pot) k.same_total;
        apart = rw (← ok_injective u, ps) k.apart;
      }
    ]

-- A refusal leaves the machine as it is.
Keeps-refuse :
    (poker q : Poker) (draws : List Draw) (o : Outcome)
    → IsFunded poker
    → o ≡ refuse q draws
    → q ≡ poker
    → Keeps poker o.poker
Keeps-refuse poker q draws o f x s =
    let same : o.poker ≡ poker = ap (λ (u : Outcome). u.poker) x ∙ s in
    record {
      same_total = ap total same;
      apart = subst (λ (u : Poker). AreApart u.players) (sym same) (f.apart);
    }

-- In a machine whose players stand apart and whose chips fit a word, a call that returns, that is no
-- raise to less than the current bet, and that does not end the game, leaves the sum of the players'
-- chips and the pot as it was, and the players apart.
pub do_action-Keeps :
    (now : ℕ) (draws : List Draw) (poker : Poker) (addr : ℕ) (action : Action) (o : Outcome)
    → IsFunded poker
    → (action.kind ≡ raise → poker.current_bet ≤ action.amount)
    → do_action now draws poker addr action ≡ ok o
    → o.poker.state ≢ State.done
    → Keeps poker o.poker
do_action-Keeps now draws poker addr action o f h s n =
    by_cases (do_action-Went now draws poker addr action o s)
  where
    by_cases : Went now draws poker addr action o → Keeps poker o.poker
    by_cases (barred x) = Keeps-refuse poker poker draws o f x refl
    by_cases (declined hand q b x) =
        Keeps-refuse poker q draws o f x (bets_refused hand poker q addr action b)
    by_cases (acted hand q _ b x) =
        let k = bets-Keeps hand poker q addr action f h b in
        Keeps-trans poker q o.poker k
          (settle_action_money hand now draws q addr action o (IsFunded-Keeps poker q f k) x n)
