-- ===== src/Poker/Action/Pass.antt =====
-- Calls of `pkrsrv_poker_do_action` of src/poker.c with a kind of action that is no bet.
use pokerunicorn_server.Prelude.{
  ℕ, ◌≤◌, ◌≡◌, ◌≢◌, ◌∙◌, refl, ap, sym, true, false, some, List, arith, inl, inr, ◌==◌,
}
use pokerunicorn_server.Prelude.Result.{ok, >>=-eq-ok, ok_injective}
use pokerunicorn_server.Card.Draw.{Draw}
use pokerunicorn_server.Poker.Types.{State, HandKind, Action, Player, Poker, deref, state_eq}
use pokerunicorn_server.Poker.Betting.{goes, get_current_hand, may_act, record_action, with_hand}
use pokerunicorn_server.Poker.Betting.Flaws.{IsPass, bets-IsPass}
use pokerunicorn_server.Poker.Turn.{follow, follow_lem}
use pokerunicorn_server.Poker.Street.Money.{SameMoney}
use pokerunicorn_server.Poker.Action.{do_action, bets, settle_action, move_on, Outcome}
use pokerunicorn_server.Poker.Action.Money.{move_on_money}

-- The note of an action, for a player with chips.
record_action_money :
    (hand : HandKind) (poker : Poker) (p : Player) (action : Action)
    → 1 ≤ p.balance
    → SameMoney poker (record_action hand poker p action)
unfolding record_action with_hand
record_action_money hand poker p action h =
    let chips_left : (p.balance == 0) ≡ false = ground (arith, h) in by_hand hand chips_left
  where
    by_hand :
        (hand : HandKind)
        → (p.balance == 0) ≡ false
        → SameMoney poker (record_action hand poker p action)
    by_hand HandKind.preflop b = (rw b refl, rw b refl)
    by_hand HandKind.flop b = (rw b refl, rw b refl)
    by_hand HandKind.turn b = (rw b refl, rw b refl)
    by_hand HandKind.river b = (rw b refl, rw b refl)

settle_action_pass :
    (hand : HandKind) (now : ℕ) (draws : List Draw) (poker : Poker) (addr : ℕ) (p : Player)
    (action : Action) (o : Outcome)
    → deref addr poker.players ≡ some p
    → 1 ≤ p.balance
    → settle_action hand now draws poker addr action ≡ ok o
    → o.poker.state ≢ State.done
    → (o.is_done ≡ true) × SameMoney poker o.poker
unfolding settle_action
settle_action_pass hand now draws poker addr p action o e c s n =
    let (d, z, u) =
      >>=-eq-ok (move_on (record_action hand poker p action) draws p action) _ (rw e at s) in
    let (ps, pot) = record_action_money hand poker p action c in
    elim (move_on_money (record_action hand poker p action) draws p action d z) [
      | inl x ↦ absurd (n (ground (arith, u, x)))
      | inr (ps', pot') ↦ (
        rw (← ok_injective u) refl,
        (rw (← ok_injective u) (ps' ∙ ps), rw (← ok_injective u) (pot' ∙ pot)),
      )
    ]

-- After the blinds, let a player with chips, who may act by the guards of the function, call with an
-- action that is no raise, check or fold: a blind, or a kind outside the enumeration. A call that
-- returns and does not end the game is not refused, its result being `is_done`; and all players, with
-- their chips, bets and flags, and the pot are as they were, however far the player's bet is below
-- the current one.
pub free_pass :
    (now : ℕ) (draws : List Draw) (poker : Poker) (addr : ℕ) (p : Player) (action : Action)
    (o : Outcome)
    → deref addr poker.players ≡ some p
    → may_act poker p ≡ true
    → state_eq poker.state State.small_blind ≡ false
    → state_eq poker.state State.big_blind ≡ false
    → IsPass action.kind
    → 1 ≤ p.balance
    → do_action now draws poker addr action ≡ ok o
    → o.poker.state ≢ State.done
    → (o.is_done ≡ true)
      × (o.poker.players ≡ poker.players)
      × (o.poker.pot_amount ≡ poker.pot_amount)
unfolding do_action
free_pass now draws poker addr p action o e b small big k c s n =
    let (q, w, t) = >>=-eq-ok (follow (deref addr poker.players)) _ s in
    let found : deref addr poker.players ≡ some q = follow_lem (deref addr poker.players) w in
    let same : q ≡ p = cc (found, e) in
    let may : may_act poker q ≡ true = ap (may_act poker) same ∙ b in
    let (hand, x, u) = >>=-eq-ok (follow (get_current_hand poker.state)) _ (rw may at t) in
    let (stage, y, v) = >>=-eq-ok (bets hand poker addr action) _ u in
    let passed : stage ≡ goes poker =
      ok_injective (sym y ∙ bets-IsPass hand poker addr p action e small big k) in
    let (done, money) =
      settle_action_pass hand now draws poker addr p action o e c (rw passed at v) n in
    (done, money.0, money.1)
