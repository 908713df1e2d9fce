-- ===== src/Poker/Betting/Flaws.antt =====
-- A raise below the current bet, and kinds of action that are no bet, in `pkrsrv_poker_do_action` of
-- src/poker.c.
use pokerunicorn_server.Prelude.{
  ℕ, ◌+◌, ◌-◌, ◌^◌, ◌≤◌, ◌<◌, ◌≡◌, refl, true, false, some, arith, is_at, sub64, u64_mod,
  sub64_exact, sub64_wraps,
}
use pokerunicorn_server.Prelude.Result.{ok}
use pokerunicorn_server.Poker.Types.{
  State, ActionKind, raise, check, fold, HandKind, Action, Player, Poker, deref, state_eq,
}
use pokerunicorn_server.Poker.Players.{remove_balance}
use pokerunicorn_server.Poker.Betting.{
  goes, put, raise_stage, small_blind_stage, big_blind_stage, bet_stage, check_stage,
}
use pokerunicorn_server.Poker.Betting.Chips.{IsFunded}
use pokerunicorn_server.Poker.Action.{bets}
use pokerunicorn_server.Poker.Store.{total, chips-write, balance-le-chips}

-- A payment, by what is left.
remove_balance_pays :
    (p : Player) (n : ℕ)
    → n ≤ p.balance
    → p.balance < u64_mod
    → remove_balance p n ≡ some (record p { balance = p.balance - n })
unfolding remove_balance
remove_balance_pays p n h k = ground (arith, sub64_exact p.balance n h k, h)

-- In a funded machine whose current bet and current raise are below 2 ^ 63, a raise to an amount
-- below the current bet, and not below the player's own bet, by a player with the chips for it who
-- is not the small blind, is accepted: the sum of the chips and the pot falls by what the player
-- pays.
pub raise_below_loses :
    (hand : HandKind) (poker : Poker) (p : Player) (raise_to : ℕ)
    → IsFunded poker
    → deref p.addr poker.players ≡ some p
    → p.bet ≤ raise_to
    → raise_to < poker.current_bet
    → poker.current_bet < 2 ^ 63
    → poker.current_raise < 2 ^ 63
    → raise_to - p.bet ≤ p.balance
    → is_at poker.sb_player p.addr ≡ false
    → (q : Poker) × (raise_stage hand poker p raise_to ≡ goes q)
      × (total q + (raise_to - p.bet) ≡ total poker)
raise_below_loses hand poker p raise_to f e a b c d g s = (q, goes_on, lost)
  where
    paid : sub64 raise_to p.bet ≡ raise_to - p.bet
    paid = sub64_exact raise_to p.bet a (omega (arith, b, c))

    wrapped : sub64 raise_to poker.current_bet ≡ raise_to + (u64_mod - poker.current_bet)
    wrapped = sub64_wraps raise_to poker.current_bet b (omega (arith, c))

    r : Player
    r = record p { balance = p.balance - (raise_to - p.bet) }

    q : Poker
    q = record (put poker r) {
      synced_action_counter = poker.synced_action_counter + 1;
      is_sb_must_call = poker.is_sb_must_call;
    }

    fits : p.balance < u64_mod
    fits = omega (arith, f.fits, balance-le-chips p.addr p poker.players e)

    goes_on : raise_stage hand poker p raise_to ≡ goes q
    goes_on =
        unfold raise_stage in
        ground
          (arith, paid, wrapped, s, a, b, c, d, g, remove_balance_pays p (raise_to - p.bet) g fits)

    lost : total q + (raise_to - p.bet) ≡ total poker
    lost = omega (
      arith,
      chips-write p.addr p r poker.players f.apart e,
      g,
      balance-le-chips p.addr p poker.players e,
    )

-- An action that is no raise, check or fold.
abbrev pub IsPass : ActionKind → Type 0
IsPass raise = ⊥
IsPass check = ⊥
IsPass fold = ⊥
IsPass _ = Unit {0}

-- In a state that is neither that of the small blind nor that of the big blind, an action that is
-- no raise, check or fold goes through the stages of a bet.
pub bets-IsPass :
    (hand : HandKind) (poker : Poker) (addr : ℕ) (p : Player) (action : Action)
    → deref addr poker.players ≡ some p
    → state_eq poker.state State.small_blind ≡ false
    → state_eq poker.state State.big_blind ≡ false
    → IsPass action.kind
    → bets hand poker addr action ≡ ok (goes poker)
unfolding bets small_blind_stage big_blind_stage
bets-IsPass hand poker addr p action e a b k = ground (arith, e, a, b, passed)
  where
    passed : bet_stage hand poker p action ≡ ok (goes poker)
    passed = unfold bet_stage in by_kind action.kind k
      where
        by_kind :
            (n : ActionKind)
            → IsPass n
            → (elim n [
              | raise ↦ ok (raise_stage hand poker p action.amount)
              | fold ↦ ok (goes (put poker (record p { is_folded = true })))
              | check ↦ check_stage hand poker p
              | _ ↦ ok (goes poker)
            ])
              ≡ ok (goes poker)
        by_kind raise k = absurd k
        by_kind check k = absurd k
        by_kind fold k = absurd k
        by_kind _ k = refl
