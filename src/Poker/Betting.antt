-- ===== src/Poker/Betting.antt =====
-- The first half of `pkrsrv_poker_do_action` of src/poker.c: who may act, the blinds, raise, check and
-- fold, and the record of the action.
pub mod Chips
pub mod Flaws
use pokerunicorn_server.Prelude.{
  ℕ, ◌+◌, Bool, true, false, not, ◌&&◌, Option, none, some, List, [], ◌∷◌, ◌++◌, if◌then◌else◌,
  ◌==◌, ltb, leb, is_at, is_none, add64, sub64,
}
use pokerunicorn_server.Prelude.Result.{Result, ok, fault, null_pointer, ◌>>=◌}
use pokerunicorn_server.Poker.Types.{
  State, ActionKind, raise, check, fold, HandKind, Action, Hand, HandAction, Player, Poker,
  state_lt, state_le, state_eq, deref, write,
}
use pokerunicorn_server.Poker.Players.{set_balance, remove_balance}

-- `pkrsrv_poker_get_current_hand`, as the name of the hand.
unfoldable pub get_current_hand : State → Option HandKind
get_current_hand st =
    if state_eq st State.flop
    then some HandKind.flop
    else if state_eq st State.turn
    then some HandKind.turn
    else if state_eq st State.river
    then some HandKind.river
    else if state_le st State.preflop
    then some HandKind.preflop
    else none

-- A write through the pointer to a hand.
abbrev pub with_hand : HandKind → (Hand → Hand) → Poker → Poker
with_hand HandKind.preflop f poker = record poker { hand_preflop = f poker.hand_preflop }
with_hand HandKind.flop f poker = record poker { hand_flop = f poker.hand_flop }
with_hand HandKind.turn f poker = record poker { hand_turn = f poker.hand_turn }
with_hand HandKind.river f poker = record poker { hand_river = f poker.hand_river }

abbrev pub hand_of : HandKind → Poker → Hand
hand_of HandKind.preflop poker = poker.hand_preflop
hand_of HandKind.flop poker = poker.hand_flop
hand_of HandKind.turn poker = poker.hand_turn
hand_of HandKind.river poker = poker.hand_river

abbrev raised : Hand → Hand
raised h = record h { is_raised = true }

-- The six tests that come before anything is changed.
unfoldable pub may_act : Poker → Player → Bool
may_act poker p =
    not (state_lt State.river poker.state)
    && p.is_playing
    && not p.is_folded
    && not (state_lt poker.state State.small_blind)
    && is_at poker.playing_position p.position
    && not p.is_allin

-- How a part of the function ends: it goes on, or it jumps to RETURN with `is_done` false.
pub data Stage : Type 0 where
  goes refused : Poker → Stage

-- The store with what `player` points to.
abbrev pub put : Poker → Player → Poker
put poker p = record poker { players = write p.addr (λ _. p) poker.players }

abbrev pub is_small_blind : ActionKind → Bool
is_small_blind ActionKind.small_blind = true
is_small_blind k = false

abbrev pub is_big_blind : ActionKind → Bool
is_big_blind ActionKind.big_blind = true
is_big_blind k = false

unfoldable pub small_blind_stage : Poker → Player → Action → Stage
unfolding remove_balance
small_blind_stage poker p action =
    if not (state_eq poker.state State.small_blind)
    then goes poker
    else if not (is_at poker.sb_player p.addr)
    then refused poker
    else if not (is_small_blind action.kind)
    then refused poker
    else elim (remove_balance p amount) [
      | none ↦ refused poker
      | some q ↦ goes (record (put poker (record q { bet = add64 q.bet amount })) {
        pot_amount = add64 poker.pot_amount amount;
        is_sb_must_call = true;
      })
    ]
  where
    amount : ℕ
    amount = poker.table.small_blind

unfoldable pub big_blind_stage : HandKind → Poker → Player → Action → Stage
unfolding remove_balance
big_blind_stage hand poker p action =
    if not (state_eq poker.state State.big_blind)
    then goes poker
    else if not (is_at poker.bb_player p.addr)
    then refused poker
    else if not (is_big_blind action.kind)
    then refused poker
    else elim (remove_balance p amount) [
      | none ↦ refused poker
      | some q ↦ goes (
          with_hand hand raised (record (put poker (record q { bet = add64 q.bet amount })) {
            pot_amount = add64 poker.pot_amount amount;
          }))
    ]
  where
    amount : ℕ
    amount = poker.table.big_blind

-- What a raise does where `raise_to >= poker->current_bet`; `q` has paid.
unfoldable pub raise_counts : HandKind → Poker → Player → ℕ → ℕ → ℕ → Poker
raise_counts hand poker q raise_to to_bet raise_by =
    if ltb poker.current_bet raise_to
    then with_hand hand raised (record bet { current_bet = add64 poker.current_bet raise_by })
    else bet
  where
    bet : Poker
    bet = record (put poker (record q { bet = add64 q.bet to_bet })) {
      current_raise = if leb poker.current_raise raise_by then raise_by else poker.current_raise;
      current_raise_total = add64 poker.current_raise_total raise_by;
      pot_amount = add64 poker.pot_amount to_bet;
      last_raised_pos = some q.position;
    }

-- The two places that clear `is_sb_must_call` come to one: the small blind has raised.
unfoldable pub raise_stage : HandKind → Poker → Player → ℕ → Stage
unfolding remove_balance raise_counts
raise_stage hand poker p raise_to =
    if ltb p.balance to_bet
    then refused poker
    else if not is_allin && ltb raise_by poker.current_raise
    then refused poker
    else if not is_allin && poker.is_sb_must_call && is_sb && ltb raise_to min_raise_to
    then refused poker
    else elim (remove_balance p to_bet) [
      | none ↦ refused poker
      | some q ↦
          let paid = put poker q in
          let counted =
            if leb poker.current_bet raise_to
            then raise_counts hand paid q raise_to to_bet raise_by
            else paid in
          goes (record counted {
            synced_action_counter = counted.synced_action_counter + 1;
            is_sb_must_call = if is_sb then false else counted.is_sb_must_call;
          })
    ]
  where
    to_bet : ℕ
    to_bet = sub64 raise_to p.bet

    raise_by : ℕ
    raise_by = sub64 raise_to poker.current_bet

    min_raise_to : ℕ
    min_raise_to = add64 poker.current_bet poker.current_raise

    is_allin : Bool
    is_allin = p.balance == to_bet

    -- `poker->players->sb_player == player`
    is_sb : Bool
    is_sb = is_at poker.sb_player p.addr

-- `poker->players->sb_player->account->id`
abbrev pub sb_account : Poker → Result ℕ
sb_account poker = elim poker.sb_player [
  | none ↦ fault null_pointer
  | some a ↦ elim (deref a poker.players) [ none ↦ fault null_pointer | some s ↦ ok s.account ]
]

-- The small blind pays the difference to the big blind.
unfoldable pub sb_call_stage : Poker → Player → Stage
unfolding remove_balance
sb_call_stage poker p =
    if ltb p.balance amount then refused poker else elim (remove_balance p amount) [
      | none ↦ refused poker
      | some q ↦ goes (record (put poker (record q { bet = add64 q.bet amount })) {
        pot_amount = add64 poker.pot_amount amount;
        is_sb_must_call = false;
      })
    ]
  where
    amount : ℕ
    amount = poker.table.small_blind

-- A call: who has too little goes all-in with what is left.
unfoldable pub call_stage : Poker → Player → Stage
unfolding remove_balance
call_stage poker p = elim (remove_balance p to_bet) [
  | none ↦ goes (pay (set_balance (record p { is_allin = true }) 0) p.balance)
  | some q ↦ goes (pay q to_bet)
]
  where
    to_bet : ℕ
    to_bet = sub64 poker.current_bet p.bet

    pay : Player → ℕ → Poker
    pay q amount = record (put poker (record q { bet = add64 q.bet amount })) {
      pot_amount = add64 poker.pot_amount amount;
    }

unfoldable pub check_stage : HandKind → Poker → Player → Result Stage
unfolding sb_call_stage call_stage
check_stage hand poker p = if poker.is_sb_must_call then compared else ok called
  where
    called : Stage
    called = if (hand_of hand poker).is_raised then call_stage poker p else goes poker

    compared : Result Stage
    compared =
        sb_account poker >>= λ id. ok (if p.account == id then sb_call_stage poker p else called)

-- The branches on `action.kind`. Any other kind does nothing here.
unfoldable pub bet_stage : HandKind → Poker → Player → Action → Result Stage
unfolding raise_stage check_stage
bet_stage hand poker p action = elim (action.kind) [
  | raise ↦ ok (raise_stage hand poker p action.amount)
  | fold ↦ ok (goes (put poker (record p { is_folded = true })))
  | check ↦ check_stage hand poker p
  | _ ↦ ok (goes poker)
]

-- From `player->balance <= 0` to the append to the hand's actions.
unfoldable pub record_action : HandKind → Poker → Player → Action → Poker
record_action hand poker p action =
    with_hand hand (λ h. record h { actions = h.actions ++ (entry ∷ []) }) marked
  where
    entry : HandAction
    entry = record { action = action; player = p.addr }

    emptied : Poker
    emptied = if p.balance == 0 then put poker (record p { is_allin = true }) else poker

    marked : Poker
    marked = record emptied {
      last_pos_before_last_raise =
          if is_none poker.last_pos_before_last_raise
          then some p.position
          else poker.last_pos_before_last_raise;
    }
