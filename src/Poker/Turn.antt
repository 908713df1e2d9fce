-- ===== src/Poker/Turn.antt =====
-- The middle of `pkrsrv_poker_do_action` of src/poker.c: whose turn is next, whether the betting round
-- is over, and what then happens.
pub mod Next
use pokerunicorn_server.Prelude.{
  ℕ, zero, suc, ◌+◌, ◌*◌, Bool, ◌≡◌, true, false, not, ◌&&◌, ◌||◌, Option, none, some, List, [],
  ◌∷◌, if◌then◌else◌, ◌==◌, ltb, is_at, is_none, find,
}
use pokerunicorn_server.Prelude.Result.{Result, ok, fault, null_pointer, endless, ◌>>=◌}
use pokerunicorn_server.Card.Types.{Card}
use pokerunicorn_server.Card.Draw.{Draw, get_random}
use pokerunicorn_server.Poker.Types.{
  State, ActionKind, raise, check, fold, Hand, Player, Poker, state_eq, deref, write,
}
use pokerunicorn_server.Poker.Players.{
  add_balance, player_is_playing, player_is_ingame, getby_position_in_sorted,
}

-- Where a pointer may be null.
abbrev pub follow {ℓ} : {A : Type ℓ} → Option A → Result A
follow none = fault null_pointer
follow (some a) = ok a

pub follow_lem {ℓ} : {A : Type ℓ} (o : Option A) {a : A} → follow o ≡ ok a → o ≡ some a
follow_lem none e = absurd (cc e)
follow_lem (some x) e = cc e

-- Still to act in the hand, for `pkrsrv_poker_get_last_playing_position`.
abbrev pub still_in : Player → Bool
still_in p = p.is_playing && not p.is_left && not p.is_folded && not p.is_allin

-- The loop over the sorted players; the last argument is `actual_pos_to_play_last`.
unfoldable pub last_position_loop : Poker → List ℕ → Option ℕ → Result (Option ℕ)
last_position_loop poker [] actual = ok actual
last_position_loop poker (a ∷ sorted) actual = elim (deref a poker.players) [
  | none ↦ fault null_pointer
  | some p ↦
      let rest =
        last_position_loop poker sorted
          (if still_in p && ltb p.bet poker.current_bet then some p.position else actual) in
      if is_at poker.last_raised_pos p.position && still_in p then ok (some p.position) else rest
]

-- `pkrsrv_poker_get_last_playing_position`
unfoldable pub get_last_playing_position : Poker → Result (Option ℕ)
unfolding last_position_loop
get_last_playing_position poker = elim poker.last_raised_pos [
  | none ↦
      follow poker.bb_player >>= λ a. follow (deref a poker.players) >>= λ p. ok (some p.position)
  | some pos ↦ last_position_loop poker poker.sorted_players none
]

-- `is_last_to_act`, for the player's position and the count of playing players.
unfoldable pub is_last_to_act : Poker → ℕ → ℕ → Result Bool
unfolding get_last_playing_position
is_last_to_act poker position playing_count = get_last_playing_position poker >>= λ actual. ok (
    if is_none poker.last_raised_pos
    then poker.synced_action_counter == playing_count
    else is_at actual position)

abbrev pub last_address : List ℕ → Option ℕ
last_address [] = none
last_address (a ∷ []) = some a
last_address (a ∷ b ∷ l) = last_address (b ∷ l)

abbrev pub first_address : List ℕ → Option ℕ
first_address [] = none
first_address (a ∷ l) = some a

-- `poker->playing_position++` and the turn from the last seat to the first.
abbrev pub next_position : ℕ → ℕ → Option ℕ → ℕ
next_position first last none = if ltb last 0 then first else 0
next_position first last (some p) = if ltb last (p + 1) then first else p + 1

-- The test that sends the loop round again, negated.
abbrev pub can_act : Option Player → Bool
can_act none = false
can_act (some p) = player_is_playing p

-- The loop at NEXT_PLAYER, with fuel. `endless` says that the fuel ran out.
unfoldable pub next_player : ℕ → List Player → List ℕ → ℕ → ℕ → Option ℕ → Result ℕ
next_player zero ps sorted first last pos = fault endless
next_player (suc fuel) ps sorted first last pos =
    let n = next_position first last pos in
    getby_position_in_sorted ps sorted n >>= λ o. elim (can_act o) [
      | true ↦ ok n
      | false ↦ next_player fuel ps sorted first last (some n)
    ]

-- Enough rounds to pass every seat once from any seat.
abbrev pub turn_fuel : ℕ → ℕ
turn_fuel last = 2 * last + 3

-- The position that the loop leaves in `poker->playing_position`.
unfoldable pub turn_position : Poker → Result ℕ
unfolding next_player
turn_position poker = follow (last_address poker.sorted_players) >>= λ z.
    follow (deref z poker.players) >>= λ last. follow (first_address poker.sorted_players) >>= λ a.
    follow (deref a poker.players) >>= λ first.
    next_player (turn_fuel last.position) poker.players poker.sorted_players first.position
      last.position poker.playing_position

-- From NEXT_PLAYER to NEXT_PLAYER_CHECKED.
unfoldable pub pass_turn : Poker → Result Poker
unfolding turn_position
pass_turn poker = turn_position poker >>= λ n. ok (record poker { playing_position = some n })

-- A drawn card, and the machine with its history and the values of rand() that are left.
abbrev pub Dealing : Type 0
Dealing = Poker × List Draw

unfoldable pub draw_card : Dealing → Result (Card × Dealing)
draw_card (poker, draws) = get_random draws poker.card_history >>= λ (c, h, rest).
    ok (c, (record poker { card_history = h }, rest))

unfoldable pub deal_flop : Dealing → Result Dealing
unfolding draw_card
deal_flop d = draw_card d >>= λ (a, d1). draw_card d1 >>= λ (b, d2). draw_card d2 >>= λ (c, d3).
    ok (
      record (d3.0) {
        hand_flop = record (d3.0.hand_flop) { card0 = some a; card1 = some b; card2 = some c };
      },
      d3.1,
    )

unfoldable pub deal_turn : Dealing → Result Dealing
unfolding draw_card
deal_turn d = draw_card d >>= λ (a, d1).
    ok (record (d1.0) { hand_turn = record (d1.0.hand_turn) { card0 = some a } }, d1.1)

unfoldable pub deal_river : Dealing → Result Dealing
unfolding draw_card
deal_river d = draw_card d >>= λ (a, d1).
    ok (record (d1.0) { hand_river = record (d1.0.hand_river) { card0 = some a } }, d1.1)
