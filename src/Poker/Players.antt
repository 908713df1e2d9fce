-- ===== src/Poker/Players.antt =====
-- The players of the machine: the lookups, the counts, the balances, who joins and who leaves.
pub mod Seating
use pokerunicorn_server.Prelude.{
  ◌<◌, ◌≡◌, add64_exact, u64_mod, ℕ, zero, suc, ◌+◌, ◌-◌, ◌%◌, Bool, true, false, not, ◌&&◌, Option,
  none, some, List, [], ◌∷◌, ◌++◌, map, if◌then◌else◌, ◌==◌, ltb, leb, is_none, find, length,
  get_elem?, count_if, add64, sub64,
}
use pokerunicorn_server.Prelude.Result.{Result, ok, fault, null_pointer, ◌>>=◌}
use pokerunicorn_server.Exchange.{exchange_sort}
use pokerunicorn_server.Poker.Types.{
  Player, Poker, State, w4p, small_blind, state_lt, state_le, deref,
}

-- `pkrsrv_poker_player_set_balance`, which always returns true.
abbrev pub set_balance : Player → ℕ → Player
set_balance p amount = record p { balance = amount }

-- `pkrsrv_poker_player_remove_balance`: `none` is the result false, with nothing changed.
unfoldable pub remove_balance : Player → ℕ → Option Player
remove_balance p amount =
    if ltb p.balance amount then none else some (set_balance p (sub64 p.balance amount))

-- `pkrsrv_poker_player_add_balance`, which always returns true.
unfoldable pub add_balance : Player → ℕ → Player
add_balance p amount = record p { balance = add64 p.balance amount }

pub add_balance_lem :
    (p : Player) (n : ℕ) → p.balance + n < u64_mod → (add_balance p n).balance ≡ p.balance + n
unfolding add_balance
add_balance_lem p n h = add64_exact p.balance n h

-- `pkrsrv_poker_player_is_playing`
abbrev pub player_is_playing : Player → Bool
player_is_playing p = p.is_playing && not p.is_folded && not p.is_allin

-- The condition of the ingame count and of the search for a winner.
abbrev pub player_is_ingame : Player → Bool
player_is_ingame p = p.is_playing && not p.is_folded

-- `pkrsrv_poker_players_get_playable_count`
abbrev pub get_playable_count : List Player → ℕ
get_playable_count ps = count_if (λ p. not p.is_left) ps

-- `pkrsrv_poker_players_get_playing_count`
abbrev pub get_playing_count : List Player → ℕ
get_playing_count ps = count_if player_is_playing ps

-- `pkrsrv_poker_players_get_ingame_count`
abbrev pub get_ingame_count : List Player → ℕ
get_ingame_count ps = count_if player_is_ingame ps

-- `pkrsrv_poker_players_get_mustplay_count`
abbrev pub get_mustplay_count : ℕ → List Player → ℕ
get_mustplay_count current_bet ps = count_if must_play ps
  where
    must_play : Player → Bool
    must_play p =
        p.is_playing && not p.is_left && not p.is_folded && not p.is_allin && ltb p.bet current_bet

-- `pkrsrv_poker_players_getby_index`
abbrev pub getby_index : List Player → ℕ → Option Player
getby_index ps i = get_elem? ps i

-- `pkrsrv_poker_players_getby_id`
abbrev pub getby_id : List Player → ℕ → Option Player
getby_id ps id = find (λ p. p.account == id) ps

-- `pkrsrv_poker_players_getby_position`
abbrev pub getby_position : List Player → ℕ → Option Player
getby_position ps pos = find (λ p. p.position == pos) ps

-- `pkrsrv_poker_players_getby_position_in_sorted`, over the addresses that the array holds.
unfoldable pub getby_position_in_sorted : List Player → List ℕ → ℕ → Result (Option Player)
getby_position_in_sorted ps [] pos = ok none
getby_position_in_sorted ps (a ∷ sorted) pos = elim (deref a ps) [
  | none ↦ fault null_pointer
  | some p ↦ if p.position == pos then ok (some p) else getby_position_in_sorted ps sorted pos
]

-- `pkrsrv_poker_players_get_sorted`: exchange where `result[j]->position > result[i]->position`.
unfoldable pub get_sorted : List Player → List ℕ
unfolding exchange_sort
get_sorted ps = map (λ p. p.addr) (exchange_sort (λ x y. ltb x.position y.position) ps)

-- `pkrsrv_poker_player_new`, at the address that the allocator gives. Its position, -1, is set by its
-- one caller at once.
unfoldable pub player_new : ℕ → ℕ → ℕ → Player
player_new addr account position = record {
  addr = addr;
  account = account;
  card0 = none;
  card1 = none;
  is_playing = false;
  is_dealt = false;
  is_folded = false;
  is_left = false;
  is_allin = false;
  position = position;
  enterance_balance = 0;
  balance = 0;
  bet = 0;
}

-- `pkrsrv_poker_players_add`. The second part is its result.
unfoldable pub players_add : Poker → Player → Poker × Bool
unfolding get_sorted
players_add poker player =
    if ltb poker.table.max_players (length poker.players)
    then (poker, false)
    else (record joined { sorted_players = get_sorted joined.players }, true)
  where
    player' : Player
    player' = record player { is_playing = state_lt poker.state State.small_blind }

    appended : Poker
    appended = record poker { players = poker.players ++ (player' ∷ []) }

    joined : Poker
    joined =
        if is_none poker.sb_player
        then record appended {
          playing_position = some player.position;
          sb_player = some player.addr;
        }
        else if is_none poker.bb_player
        then record appended { bb_player = some player.addr }
        else appended

-- `pkrsrv_poker_players_addby_account`. `addr` is the address of the new player; the result is null
-- where the table is over-full. A table is taken to have a `max_players` that is not 0, by which the
-- code divides.
unfoldable pub players_addby_account : Poker → ℕ → ℕ → ℕ → Poker × Option ℕ
unfolding players_add player_new
players_addby_account poker addr account position =
    if ltb poker.table.max_players (length poker.players)
    then (poker, none)
    else ((players_add poker player).0, some addr)
  where
    player : Player
    player = record (player_new addr account (position % poker.table.max_players)) {
      is_playing = state_le poker.state State.w4p;
    }

-- `LIST_REMOVE` of the player at an address.
abbrev pub unlink : ℕ → List Player → List Player
unlink a [] = []
unlink a (p ∷ ps) = if p.addr == a then ps else p ∷ unlink a ps

-- `pkrsrv_poker_players_remove`
unfoldable pub players_remove : Poker → ℕ → Poker
unfolding get_sorted
players_remove poker addr = record poker {
  players = unlink addr poker.players;
  sorted_players = get_sorted (unlink addr poker.players);
}
