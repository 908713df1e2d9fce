-- ===== src/Tests/Lobby.antt =====
-- The theorems on src/account.c and src/lobby.c at the table of the tests, and runs that lose or make
-- chips.
use pokerunicorn_server.Prelude.{
  ◌+◌, ◌-◌, ◌≡◌, ◌⊎◌, ◌++◌, refl, Bool, true, false, some, [], ◌∷◌, arith, add64, sub64,
  if◌then◌else◌,
}
use pokerunicorn_server.Prelude.Result.{Result, ok, fault}
use pokerunicorn_server.Card.Draw.{get_random}
use pokerunicorn_server.Poker.Types.{Player, write}
use pokerunicorn_server.Poker.Store.{chips}
use pokerunicorn_server.Poker.Players.{unlink, getby_position_in_sorted}
use pokerunicorn_server.Poker.Betting.{get_current_hand}
use pokerunicorn_server.Account.{lock_balance, unlock_balance, fetch}
use pokerunicorn_server.Account.Db.{Database}
use pokerunicorn_server.Account.Balance.{with_balances, lock_then_unlock}
use pokerunicorn_server.Account.Failures.{lock_balance_outcomes}
use pokerunicorn_server.Lobby.Types.{World}
use pokerunicorn_server.Lobby.Session.{enter_session}
use pokerunicorn_server.Lobby.Seats.{is_idle, join_session, unjoin_session}
use pokerunicorn_server.Lobby.Seats.Join.{join_session_pays, endowed}
use pokerunicorn_server.Lobby.Seats.Unjoin.{unjoin_session_pays, leaving}
use pokerunicorn_server.Lobby.Seats.RoundTrip.{join_then_unjoin}
use pokerunicorn_server.Lobby.Handlers.{on_client_join}
use pokerunicorn_server.Lobby.Handlers.Refusal.{IsUntouched, on_client_join_refused}
use pokerunicorn_server.Tests.Game.{player, seated, started}
use pokerunicorn_server.Tests.Bank.{
  Bank, bank, bank_up, bank-IsDatabase, row, account, db, account-IsCurrent, waiting, watcher,
  watched, world,
}

join_session_pays_example :
    (x : World Bank) × (join_session bank 7 10 world 3000 0 ≡ ok (x, true))
    × (bank.row 1 x.db ≡ some (with_balances (row 5000 0) (5000 - 3000) (0 + 3000)))
    × (chips x.session.poker.players ≡ chips world.session.poker.players + 3000)
    × ((q : Player) × (q.addr ≡ 10)
        × (q.account ≡ 1)
        × (x.session.poker.players ≡ world.session.poker.players ++ (endowed 3000 q ∷ [])))
unfolding world waiting
join_session_pays_example =
    join_session_pays bank bank-IsDatabase bank_up 7 10 world (account 5000 0) (row 5000 0) 3000 0
      watcher watched refl refl refl refl account-IsCurrent (omega arith) (omega arith)
      (ground arith) (omega arith)

join_then_unjoin_example :
    (x : World Bank) × (join_session bank 7 10 world 3000 0 ≡ ok (x, true))
    × ((y : World Bank) × (unjoin_session bank x ≡ ok (y, true))
        × (bank.row 1 y.db ≡ some (row 5000 0))
        × (y.session.poker.players ≡ world.session.poker.players))
unfolding world waiting
join_then_unjoin_example =
    join_then_unjoin bank bank-IsDatabase bank_up 7 10 world (account 5000 0) (row 5000 0) 3000 0
      watcher watched refl refl refl refl refl refl account-IsCurrent (omega arith) (omega arith)
      (ground arith) (omega arith)

-- The account 1 has joined, with 400 chips of an entrance of 3000 left.
abbrev pub seat : Player
seat = record (player 10 1 0) { enterance_balance = 3000; balance = 400 }

unfoldable joined : World Bank
unfolding world waiting
joined = record world {
  client = record (world.client) { sessions = record watched { is_joined = true } ∷ [] };
  session = record (world.session) {
    poker = record waiting { players = waiting.players ++ (seat ∷ []) };
    joined_clients_count = 2;
  };
  db = record { now = row 2000 3000; saved = row 0 0 };
}

unjoin_session_pays_example :
    let left = write 10 leaving joined.session.poker.players in
    (x : World Bank) × (unjoin_session bank joined ≡ ok (x, true))
    × (bank.row 1 x.db ≡ some (with_balances (row 2000 3000) (2000 + 400) (3000 - 3000)))
    × (x.session.poker.players
        ≡ (if is_idle joined.session.poker.state then unlink 10 left else left))
unfolding joined world waiting
unjoin_session_pays_example =
    unjoin_session_pays bank bank-IsDatabase bank_up joined (account 5000 0) (row 2000 3000) seat
      watcher (record watched { is_joined = true }) refl refl refl refl refl refl (omega arith)
      (record { balance = omega arith; locked_balance = omega arith }) (omega arith)

-- A join with more than the account has.
abbrev dear : Result (World Bank × Bool)
unfolding on_client_join
dear = on_client_join bank 7 10 true world (record { enterance_amount = 6000; position = 0 })

abbrev pub world_of : Result (World Bank × Bool) → World Bank
world_of (ok x) = x.0
world_of (fault e) = world

on_client_join_refused_example : IsUntouched world (world_of dear)
unfolding dear on_client_join world waiting
on_client_join_refused_example =
    on_client_join_refused bank 7 10 true world (world_of dear)
      (record { enterance_amount = 6000; position = 0 }) refl

lock_then_unlock_example :
    let locked = lock_balance bank db (account 5000 0) 3000 in
    let unlocked = unlock_balance bank locked.db (account 2000 3000) 3000 in
    (unlocked.retval ≡ true) × (bank.row 1 unlocked.db ≡ some (row 5000 0))
unfolding lock_balance fetch add64 sub64
lock_then_unlock_example =
    lock_then_unlock bank bank-IsDatabase bank_up db (account 5000 0) (account 2000 3000)
      (row 5000 0) 3000 account-IsCurrent (omega arith) (omega arith) refl

lock_balance_outcomes_example :
    let o = lock_balance bank db (account 5000 0) 3000 in
    (o.retval ≡ true)
    × ((bank.row 1 o.db ≡ some (row 5000 0))
        ⊎ (bank.row 1 o.db ≡ some (with_balances (row 5000 0) (5000 - 3000) 0))
        ⊎ (bank.row 1 o.db ≡ some (with_balances (row 5000 0) (5000 - 3000) (0 + 3000))))
lock_balance_outcomes_example =
    lock_balance_outcomes bank bank-IsDatabase db (account 5000 0) (row 5000 0) 3000
      account-IsCurrent (omega arith) (omega arith)

-- A database that refuses every statement for a lock.
abbrev down : Database Bank
down = record bank { select_for_update = λ i d. (d, false) }

abbrev seated_free : World Bank
unfolding join_session world waiting
seated_free = world_of (join_session down 7 10 world 3000 0)

-- The seat is taken with 3000 chips, and the row pays nothing for them.
seated_free_lem :
    (chips seated_free.session.poker.players ≡ chips world.session.poker.players + 3000)
    × (bank.row 1 seated_free.db ≡ some (row 5000 0))
unfolding seated_free join_session world waiting
seated_free_lem = (refl, refl)

-- The account 1 plays a hand, with 4950 chips behind its blind.
unfoldable playing : World Bank
unfolding started world waiting
playing = record world {
  client = record (world.client) { sessions = record watched { is_joined = true } ∷ [] };
  session = record (world.session) { poker = started };
  db = record { now = row 0 5000; saved = row 0 0 };
}

-- It leaves the hand, joins again with 1000 chips, and leaves once more.
unfoldable paid_twice : World Bank
unfolding unjoin_session join_session playing
paid_twice = world_of (
    unjoin_session bank
      (world_of (join_session bank 7 30 (world_of (unjoin_session bank playing)) 1000 5)))

-- Its 4950 chips are paid out both times.
paid_twice_lem :
    (bank.row 1 (world_of (unjoin_session bank playing)).db ≡ some (row 4950 5000))
    × (bank.row 1 paid_twice.db ≡ some (row (3950 + 4950) 6000))
unfolding paid_twice unjoin_session join_session playing started world waiting seated
    get_current_hand sub64 getby_position_in_sorted get_random add64
paid_twice_lem = (refl, refl)

-- The account 1 enters the table that it does not watch yet.
abbrev outside : World Bank
unfolding world waiting
outside = record world {
  client = record (world.client) { sessions = [] };
  session = record (world.session) { clients = [] };
}

abbrev inside : World Bank
unfolding enter_session outside
inside = (enter_session bank outside).0
