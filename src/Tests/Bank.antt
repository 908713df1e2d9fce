-- ===== src/Tests/Bank.antt =====
-- A database with one account, and a table where one player waits.
use pokerunicorn_server.Prelude.{
  ℕ, ◌≡◌, refl, ap, true, false, Option, none, some, [], ◌∷◌, ◌==◌, if◌then◌else◌, arith,
}
use pokerunicorn_server.Poker.Types.{Poker}
use pokerunicorn_server.Poker.Players.{players_add}
use pokerunicorn_server.Poker.Round.{poker_new, poker_ready}
use pokerunicorn_server.Account.{Account}
use pokerunicorn_server.Account.Db.{Row, Database, IsDatabase}
use pokerunicorn_server.Account.Balance.{Answers, IsCurrent}
use pokerunicorn_server.Lobby.Types.{SessionClient, ClientSession, World}
use pokerunicorn_server.Tests.Game.{table, player}

-- The row of the account 1, and what it was when the transaction began.
pub record Bank : Type 0 where
  pub now : Row
  pub saved : Row

abbrev pub row_of : ℕ → Bank → Option Row
row_of i d = if i == 1 then some (d.now) else none

abbrev pub bank : Database Bank
bank = record {
  row = row_of;
  select_for_update = λ i d. (d, true);
  update_balance =
      λ i n d. (record d { now = if i == 1 then record (d.now) { balance = n } else d.now }, true);
  update_locked_balance = λ i n d.
      (record d { now = if i == 1 then record (d.now) { locked_balance = n } else d.now }, true);
  set_players_num = λ t n d. d;
  set_watchers_num = λ t n d. d;
  begin = λ d. record d { saved = d.now };
  commit = λ d. d;
  rollback = λ d. record d { now = d.saved };
}

pub bank_up : Answers bank
bank_up = record { select = λ i d. refl; balance = λ i n d. refl; locked = λ i n d. refl }

pub bank-IsDatabase : IsDatabase bank
bank-IsDatabase = record {
  opened = λ c d. d.saved ≡ c.now;
  select_row = λ i k d. refl;
  balance_row = λ i n d h. ground arith;
  balance_failed = λ i n k d h. absurd (h refl);
  balance_other = λ i n k d h. ground (arith, h);
  locked_row = λ i n d h. ground arith;
  locked_failed = λ i n k d h. absurd (h refl);
  locked_other = λ i n k d h. ground (arith, h);
  players_row = λ t n k d. refl;
  watchers_row = λ t n k d. refl;
  begin_row = λ k d. refl;
  begin_opened = λ d. refl;
  select_opened = λ c d i o h. o;
  balance_opened = λ c d i n o h. o;
  locked_opened = λ c d i n o h. o;
  commit_row = λ c d k o. refl;
  rollback_row = λ c d k o. ap (λ (r : Row). if k == 1 then some r else none) o;
}

abbrev pub row : ℕ → ℕ → Row
row balance locked = record {
  name = [];
  avatar = [];
  xmr_deposit_address = [];
  xmr_deposit_address_index = 0;
  balance = balance;
  locked_balance = locked;
  total_deposited = 0;
  xmr_height = 0;
}

abbrev pub account : ℕ → ℕ → Account
account balance locked = record {
  id = 1;
  name = [];
  avatar = [];
  xmr_deposit_address = [];
  xmr_deposit_address_index = 0;
  balance = balance;
  locked_balance = locked;
  total_deposited = 0;
  xmr_height = 0;
}

abbrev pub db : Bank
db = record { now = row 5000 0; saved = row 0 0 }

pub account-IsCurrent : IsCurrent bank db (account 5000 0) (row 5000 0)
account-IsCurrent = record { here = refl; same_balance = refl; same_locked = refl }

-- The account 2 sits at the position 3 and waits.
unfoldable pub waiting : Poker
unfolding poker_new poker_ready players_add
waiting = (players_add (poker_ready (poker_new table 0)) (player 20 2 3)).0

abbrev pub watcher : SessionClient
watcher = record { account = 1; socket = 5; is_joined = false }

abbrev pub watched : ClientSession
watched = record { session = 77; table = 9; is_joined = false }

-- The client of the account 1 watches the table.
unfoldable pub world : World Bank
unfolding waiting
world = record {
  client = record { account = some (account 5000 0); socket = 5; sessions = watched ∷ [] };
  session = record {
    id = 77;
    table = 9;
    enterance_min = 1000;
    enterance_max = 5000;
    players_count = 1;
    watchers_count = 2;
    poker = waiting;
    is_running = true;
    proceed_task = true;
    poker_start_task = false;
    poker_restart_task = false;
    clients = record { account = 2; socket = 4; is_joined = true } ∷ watcher ∷ [];
    joined_clients_count = 1;
  };
  db = db;
  calls = [];
}
