-- ===== src/Lobby/Session.antt =====
-- A session of src/lobby.c: made, started and stopped, and the clients that watch it.
pub mod Enter
use pokerunicorn_server.Prelude.{
  ℕ, Bool, true, false, none, some, List, [], ◌∷◌, ◌++◌, if◌then◌else◌, ◌==◌, find,
}
use pokerunicorn_server.Poker.Types.{Table}
use pokerunicorn_server.Poker.Round.{poker_new}
use pokerunicorn_server.Account.{Account}
use pokerunicorn_server.Account.Db.{Database}
use pokerunicorn_server.Lobby.Types.{
  Session, Work, TaskCall, World, incr, session_client_getby_account_id,
}

-- `pkrsrv_lobby_session_new` where the database is reached, for a table with the id `table_id`. The
-- table's two counters are 0, as `on_client_enter` sets them, and the machine's memory is what the
-- allocator left.
unfoldable pub session_new : ℕ → ℕ → ℕ → ℕ → Table → ℕ → Session
unfolding poker_new
session_new id table_id enterance_min enterance_max table memory = record {
  id = id;
  table = table_id;
  enterance_min = enterance_min;
  enterance_max = enterance_max;
  players_count = 0;
  watchers_count = 0;
  poker = poker_new table memory;
  is_running = false;
  proceed_task = false;
  poker_start_task = false;
  poker_restart_task = false;
  clients = [];
  joined_clients_count = 0;
}

-- `pkrsrv_lobby_session_start`
unfoldable pub session_start : Session → Session × List TaskCall
session_start session =
    (record session { is_running = true; proceed_task = true }, TaskCall.call Work.proceed ∷ [])

-- `pkrsrv_lobby_session_stop`
unfoldable pub session_stop : Session → Session × List TaskCall
session_stop session = (
  record session {
    is_running = false;
    poker_start_task = false;
    poker_restart_task = false;
    proceed_task = true;
  },
  stopped session.poker_start_task Work.start
      ++ stopped session.poker_restart_task Work.restart
      ++ (if session.proceed_task then [] else TaskCall.call Work.proceed ∷ []),
)
  where
    stopped : Bool → Work → List TaskCall
    stopped is_set work = if is_set then TaskCall.cancel work ∷ TaskCall.leave work ∷ [] else []

-- `pkrsrv_table_set_players_num` on the table of the session.
unfoldable pub set_players_num : {D : Type 0} → Database D → World D → ℕ → World D
set_players_num ops w num = record w {
  session = record (w.session) { players_count = num };
  db = ops.set_players_num w.session.table num w.db;
}

-- `pkrsrv_table_set_watchers_num` on the table of the session.
unfoldable pub set_watchers_num : {D : Type 0} → Database D → World D → ℕ → World D
set_watchers_num ops w num = record w {
  session = record (w.session) { watchers_count = num };
  db = ops.set_watchers_num w.session.table num w.db;
}

module _ {D : Type 0} (ops : Database D) where
  -- `pkrsrv_lobby_client_enter_session`
  unfoldable pub enter_session : World D → World D × Bool
  unfolding set_watchers_num
  enter_session w = elim w.client.account [
    | none ↦ (w, false)
    | some account ↦ elim (session_client_getby_account_id w.session account.id) [
      | some existing ↦ (w, false)
      | none ↦ elim (find (λ p. p.account == account.id) w.session.poker.players) [
        | some player ↦ (w, false)
        | none ↦ (set_watchers_num ops (entered account) (incr w.session.watchers_count), true)
      ]
    ]
  ]
    where
      entered : Account → World D
      entered account = record w {
        client = record (w.client) {
          sessions =
              w.client.sessions
              ++ (record { session = w.session.id; table = w.session.table; is_joined = false }
                  ∷ []);
        };
        session = record (w.session) {
          clients =
              w.session.clients
              ++ (record { account = account.id; socket = w.client.socket; is_joined = false }
                  ∷ []);
        };
      }
