-- ===== src/Lobby/Seats.antt =====
-- Taking a seat and giving it up: `pkrsrv_lobby_client_join_session`,
-- `pkrsrv_lobby_client_unjoin_session` and `pkrsrv_lobby_client_leave_session` of src/lobby.c. The
-- packets that they send and the order of the lobby's list of sessions are left out.
pub mod Join
pub mod Unjoin
pub mod RoundTrip
use pokerunicorn_server.Prelude.{
  ℕ, Bool, true, false, ◌&&◌, ◌||◌, Option, none, some, List, [], ◌∷◌, ◌++◌, if◌then◌else◌, ◌==◌,
  find, length,
}
use pokerunicorn_server.Prelude.Result.{Result, ok, fault, null_pointer, ◌>>=◌}
use pokerunicorn_server.Poker.Types.{Poker, Player, State, state_le, state_eq, write}
use pokerunicorn_server.Poker.Players.{players_addby_account, players_remove, getby_id}
use pokerunicorn_server.Poker.Round.{poker_starting}
use pokerunicorn_server.Account.{
  Account, Outcome, lock_balance, remove_locked_balance, add_balance, fetch,
}
use pokerunicorn_server.Account.Db.{Database}
use pokerunicorn_server.Lobby.Types.{
  SessionClient, ClientSession, LobbyClient, Session, Work, TaskCall, World, with_calls, incr, decr,
  session_client_getby_account_id, client_session_getby_session_id, update_first, remove_first,
}
use pokerunicorn_server.Lobby.Session.{set_players_num, set_watchers_num, session_stop}

-- The two flags of a client at a session, and the count of the clients that have joined.
unfoldable pub mark_joined : {D : Type 0} → World D → ℕ → Bool → ℕ → World D
mark_joined w account joined count = record w {
  client = record (w.client) {
    sessions =
        update_first (λ s. s.session == w.session.id) (λ s. record s { is_joined = joined })
          w.client.sessions;
  };
  session = record (w.session) {
    clients =
        update_first (λ c. c.account == account) (λ c. record c { is_joined = joined })
          w.session.clients;
    joined_clients_count = count;
  };
}

abbrev pub with_poker : {D : Type 0} → World D → Poker → World D
with_poker w poker = record w { session = record (w.session) { poker = poker } }

-- The chips that a new player starts with.
abbrev pub endow : ℕ → ℕ → Poker → Poker
endow addr amount poker = record poker {
  players =
      write addr (λ p. record p { enterance_balance = amount; balance = amount }) poker.players;
}

-- The start of the game is planned when the second player sits down.
unfoldable pub plan_start : {D : Type 0} → ℕ → World D → World D
unfolding poker_starting
plan_start now w =
    if (length w.session.poker.players == 2) && state_eq w.session.poker.state State.w4p
    then record w {
      session = record (w.session) {
        poker = poker_starting now w.session.poker;
        poker_start_task = true;
      };
      calls = w.calls ++ (TaskCall.hold Work.start ∷ TaskCall.call_after Work.start 10000 ∷ []);
    }
    else w

-- The stages in which no hand is being played.
abbrev pub is_idle : State → Bool
is_idle state = state_le state State.starting || state_eq state State.done

-- A player leaves the list at once where no hand is being played; one that is left alone waits.
unfoldable pub stand_up : Poker → ℕ → Poker
unfolding players_remove
stand_up poker addr =
    if is_idle poker.state
    then if (length removed.players == 1) && state_le poker.state State.starting
      then record removed { state = State.w4p }
      else removed
    else poker
  where
    removed : Poker
    removed = players_remove poker addr

-- The last client that has joined needs no game: the planned tasks are dropped.
unfoldable pub drop_tasks : {D : Type 0} → World D → World D
drop_tasks w =
    if w.session.joined_clients_count == 1
    then record w {
      session = record (w.session) { poker_start_task = false; poker_restart_task = false };
      calls =
          w.calls
          ++ dropped w.session.poker_start_task Work.start
          ++ dropped w.session.poker_restart_task Work.restart;
    }
    else w
  where
    dropped : Bool → Work → List TaskCall
    dropped is_set work = if is_set then TaskCall.leave work ∷ TaskCall.cancel work ∷ [] else []

module _ {D : Type 0} (ops : Database D) where
  -- What a join does to the account: its result is not looked at.
  unfoldable pub pay_in : World D → Account → ℕ → World D
  unfolding lock_balance
  pay_in w account amount = record w {
    client = record (w.client) { account = some (o.account) };
    db = o.db;
  }
    where
      o : Outcome D
      o = lock_balance ops w.db account amount

  -- The rest of a join once the machine holds the new player, at the address `player`.
  unfoldable pub settle_join : ℕ → World D → Poker → ℕ → Account → ℕ → World D
  unfolding pay_in set_players_num plan_start
  settle_join now w poker player account amount =
      plan_start now (set_players_num ops seated (incr w.session.players_count))
    where
      seated : World D
      seated = with_poker (pay_in (with_poker w poker) account amount) (endow player amount poker)

  -- The part of `pkrsrv_lobby_client_join_session` behind its guards, where the new player, if there is
  -- one, has the address `addr`.
  unfoldable pub take_seat : ℕ → ℕ → World D → Account → ℕ → ℕ → Result (World D × Bool)
  unfolding mark_joined players_addby_account settle_join
  take_seat now addr w account amount position = elim added.1 [
    | none ↦ fault null_pointer
    | some player ↦ ok (settle_join now marked added.0 player account amount, true)
  ]
    where
      marked : World D
      marked = mark_joined w account.id true (incr w.session.joined_clients_count)

      added : Poker × Option ℕ
      added = players_addby_account w.session.poker addr account.id position

  -- `pkrsrv_lobby_client_join_session`
  unfoldable pub join_session : ℕ → ℕ → World D → ℕ → ℕ → Result (World D × Bool)
  unfolding take_seat
  join_session now addr w amount position = elim w.client.account [
    | none ↦ ok (w, false)
    | some account ↦ elim (session_client_getby_account_id w.session account.id) [
      | none ↦ ok (w, false)
      | some session_client ↦ elim (client_session_getby_session_id w.client w.session.id) [
        | none ↦ ok (w, false)
        | some client_session ↦
            if client_session.is_joined
            then ok (w, false)
            else take_seat now addr w account amount position
      ]
    ]
  ]

  -- The transaction of an unjoin on the account `a`: the locked entrance goes, and the chips of the
  -- player come back. The second update is tried only after the first. The result tells which of
  -- `COMMIT` and `ROLLBACK` ended it, and nothing looks at it later.
  unfoldable pub pay_out : D → Account → Player → Outcome D
  unfolding remove_locked_balance add_balance
  pay_out db a player =
      if removed.retval
      then if added.retval
        then record added { db = ops.commit added.db }
        else record added { db = ops.rollback added.db }
      else record removed { db = ops.rollback removed.db }
    where
      removed : Outcome D
      removed = remove_locked_balance ops (ops.begin db) a player.enterance_balance

      added : Outcome D
      added = add_balance ops removed.db removed.account player.balance

  -- `pkrsrv_lobby_client_unjoin_session` from `player->is_left = true` on.
  unfoldable pub give_up_seat : World D → Account → Player → Result (World D × Bool)
  unfolding fetch pay_out stand_up set_players_num drop_tasks
  give_up_seat w account player = fetch ops w.db account >>= λ a.
      let paid = pay_out w.db a player in
      let left = write player.addr (λ p. record p { is_left = true }) w.session.poker.players in
      let out : World D = record w {
        client = record (w.client) { account = some (paid.account) };
        session = record (w.session) {
          poker = stand_up (record (w.session.poker) { players = left }) player.addr;
        };
        db = paid.db;
      } in
      ok (drop_tasks (set_players_num ops out (decr out.session.players_count)), true)

  -- `pkrsrv_lobby_client_unjoin_session` behind its guards.
  unfoldable pub unjoin_joined : World D → Account → Result (World D × Bool)
  unfolding mark_joined give_up_seat
  unjoin_joined w account = elim (getby_id w.session.poker.players account.id) [
    | none ↦ ok (marked, false)
    | some player ↦ give_up_seat marked account player
  ]
    where
      marked : World D
      marked = mark_joined w account.id false (decr w.session.joined_clients_count)

  -- `pkrsrv_lobby_client_unjoin_session`
  unfoldable pub unjoin_session : World D → Result (World D × Bool)
  unfolding unjoin_joined
  unjoin_session w = elim w.client.account [
    | none ↦ fault null_pointer
    | some account ↦ elim (session_client_getby_account_id w.session account.id) [
      | none ↦ ok (w, false)
      | some session_client ↦ elim (client_session_getby_session_id w.client w.session.id) [
        | none ↦ fault null_pointer
        | some client_session ↦
            if client_session.is_joined then unjoin_joined w account else ok (w, false)
      ]
    ]
  ]

  -- The part of `pkrsrv_lobby_client_leave_session` after the unjoin. The client that the session does
  -- not know is a null pointer that is followed.
  unfoldable pub go : World D → Result (World D)
  unfolding session_stop set_watchers_num
  go w = elim w.client.account [
    | none ↦ fault null_pointer
    | some account ↦ elim (session_client_getby_account_id w.session account.id) [
      | none ↦ fault null_pointer
      | some session_client ↦
          let out : World D = record w {
            client = record (w.client) {
              sessions = remove_first (λ s. s.session == w.session.id) w.client.sessions;
            };
            session = record (w.session) {
              clients = remove_first (λ c. c.account == account.id) w.session.clients;
            };
          } in
          ok (set_watchers_num ops (closed out) (decr out.session.watchers_count))
    ]
  ]
    where
      closed : World D → World D
      closed x =
          if length x.session.clients == 0
          then record x {
            session = (session_stop x.session).0;
            calls = x.calls ++ (session_stop x.session).1;
          }
          else x

  -- `pkrsrv_lobby_client_leave_session`
  unfoldable pub leave_session : World D → ClientSession → Result (World D × Bool)
  unfolding unjoin_session go
  leave_session w client_session =
      (if client_session.is_joined then unjoin_session w else ok (w, false)) >>= λ u.
      go u.0 >>= λ x. ok (x, true)
