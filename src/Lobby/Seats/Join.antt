-- ===== src/Lobby/Seats/Join.antt =====
-- The money and the players of `pkrsrv_lobby_client_join_session` in src/lobby.c.
use pokerunicorn_server.Prelude.{
  ℕ, ◌+◌, ◌-◌, ◌≤◌, ◌<◌, ◌≡◌, ◌≢◌, ◌∙◌, refl, ap, sym, subst, true, false, some, List, [], ◌∷◌,
  ◌++◌, arith, if_either, All, length, u64_mod, ==_refl, ◌==◌,
}
use pokerunicorn_server.Prelude.Result.{ok}
use pokerunicorn_server.Poker.Types.{Player, Poker, write}
use pokerunicorn_server.Poker.Store.{chips}
use pokerunicorn_server.Poker.Players.{players_addby_account}
use pokerunicorn_server.Poker.Players.Seating.{
  players_addby_account_lem, players_addby_account-state,
}
use pokerunicorn_server.Account.{Account, lock_balance, set_balance}
use pokerunicorn_server.Account.Db.{Database, IsDatabase, Row}
use pokerunicorn_server.Account.Balance.{Answers, IsCurrent, worth, with_balances, lock_balance_lem}
use pokerunicorn_server.Lobby.Types.{
  LobbyClient, SessionClient, ClientSession, World, incr, update_first,
  session_client_getby_account_id, client_session_getby_session_id,
}
use pokerunicorn_server.Lobby.Session.{set_players_num}
use pokerunicorn_server.Lobby.Seats.{
  is_idle, plan_start, pay_in, endow, settle_join, take_seat, join_session, mark_joined, with_poker,
}

-- The new player with its chips.
abbrev pub endowed : ℕ → Player → Player
endowed amount p = record p { enterance_balance = amount; balance = amount }

-- A write at an address that only the last player has.
pub write_appended :
    (addr : ℕ) (f : Player → Player) (ps : List Player) (q : Player)
    → q.addr ≡ addr
    → All (λ p. p.addr ≢ addr) ps
    → write addr f (ps ++ (q ∷ [])) ≡ ps ++ (f q ∷ [])
write_appended addr f [] q k h = rw (k, ==_refl addr)
write_appended addr f (p ∷ ps) q k h = ground (arith, h.0, write_appended addr f ps q k h.1)

chips_appended : (ps : List Player) (q : Player) → chips (ps ++ (q ∷ [])) ≡ chips ps + q.balance
chips_appended [] q = omega arith
chips_appended (p ∷ ps) q = omega (arith, chips_appended ps q)

-- The plan to start is no one's money.
plan_start_lem :
    {D : Type 0} (now : ℕ) (w : World D)
    → let x = plan_start now w in
      (x.session.poker.players ≡ w.session.poker.players)
      × (x.db ≡ w.db)
      × (x.client ≡ w.client)
      × (x.session.clients ≡ w.session.clients)
      × (x.session.id ≡ w.session.id)
      × (is_idle w.session.poker.state ≡ true → is_idle x.session.poker.state ≡ true)
unfolding plan_start
plan_start_lem {D} now w =
    if_either
      (λ (x : World D).
        (x.session.poker.players ≡ w.session.poker.players)
        × (x.db ≡ w.db)
        × (x.client ≡ w.client)
        × (x.session.clients ≡ w.session.clients)
        × (x.session.id ≡ w.session.id)
        × (is_idle w.session.poker.state ≡ true → is_idle x.session.poker.state ≡ true))
      _ (refl, refl, refl, refl, refl, λ h. refl) (refl, refl, refl, refl, refl, λ h. h)

-- What else a join leaves: the account in memory, the two flags, and the stage of the machine.
pub record Settled {D : Type 0} (w : World D) (account : Account) (x : World D) : Type 0 where
  pub held : (a : Account) × (a.id ≡ account.id) × (x.client.account ≡ some a)
  pub sessions :
      x.client.sessions
      ≡ update_first
          (λ s. s.session == w.session.id)
          (λ s. record s { is_joined = true })
          w.client.sessions
  pub clients :
      x.session.clients
      ≡ update_first
          (λ c. c.account == account.id)
          (λ c. record c { is_joined = true })
          w.session.clients
  pub same_session : x.session.id ≡ w.session.id
  pub idle : is_idle w.session.poker.state ≡ true → is_idle x.session.poker.state ≡ true

module _ {D : Type 0} (ops : Database D) where
  settle_join_lem :
      (now : ℕ) (w : World D) (poker : Poker) (player : ℕ) (account : Account) (amount : ℕ)
      → let x = settle_join ops now w poker player account amount in
        let o = lock_balance ops w.db account amount in
        (x.session.poker.players ≡ (endow player amount poker).players)
        × ((n : ℕ) × (x.db ≡ ops.set_players_num w.session.table n o.db))
        × (x.client.account ≡ some (o.account))
        × (x.client.sessions ≡ w.client.sessions)
        × (x.session.clients ≡ w.session.clients)
        × (x.session.id ≡ w.session.id)
        × (is_idle poker.state ≡ true → is_idle x.session.poker.state ≡ true)
  unfolding settle_join pay_in set_players_num
  settle_join_lem now w poker player account amount =
      let seated : World D =
        with_poker (pay_in ops (with_poker w poker) account amount) (endow player amount poker) in
      let n = incr w.session.players_count in
      let (a, b, c, d, e, f) = plan_start_lem now (set_players_num ops seated n) in
      (
        a,
        (n, b),
        ap (λ (k : LobbyClient). k.account) c,
        ap (λ (k : LobbyClient). k.sessions) c,
        d,
        e,
        f,
      )

module _ {D : Type 0} (ops : Database D) (laws : IsDatabase ops) (up : Answers ops) where
  -- The join behind its guards.
  pub take_seat_lem :
      (now addr : ℕ) (w : World D) (account : Account) (r : Row) (amount position : ℕ)
      → IsCurrent ops w.db account r
      → amount ≤ r.balance
      → worth r < u64_mod
      → All (λ p. p.addr ≢ addr) w.session.poker.players
      → length w.session.poker.players ≤ w.session.poker.table.max_players
      → (x : World D) × (take_seat ops now addr w account amount position ≡ ok (x, true))
        × (ops.row account.id x.db
            ≡ some (with_balances r (r.balance - amount) (r.locked_balance + amount)))
        × ((q : Player) × (q.addr ≡ addr)
            × (q.account ≡ account.id)
            × (x.session.poker.players ≡ w.session.poker.players ++ (endowed amount q ∷ [])))
        × Settled w account x
  unfolding take_seat mark_joined
  take_seat_lem now addr w account r amount position c h f apart room =
      let marked : World D = mark_joined w account.id true (incr w.session.joined_clients_count) in
      let added = players_addby_account w.session.poker addr account.id position in
      let (at, (q, a, b, ps)) =
        players_addby_account_lem w.session.poker addr account.id position room in
      let x = settle_join ops now marked added.0 addr account amount in
      let (xp, xd, xa, xs, xc, xi, idle) =
        settle_join_lem ops now marked added.0 addr account amount in
      let (_, same, row) = lock_balance_lem ops laws up w.db account r amount c h f in
      (
        x,
        rw (take_seat, at) refl,
        ap (λ (d : D). ops.row account.id d) xd.1
            ∙ laws.players_row w.session.table xd.0 account.id _
            ∙ row,
        (
          q,
          a,
          b,
          xp
              ∙ ap (λ (l : List Player). write addr (endowed amount) l) ps
              ∙ write_appended addr (endowed amount) w.session.poker.players q a apart,
        ),
        record {
          held = (set_balance account (r.balance - amount), refl, xa ∙ ap some same);
          sessions = xs;
          clients = xc;
          same_session = xi;
          idle = λ h. idle (
              subst (λ s. is_idle s ≡ true)
                (sym (players_addby_account-state w.session.poker addr account.id position)) h);
        },
      )

  pub join_session_guards :
      (now addr : ℕ) (w : World D) (account : Account) (amount position : ℕ)
      → (watcher : SessionClient) (watched : ClientSession) → w.client.account ≡ some account
      → session_client_getby_account_id w.session account.id ≡ some watcher
      → client_session_getby_session_id w.client w.session.id ≡ some watched
      → watched.is_joined ≡ false
      → join_session ops now addr w amount position
        ≡ take_seat ops now addr w account amount position
  unfolding join_session
  join_session_guards now addr w account amount position watcher watched a b d j =
      simp (join_session, a, b, d, j)

  -- A client that is at the session and has not joined, with an account in memory that agrees with
  -- its row, and a row whose two balances together fit 64 bits, joins with no more than its
  -- balance, at a table with no more players than its limit, where no statement of the database
  -- fails and the new player's address is no other's. The join succeeds; the row's amount moves
  -- from the balance to the locked balance; and one player is added behind the others, the
  -- account's, with just that many chips.
  pub join_session_pays :
      (now addr : ℕ) (w : World D) (account : Account) (r : Row) (amount position : ℕ)
      → (watcher : SessionClient) (watched : ClientSession) → w.client.account ≡ some account
      → session_client_getby_account_id w.session account.id ≡ some watcher
      → client_session_getby_session_id w.client w.session.id ≡ some watched
      → watched.is_joined ≡ false
      → IsCurrent ops w.db account r
      → amount ≤ r.balance
      → worth r < u64_mod
      → All (λ p. p.addr ≢ addr) w.session.poker.players
      → length w.session.poker.players ≤ w.session.poker.table.max_players
      → (x : World D) × (join_session ops now addr w amount position ≡ ok (x, true))
        × (ops.row account.id x.db
            ≡ some (with_balances r (r.balance - amount) (r.locked_balance + amount)))
        × (chips x.session.poker.players ≡ chips w.session.poker.players + amount)
        × ((q : Player) × (q.addr ≡ addr)
            × (q.account ≡ account.id)
            × (x.session.poker.players ≡ w.session.poker.players ++ (endowed amount q ∷ [])))
  join_session_pays now addr w account r amount position watcher watched a b d j c h f apart room =
      let (x, e, row, (q, qa, qb, ps), _) =
        take_seat_lem now addr w account r amount position c h f apart room in
      (
        x,
        join_session_guards now addr w account amount position watcher watched a b d j ∙ e,
        row,
        ap (λ (l : List Player). chips l) ps
            ∙ chips_appended w.session.poker.players (endowed amount q),
        (q, qa, qb, ps),
      )
