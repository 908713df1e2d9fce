-- ===== src/Lobby/Seats/Unjoin.antt =====
-- The money and the players of `pkrsrv_lobby_client_unjoin_session` in src/lobby.c.
use pokerunicorn_server.Prelude.{
  ℕ, ◌+◌, ◌-◌, ◌≤◌, ◌<◌, ◌≡◌, ◌∙◌, refl, ap, subst, true, false, some, ltb, arith, if_either,
  if◌then◌else◌, le→not_ltb, u64_mod, add64, sub64, add64_exact, sub64_exact,
}
use pokerunicorn_server.Prelude.Result.{ok}
use pokerunicorn_server.Poker.Types.{Player, Poker, write}
use pokerunicorn_server.Poker.Players.{players_remove, unlink, getby_id}
use pokerunicorn_server.Account.{
  Account, update_balance, update_locked_balance, remove_locked_balance, add_balance, fetch,
}
use pokerunicorn_server.Account.Db.{Database, IsDatabase, Row, with_balance, with_locked_balance}
use pokerunicorn_server.Account.Balance.{
  Answers, IsCurrent, IsReadable, with_balances, update_balance_lem, fetch_lem,
}
use pokerunicorn_server.Lobby.Types.{
  SessionClient, ClientSession, World, decr, session_client_getby_account_id,
  client_session_getby_session_id,
}
use pokerunicorn_server.Lobby.Session.{set_players_num}
use pokerunicorn_server.Lobby.Seats.{
  is_idle, pay_out, stand_up, drop_tasks, give_up_seat, unjoin_joined, unjoin_session, mark_joined,
}

abbrev pub leaving : Player → Player
leaving p = record p { is_left = true }

stand_up-players :
    (poker : Poker) (addr : ℕ)
    → (stand_up poker addr).players
      ≡ (if is_idle poker.state then unlink addr poker.players else poker.players)
unfolding stand_up players_remove
stand_up-players poker addr = ground arith

drop_tasks_lem :
    {D : Type 0} (w : World D)
    → let x = drop_tasks w in
      (x.session.poker ≡ w.session.poker) × (x.db ≡ w.db) × (x.client ≡ w.client)
unfolding drop_tasks
drop_tasks_lem {D} w =
    if_either
      (λ (x : World D). (x.session.poker ≡ w.session.poker) × (x.db ≡ w.db) × (x.client ≡ w.client))
      _ (refl, refl, refl) (refl, refl, refl)

update_balance_opened :
    {D : Type 0} (ops : Database D) (laws : IsDatabase ops)
    → Answers ops
    → (c db : D) (a : Account) (n : ℕ) → laws.opened c db
    → laws.opened c (update_balance ops db a n).db
unfolding update_balance
update_balance_opened ops laws up c db a n op =
    let s = ops.select_for_update a.id db in
    rw (up.select a.id db, up.balance a.id n s.0)
      (laws.balance_opened c s.0 a.id n (laws.select_opened c db a.id op (up.select a.id db))
        (up.balance a.id n s.0))

module _ {D : Type 0} (ops : Database D) (laws : IsDatabase ops) (up : Answers ops) where
  remove_locked_balance_lem :
      (c db : D) (a : Account) (r : Row) (n : ℕ)
      → IsCurrent ops db a r
      → n ≤ r.locked_balance
      → r.locked_balance < u64_mod
      → laws.opened c db
      → let o = remove_locked_balance ops db a n in
        (o.retval ≡ true)
        × (o.account ≡ a)
        × (ops.row a.id o.db ≡ some (with_balances r r.balance (r.locked_balance - n)))
        × laws.opened c o.db
  unfolding remove_locked_balance update_locked_balance
  remove_locked_balance_lem c db a r n k h f op =
      let locked : sub64 a.locked_balance n ≡ r.locked_balance - n =
        rw (k.same_locked) (sub64_exact r.locked_balance n h f) in
      let test : ltb a.locked_balance n ≡ false =
        le→not_ltb a.locked_balance n (omega (arith, k.same_locked, h)) in
      let l = r.locked_balance - n in
      let answer = up.locked a.id l db in
      (
        rw test refl,
        rw test refl,
        rw (test, locked) (laws.locked_row a.id l db answer ∙ ap (with_locked_balance l) k.here),
        rw (test, locked) (laws.locked_opened c db a.id l op answer),
      )

  add_balance_lem :
      (c db : D) (a : Account) (r : Row) (n : ℕ)
      → ops.row a.id db ≡ some r
      → a.balance ≡ r.balance
      → r.balance + n < u64_mod
      → laws.opened c db
      → let o = add_balance ops db a n in
        (o.retval ≡ true)
        × (ops.row a.id o.db ≡ some (with_balances r (r.balance + n) r.locked_balance))
        × laws.opened c o.db
  unfolding add_balance
  add_balance_lem c db a r n here same g op =
      let sum : add64 a.balance n ≡ r.balance + n = rw same (add64_exact r.balance n g) in
      let (_, _, row) = update_balance_lem ops laws up db a (r.balance + n) in
      (
        refl,
        rw sum (row ∙ ap (with_balance (r.balance + n)) here),
        rw sum (update_balance_opened ops laws up c db a (r.balance + n) op),
      )

  -- The transaction is committed.
  pay_out_lem :
      (db : D) (a : Account) (p : Player) (r : Row)
      → IsCurrent ops db a r
      → p.enterance_balance ≤ r.locked_balance
      → r.locked_balance < u64_mod
      → r.balance + p.balance < u64_mod
      → let o = pay_out ops db a p in
        (o.retval ≡ true)
        × (ops.row a.id o.db
            ≡ some
                (with_balances r (r.balance + p.balance) (r.locked_balance - p.enterance_balance)))
  unfolding pay_out
  pay_out_lem db a p r c h f g =
      let begun = ops.begin db in
      let current : IsCurrent ops begun a r = record {
        here = laws.begin_row a.id db ∙ c.here;
        same_balance = c.same_balance;
        same_locked = c.same_locked;
      } in
      let (t, same, row, open1) =
        remove_locked_balance_lem db begun a r p.enterance_balance current h f
          (laws.begin_opened db) in
      let removed = remove_locked_balance ops begun a p.enterance_balance in
      let r' = with_balances r r.balance (r.locked_balance - p.enterance_balance) in
      let (t', row', open2) =
        add_balance_lem db removed.db a r' p.balance row c.same_balance g open1 in
      (
        simp (pay_out, t, same, t') refl,
        simp (pay_out, t, same, t')
            (laws.commit_row db (add_balance ops removed.db a p.balance).db a.id open2 ∙ row'),
      )

  give_up_seat_lem :
      (w : World D) (account a : Account) (p : Player)
      → fetch ops w.db account ≡ ok a
      → let left = write p.addr leaving w.session.poker.players in
        (x : World D) × (give_up_seat ops w account p ≡ ok (x, true))
        × ((n : ℕ) × (x.db ≡ ops.set_players_num w.session.table n (pay_out ops w.db a p).db))
        × (x.session.poker.players
            ≡ (if is_idle w.session.poker.state then unlink p.addr left else left))
  unfolding give_up_seat set_players_num
  give_up_seat_lem w account a p e =
      let paid = pay_out ops w.db a p in
      let left = write p.addr leaving w.session.poker.players in
      let out : World D = record w {
        client = record (w.client) { account = some (paid.account) };
        session = record (w.session) {
          poker = stand_up (record (w.session.poker) { players = left }) p.addr;
        };
        db = paid.db;
      } in
      let n = decr w.session.players_count in
      let (poker, db, _) = drop_tasks_lem (set_players_num ops out n) in
      (
        drop_tasks (set_players_num ops out n),
        simp (give_up_seat, e) refl,
        (n, db),
        ap (λ (q : Poker). q.players) poker
            ∙ stand_up-players (record (w.session.poker) { players = left }) p.addr,
      )

  unjoin_session_guards :
      (w : World D) (account : Account) (p : Player) (watcher : SessionClient)
      (watched : ClientSession)
      → w.client.account ≡ some account
      → session_client_getby_account_id w.session account.id ≡ some watcher
      → client_session_getby_session_id w.client w.session.id ≡ some watched
      → watched.is_joined ≡ true
      → getby_id w.session.poker.players account.id ≡ some p
      → unjoin_session ops w
        ≡ give_up_seat ops
            (mark_joined w account.id false (decr w.session.joined_clients_count))
            account
            p
  unfolding unjoin_session unjoin_joined
  unjoin_session_guards w account p watcher watched a b d j g =
      simp (unjoin_session, unjoin_joined, a, b, d, j, g)

  -- A client that is at the session and has joined unjoins, where the machine has a player of its
  -- account, no statement of the database fails, the row's two balances are less than 2^63 each, as
  -- a fetch reads them, the locked one covers the player's entrance, and the other one has room for
  -- the player's chips within 64 bits. The unjoin succeeds; the row loses the
  -- entrance from its locked balance and gains the chips of the first player of the account; and the
  -- player is marked as left, and leaves the list at once where no hand is being played.
  pub unjoin_session_pays :
      (w : World D) (account : Account) (r : Row) (p : Player)
      → (watcher : SessionClient) (watched : ClientSession) → w.client.account ≡ some account
      → session_client_getby_account_id w.session account.id ≡ some watcher
      → client_session_getby_session_id w.client w.session.id ≡ some watched
      → watched.is_joined ≡ true
      → getby_id w.session.poker.players account.id ≡ some p
      → ops.row account.id w.db ≡ some r
      → p.enterance_balance ≤ r.locked_balance
      → IsReadable r
      → r.balance + p.balance < u64_mod
      → let left = write p.addr leaving w.session.poker.players in
        (x : World D) × (unjoin_session ops w ≡ ok (x, true))
        × (ops.row account.id x.db
            ≡ some
                (with_balances r (r.balance + p.balance) (r.locked_balance - p.enterance_balance)))
        × (x.session.poker.players
            ≡ (if is_idle w.session.poker.state then unlink p.addr left else left))
  unfolding mark_joined
  unjoin_session_pays w account r p watcher watched a b d j g row h f room =
      let marked : World D = mark_joined w account.id false (decr w.session.joined_clients_count) in
      let (fetched, e, same, current) = fetch_lem ops w.db account r f row in
      let (x, e', db, players) = give_up_seat_lem marked account fetched p e in
      let (_, row') =
        pay_out_lem w.db fetched p r current h (omega (arith, f.locked_balance)) room in
      (
        x,
        unjoin_session_guards w account p watcher watched a b d j g ∙ e',
        ap (λ (k : D). ops.row account.id k) db.1
            ∙ laws.players_row w.session.table db.0 account.id (pay_out ops w.db fetched p).db
            ∙ subst
                (λ (i : ℕ).
                  ops.row i (pay_out ops w.db fetched p).db
                  ≡ some (
                      with_balances r (r.balance + p.balance)
                        (r.locked_balance - p.enterance_balance)))
                same row',
        players,
      )
