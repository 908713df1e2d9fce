-- ===== src/Lobby/Seats/RoundTrip.antt =====
-- `pkrsrv_lobby_client_join_session` and then `pkrsrv_lobby_client_unjoin_session` of src/lobby.c.
use pokerunicorn_server.Prelude.{
  ℕ, ◌^◌, ◌+◌, ◌-◌, ◌≤◌, ◌<◌, ◌≡◌, ◌≢◌, ◌∙◌, refl, ap, sym, subst, Bool, true, false, none, some,
  List, [], ◌∷◌, ◌++◌, arith, inl, inr, Bool-cases, All, find, length, ==_refl, ◌==◌, if◌then◌else◌,
}
use pokerunicorn_server.Prelude.Result.{ok}
use pokerunicorn_server.Poker.Types.{Player, write}
use pokerunicorn_server.Poker.Players.{getby_id, unlink}
use pokerunicorn_server.Poker.Players.Seating.{unlink_appended}
use pokerunicorn_server.Account.{Account}
use pokerunicorn_server.Account.Db.{Database, IsDatabase, Row}
use pokerunicorn_server.Account.Balance.{Answers, IsCurrent, worth, with_balances}
use pokerunicorn_server.Lobby.Types.{
  SessionClient, ClientSession, World, session_client_getby_account_id,
  client_session_getby_session_id, update_first,
}
use pokerunicorn_server.Lobby.Seats.{is_idle, join_session, unjoin_session}
use pokerunicorn_server.Lobby.Seats.Join.{
  take_seat_lem, join_session_guards, endowed, write_appended,
}
use pokerunicorn_server.Lobby.Seats.Unjoin.{unjoin_session_pays, leaving}

-- A write to the element that a search finds, of what the search does not look at.
find-update_first :
    {A : Type 0} (p : A → Bool) (f : A → A) (xs : List A) (c : A)
    → ((x : A) → p (f x) ≡ p x)
    → find p xs ≡ some c
    → find p (update_first p f xs) ≡ some (f c)
find-update_first p f [] c k h = absurd (cc h)
find-update_first p f (x ∷ xs) c k h = elim (Bool-cases (p x)) [
  | inl s ↦ let same : x ≡ c = ground (arith, s, h) in rw (s, k x, s, same) refl
  | inr s ↦
      let there : find p xs ≡ some c = rw s at h in rw (s, s) (find-update_first p f xs c k there)
]

getby_id_appended :
    (ps : List Player) (q : Player) (id : ℕ)
    → q.account ≡ id
    → getby_id ps id ≡ none
    → getby_id (ps ++ (q ∷ [])) id ≡ some q
getby_id_appended [] q id k h = rw (k, ==_refl id)
getby_id_appended (p ∷ ps) q id k h = ground (arith, h, getby_id_appended ps q id k)

with_balances_back :
    (r : Row) (n : ℕ)
    → n ≤ r.balance
    → with_balances r (r.balance - n + n) (r.locked_balance + n - n) ≡ r
with_balances_back r n h =
    let numbers : (r.balance - n + n ≡ r.balance) × (r.locked_balance + n - n ≡ r.locked_balance) =
      (omega (arith, h), omega arith) in
    rw (numbers.0, numbers.1) refl

module _ {D : Type 0} (ops : Database D) (laws : IsDatabase ops) (up : Answers ops) where
  -- A client that is at the session, has not joined and has no player there, with an account in
  -- memory that agrees with its row, and a row whose two balances together are less than 2^63, joins
  -- while no hand is being played, with no more than its balance, at a table with no more players
  -- than its limit, where no statement of the database fails and the new player's address is no
  -- other's. The join and an unjoin after it succeed, and leave the row and the list of players as
  -- they were.
  pub join_then_unjoin :
      (now addr : ℕ) (w : World D) (account : Account) (r : Row) (amount position : ℕ)
      → (watcher : SessionClient) (watched : ClientSession) → w.client.account ≡ some account
      → session_client_getby_account_id w.session account.id ≡ some watcher
      → client_session_getby_session_id w.client w.session.id ≡ some watched
      → watched.is_joined ≡ false
      → getby_id w.session.poker.players account.id ≡ none
      → is_idle w.session.poker.state ≡ true
      → IsCurrent ops w.db account r
      → amount ≤ r.balance
      → worth r < 2 ^ 63
      → All (λ p. p.addr ≢ addr) w.session.poker.players
      → length w.session.poker.players ≤ w.session.poker.table.max_players
      → (x : World D) × (join_session ops now addr w amount position ≡ ok (x, true))
        × ((y : World D) × (unjoin_session ops x ≡ ok (y, true))
            × (ops.row account.id y.db ≡ some r)
            × (y.session.poker.players ≡ w.session.poker.players))
  join_then_unjoin now addr w account r amount position watcher watched a b d j alone idle c h f
        apart room =
      let ps = w.session.poker.players in
      let (x, e, row, (q, qa, qb, players), s) =
        take_seat_lem ops laws up now addr w account r amount position c h (omega (arith, f)) apart
          room in
      let (account', same, held) = s.held in
      let apart' : All (λ p. p.addr ≢ q.addr) ps =
        subst (λ (n : ℕ). All (λ p. p.addr ≢ n) ps) (sym qa) apart in
      let r' = with_balances r (r.balance - amount) (r.locked_balance + amount) in
      let b' : session_client_getby_account_id x.session account'.id
          ≡ some (record watcher { is_joined = true }) =
        subst
          (λ (i : ℕ).
            session_client_getby_account_id x.session i
            ≡ some (record watcher { is_joined = true }))
          (sym same)
          (ap (λ (l : List SessionClient). find (λ k. k.account == account.id) l) s.clients
            ∙ find-update_first (λ k. k.account == account.id) (λ k. record k { is_joined = true })
                w.session.clients watcher (λ k. refl) b) in
      let d' : client_session_getby_session_id x.client x.session.id
          ≡ some (record watched { is_joined = true }) =
        subst
          (λ (i : ℕ).
            client_session_getby_session_id x.client i ≡ some (record watched { is_joined = true }))
          (sym s.same_session)
          (ap (λ (l : List ClientSession). find (λ k. k.session == w.session.id) l) s.sessions
            ∙ find-update_first (λ k. k.session == w.session.id)
                (λ k. record k { is_joined = true }) w.client.sessions watched (λ k. refl) d) in
      let g' : getby_id x.session.poker.players account'.id ≡ some (endowed amount q) =
        subst (λ (i : ℕ). getby_id x.session.poker.players i ≡ some (endowed amount q)) (sym same)
          (ap (λ (l : List Player). getby_id l account.id) players
            ∙ getby_id_appended ps (endowed amount q) account.id qb alone) in
      let (y, e', row', players') =
        unjoin_session_pays ops laws up x account' r' (endowed amount q)
          (record watcher { is_joined = true }) (record watched { is_joined = true }) held b' d'
          refl g' (subst (λ (i : ℕ). ops.row i x.db ≡ some r') (sym same) row) (omega arith)
          (record { balance = omega (arith, f, h); locked_balance = omega (arith, f, h) })
          (omega (arith, f, h)) in
      let left = write q.addr leaving x.session.poker.players in
      let gone : unlink q.addr left ≡ ps =
        ap (λ (l : List Player). unlink q.addr (write q.addr leaving l)) players
        ∙ ap (λ (l : List Player). unlink q.addr l)
            (write_appended q.addr leaving ps (endowed amount q) refl apart')
        ∙ unlink_appended ps (leaving (endowed amount q)) apart' in
      (
        x,
        join_session_guards ops laws up now addr w account amount position watcher watched a b d j
            ∙ e,
        (
          y,
          e',
          subst (λ (i : ℕ). ops.row i y.db ≡ some r) same
              (row' ∙ ap some (with_balances_back r amount h)),
          players' ∙ ap (λ (t : Bool). if t then unlink q.addr left else left) (s.idle idle) ∙ gone,
        ),
      )
