-- ===== src/Lobby/Handlers/Refusal.antt =====
-- Joins that src/lobby.c answers with `is_ok = 0`.
use pokerunicorn_server.Prelude.{
  ℕ, ◌≡◌, ap, sym, Bool, true, false, some, inl, inr, Bool-cases, Option-cases, ltb,
}
use pokerunicorn_server.Prelude.Result.{Result, ok, ok_injective, >>=-eq-ok}
use pokerunicorn_server.Poker.Players.{players_addby_account}
use pokerunicorn_server.Account.{Account, fetch}
use pokerunicorn_server.Account.Db.{Database}
use pokerunicorn_server.Lobby.Types.{
  World, session_client_getby_account_id, client_session_getby_session_id,
}
use pokerunicorn_server.Lobby.Seats.{take_seat, join_session}
use pokerunicorn_server.Lobby.Handlers.{Join, on_client_join}

-- The database, the session, what the client watches and has joined, and the tasks are the same.
abbrev pub IsUntouched : {D : Type 0} → World D → World D → Type 0
IsUntouched w x =
    (x.db ≡ w.db)
    × (x.session ≡ w.session)
    × (x.client.sessions ≡ w.client.sessions)
    × (x.calls ≡ w.calls)

untouched : {D : Type 0} (w x : World D) → x ≡ w → IsUntouched w x
untouched {D} w x h = (
  ap (λ (k : World D). k.db) h,
  ap (λ (k : World D). k.session) h,
  ap (λ (k : World D). k.client.sessions) h,
  ap (λ (k : World D). k.calls) h,
)

module _ {D : Type 0} (ops : Database D) where
  -- Behind the guards, a join is not refused.
  take_seat-true :
      (now addr : ℕ) (w x : World D) (account : Account) (amount position : ℕ) (b : Bool)
      → take_seat ops now addr w account amount position ≡ ok (x, b)
      → b ≡ true
  unfolding take_seat
  take_seat-true now addr w x account amount position b e =
      elim (Option-cases (players_addby_account w.session.poker addr account.id position).1) [
        | inl h ↦ absurd (cc (rw (take_seat, h) at e))
        | inr (p, h) ↦
            sym (ap (λ (o : World D × Bool). o.1) (ok_injective (rw (take_seat, h) at e)))
      ]

  same_world :
      (w x : World D) → ◌≡◌ {A = Result (World D × Bool)} (ok (w, false)) (ok (x, false)) → x ≡ w
  same_world w x h = sym (ap (λ (o : World D × Bool). o.0) (ok_injective h))

  join_session_refused :
      (now addr : ℕ) (w x : World D) (amount position : ℕ)
      → join_session ops now addr w amount position ≡ ok (x, false)
      → x ≡ w
  unfolding join_session
  join_session_refused now addr w x amount position e = elim (Option-cases w.client.account) [
    | inl h ↦ same_world w x (simp (join_session, h) at e)
    | inr (account, h) ↦
        elim (Option-cases (session_client_getby_account_id w.session account.id)) [
          | inl h1 ↦ same_world w x (simp (join_session, h, h1) at e)
          | inr (watcher, h1) ↦
              elim (Option-cases (client_session_getby_session_id w.client w.session.id)) [
                | inl h2 ↦ same_world w x (simp (join_session, h, h1, h2) at e)
                | inr (watched, h2) ↦ elim (Bool-cases watched.is_joined) [
                  | inl j ↦ same_world w x (simp (join_session, h, h1, h2, j) at e)
                  | inr j ↦
                      let never : false ≡ true =
                        take_seat-true now addr w x account amount position false
                          (simp (join_session, h, h1, h2, j) at e) in
                      absurd (cc never)
                ]
              ]
        ]
  ]

  -- A join that the handler answers, but not with success, leaves the database, the session, and what
  -- the client watches and has joined, and gives the event loop no task.
  pub on_client_join_refused :
      (now addr : ℕ) (exists : Bool) (w x : World D) (join : Join)
      → on_client_join ops now addr exists w join ≡ ok (x, false)
      → IsUntouched w x
  unfolding on_client_join
  on_client_join_refused now addr exists w x join e = elim (Option-cases w.client.account) [
    | inl h ↦ untouched w x (same_world w x (simp (on_client_join, h) at e))
    | inr (account, h) ↦
        let (a, _, rest) = >>=-eq-ok (fetch ops w.db account) _ (simp (on_client_join, h) at e) in
        let fetched : World D = record w { client = record (w.client) { account = some a } } in
        untouched fetched x (elim (Bool-cases (ltb a.balance join.enterance_amount)) [
          | inl s ↦ same_world fetched x (rw s at rest)
          | inr s ↦ elim (Bool-cases exists) [
            | inl t ↦
                join_session_refused now addr fetched x join.enterance_amount join.position
                  (rw (s, t) at rest)
            | inr t ↦ same_world fetched x (rw (s, t) at rest)
          ]
        ])
  ]
