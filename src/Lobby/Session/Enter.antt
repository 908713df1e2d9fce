-- ===== src/Lobby/Session/Enter.antt =====
-- `pkrsrv_lobby_client_enter_session` of src/lobby.c, and a second call of it.
use pokerunicorn_server.Prelude.{
  ℕ, ◌≡◌, ◌∙◌, refl, ap, sym, Bool, true, false, none, some, List, [], ◌∷◌, ◌++◌, find, arith, inl,
  inr, Option-cases, ==_refl, ◌==◌,
}
use pokerunicorn_server.Account.Db.{Database}
use pokerunicorn_server.Account.{Account}
use pokerunicorn_server.Lobby.Types.{SessionClient, World, session_client_getby_account_id}
use pokerunicorn_server.Lobby.Session.{enter_session, set_watchers_num}

-- A search that finds nothing in a list finds what is put behind it.
find_appended :
    (cs : List SessionClient) (c : SessionClient) (id : ℕ)
    → c.account ≡ id
    → find (λ x. x.account == id) cs ≡ none
    → find (λ x. x.account == id) (cs ++ (c ∷ [])) ≡ some c
find_appended [] c id h k = rw (h, ==_refl id)
find_appended (x ∷ cs) c id h k = ground (arith, k, find_appended cs c id h)

module _ {D : Type 0} (ops : Database D) where
  enter_known :
      (w : World D) (account : Account) (c : SessionClient)
      → w.client.account ≡ some account
      → session_client_getby_account_id w.session account.id ≡ some c
      → enter_session ops w ≡ (w, false)
  unfolding enter_session
  enter_known w account c h k = simp (enter_session, h, k) refl

  -- After an enter that succeeds, a second one by the same client is refused and changes nothing.
  pub enter_twice :
      (w x : World D) → enter_session ops w ≡ (x, true) → enter_session ops x ≡ (x, false)
  unfolding enter_session set_watchers_num
  enter_twice w x e = elim (Option-cases w.client.account) [
    | inl h ↦ absurd (cc (simp (enter_session, h) at e))
    | inr (account, h) ↦
        elim (Option-cases (session_client_getby_account_id w.session account.id)) [
          | inr (c, k) ↦ absurd (cc (simp (enter_session, h, k) at e))
          | inl k ↦
              elim (Option-cases (find (λ p. p.account == account.id) w.session.poker.players)) [
                | inr (p, l) ↦ absurd (cc (simp (enter_session, h, k, l) at e))
                | inl l ↦
                    let new : SessionClient = record {
                      account = account.id;
                      socket = w.client.socket;
                      is_joined = false;
                    } in
                    let same = simp (enter_session, h, k, l) at e in
                    let held : some account ≡ x.client.account =
                      ap (λ (p : World D × Bool). p.0.client.account) same in
                    let clients : w.session.clients ++ (new ∷ []) ≡ x.session.clients =
                      ap (λ (p : World D × Bool). p.0.session.clients) same in
                    enter_known x account new (sym held) (
                      ap (λ (l : List SessionClient). find (λ c. c.account == account.id) l)
                        (sym clients)
                      ∙ find_appended w.session.clients new account.id refl k)
              ]
        ]
  ]
