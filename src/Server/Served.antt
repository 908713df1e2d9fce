-- ===== src/Server/Served.antt =====
-- What the handlers of src/server.c make of a request.
use mathlib.Core.Path.{fun_ext}
use mathlib.Core.List.{append_assoc}
use pokerunicorn_server.Prelude.{
  ℕ, ◌+◌, ◌%◌, ◌^◌, ◌≤◌, ◌<◌, ◌≡◌, refl, ap, ◌∙◌, false, List, [], ◌∷◌, ◌++◌, ltb, le→not_ltb,
  length, arith,
}
use pokerunicorn_server.Prelude.Result.{Result, ok}
use pokerunicorn_server.Websocket.{Wire, Websocket}
use pokerunicorn_server.Server.{Task, Client, member, bytes_le}
use pokerunicorn_server.Server.Open.{IsOpen, connected, read_or_close_lem, read_text_lem}
use pokerunicorn_server.Server.Handlers.{
  on_login, on_signup, on_update_account, on_auth_session, on_frame, read_avatar,
}
use pokerunicorn_server.Server.Requests.{Request, body_of, task_of, IsSized}

regroup : (a b c d rest : List ℕ) → (a ++ (b ++ (c ++ d))) ++ rest ≡ a ++ (b ++ (c ++ (d ++ rest)))
regroup a b c d rest = simp append_assoc

module _ {S : Type 0} (wire : Wire S) (incoming : S → List ℕ) (laws : IsOpen wire incoming)
    (ws : Websocket) where
  abbrev pub Served : (Client S → Result (Client S)) → S → List Task → List Task → List ℕ → Type 0
  Served handler s tasks new rest =
      (t : S) × (handler (connected wire incoming laws ws s tasks)
        ≡ ok (connected wire incoming laws ws t (tasks ++ new)))
      × (incoming t ≡ rest)

  pub Served-frame :
      (s : S) (tasks : List Task) (n : ℕ) (task : List ℕ → Task) (bs rest : List ℕ)
      → 1 ≤ n
      → n < 2 ^ 31
      → length bs ≡ n
      → incoming s ≡ bs ++ rest
      → Served (on_frame wire n task) s tasks (task bs ∷ []) rest
  unfolding on_frame
  Served-frame s tasks n task bs rest h k l i =
      let (t, runs, after) = read_or_close_lem wire incoming laws ws s tasks n bs rest h k l i in
      (t, rw runs refl, after)

  pub Served-login :
      (s : S) (tasks : List Task) (id_token password rest : List ℕ)
      → IsSized (Request.login id_token password)
      → incoming s ≡ body_of (Request.login id_token password) ++ rest
      → Served (on_login wire) s tasks (task_of (Request.login id_token password)) rest
  unfolding on_login
  Served-login s tasks a b rest h i =
      let frame : List ℕ = bytes_le 2 (length a) ++ bytes_le 2 (length b) in
      let (t, first, more) =
        read_or_close_lem wire incoming laws ws s tasks 4 frame (a ++ (b ++ rest)) (omega arith)
          (omega arith) refl (i ∙ ap (λ bs. frame ++ bs) (append_assoc a b rest)) in
      let (u, second, more') =
        read_text_lem wire incoming laws ws t tasks a (b ++ rest) (omega (arith, h.0)) more in
      let (v, third, end) =
        read_text_lem wire incoming laws ws u tasks b rest (omega (arith, h.1)) more' in
      let m0 : member 0 2 frame ≡ length a = omega (arith, h.0) in
      let m1 : member 2 2 frame ≡ length b = omega (arith, h.1) in
      (v, rw (first, m0, second, m1, third) refl, end)

  pub Served-auth_session :
      (s : S) (tasks : List Task) (token rest : List ℕ)
      → IsSized (Request.auth_session token)
      → incoming s ≡ body_of (Request.auth_session token) ++ rest
      → Served (on_auth_session wire) s tasks (task_of (Request.auth_session token)) rest
  unfolding on_auth_session
  Served-auth_session s tasks a rest h i =
      let frame : List ℕ = bytes_le 2 (length a) in
      let (t, first, more) =
        read_or_close_lem wire incoming laws ws s tasks 2 frame (a ++ rest) (omega arith)
          (omega arith) refl i in
      let (u, second, end) =
        read_or_close_lem wire incoming laws ws t tasks (length a) a rest h.0 (omega (arith, h.1))
          refl more in
      let m0 : member 0 2 frame ≡ length a = omega (arith, h.1) in
      (u, rw (first, m0, second) refl, end)

  read_avatar_lem :
      (s : S) (tasks : List Task) (avatar rest : List ℕ)
      → length avatar < 2 ^ 31
      → incoming s ≡ avatar ++ rest
      → (t : S) × (read_avatar wire (length avatar) (connected wire incoming laws ws s tasks)
          ≡ (λ next. next avatar (connected wire incoming laws ws t tasks)))
        × (incoming t ≡ rest)
  unfolding read_avatar
  read_avatar_lem s tasks a rest h i =
      let (t, runs, after) = read_text_lem wire incoming laws ws s tasks a rest h i in
      let fits : ltb ((length a + 1) % 2 ^ 32) (length a) ≡ false =
        le→not_ltb ((length a + 1) % 2 ^ 32) (length a) (omega (arith, h)) in
      (t, fun_ext λ next. rw fits (ap (λ run. run next) runs), after)

  pub Served-update_account :
      (s : S) (tasks : List Task) (name avatar rest : List ℕ)
      → IsSized (Request.update_account name avatar)
      → incoming s ≡ body_of (Request.update_account name avatar) ++ rest
      → Served (on_update_account wire) s tasks (task_of (Request.update_account name avatar)) rest
  unfolding on_update_account
  Served-update_account s tasks a b rest h i =
      let frame : List ℕ = bytes_le 2 (length a) ++ bytes_le 4 (length b) in
      let (t, first, more) =
        read_or_close_lem wire incoming laws ws s tasks 6 frame (a ++ (b ++ rest)) (omega arith)
          (omega arith) refl (i ∙ ap (λ bs. frame ++ bs) (append_assoc a b rest)) in
      let (u, second, more') =
        read_text_lem wire incoming laws ws t tasks a (b ++ rest) (omega (arith, h.0)) more in
      let (v, third, end) = read_avatar_lem u tasks b rest h.1 more' in
      let m0 : member 0 2 frame ≡ length a = omega (arith, h.0) in
      let m1 : member 2 4 frame ≡ length b = omega (arith, h.1) in
      (v, rw (first, m0, second, m1, third) refl, end)

  pub Served-signup :
      (s : S) (tasks : List Task) (id_token password name avatar rest : List ℕ)
      → IsSized (Request.signup id_token password name avatar)
      → incoming s ≡ body_of (Request.signup id_token password name avatar) ++ rest
      → Served
          (on_signup wire)
          s
          tasks
          (task_of (Request.signup id_token password name avatar))
          rest
  unfolding on_signup
  Served-signup s tasks a b c d rest h i =
      let frame : List ℕ =
        bytes_le 2 (length a)
        ++ bytes_le 2 (length b)
        ++ bytes_le 2 (length c)
        ++ bytes_le 4 (length d) in
      let (t, first, to_a) =
        read_or_close_lem wire incoming laws ws s tasks 10 frame (a ++ (b ++ (c ++ (d ++ rest))))
          (omega arith) (omega arith) refl (i ∙ ap (λ bs. frame ++ bs) (regroup a b c d rest)) in
      let (u, second, to_b) =
        read_text_lem wire incoming laws ws t tasks a (b ++ (c ++ (d ++ rest))) (omega (arith, h.0))
          to_a in
      let (v, third, to_c) =
        read_text_lem wire incoming laws ws u tasks b (c ++ (d ++ rest)) (omega (arith, h.1))
          to_b in
      let (w, fourth, to_d) =
        read_text_lem wire incoming laws ws v tasks c (d ++ rest) (omega (arith, h.2)) to_c in
      let (x, fifth, end) = read_avatar_lem w tasks d rest h.3 to_d in
      let m0 : member 0 2 frame ≡ length a = omega (arith, h.0) in
      let m1 : member 2 2 frame ≡ length b = omega (arith, h.1) in
      let m2 : member 4 2 frame ≡ length c = omega (arith, h.2) in
      let m3 : member 6 4 frame ≡ length d = omega (arith, h.3) in
      (x, rw (first, m0, second, m1, third, m2, fourth, m3, fifth) refl, end)
