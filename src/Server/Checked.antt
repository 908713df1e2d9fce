-- ===== src/Server/Checked.antt =====
-- The handlers of src/server.c at the opcodes of requests.
use mathlib.Core.List.{append-nil}
use pokerunicorn_server.Prelude.{ℕ, ◌≡◌, refl, ap, ◌∙◌, Bool, true, List, ◌++◌, arith}
use pokerunicorn_server.Prelude.Result.{ok}
use pokerunicorn_server.Websocket.{Wire, Websocket}
use pokerunicorn_server.Server.{Task, Client, member}
use pokerunicorn_server.Server.Open.{IsOpen, connected, send_lem}
use pokerunicorn_server.Server.Served.{
  Served-frame, Served-login, Served-auth_session, Served-update_account, Served-signup,
}
use pokerunicorn_server.Server.Handlers.{
  check_opcode, call_handler, on_ping, send_pong, on_enter, on_leave, on_join, on_poker_action,
  on_get_tables, on_get_sessions, header_frame,
}
use pokerunicorn_server.Server.Opcode
use pokerunicorn_server.Server.Requests.{Request, opcode_of, body_of, task_of, IsSized}

module _ {S : Type 0} (wire : Wire S) (incoming : S → List ℕ) (laws : IsOpen wire incoming)
    (ws : Websocket) where
  -- A request goes to its handler, and the loop goes on.
  abbrev pub Checked : Request → S → List Task → List ℕ → Type 0
  Checked request s tasks rest =
      (t : S) × (check_opcode wire (opcode_of request) (connected wire incoming laws ws s tasks)
        ≡ ok (connected wire incoming laws ws t (tasks ++ task_of request), true))
      × (incoming t ≡ rest)

  Checked-enter :
      (s : S) (tasks : List Task) (table : ℕ) (rest : List ℕ)
      → IsSized (Request.enter table)
      → incoming s ≡ body_of (Request.enter table) ++ rest
      → Checked (Request.enter table) s tasks rest
  unfolding check_opcode call_handler on_enter
  Checked-enter s tasks table rest h i =
      let frame : List ℕ = body_of (Request.enter table) in
      let (t, runs, after) =
        Served-frame wire incoming laws ws s tasks 8 (λ frame. Task.enter (member 0 8 frame)) frame
          rest (omega arith) (omega arith) refl i in
      let m0 : member 0 8 frame ≡ table = omega (arith, h) in (t, rw (runs, m0) refl, after)

  Checked-leave :
      (s : S) (tasks : List Task) (table : ℕ) (rest : List ℕ)
      → IsSized (Request.leave table)
      → incoming s ≡ body_of (Request.leave table) ++ rest
      → Checked (Request.leave table) s tasks rest
  unfolding check_opcode call_handler on_leave
  Checked-leave s tasks table rest h i =
      let frame : List ℕ = body_of (Request.leave table) in
      let (t, runs, after) =
        Served-frame wire incoming laws ws s tasks 8 (λ frame. Task.leave (member 0 8 frame)) frame
          rest (omega arith) (omega arith) refl i in
      let m0 : member 0 8 frame ≡ table = omega (arith, h) in (t, rw (runs, m0) refl, after)

  Checked-join :
      (s : S) (tasks : List Task) (table amount position : ℕ) (rest : List ℕ)
      → IsSized (Request.join table amount position)
      → incoming s ≡ body_of (Request.join table amount position) ++ rest
      → Checked (Request.join table amount position) s tasks rest
  unfolding check_opcode call_handler on_join
  Checked-join s tasks table amount position rest h i =
      let frame : List ℕ = body_of (Request.join table amount position) in
      let (t, runs, after) =
        Served-frame wire incoming laws ws s tasks 17
          (λ frame. Task.join (member 0 8 frame) (member 9 8 frame) (member 8 1 frame)) frame rest
          (omega arith) (omega arith) refl i in
      let m0 : member 0 8 frame ≡ table = omega (arith, h.0) in
      let m1 : member 9 8 frame ≡ amount = omega (arith, h.1) in
      let m2 : member 8 1 frame ≡ position = omega (arith, h.2) in
      (t, rw (runs, m0, m1, m2) refl, after)

  Checked-action :
      (s : S) (tasks : List Task) (table kind amount : ℕ) (rest : List ℕ)
      → IsSized (Request.action table kind amount)
      → incoming s ≡ body_of (Request.action table kind amount) ++ rest
      → Checked (Request.action table kind amount) s tasks rest
  unfolding check_opcode call_handler on_poker_action
  Checked-action s tasks table kind amount rest h i =
      let frame : List ℕ = body_of (Request.action table kind amount) in
      let (t, runs, after) =
        Served-frame wire incoming laws ws s tasks 18
          (λ frame. Task.action (member 0 8 frame) (member 8 2 frame) (member 10 8 frame)) frame
          rest (omega arith) (omega arith) refl i in
      let m0 : member 0 8 frame ≡ table = omega (arith, h.0) in
      let m1 : member 8 2 frame ≡ kind = omega (arith, h.1) in
      let m2 : member 10 8 frame ≡ amount = omega (arith, h.2) in
      (t, rw (runs, m0, m1, m2) refl, after)

  Checked-get_tables :
      (s : S) (tasks : List Task) (offset n : ℕ) (rest : List ℕ)
      → IsSized (Request.get_tables offset n)
      → incoming s ≡ body_of (Request.get_tables offset n) ++ rest
      → Checked (Request.get_tables offset n) s tasks rest
  unfolding check_opcode call_handler on_get_tables
  Checked-get_tables s tasks offset n rest h i =
      let frame : List ℕ = body_of (Request.get_tables offset n) in
      let (t, runs, after) =
        Served-frame wire incoming laws ws s tasks 4
          (λ frame. Task.get_tables (member 0 2 frame) (member 2 2 frame)) frame rest (omega arith)
          (omega arith) refl i in
      let m0 : member 0 2 frame ≡ offset = omega (arith, h.0) in
      let m1 : member 2 2 frame ≡ n = omega (arith, h.1) in (t, rw (runs, m0, m1) refl, after)

  Checked-get_sessions :
      (s : S) (tasks : List Task) (offset n : ℕ) (rest : List ℕ)
      → IsSized (Request.get_sessions offset n)
      → incoming s ≡ body_of (Request.get_sessions offset n) ++ rest
      → Checked (Request.get_sessions offset n) s tasks rest
  unfolding check_opcode call_handler on_get_sessions
  Checked-get_sessions s tasks offset n rest h i =
      let frame : List ℕ = body_of (Request.get_sessions offset n) in
      let (t, runs, after) =
        Served-frame wire incoming laws ws s tasks 4
          (λ frame. Task.get_sessions (member 0 2 frame) (member 2 2 frame)) frame rest
          (omega arith) (omega arith) refl i in
      let m0 : member 0 2 frame ≡ offset = omega (arith, h.0) in
      let m1 : member 2 2 frame ≡ n = omega (arith, h.1) in (t, rw (runs, m0, m1) refl, after)

  Checked-ping :
      (s : S) (tasks : List Task) (rest : List ℕ)
      → incoming s ≡ rest
      → Checked Request.ping s tasks rest
  unfolding check_opcode call_handler on_ping send_pong
  Checked-ping s tasks rest i =
      let (t, runs, after) =
        send_lem wire incoming laws ws s tasks 8 (header_frame Opcode.pong 0) (omega arith)
          (omega arith) in
      (
        t,
        rw (append-nil tasks) (ap (λ (done : Client S × Bool). ok (done.0, true)) runs),
        after ∙ i,
      )

  pub checked :
      (request : Request) (s : S) (tasks : List Task) (rest : List ℕ)
      → IsSized request
      → incoming s ≡ body_of request ++ rest
      → Checked request s tasks rest
  unfolding check_opcode call_handler
  checked Request.meow s tasks rest h i = (s, refl, i)
  checked Request.get_account s tasks rest h i = (s, refl, i)
  checked Request.ping s tasks rest h i = Checked-ping s tasks rest i
  checked (Request.login a b) s tasks rest h i =
      let (t, runs, after) = Served-login wire incoming laws ws s tasks a b rest h i in
      (t, rw runs refl, after)
  checked (Request.signup a b c d) s tasks rest h i =
      let (t, runs, after) = Served-signup wire incoming laws ws s tasks a b c d rest h i in
      (t, rw runs refl, after)
  checked (Request.auth_session a) s tasks rest h i =
      let (t, runs, after) = Served-auth_session wire incoming laws ws s tasks a rest h i in
      (t, rw runs refl, after)
  checked (Request.update_account a b) s tasks rest h i =
      let (t, runs, after) = Served-update_account wire incoming laws ws s tasks a b rest h i in
      (t, rw runs refl, after)
  checked (Request.enter table) s tasks rest h i = Checked-enter s tasks table rest h i
  checked (Request.leave table) s tasks rest h i = Checked-leave s tasks table rest h i
  checked (Request.join table amount position) s tasks rest h i =
      Checked-join s tasks table amount position rest h i
  checked (Request.action table kind amount) s tasks rest h i =
      Checked-action s tasks table kind amount rest h i
  checked (Request.get_tables offset n) s tasks rest h i =
      Checked-get_tables s tasks offset n rest h i
  checked (Request.get_sessions offset n) s tasks rest h i =
      Checked-get_sessions s tasks offset n rest h i
