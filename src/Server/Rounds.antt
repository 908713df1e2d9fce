-- ===== src/Server/Rounds.antt =====
-- The loops of src/server.c over a sequence of requests.
use mathlib.Core.List.{append_assoc, append-nil}
use pokerunicorn_server.Prelude.{
  ℕ, zero, suc, ◌%◌, ◌^◌, ◌≤◌, ◌<◌, ◌≡◌, refl, ap, ◌∙◌, true, false, some, List, [], ◌∷◌, ◌++◌,
  ◌==◌, leb, ◌||◌, length, arith, All,
}
use pokerunicorn_server.Prelude.Result.{ok}
use pokerunicorn_server.Websocket.{Wire, Websocket}
use pokerunicorn_server.Server.{net_read, Task, Client, member, bytes_le, client_disconnected}
use pokerunicorn_server.Server.Open.{IsOpen, connected, net_read_lem, net_read_end}
use pokerunicorn_server.Server.Handlers.{check_opcode, call_handler, header_frame}
use pokerunicorn_server.Server.Loop.{
  overlay, is_get, after_header, read_frame, receive_frames, receive_packet,
}
use pokerunicorn_server.Server.Opcode
use pokerunicorn_server.Server.Requests.{
  Request, opcode_of, body_of, task_of, IsSized, bytes_of, bytes_of_all, tasks_of_all,
}
use pokerunicorn_server.Server.Checked.{checked}

out_of_range : (n : ℕ) → 36 ≤ n → (leb n 0 || leb 36 n) ≡ true
out_of_range n h = ground arith

module _ {S : Type 0} (wire : Wire S) (incoming : S → List ℕ) (laws : IsOpen wire incoming)
    (ws : Websocket) where
  opcode_bound : (request : Request) → opcode_of request < 36
  opcode_bound Request.meow = omega arith
  opcode_bound Request.ping = omega arith
  opcode_bound Request.get_account = omega arith
  opcode_bound (Request.login a b) = omega arith
  opcode_bound (Request.signup a b c d) = omega arith
  opcode_bound (Request.auth_session a) = omega arith
  opcode_bound (Request.enter table) = omega arith
  opcode_bound (Request.leave table) = omega arith
  opcode_bound (Request.join table amount position) = omega arith
  opcode_bound (Request.action table kind amount) = omega arith
  opcode_bound (Request.get_tables offset n) = omega arith
  opcode_bound (Request.get_sessions offset n) = omega arith
  opcode_bound (Request.update_account a b) = omega arith

  member-overlay :
      (opcode n : ℕ) (old : List ℕ)
      → opcode < 36
      → member 0 4 (overlay (header_frame opcode n) old) ≡ opcode
  member-overlay opcode n old h = omega (arith, h)

  -- A client whose connection has ended.
  abbrev pub gone : S → List Task → Client S
  gone s tasks = record (connected wire incoming laws ws s (tasks ++ Task.disconnected ∷ [])) {
    is_alive = false;
  }

  -- A frame with its request.
  read_frame_lem :
      (request : Request) (n : ℕ) (header : List ℕ) (s : S) (tasks : List Task) (rest : List ℕ)
      → IsSized request
      → incoming s ≡ bytes_of (request, n) ++ rest
      → (t : S) × (read_frame wire header (connected wire incoming laws ws s tasks)
          ≡ ok (
            connected wire incoming laws ws t (tasks ++ task_of request),
            overlay (header_frame (opcode_of request) n) header,
            true,
          ))
        × (incoming t ≡ rest)
  unfolding read_frame after_header
  read_frame_lem request n header s tasks rest h i =
      let bs : List ℕ = header_frame (opcode_of request) n in
      let (t, got, to_body) =
        net_read_lem wire incoming laws ws s tasks 8 bs (body_of request ++ rest) (omega arith)
          (omega arith) refl i in
      let (u, runs, after) = checked wire incoming laws ws request t tasks rest h to_body in
      let m0 = member-overlay (opcode_of request) n header (opcode_bound request) in
      (u, ap (after_header wire header) got ∙ (rw (m0, runs) refl), after)

  -- The end of the connection.
  read_frame_end :
      (header : List ℕ) (s : S) (tasks : List Task)
      → incoming s ≡ []
      → read_frame wire header (connected wire incoming laws ws s tasks)
        ≡ ok (gone s tasks, header, false)
  unfolding read_frame after_header client_disconnected
  read_frame_end header s tasks i =
      ap (after_header wire header) (net_read_end wire incoming laws ws s tasks 8 i)

  receive_frames_lem :
      (sent : List (Request × ℕ)) (fuel : ℕ) (header : List ℕ) (s : S) (tasks : List Task)
      → All (λ r. IsSized r.0) sent
      → length sent < fuel
      → incoming s ≡ bytes_of_all sent
      → (t : S) × (receive_frames wire fuel header (connected wire incoming laws ws s tasks)
          ≡ ok (gone t (tasks ++ tasks_of_all sent)))
  unfolding receive_frames
  receive_frames_lem sent zero header s tasks h f i = absurd (omega (arith, f))
  receive_frames_lem [] (suc fuel) header s tasks h f i =
      (s, rw (read_frame_end header s tasks i, append-nil tasks) refl)
  receive_frames_lem ((request, n) ∷ sent) (suc fuel) header s tasks h f i =
      let (t, runs, after) = read_frame_lem request n header s tasks (bytes_of_all sent) h.0 i in
      let (u, rest) =
        receive_frames_lem sent fuel (overlay (header_frame (opcode_of request) n) header) t
          (tasks ++ task_of request) h.1 (omega (arith, f)) after in
      (
        u,
        rw runs (
            rest
            ∙ ap (λ ts. ok (gone u ts)) (append_assoc tasks (task_of request) (tasks_of_all sent))),
      )

  no_get : (opcode n : ℕ) → opcode < 36 → is_get (header_frame opcode n) ≡ false
  no_get opcode n h =
      let other : (opcode % 256 == b'G') ≡ false = ground (arith, h) in rw other refl

  -- Over a connection without a websocket that takes all that is written, let the client send any
  -- sequence of these requests and end the connection: all kinds but JSON and an unjoin, with numbers
  -- and lengths that fit the members of their structures, an avatar shorter than 2^31 bytes, and a
  -- token that is not empty. With fuel for more frames than that, `receive_packet` ends, and the tasks
  -- that it has pushed are those of the requests, in their order, with the texts and numbers that were
  -- sent, then the end of the connection. The lengths in the headers make no difference.
  pub receive_packet-bytes_of_all :
      (sha1 : List ℕ → List ℕ) (sent : List (Request × ℕ)) (fuel : ℕ) (s : S) (tasks : List Task)
      → All (λ r. IsSized r.0) sent
      → length sent < fuel
      → incoming s ≡ bytes_of_all sent
      → (t : S) × (receive_packet wire sha1 fuel (connected wire incoming laws ws s tasks)
          ≡ ok (gone t (tasks ++ tasks_of_all sent)))
  unfolding receive_packet client_disconnected
  receive_packet-bytes_of_all sha1 [] fuel s tasks h f i =
      (s, rw (receive_packet, laws.closed s 8 i, append-nil tasks) refl)
  receive_packet-bytes_of_all sha1 ((request, n) ∷ sent) fuel s tasks h f i =
      let bs : List ℕ = header_frame (opcode_of request) n in
      let (t, got, to_body) =
        laws.delivers s 8 bs (body_of request ++ bytes_of_all sent) (omega arith) (omega arith) refl
          i in
      let (u, runs, after) =
        checked wire incoming laws ws request t tasks (bytes_of_all sent) h.0 to_body in
      let (v, rest) =
        receive_frames_lem sent fuel bs u (tasks ++ task_of request) h.1 (omega (arith, f)) after in
      let plain = no_get (opcode_of request) n (opcode_bound request) in
      let m0 : member 0 4 bs ≡ opcode_of request =
        member-overlay (opcode_of request) n [] (opcode_bound request) in
      (
        v,
        rw (receive_packet, got, plain, m0, runs)
            (rest
              ∙ ap (λ ts. ok (gone v ts))
                  (append_assoc tasks (task_of request) (tasks_of_all sent))),
      )

  -- A header whose opcode is none ends the connection.
  read_frame_refused :
      (header bs : List ℕ) (s t : S) (tasks : List Task)
      → net_read wire 8 (connected wire incoming laws ws s tasks)
        ≡ (connected wire incoming laws ws t tasks, some bs)
      → 36 ≤ member 0 4 (overlay bs header)
      → read_frame wire header (connected wire incoming laws ws s tasks)
        ≡ ok (gone t tasks, overlay bs header, false)
  unfolding read_frame after_header check_opcode client_disconnected
  read_frame_refused header bs s t tasks got h =
      let out : (leb (member 0 4 (overlay bs header)) 0 || leb 36 (member 0 4 (overlay bs header)))
          ≡ true =
        out_of_range (member 0 4 (overlay bs header)) h in
      ap (after_header wire header) got ∙ (rw out refl)

  -- Over a connection of that kind, an unjoin of a table whose number is at least 36 and less than 2^32
  -- ends the connection, whatever follows it: its opcode stands where the table of handlers has none,
  -- so that its table is read as the header of the next frame. No task but the end is pushed.
  pub receive_packet-unjoin :
      (sha1 : List ℕ → List ℕ) (table n fuel : ℕ) (s : S) (tasks : List Task) (rest : List ℕ)
      → 36 ≤ table
      → table < 2 ^ 32
      → incoming s ≡ (header_frame Opcode.unjoin n ++ bytes_le 8 table) ++ rest
      → (t : S) × (receive_packet wire sha1 (suc fuel) (connected wire incoming laws ws s tasks)
          ≡ ok (gone t tasks))
  unfolding receive_packet receive_frames check_opcode call_handler client_disconnected
  receive_packet-unjoin sha1 table n fuel s tasks rest low high i =
      let bs : List ℕ = header_frame Opcode.unjoin n in
      let (t, got, to_table) =
        laws.delivers s 8 bs (bytes_le 8 table ++ rest) (omega arith) (omega arith) refl i in
      let (u, next, after) =
        net_read_lem wire incoming laws ws t tasks 8 (bytes_le 8 table) rest (omega arith)
          (omega arith) refl to_table in
      let none_such : 36 ≤ member 0 4 (overlay (bytes_le 8 table) bs) = omega (arith, low, high) in
      let ends = read_frame_refused bs (bytes_le 8 table) t u tasks next none_such in
      (u, rw (receive_packet, got, ends) refl)
