-- ===== src/Server/Handlers.antt =====
-- The handlers of opcodes of src/server.c.
use pokerunicorn_server.Prelude.{
  ℕ, ◌+◌, ◌%◌, ◌^◌, Bool, true, false, none, some, List, [], ◌∷◌, ◌++◌, if◌then◌else◌, ltb, leb,
  ◌||◌, get_elem?,
}
use pokerunicorn_server.Prelude.Result.{Result, ok, fault, ◌>>=◌, null_pointer, out_of_bounds}
use pokerunicorn_server.Websocket.{Wire}
use pokerunicorn_server.Server.Opcode
use pokerunicorn_server.Server.{
  Task, Client, bytes_le, member, push, client_disconnected, read_or_close, read_text, send,
}

-- A frame's header: the opcode and the length.
abbrev pub header_frame : ℕ → ℕ → List ℕ
header_frame opcode length = bytes_le 4 opcode ++ bytes_le 4 length

-- The functions of the table `OPCODE_HANDLERS`, and its last entry.
pub data Handler : Type 0 where
  handle_nop handle_meow handle_ping handle_login handle_signup handle_auth_session : Handler
  handle_get_account handle_enter handle_leave handle_join handle_unjoin : Handler
  handle_poker_action handle_json handle_get_tables handle_get_sessions : Handler
  handle_update_account no_handler : Handler

-- `OPCODE_HANDLERS`
abbrev pub opcode_handlers : List Handler
opcode_handlers =
    handle_nop ∷ handle_meow ∷ handle_ping ∷ handle_nop ∷ handle_login ∷ handle_nop ∷ handle_signup
    ∷ handle_nop ∷ handle_auth_session ∷ handle_nop ∷ handle_get_account ∷ handle_nop ∷ handle_enter
    ∷ handle_nop ∷ handle_leave ∷ handle_nop ∷ handle_join ∷ handle_unjoin ∷ handle_nop ∷ handle_nop
    ∷ handle_nop ∷ handle_nop ∷ handle_poker_action ∷ handle_nop ∷ handle_nop ∷ handle_nop
    ∷ handle_json ∷ handle_nop ∷ handle_get_tables ∷ handle_nop ∷ handle_get_sessions ∷ handle_nop
    ∷ handle_update_account ∷ handle_nop ∷ handle_nop ∷ no_handler ∷ []

module _ {S : Type 0} (wire : Wire S) where
  -- `pkrsrv_server_send_pong`
  unfoldable pub send_pong : Client S → Client S × Bool
  send_pong client = send wire 8 (header_frame Opcode.pong 0 ∷ []) client

  -- `opcode_handler_meow`
  abbrev pub on_meow : Client S → Result (Client S)
  on_meow client = ok (push Task.meowed client)

  -- `opcode_handler_ping`
  unfoldable pub on_ping : Client S → Result (Client S)
  on_ping client = ok (send_pong client).0

  -- `opcode_handler_login`
  unfoldable pub on_login : Client S → Result (Client S)
  on_login client = read_or_close wire 4 client λ frame client.
      read_text wire (member 0 2 frame) client λ id_token client.
        read_text wire (member 2 2 frame) client
          λ password client. ok (push (Task.login id_token password) client)

  -- The avatar, into `avatar_length + 1` bytes in `uint32_t`.
  unfoldable pub read_avatar :
      ℕ → Client S → (List ℕ → Client S → Result (Client S)) → Result (Client S)
  read_avatar n client next =
      if ltb ((n + 1) % 2 ^ 32) n then fault out_of_bounds else read_text wire n client next

  -- `opcode_handler_signup`
  unfoldable pub on_signup : Client S → Result (Client S)
  on_signup client = read_or_close wire 10 client λ frame client.
      read_text wire (member 0 2 frame) client λ id_token client.
        read_text wire (member 2 2 frame) client λ password client.
          read_text wire (member 4 2 frame) client λ name client.
            read_avatar (member 6 4 frame) client
              λ avatar client. ok (push (Task.signup id_token password name avatar) client)

  -- `opcode_handler_auth_session`: an empty token is read too.
  unfoldable pub on_auth_session : Client S → Result (Client S)
  on_auth_session client = read_or_close wire 2 client λ frame client.
      read_or_close wire (member 0 2 frame) client
        λ token client. ok (push (Task.auth_session token) client)

  -- `opcode_handler_get_account`
  abbrev pub on_get_account : Client S → Result (Client S)
  on_get_account client = ok (push Task.get_account client)

  -- The handlers of packets that are one structure: its length and the task of its members.
  unfoldable pub on_frame : ℕ → (List ℕ → Task) → Client S → Result (Client S)
  on_frame n task client = read_or_close wire n client λ frame client. ok (push (task frame) client)

  -- `opcode_handler_enter`
  unfoldable pub on_enter : Client S → Result (Client S)
  on_enter client = on_frame 8 (λ frame. Task.enter (member 0 8 frame)) client

  -- `opcode_handler_leave`
  unfoldable pub on_leave : Client S → Result (Client S)
  on_leave client = on_frame 8 (λ frame. Task.leave (member 0 8 frame)) client

  -- `opcode_handler_join`: the table, the position and the amount, and the task in the packet's order.
  unfoldable pub on_join : Client S → Result (Client S)
  on_join client =
      on_frame 17 (λ frame. Task.join (member 0 8 frame) (member 9 8 frame) (member 8 1 frame))
        client

  -- `opcode_handler_unjoin`
  unfoldable pub on_unjoin : Client S → Result (Client S)
  on_unjoin client = on_frame 8 (λ frame. Task.unjoin (member 0 8 frame)) client

  -- `opcode_handler_poker_action`
  unfoldable pub on_poker_action : Client S → Result (Client S)
  on_poker_action client =
      on_frame 18 (λ frame. Task.action (member 0 8 frame) (member 8 2 frame) (member 10 8 frame))
        client

  -- `opcode_handler_get_tables`
  unfoldable pub on_get_tables : Client S → Result (Client S)
  on_get_tables client =
      on_frame 4 (λ frame. Task.get_tables (member 0 2 frame) (member 2 2 frame)) client

  -- `opcode_handler_get_sessions`
  unfoldable pub on_get_sessions : Client S → Result (Client S)
  on_get_sessions client =
      on_frame 4 (λ frame. Task.get_sessions (member 0 2 frame) (member 2 2 frame)) client

  -- `opcode_handler_update_account`
  unfoldable pub on_update_account : Client S → Result (Client S)
  on_update_account client = read_or_close wire 6 client λ frame client.
      read_text wire (member 0 2 frame) client λ name client.
        read_avatar (member 2 4 frame) client
          λ avatar client. ok (push (Task.update_account name avatar) client)

  -- `opcode_handler_json`: the bytes of a structure of 18 are read over the string's pointer.
  unfoldable pub on_json : Client S → Result (Client S)
  on_json client = on_frame 18 (λ frame. Task.json frame) client

  -- A call of an entry of `OPCODE_HANDLERS`.
  unfoldable pub call_handler : Handler → Client S → Result (Client S)
  call_handler handle_nop client = ok client
  call_handler handle_meow client = on_meow client
  call_handler handle_ping client = on_ping client
  call_handler handle_login client = on_login client
  call_handler handle_signup client = on_signup client
  call_handler handle_auth_session client = on_auth_session client
  call_handler handle_get_account client = on_get_account client
  call_handler handle_enter client = on_enter client
  call_handler handle_leave client = on_leave client
  call_handler handle_join client = on_join client
  call_handler handle_unjoin client = on_unjoin client
  call_handler handle_poker_action client = on_poker_action client
  call_handler handle_json client = on_json client
  call_handler handle_get_tables client = on_get_tables client
  call_handler handle_get_sessions client = on_get_sessions client
  call_handler handle_update_account client = on_update_account client
  call_handler no_handler client = fault null_pointer

  -- The block at CHECK_OPCODE: the client after it, and whether the loop goes on.
  unfoldable pub check_opcode : ℕ → Client S → Result (Client S × Bool)
  check_opcode opcode client =
      if leb opcode Opcode.nop || leb Opcode.end_of_opcodes opcode
      then ok (client_disconnected client, false)
      else elim (get_elem? opcode_handlers opcode) [
        | none ↦ fault out_of_bounds
        | some handler ↦ call_handler handler client >>= λ client'. ok (client', true)
      ]
