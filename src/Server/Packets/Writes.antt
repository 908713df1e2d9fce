-- ===== src/Server/Packets/Writes.antt =====
-- The functions `pkrsrv_server_send_*` of src/server.c: all of them, and the length that each gives to
-- the header of a websocket frame.
use pokerunicorn_server.Prelude.{
  ℕ, ◌+◌, ◌*◌, Bool, true, false, ◌&&◌, Option, none, some, List, [], ◌∷◌, if◌then◌else◌, length,
}
use pokerunicorn_server.Prelude.Result.{Result, ok, fault, ◌>>=◌, null_pointer}
use pokerunicorn_server.Poker.Types.{Player}
use pokerunicorn_server.Websocket.{Wire, send_header}
use pokerunicorn_server.Server.{Client, client_disconnected, ssl_write, write_all}
use pokerunicorn_server.Server.Packets.{
  AccountText, TableText, PokerText, Item, must, may, account_length, Packet,
}
use pokerunicorn_server.Server.Packets.Senders.{
  send_over_capacity, send_login_res, send_signup_res, send_auth_session_res, send_account,
  send_enter_res, send_leave_res, send_join_res, send_unjoin_res, send_poker_info, send_poker_state,
  send_poker_action_reflection, send_poker_end, send_poker_restarted, send_unjoined, send_tables,
  send_sessions, send_update_account_res, send_server_info,
}

-- The writes of a packet, in their order.
unfoldable pub items_of : Packet → Result (List Item)
items_of Packet.over_capacity = send_over_capacity
items_of (Packet.login_res is_ok is_logined account token) =
    send_login_res is_ok is_logined account token
items_of (Packet.signup_res is_ok is_logined status account token) =
    send_signup_res is_ok is_logined status account token
items_of (Packet.auth_session_res is_ok is_logined account) =
    send_auth_session_res is_ok is_logined account
items_of (Packet.account a) = send_account a
items_of (Packet.enter_res table is_ok) = send_enter_res table is_ok
items_of (Packet.leave_res table is_ok) = send_leave_res table is_ok
items_of (Packet.join_res table is_ok) = send_join_res table is_ok
items_of (Packet.unjoin_res table is_ok) = send_unjoin_res table is_ok
items_of (Packet.poker_info p) = send_poker_info p
items_of (Packet.poker_state p player) = send_poker_state p player
items_of (Packet.poker_action_reflection table account kind amount) =
    send_poker_action_reflection table account kind amount
items_of (Packet.poker_end table winner earned scores) = send_poker_end table winner earned scores
items_of (Packet.poker_restarted table) = send_poker_restarted table
items_of (Packet.unjoined table) = send_unjoined table
items_of (Packet.tables offset list) = send_tables offset list
items_of (Packet.sessions offset pokers) = send_sessions offset pokers
items_of (Packet.update_account_res is_ok is_avatar_too_big) =
    send_update_account_res is_ok is_avatar_too_big
items_of (Packet.server_info build_number version revision compiler) =
    send_server_info build_number version revision compiler

-- The length that an account that is logged in adds, with its token, which is empty where none is sent.
abbrev pub logined_length : Bool → Option AccountText → Option (List ℕ) → Result ℕ
logined_length false account token = ok 0
logined_length true none token = fault null_pointer
logined_length true (some account) none = fault null_pointer
logined_length true (some account) (some token) = ok (26 + account_length account + length token)

abbrev pub players_length : ℕ → (AccountText → ℕ) → PokerText → List Player → ℕ
players_length size texts p [] = 0
players_length size texts p (player ∷ players) =
    size + texts (p.account_of player) + players_length size texts p players

abbrev pub info_length : AccountText → ℕ
info_length a = length a.name + length a.avatar

abbrev pub sessions_length : List PokerText → ℕ
sessions_length [] = 0
sessions_length (p ∷ pokers) =
    48
    + length p.table.name
    + players_length 28 info_length p p.poker.players
    + sessions_length pokers

abbrev pub tables_length : List TableText → ℕ
tables_length [] = 0
tables_length (t ∷ tables) = 32 + length t.name + tables_length tables

-- `length` in the branch of a websocket, over the sizes of the packed structures.
unfoldable pub frame_length : Packet → Result ℕ
frame_length Packet.over_capacity = ok 8
frame_length (Packet.login_res is_ok is_logined account token) =
    logined_length (is_ok && is_logined) account token >>= λ n. ok (8 + 4 + n)
frame_length (Packet.signup_res is_ok is_logined status account token) =
    logined_length (is_ok && is_logined) account token >>= λ n. ok (8 + 6 + n)
frame_length (Packet.auth_session_res is_ok is_logined account) =
    logined_length (is_ok && is_logined) account (some []) >>= λ n. ok (8 + 2 + n)
frame_length (Packet.account a) = ok (8 + 26 + account_length a)
frame_length (Packet.enter_res table is_ok) = ok (8 + 9)
frame_length (Packet.leave_res table is_ok) = ok (8 + 9)
frame_length (Packet.join_res table is_ok) = ok (8 + 9)
frame_length (Packet.unjoin_res table is_ok) = ok (8 + 9)
frame_length (Packet.poker_info p) =
    ok (8 + 48 + length p.table.name + players_length 28 info_length p p.poker.players)
frame_length (Packet.poker_state p player) =
    ok (8 + 71 + players_length 24 (λ a. length a.name) p p.poker.players)
frame_length (Packet.poker_action_reflection table account kind amount) = ok (8 + 26)
frame_length (Packet.poker_end table winner earned scores) = ok (8 + 25 + 16 * length scores)
frame_length (Packet.poker_restarted table) = ok (8 + 8)
frame_length (Packet.unjoined table) = ok (8 + 12)
frame_length (Packet.tables offset list) = ok (8 + 4 + tables_length list)
frame_length (Packet.sessions offset pokers) = ok (8 + 4 + sessions_length pokers)
frame_length (Packet.update_account_res is_ok is_avatar_too_big) = ok (8 + 2)
frame_length (Packet.server_info build_number version revision compiler) =
    ok (8 + 14 + (length version + length revision + length compiler))

module _ {S : Type 0} (wire : Wire S) where
  -- The writes of a packet. Behind a player whose writes failed the next are tried again.
  unfoldable pub write_items : List Item → Client S → Client S × Bool
  write_items [] client = (client, true)
  write_items (must bs ∷ items) client = elim (ssl_write wire bs client.ssl) [
    | none ↦ (client_disconnected client, false)
    | some s ↦ write_items items (record client { ssl = s })
  ]
  write_items (may chunks ∷ items) client = write_items items (write_all wire chunks client).0

  -- The body of every `pkrsrv_server_send_*`: the writes, behind the header of a frame for a websocket.
  unfoldable pub send_items : Packet → Client S → Result (Client S × Bool)
  send_items packet client = items_of packet >>= λ items. ok (write_items items client)

  -- What follows the write of a frame's header.
  unfoldable pub after_frame : Packet → Client S → Option S → Result (Client S × Bool)
  after_frame packet client none = ok (client_disconnected client, false)
  after_frame packet client (some s) = send_items packet (record client { ssl = s })

  unfoldable pub send_packet : Packet → Client S → Result (Client S × Bool)
  send_packet packet client =
      if client.is_websocket
      then (frame_length packet >>= λ n. after_frame packet client (send_header wire n client.ssl))
      else send_items packet client
