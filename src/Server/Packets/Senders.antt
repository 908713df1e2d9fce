-- ===== src/Server/Packets/Senders.antt =====
-- The functions `pkrsrv_server_send_*` of src/server.c: what each writes.
use pokerunicorn_server.Prelude.{
  ℕ, ◌%◌, ◌^◌, Bool, true, false, ◌&&◌, Option, none, some, List, [], ◌∷◌, ◌++◌, map, length,
}
use pokerunicorn_server.Prelude.Result.{Result, ok, fault, ◌>>=◌, null_pointer}
use pokerunicorn_server.Poker.Types.{Player}
use pokerunicorn_server.Websocket.{take}
use pokerunicorn_server.Server.{bytes_le}
use pokerunicorn_server.Server.Opcode
use pokerunicorn_server.Server.Handlers.{header_frame}
use pokerunicorn_server.Server.Packets.{
  AccountText, TableText, PokerText, Item, must, may, text16, if_any, flag, account_frame,
  account_texts, signup_account_frame, signup_account_texts, poker_info_frame, poker_info_player,
  poker_state_player, poker_state_frame, table_frame,
}

abbrev pub musts : List (List ℕ) → List Item
musts chunks = map must chunks

-- The token of a session of authentication, or nothing.
abbrev pub token_of : Option (List ℕ) → List ℕ
token_of none = []
token_of (some token) = token

-- The part of an answer that an account that is logged in gets.
abbrev pub logined_part :
    Bool → (AccountText → List (List ℕ)) → Option AccountText → Result (List (List ℕ))
logined_part false part account = ok []
logined_part true part none = fault null_pointer
logined_part true part (some account) = ok (part account)

-- What the players of a machine get written, each by a call of its own.
abbrev pub player_items :
    (AccountText → Player → List (List ℕ)) → PokerText → List Player → List Item
player_items part p [] = []
player_items part p (player ∷ players) =
    may (part (p.account_of player) player) ∷ player_items part p players

abbrev pub session_items : List PokerText → List Item
session_items [] = []
session_items (p ∷ pokers) =
    must (poker_info_frame p)
    ∷ must p.table.name
    ∷ (player_items poker_info_player p p.poker.players ++ session_items pokers)

abbrev pub table_items : List TableText → List Item
table_items [] = []
table_items (t ∷ tables) = must (table_frame t) ∷ must t.name ∷ table_items tables

abbrev pub score_items : List (ℕ × ℕ) → List Item
score_items [] = []
score_items ((account, bet_diff) ∷ scores) =
    must (bytes_le 8 bet_diff ++ bytes_le 8 account) ∷ score_items scores

-- A packet of one structure behind its header.
abbrev pub structure : ℕ → List ℕ → Result (List Item)
structure opcode frame = ok (musts (header_frame opcode 0 ∷ frame ∷ []))

-- `pkrsrv_server_send_over_capacity`
abbrev pub send_over_capacity : Result (List Item)
send_over_capacity = ok (must (header_frame Opcode.over_capacity 0) ∷ [])

-- `pkrsrv_server_send_login_res`
abbrev pub send_login_res : Bool → Bool → Option AccountText → Option (List ℕ) → Result (List Item)
send_login_res is_ok is_logined account token =
    logined_part (is_ok && is_logined) (λ a. account_frame a ∷ account_texts a) account >>= λ part.
    ok (
      musts (
        header_frame Opcode.login_res 0
        ∷ (bytes_le 1 (flag is_ok)
            ++ bytes_le 1 (flag is_logined)
            ++ bytes_le 2 (length (token_of token)))
        ∷ (part ++ if_any (text16 (token_of token)))))

-- `pkrsrv_server_send_signup_res`
abbrev pub send_signup_res :
    Bool → Bool → ℕ → Option AccountText → Option (List ℕ) → Result (List Item)
send_signup_res is_ok is_logined status account token =
    logined_part (is_ok && is_logined) (λ a. signup_account_frame a ∷ signup_account_texts a)
      account
    >>= λ part. ok (
        musts (
          header_frame Opcode.signup_res 0
          ∷ (bytes_le 1 (flag is_ok)
              ++ bytes_le 1 (flag is_logined)
              ++ bytes_le 2 status
              ++ bytes_le 2 (length (token_of token)))
          ∷ (part ++ if_any (text16 (token_of token)))))

-- `pkrsrv_server_send_auth_session_res`
abbrev pub send_auth_session_res : Bool → Bool → Option AccountText → Result (List Item)
send_auth_session_res is_ok is_logined account =
    logined_part (is_ok && is_logined) (λ a. account_frame a ∷ signup_account_texts a) account
    >>= λ part. ok (
        musts (
          header_frame Opcode.auth_session_res 0
          ∷ (bytes_le 1 (flag is_ok) ++ bytes_le 1 (flag is_logined))
          ∷ part))

-- `pkrsrv_server_send_account`
abbrev pub send_account : AccountText → Result (List Item)
send_account a = ok (musts (header_frame Opcode.account 0 ∷ account_frame a ∷ account_texts a))

-- `pkrsrv_server_send_enter_res`
abbrev pub send_enter_res : ℕ → Bool → Result (List Item)
send_enter_res table is_ok =
    structure Opcode.enter_res (bytes_le 8 table ++ bytes_le 1 (flag is_ok))

-- `pkrsrv_server_send_leave_res`
abbrev pub send_leave_res : ℕ → Bool → Result (List Item)
send_leave_res table is_ok =
    structure Opcode.leave_res (bytes_le 8 table ++ bytes_le 1 (flag is_ok))

-- `pkrsrv_server_send_join_res`
abbrev pub send_join_res : ℕ → Bool → Result (List Item)
send_join_res table is_ok = structure Opcode.join_res (bytes_le 8 table ++ bytes_le 1 (flag is_ok))

-- `pkrsrv_server_send_unjoin_res`
abbrev pub send_unjoin_res : ℕ → Bool → Result (List Item)
send_unjoin_res table is_ok =
    structure Opcode.unjoin_res (bytes_le 8 table ++ bytes_le 1 (flag is_ok))

-- `pkrsrv_server_send_poker_info`
abbrev pub send_poker_info : PokerText → Result (List Item)
send_poker_info p = ok (
    must (header_frame Opcode.poker_info 0)
    ∷ must (poker_info_frame p)
    ∷ must (text16 p.table.name)
    ∷ player_items poker_info_player p p.poker.players)

-- `pkrsrv_server_send_poker_state`
abbrev pub send_poker_state : PokerText → Option Player → Result (List Item)
send_poker_state p player = ok (
    must (header_frame Opcode.poker_state 0)
    ∷ must (poker_state_frame p player)
    ∷ player_items poker_state_player p p.poker.players)

-- `pkrsrv_server_send_poker_action_reflection`
abbrev pub send_poker_action_reflection : ℕ → ℕ → ℕ → ℕ → Result (List Item)
send_poker_action_reflection table account kind amount =
    structure Opcode.poker_action_reflection
      (bytes_le 8 table ++ bytes_le 8 account ++ bytes_le 2 kind ++ bytes_le 8 amount)

-- `pkrsrv_server_send_poker_end`
abbrev pub send_poker_end : ℕ → ℕ → ℕ → List (ℕ × ℕ) → Result (List Item)
send_poker_end table winner earned scores = ok (
    must (header_frame Opcode.poker_end 0)
    ∷ must
        (bytes_le 8 table ++ bytes_le 8 winner ++ bytes_le 1 (length scores) ++ bytes_le 8 earned)
    ∷ score_items (take (length scores % 2 ^ 8) scores))

-- `pkrsrv_server_send_poker_restarted`
abbrev pub send_poker_restarted : ℕ → Result (List Item)
send_poker_restarted table = structure Opcode.poker_restarted (bytes_le 8 table)

-- `pkrsrv_server_send_unjoined`
abbrev pub send_unjoined : ℕ → Result (List Item)
send_unjoined table = structure Opcode.unjoined (bytes_le 8 table ++ bytes_le 4 0)

-- `pkrsrv_server_send_tables`
abbrev pub send_tables : ℕ → List TableText → Result (List Item)
send_tables offset list = ok (
    must (header_frame Opcode.tables 0)
    ∷ must (bytes_le 2 offset ++ bytes_le 2 (length list))
    ∷ table_items list)

-- `pkrsrv_server_send_sessions`
abbrev pub send_sessions : ℕ → List PokerText → Result (List Item)
send_sessions offset pokers = ok (
    must (header_frame Opcode.sessions 0)
    ∷ must (bytes_le 2 offset ++ bytes_le 2 (length pokers))
    ∷ session_items pokers)

-- `pkrsrv_server_send_update_account_res`
abbrev pub send_update_account_res : Bool → Bool → Result (List Item)
send_update_account_res is_ok is_avatar_too_big =
    structure Opcode.update_account_res
      (bytes_le 1 (flag is_ok) ++ bytes_le 1 (flag is_avatar_too_big))

-- `pkrsrv_server_send_server_info`
abbrev pub send_server_info : ℕ → List ℕ → List ℕ → List ℕ → Result (List Item)
send_server_info build_number version revision compiler = ok (
    musts (
      header_frame Opcode.server_info 0
      ∷ (bytes_le 8 build_number
          ++ bytes_le 2 (length version)
          ++ bytes_le 2 (length revision)
          ++ bytes_le 2 (length compiler))
      ∷ (if_any version ++ (if_any revision ++ if_any compiler))))
