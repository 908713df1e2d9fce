-- ===== src/Server/Packets.antt =====
-- The packets that src/server.c sends, `pkrsrv_server_send_*`: the writes of each, and the length that
-- the header of its websocket frame has.
pub mod Senders
pub mod Writes
pub mod Lengths
pub mod Ready
pub mod Frames
use Prim.Native.Nat.{bit_or}
use pokerunicorn_server.Prelude.{
  ℕ, zero, suc, ◌+◌, ◌*◌, ◌%◌, ◌^◌, Bool, true, false, ◌&&◌, Option, none, some, List, [], ◌∷◌,
  ◌++◌, map, if◌then◌else◌, ◌==◌, length,
}
use pokerunicorn_server.Prelude.Result.{Result, ok, fault, ◌>>=◌, null_pointer}
use pokerunicorn_server.Card.Types.{Card}
use pokerunicorn_server.Poker.Types.{Poker, Player, PlayerScore, Table, state_num}
use pokerunicorn_server.Websocket.{take}
use pokerunicorn_server.Server.{bytes_le}
use pokerunicorn_server.Server.Opcode
use pokerunicorn_server.Server.Handlers.{header_frame}

-- What is sent of a `pkrsrv_account_t`.
pub record AccountText : Type 0 where
  pub xmr_deposit_address : List ℕ
  pub id_token : List ℕ
  pub name : List ℕ
  pub avatar : List ℕ
  pub id : ℕ
  pub balance : ℕ

-- What is sent of a `pkrsrv_table_t` beside the members that the machine reads.
pub record TableText : Type 0 where
  pub id : ℕ
  pub name : List ℕ
  pub table : Table
  pub players_count : ℕ
  pub watchers_count : ℕ
  pub enterance_min : ℕ
  pub enterance_max : ℕ

-- A machine with the texts of its table and of the accounts of its players.
pub record PokerText : Type 0 where
  pub poker : Poker
  pub table : TableText
  pub account_of : Player → AccountText

-- A write of a packet: one whose failure ends the packet, and those of
-- `pkrsrv_server_send_poker_info_player` and `_send_poker_state_player`, whose result is not looked at.
pub data Item : Type 0 where
  must : List ℕ → Item
  may : List (List ℕ) → Item

-- A text, as far as the member that holds its length says.
abbrev pub text16 : List ℕ → List ℕ
text16 text = take (length text % 2 ^ 16) text

abbrev pub text32 : List ℕ → List ℕ
text32 text = take (length text % 2 ^ 32) text

-- A write that is left out where there is nothing to write.
abbrev pub if_any : List ℕ → List (List ℕ)
if_any [] = []
if_any (b ∷ bs) = (b ∷ bs) ∷ []

abbrev pub flag : Bool → ℕ
flag true = 1
flag false = 0

-- `(index << 4) | kind` in a byte; a slot without a card has -1 in both.
abbrev pub card_byte : Option Card → ℕ
card_byte none = 255
card_byte (some card) = bit_or (card.index * 16) card.kind

abbrev pub position_byte : Option ℕ → ℕ
position_byte none = 255
position_byte (some position) = position

-- `pkrsrv_server_packet_frame_login_res_account` and `_account`
abbrev pub account_frame : AccountText → List ℕ
account_frame a =
    bytes_le 2 (length a.xmr_deposit_address)
    ++ bytes_le 2 (length a.id_token)
    ++ bytes_le 2 (length a.name)
    ++ bytes_le 4 (length a.avatar)
    ++ bytes_le 8 a.id
    ++ bytes_le 8 a.balance

-- The texts of an account behind its frame, with the address first.
abbrev pub account_texts : AccountText → List (List ℕ)
account_texts a =
    if_any (text16 a.xmr_deposit_address)
    ++ (text16 a.id_token ∷ text16 a.name ∷ if_any (text32 a.avatar))

-- `pkrsrv_server_packet_frame_signup_res_account`
abbrev pub signup_account_frame : AccountText → List ℕ
signup_account_frame a =
    bytes_le 2 (length a.id_token)
    ++ bytes_le 2 (length a.name)
    ++ bytes_le 4 (length a.avatar)
    ++ bytes_le 2 (length a.xmr_deposit_address)
    ++ bytes_le 8 a.id
    ++ bytes_le 8 a.balance

-- The texts of an account behind its frame, with the address last.
abbrev pub signup_account_texts : AccountText → List (List ℕ)
signup_account_texts a =
    text16 a.id_token
    ∷ text16 a.name
    ∷ (if_any (text32 a.avatar) ++ if_any (text16 a.xmr_deposit_address))

-- The lengths of an account's texts.
abbrev pub account_length : AccountText → ℕ
account_length a =
    length a.id_token + length a.name + length a.avatar + length a.xmr_deposit_address

-- `pkrsrv_server_packet_frame_poker_info`
abbrev pub poker_info_frame : PokerText → List ℕ
poker_info_frame p =
    bytes_le 2 (length p.table.name)
    ++ bytes_le 2 (length p.poker.players)
    ++ bytes_le 8 p.table.id
    ++ bytes_le 2 p.table.table.max_players
    ++ bytes_le 2 p.table.table.action_timeout
    ++ bytes_le 8 p.table.table.small_blind
    ++ bytes_le 8 p.table.table.big_blind
    ++ bytes_le 8 p.table.enterance_min
    ++ bytes_le 8 p.table.enterance_max

-- `pkrsrv_server_send_poker_info_player`
abbrev pub poker_info_player : AccountText → Player → List (List ℕ)
poker_info_player a p =
    (bytes_le 2 (length a.name)
      ++ bytes_le 4 (length a.avatar)
      ++ bytes_le 8 a.id
      ++ bytes_le 1 p.position
      ++ bytes_le 1 (flag p.is_playing)
      ++ bytes_le 1 (flag p.is_dealt)
      ++ bytes_le 1 (flag p.is_allin)
      ++ bytes_le 1 (flag p.is_folded)
      ++ bytes_le 1 (flag p.is_left)
      ++ bytes_le 8 p.balance)
    ∷ (if_any (text16 a.name) ++ if_any (text32 a.avatar))

-- `pkrsrv_server_send_poker_state_player`
abbrev pub poker_state_player : AccountText → Player → List (List ℕ)
poker_state_player a p =
    (bytes_le 2 (length a.name)
      ++ bytes_le 8 a.id
      ++ bytes_le 1 p.position
      ++ bytes_le 1 (flag p.is_playing)
      ++ bytes_le 1 (flag p.is_dealt)
      ++ bytes_le 1 (flag p.is_allin)
      ++ bytes_le 1 (flag p.is_folded)
      ++ bytes_le 1 (flag p.is_left)
      ++ bytes_le 8 p.balance)
    ∷ if_any (text16 a.name)

-- The members of `pkrsrv_server_packet_frame_poker_state` that are the player's own.
pub record Own : Type 0 where
  pub is_playing : ℕ
  pub position : ℕ
  pub is_dealt : ℕ
  pub hand0 : ℕ
  pub hand1 : ℕ
  pub balance : ℕ
  pub bet : ℕ

abbrev pub own : Option Player → Own
own none = record {
  is_playing = 0;
  position = 0;
  is_dealt = 0;
  hand0 = 0;
  hand1 = 0;
  balance = 0;
  bet = 0;
}
own (some p) = record {
  is_playing = flag p.is_playing;
  position = p.position;
  is_dealt = flag p.is_dealt;
  hand0 = if p.is_dealt then card_byte p.card0 else 0;
  hand1 = if p.is_dealt then card_byte p.card1 else 0;
  balance = p.balance;
  bet = p.bet;
}

-- `pkrsrv_server_packet_frame_poker_state`, with the cards of the table and those of the player.
abbrev pub poker_state_frame : PokerText → Option Player → List ℕ
poker_state_frame p player =
    bytes_le 2 (length p.poker.players)
    ++ bytes_le 8 p.table.id
    ++ bytes_le 2 (state_num p.poker.state)
    ++ bytes_le 1 (own player).is_playing
    ++ bytes_le 1 (card_byte p.poker.hand_flop.card0)
    ++ bytes_le 1 (card_byte p.poker.hand_flop.card1)
    ++ bytes_le 1 (card_byte p.poker.hand_flop.card2)
    ++ bytes_le 1 (card_byte p.poker.hand_turn.card0)
    ++ bytes_le 1 (card_byte p.poker.hand_river.card0)
    ++ bytes_le 1 (own player).position
    ++ bytes_le 1 (position_byte p.poker.playing_position)
    ++ bytes_le 1 (own player).is_dealt
    ++ bytes_le 1 (own player).hand0
    ++ bytes_le 1 (own player).hand1
    ++ bytes_le 8 (own player).balance
    ++ bytes_le 8 (own player).bet
    ++ bytes_le 8 p.poker.current_raise
    ++ bytes_le 8 p.poker.current_bet
    ++ bytes_le 8 p.poker.pot_amount
    ++ bytes_le 8 p.poker.starting_time

-- `pkrsrv_server_packet_frame_table`
abbrev pub table_frame : TableText → List ℕ
table_frame t =
    bytes_le 2 (length t.name)
    ++ bytes_le 8 t.id
    ++ bytes_le 2 t.table.max_players
    ++ bytes_le 2 t.players_count
    ++ bytes_le 2 t.watchers_count
    ++ bytes_le 8 t.table.small_blind
    ++ bytes_le 8 t.table.big_blind

-- The parameters of the functions `pkrsrv_server_send_*`. A pointer to an account or to a session of
-- authentication can be NULL; of a session its token is sent. A score has its account's number first.
pub data Packet : Type 0 where
  over_capacity : Packet
  login_res : Bool → Bool → Option AccountText → Option (List ℕ) → Packet
  signup_res : Bool → Bool → ℕ → Option AccountText → Option (List ℕ) → Packet
  auth_session_res : Bool → Bool → Option AccountText → Packet
  account : AccountText → Packet
  enter_res leave_res join_res unjoin_res : ℕ → Bool → Packet
  poker_info : PokerText → Packet
  poker_state : PokerText → Option Player → Packet
  poker_action_reflection : ℕ → ℕ → ℕ → ℕ → Packet
  poker_end : ℕ → ℕ → ℕ → List (ℕ × ℕ) → Packet
  poker_restarted unjoined : ℕ → Packet
  tables : ℕ → List TableText → Packet
  sessions : ℕ → List PokerText → Packet
  update_account_res : Bool → Bool → Packet
  server_info : ℕ → List ℕ → List ℕ → List ℕ → Packet
