-- ===== src/Server/Packets/Ready.antt =====
-- What the packets of src/server.c need for the lengths of their frames.
use pokerunicorn_server.Prelude.{
  ℕ, ◌+◌, ◌%◌, ◌^◌, ◌<◌, ◌≡◌, refl, ap, Bool, true, false, ◌&&◌, Option, none, some, List, ◌++◌,
  length, arith, All,
}
use pokerunicorn_server.Prelude.Result.{ok}
use pokerunicorn_server.Websocket.{take}
use pokerunicorn_server.Server.Packets.{
  AccountText, PokerText, Item, text16, if_any, account_texts, signup_account_texts, account_length,
  poker_info_player, poker_state_player, Packet,
}
use pokerunicorn_server.Server.Packets.Senders.{musts}
use pokerunicorn_server.Server.Packets.Writes.{items_of, info_length, frame_length}
use pokerunicorn_server.Server.Packets.Lengths.{
  length-take, size_all, size_items, size_all-append, size_items-musts, size_all-if_any,
  length-text16, Fits, size_all-account_texts, size_all-signup_account_texts,
  size_all-poker_info_player, size_all-poker_state_player, size_items-player_items,
  size_items-session_items, size_items-table_items, size_items-score_items,
}

-- An account that is logged in is there, with its token; where none is, there is no token.
abbrev pub IsReadyLogin : Bool → Option AccountText → Option (List ℕ) → Type 0
IsReadyLogin true none token = ⊥
IsReadyLogin true (some a) none = ⊥
IsReadyLogin true (some a) (some token) = Fits a × (length token < 65536)
IsReadyLogin false account none = Unit {0}
IsReadyLogin false account (some token) = ⊥

abbrev pub IsReadyAccount : Bool → Option AccountText → Type 0
IsReadyAccount true none = ⊥
IsReadyAccount true (some a) = Fits a
IsReadyAccount false account = Unit {0}

abbrev pub FitPlayers : PokerText → Type 0
FitPlayers p = All (λ q. Fits (p.account_of q)) p.poker.players

-- What the senders need for the length that they give.
abbrev pub IsReady : Packet → Type 0
IsReady Packet.over_capacity = Unit {0}
IsReady (Packet.login_res is_ok is_logined account token) =
    IsReadyLogin (is_ok && is_logined) account token
IsReady (Packet.signup_res is_ok is_logined status account token) =
    IsReadyLogin (is_ok && is_logined) account token
IsReady (Packet.auth_session_res is_ok is_logined account) =
    IsReadyAccount (is_ok && is_logined) account
IsReady (Packet.account a) = Fits a
IsReady (Packet.enter_res table is_ok) = Unit {0}
IsReady (Packet.leave_res table is_ok) = Unit {0}
IsReady (Packet.join_res table is_ok) = Unit {0}
IsReady (Packet.unjoin_res table is_ok) = Unit {0}
IsReady (Packet.poker_info p) = (length p.table.name < 65536) × FitPlayers p
IsReady (Packet.poker_state p player) = FitPlayers p
IsReady (Packet.poker_action_reflection table account kind amount) = Unit {0}
IsReady (Packet.poker_end table winner earned scores) = length scores < 256
IsReady (Packet.poker_restarted table) = Unit {0}
IsReady (Packet.unjoined table) = Unit {0}
IsReady (Packet.tables offset list) = Unit {0}
IsReady (Packet.sessions offset pokers) = All FitPlayers pokers
IsReady (Packet.update_account_res is_ok is_avatar_too_big) = Unit {0}
IsReady (Packet.server_info build_number version revision compiler) = Unit {0}

-- The writes of a packet and the length of its frame.
abbrev pub Framed : Packet → Type 0
Framed packet =
    (items : List Item) × (items_of packet ≡ ok items)
    × (frame_length packet ≡ ok (size_items items))

-- What an account that is logged in adds, with its token.
size_items-logined :
    (texts : List (List ℕ)) (a : AccountText) (token : List ℕ)
    → size_all texts ≡ account_length a
    → length token < 65536
    → 26 + account_length a + length token
      ≡ 26 + size_items (musts (texts ++ if_any (text16 token)))
size_items-logined texts a token e h = omega (
  arith,
  size_items-musts (texts ++ if_any (text16 token)),
  size_all-append texts (if_any (text16 token)),
  size_all-if_any (text16 token),
  length-text16 token h,
)

Framed-login_res :
    (is_ok is_logined : Bool) (account : Option AccountText) (token : Option (List ℕ))
    → IsReadyLogin (is_ok && is_logined) account token
    → Framed (Packet.login_res is_ok is_logined account token)
unfolding items_of frame_length size_items
Framed-login_res true true (some a) (some token) h =
    let more = size_items-logined (account_texts a) a token (size_all-account_texts a h.0) h.1 in
    (_, refl, ap ok (omega (arith, more)))
Framed-login_res true true (some a) none h = absurd h
Framed-login_res true true none token h = absurd h
Framed-login_res true false account none h = (_, refl, refl)
Framed-login_res true false account (some token) h = absurd h
Framed-login_res false is_logined account none h = (_, refl, refl)
Framed-login_res false is_logined account (some token) h = absurd h

Framed-signup_res :
    (is_ok is_logined : Bool) (status : ℕ) (account : Option AccountText) (token : Option (List ℕ))
    → IsReadyLogin (is_ok && is_logined) account token
    → Framed (Packet.signup_res is_ok is_logined status account token)
unfolding items_of frame_length size_items
Framed-signup_res true true status (some a) (some token) h =
    let more =
      size_items-logined (signup_account_texts a) a token (size_all-signup_account_texts a h.0)
        h.1 in
    (_, refl, ap ok (omega (arith, more)))
Framed-signup_res true true status (some a) none h = absurd h
Framed-signup_res true true status none token h = absurd h
Framed-signup_res true false status account none h = (_, refl, refl)
Framed-signup_res true false status account (some token) h = absurd h
Framed-signup_res false is_logined status account none h = (_, refl, refl)
Framed-signup_res false is_logined status account (some token) h = absurd h

Framed-auth_session_res :
    (is_ok is_logined : Bool) (account : Option AccountText)
    → IsReadyAccount (is_ok && is_logined) account
    → Framed (Packet.auth_session_res is_ok is_logined account)
unfolding items_of frame_length size_items
Framed-auth_session_res true true (some a) h = (
  _,
  refl,
  ap ok
      (omega (arith, size_items-musts (signup_account_texts a), size_all-signup_account_texts a h)),
)
Framed-auth_session_res true true none h = absurd h
Framed-auth_session_res true false account h = (_, refl, refl)
Framed-auth_session_res false is_logined account h = (_, refl, refl)

length-take_small :
    (scores : List (ℕ × ℕ))
    → length scores < 256
    → length (take (length scores % 2 ^ 8) scores) ≡ length scores
length-take_small scores h =
    let whole : length scores % 2 ^ 8 ≡ length scores = omega (arith, h) in
    rw whole (length-take scores)

-- Every packet has its length.
pub framed : (packet : Packet) → IsReady packet → Framed packet
unfolding items_of frame_length size_items
framed Packet.over_capacity h = (_, refl, refl)
framed (Packet.login_res is_ok is_logined account token) h =
    Framed-login_res is_ok is_logined account token h
framed (Packet.signup_res is_ok is_logined status account token) h =
    Framed-signup_res is_ok is_logined status account token h
framed (Packet.auth_session_res is_ok is_logined account) h =
    Framed-auth_session_res is_ok is_logined account h
framed (Packet.account a) h =
    (_, refl, ap ok (omega (arith, size_items-musts (account_texts a), size_all-account_texts a h)))
framed (Packet.enter_res table is_ok) h = (_, refl, refl)
framed (Packet.leave_res table is_ok) h = (_, refl, refl)
framed (Packet.join_res table is_ok) h = (_, refl, refl)
framed (Packet.unjoin_res table is_ok) h = (_, refl, refl)
framed (Packet.poker_info p) h = (
  _,
  refl,
  ap ok (
      omega (
        arith,
        length-text16 p.table.name h.0,
        size_items-player_items 28 info_length poker_info_player p p.poker.players
            size_all-poker_info_player h.1,
      )),
)
framed (Packet.poker_state p player) h = (
  _,
  refl,
  ap ok (
      omega (
        arith,
        size_items-player_items 24 (λ a. length a.name) poker_state_player p p.poker.players
            size_all-poker_state_player h,
      )),
)
framed (Packet.poker_action_reflection table account kind amount) h = (_, refl, refl)
framed (Packet.poker_end table winner earned scores) h = (
  _,
  refl,
  ap ok (
      omega (
        arith,
        size_items-score_items (take (length scores % 2 ^ 8) scores),
        length-take_small scores h,
      )),
)
framed (Packet.poker_restarted table) h = (_, refl, refl)
framed (Packet.unjoined table) h = (_, refl, refl)
framed (Packet.tables offset list) h = (_, refl, ap ok (omega (arith, size_items-table_items list)))
framed (Packet.sessions offset pokers) h =
    (_, refl, ap ok (omega (arith, size_items-session_items pokers h)))
framed (Packet.update_account_res is_ok is_avatar_too_big) h = (_, refl, refl)
framed (Packet.server_info build_number version revision compiler) h = (
  _,
  refl,
  ap ok (
      omega (
        arith,
        size_items-musts (if_any version ++ (if_any revision ++ if_any compiler)),
        size_all-append (if_any version) (if_any revision ++ if_any compiler),
        size_all-append (if_any revision) (if_any compiler),
        size_all-if_any version,
        size_all-if_any revision,
        size_all-if_any compiler,
      )),
)
