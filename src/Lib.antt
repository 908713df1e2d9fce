-- ===== src/Lib.antt =====
-- PokerUnicorn Server: the cards, the bets and the rounds of Texas Hold'em as the server plays them,
-- the lobby with the money of the accounts around a table, the event loop's tasks, the frames and the
-- packets of a connection, and the tries that find a client by its token.
--
-- The parts of the program that are modelled, and where:
-- - src/card.c, include/card.h: Card/Types (the records), Card/Check (`pkrsrv_card_check_*`),
--   Card/Score (`pkrsrv_card_get_get_fives_score`, `pkrsrv_card_sort_sevens`, `pkrsrv_card_get_fives`,
--   `pkrsrv_card_get_best_fives_score`), Card/Draw (`pkrsrv_card_get_random` over
--   `pkrsrv_random_range` of src/random.c). Theorems: Card/Bands, Card/Best, Card/Kinds,
--   Card/Draw/Fresh.
-- - Exchange: the sort that card.c and poker.c write out three times. Theorems: Exchange/Order,
--   Exchange/Members.
-- - src/poker.c, include/poker.h: Poker/Types (the records), Poker/Players (`pkrsrv_poker_players_*`,
--   `pkrsrv_poker_player_*`), Poker/Betting (the guards of `pkrsrv_poker_do_action`, blinds, raise,
--   check, fold), Poker/Turn (the last to act, the loop at NEXT_PLAYER, the cards of a street),
--   Poker/Street (the blocks on the state), Poker/Showdown (the block at DONE), Poker/Action
--   (`pkrsrv_poker_do_action` put together), Poker/Round (`pkrsrv_poker_new`, `_ready`, `_starting`,
--   `_start`, `_deal`), Poker/Round/Restart (`_restart`, `_proceed`). Poker/Store has the list of
--   players as a store of addresses. The other files beside these hold theorems.
-- - src/account.c: Account (balances in memory and in the database, `pkrsrv_account_lock_balance`,
--   `_unlock_balance`, `_add_balance`, `_remove_locked_balance`, `_fetch`), over the interface Account/Db
--   of the SQL statements. Theorems: Account/Balance, Account/Failures.
-- - src/lobby.c, include/lobby.h: Lobby/Types (the records and lookups), Lobby/Session
--   (`pkrsrv_lobby_session_new`, `_start`, `_stop`, `pkrsrv_lobby_client_enter_session`, and the counters
--   of src/table.c), Lobby/Seats (`pkrsrv_lobby_client_join_session`, `_unjoin_session`,
--   `_leave_session`), Lobby/Handlers (`on_client_join`, `_unjoin`, `_leave`, `_action`,
--   `on_poker_action`, `pkrsrv_lobby_session_poker_start__async`). Theorems: Lobby/Seats/Join,
--   Lobby/Seats/Unjoin, Lobby/Seats/RoundTrip, Lobby/Session/Enter, Lobby/Handlers/Refusal.
-- - src/eventloop.c, src/ref.c: EventLoop (the operations on a task, the queue and the count of
--   references), EventLoop/Life (the steps of a task among others and the views that they reach).
--   Theorems: EventLoop/Counts, EventLoop/Runs, EventLoop/Steps,
--   EventLoop/Safety.
-- - src/websocket.c: Websocket (`pkrsrv_websocket_read_header`, `_read_payload`, `_send_header`);
--   `pkrsrv_server_ssl_read` of src/server.c: Websocket/Ssl. Theorems: Websocket/Lengths,
--   Websocket/Masks, Websocket/Fragments, Websocket/Ssl.
-- - `pkrsrv_websocket_read_http_header` and `pkrsrv_websocket_generate_ws_accept_key` of
--   src/websocket.c: Websocket/Handshake, with `pkrsrv_util_base64_encode` of src/util.c in
--   Websocket/Base64. Theorems: Websocket/Handshake/Request (the parser on a request),
--   Websocket/Handshake/Answer.
-- - src/trie.c: Trie (`__ascii`), Trie/Unicode (`__unicode` and `__index`, whose code is the same, over
--   the number of slots). Theorems: Trie/Shape (the representation), Trie/Slots, Trie/Walk, Trie/Insert,
--   Trie/Clear, Trie/Laws.
-- - src/server.c, include/server.h: Server (clients, reads and writes), Server/Opcode, Server/Handlers
--   (`OPCODE_HANDLERS`, `opcode_handler_*`), Server/Loop (`receive_packet`,
--   `receive_websocket_packet`), Server/Packets with Server/Packets/Senders and Server/Packets/Writes
--   (`pkrsrv_server_send_*`). Theorems: Server/Open, Server/Served, Server/Checked, Server/Rounds over
--   the requests of Server/Requests; Server/Packets/Lengths, Server/Packets/Ready,
--   Server/Packets/Frames.
-- - Tests has runs of the model and the theorems at concrete inputs.
--
-- How they interact: a client enters a session of the lobby and joins it, which locks the entrance in
-- its account and seats a player (`players_addby_account`); an unjoin pays the chips back. The lobby
-- gives the event loop the tasks that start and proceed a game; of these calls a list is kept. The
-- lobby starts a round (`start`),
-- which posts the blinds through `do_action` and deals; clients' actions go through `do_action`, and
-- `proceed` folds for a player whose time is up. `do_action` draws cards through `get_random` and
-- scores hands through `get_best_fives_score`.
--
-- Conventions. A pointer to a player is an address, a number that the player carries; the list of
-- players is the store, and a write through a pointer is a write to the player at the address. An
-- account is its id. An `int` that is -1 where it has no value is an `Option`, and so is the card of
-- index -1. A `uint64_t` is a number below 2 ^ 64 whose operations wrap (Prelude/Words). A function
-- that dereferences a null pointer or reads memory that was never written returns a `Fault`
-- (Prelude/Result). The code of `do_action` writes the block of a street out four times; Poker/Street
-- writes it once, with the state as an argument and the differences as functions of the state.
--
-- Parameters. The values of rand(), as a list that is used up from the front: `no_draw` says that the
-- list has ended, where the code would go on drawing. The clock, as the numbers `now` and `later`.
-- The allocator, as the address of a new player. PostgreSQL, as the interface Account/Db with the
-- documented behaviour of its statements (`IsDatabase`) and, where a theorem says so, that none fails
-- (`Answers`). `SSL_read`, as a function that gives some of the bytes asked for (`IsSsl`); the frames
-- are read over the interface `Wire`, whose law `IsWire` the reads of the server are shown to have.
--
-- `IsOpen` is what the loops over packets rely on of a connection without a websocket, and `IsRecorded`
-- what the senders rely on of one that takes every write of some bytes. `IsAnswering` is what the
-- handshake relies on beside `IsWire`. `SSL_read` and `SSL_write` take lengths as an `int`: reads of 2^31
-- bytes and more fail in `ssl_read`, and `ssl_write` has the length wrap and fails on none. SHA1 is a
-- function of bytes, which gives 20 of them where a theorem says so. A fetch reads the numbers of a row
-- with `atoll`, whose result beyond 2^63 - 1 is taken to be that maximum, as in glibc.
--
-- Fuel. The loop at NEXT_PLAYER has 2 * last + 3 rounds, for the position `last` of the last seat:
-- from any position it passes every seat once. The loops that seek the seats of the blinds have ten,
-- one for each seat that `i % 10` can name. `endless` says that fuel ran out.
-- `ssl_read` has a round for each byte and one more, and a round receives a byte at least.
-- `read_header` takes the number of frames as fuel; a message of `n` frames needs `n` of it.
-- `receive_packet` takes the number of frames as fuel. The handshake needs none: it reads 1000 bytes at
-- most.
--
-- Not modelled: freeing memory, and reference counts other than those of tasks; the assertions (their
-- conditions are also tested by the guards that follow them), log lines, `position_i`, `owner`,
-- `winner_score_result` and `process_latency`, which nothing of the machine reads; a showdown with an
-- empty slot among the seven, which is the fault `no_card`; a table whose `max_players` is 0, by which a
-- join divides; an index of a deposit address that does not fit an `int`. Of the lobby: login, signup, the revival of
-- clients, the task that proceeds a session over all its clients, the order of the list of sessions
-- and the packets that are sent. Of the event loop: a second call of one task, the end of the loop, and
-- the mutex, whose sections are single steps. Of the frames: memory that runs
-- out. Of the tries: their release. Of the server: sockets, threads, the list of clients, and the packet
-- of JSON that is sent. Authentication, deposits, the clients of PostgreSQL and Redis, and RSA.
pub mod Prelude
pub mod Exchange
pub mod Card
pub mod Poker
pub mod Account
pub mod Lobby
pub mod EventLoop
pub mod Websocket
pub mod Trie
pub mod Server
mod Tests
