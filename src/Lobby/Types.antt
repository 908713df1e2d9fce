-- ===== src/Lobby/Types.antt =====
-- The types of include/lobby.h, as far as the tables of src/lobby.c use them. An `int` counter is its
-- 32-bit pattern. The tasks that the event loop is given are recorded in their order.
use pokerunicorn_server.Prelude.{
  ℕ, ◌+◌, ◌-◌, ◌%◌, ◌^◌, Bool, Option, List, [], ◌∷◌, ◌++◌, if◌then◌else◌, ◌==◌, find,
}
use pokerunicorn_server.Account.{Account}
use pokerunicorn_server.Poker.Types.{Poker}

-- `++` and `--` on a counter.
abbrev pub incr : ℕ → ℕ
incr n = (n + 1) % 2 ^ 32

abbrev pub decr : ℕ → ℕ
decr n = (n + (2 ^ 32 - 1)) % 2 ^ 32

-- `pkrsrv_lobby_session_client_t`, with the id of its client's account and the client's socket.
pub record SessionClient : Type 0 where
  pub account : ℕ
  pub socket : ℕ
  pub is_joined : Bool

-- `pkrsrv_lobby_client_session_t`, with the ids of its session and of the session's table.
pub record ClientSession : Type 0 where
  pub session : ℕ
  pub table : ℕ
  pub is_joined : Bool

-- `pkrsrv_lobby_client_t`
pub record LobbyClient : Type 0 where
  pub account : Option Account
  pub socket : ℕ
  pub sessions : List ClientSession

-- `pkrsrv_lobby_session_t`, with the members of its table that the machine does not read. Of a task's
-- pointer, whether it is set.
pub record Session : Type 0 where
  pub id : ℕ
  pub table : ℕ
  pub enterance_min : ℕ
  pub enterance_max : ℕ
  pub players_count : ℕ
  pub watchers_count : ℕ
  pub poker : Poker
  pub is_running : Bool
  pub proceed_task : Bool
  pub poker_start_task : Bool
  pub poker_restart_task : Bool
  pub clients : List SessionClient
  pub joined_clients_count : ℕ

-- The tasks of a session, and what it asks of the event loop for one: `hold` is the macro
-- `PKRSRV_REF_COUNTED_USE`, and `leave` is `PKRSRV_REF_COUNTED_LEAVE`.
pub data Work : Type 0 where
  proceed start restart : Work

pub data TaskCall : Type 0 where
  call hold leave cancel : Work → TaskCall
  call_after : Work → ℕ → TaskCall

-- What a function on a client and a session leaves.
pub record World (D : Type 0) : Type 0 where
  pub client : LobbyClient
  pub session : Session
  pub db : D
  pub calls : List TaskCall

abbrev pub with_calls : {D : Type 0} → World D → List TaskCall → World D
with_calls w more = record w { calls = w.calls ++ more }

-- A write through a pointer to an element: the first that the search finds.
abbrev pub update_first {ℓ} : {A : Type ℓ} → (A → Bool) → (A → A) → List A → List A
update_first p f [] = []
update_first p f (x ∷ xs) = if p x then f x ∷ xs else x ∷ update_first p f xs

-- `LIST_REMOVE` of the first element that a search finds.
abbrev pub remove_first {ℓ} : {A : Type ℓ} → (A → Bool) → List A → List A
remove_first p [] = []
remove_first p (x ∷ xs) = if p x then xs else x ∷ remove_first p xs

-- `pkrsrv_lobby_session_getby_id`
abbrev pub session_getby_id : List Session → ℕ → Option Session
session_getby_id sessions id = find (λ s. s.id == id) sessions

-- `pkrsrv_lobby_session_getby_table_id`
abbrev pub session_getby_table_id : List Session → ℕ → Option Session
session_getby_table_id sessions id = find (λ s. s.table == id) sessions

-- `pkrsrv_lobby_client_get_session_by_id`
abbrev pub client_get_session_by_id : LobbyClient → ℕ → Option ClientSession
client_get_session_by_id client id = find (λ s. s.session == id) client.sessions

-- `pkrsrv_lobby_client_session_getby_table_id`
abbrev pub client_session_getby_table_id : LobbyClient → ℕ → Option ClientSession
client_session_getby_table_id client id = find (λ s. s.table == id) client.sessions

-- `pkrsrv_lobby_session_client_getby_socket`
abbrev pub session_client_getby_socket : Session → ℕ → Option SessionClient
session_client_getby_socket session socket = find (λ c. c.socket == socket) session.clients

-- `pkrsrv_lobby_session_client_getby_account_id`
abbrev pub session_client_getby_account_id : Session → ℕ → Option SessionClient
session_client_getby_account_id session account = find (λ c. c.account == account) session.clients

-- `pkrsrv_lobby_client_session_getby_session_id`
abbrev pub client_session_getby_session_id : LobbyClient → ℕ → Option ClientSession
client_session_getby_session_id client id = find (λ s. s.session == id) client.sessions
