-- ===== src/Server.antt =====
-- What src/server.c reads from a client and what it gives to the event loop for it. Packets are packed
-- structures of include/server.h, with numbers in little-endian order.
pub mod Opcode
pub mod Handlers
pub mod Loop
pub mod Open
pub mod Requests
pub mod Served
pub mod Checked
pub mod Rounds
pub mod Packets
use pokerunicorn_server.Prelude.{
  ℕ, zero, suc, ◌+◌, ◌*◌, ◌/◌, ◌%◌, Bool, true, false, Option, none, some, List, [], ◌∷◌, ◌++◌,
  if◌then◌else◌, ◌==◌, ltb, leb, ◌||◌, ◌^◌, length,
}
use pokerunicorn_server.Prelude.Result.{Result, ok, fault, uninitialised}
use pokerunicorn_server.Websocket.{Wire, Websocket, take, drop, read_payload, send_header}

-- What is pushed for `pkrsrv_eventloop_call`: the callback with its packet. A string is its bytes; of
-- `json` it is the bytes that are written over the members of the string.
pub data Task : Type 0 where
  disconnected meowed get_account : Task
  login : List ℕ → List ℕ → Task
  signup : List ℕ → List ℕ → List ℕ → List ℕ → Task
  auth_session json : List ℕ → Task
  enter leave unjoin : ℕ → Task
  join action : ℕ → ℕ → ℕ → Task
  get_tables get_sessions : ℕ → ℕ → Task
  update_account : List ℕ → List ℕ → Task

-- `pkrsrv_server_client_t`, with the tasks that have been pushed for it, the oldest first.
pub record Client (S : Type 0) : Type 0 where
  pub is_websocket : Bool
  pub websocket : Websocket
  pub ssl : S
  pub is_alive : Bool
  pub tasks : List Task

-- A number of a packed structure.
abbrev pub word_le : List ℕ → ℕ
word_le [] = 0
word_le (b ∷ bs) = b + 256 * word_le bs

-- The bytes of a number in a packed structure, `width` of them.
abbrev pub bytes_le : ℕ → ℕ → List ℕ
bytes_le zero n = []
bytes_le (suc width) n = (n % 256) ∷ bytes_le width (n / 256)

-- The member at an offset of a packed structure.
abbrev pub member : ℕ → ℕ → List ℕ → ℕ
member offset width frame = word_le (take width (drop offset frame))

module _ {S : Type 0} where
  -- `pkrsrv_eventloop_call`
  abbrev pub push : Task → Client S → Client S
  push task client = record client { tasks = client.tasks ++ task ∷ [] }

  -- `client_disconnected`: the second time it does nothing.
  unfoldable pub client_disconnected : Client S → Client S
  client_disconnected client =
      if client.is_alive then push disconnected (record client { is_alive = false }) else client

module _ {S : Type 0} (wire : Wire S) where
  -- `pkrsrv_server_net_write`. `SSL_write` takes the length as an `int`: none and a negative number are
  -- no success, for which `WRITE_OR_CLOSE` disconnects the client.
  unfoldable pub ssl_write : List ℕ → S → Option S
  ssl_write bs s =
      let num = length bs % 2 ^ 32 in
      if num == 0 || leb (2 ^ 31) num then none else wire.write (take num bs) s

  -- `pkrsrv_server_net_read`: a result of 0 is `none`.
  unfoldable pub net_read : ℕ → Client S → Client S × Option (List ℕ)
  net_read n client =
      if client.is_websocket
      then (let (ws, s, got) = read_payload wire client.websocket client.ssl n in
          (record client { websocket = ws; ssl = s }, got))
      else elim (wire.read n client.ssl) [
        | none ↦ (client, none)
        | some (bs, s) ↦ (record client { ssl = s }, some bs)
      ]

  -- What follows a read in a handler: `READ_OR_CLOSE`. Of a fragmented message fewer bytes may come;
  -- the rest of the structure or of the text is then not written. The result is kept in an `int`, so that
  -- 2^31 bytes and more, of the less than 2^32 that are asked for, count as none.
  unfoldable pub after_read :
      ℕ → (List ℕ → Client S → Result (Client S)) → Client S × Option (List ℕ) → Result (Client S)
  unfolding client_disconnected
  after_read n next (client, none) = ok (client_disconnected client)
  after_read n next (client, some bs) =
      if leb (2 ^ 31) (length bs)
      then ok (client_disconnected client)
      else if ltb (length bs) n
      then fault uninitialised
      else next bs client

  unfoldable pub read_or_close :
      ℕ → Client S → (List ℕ → Client S → Result (Client S)) → Result (Client S)
  unfolding net_read after_read
  read_or_close n client next = after_read n next (net_read n client)

  -- A text, which is read only if it is not empty.
  unfoldable pub read_text :
      ℕ → Client S → (List ℕ → Client S → Result (Client S)) → Result (Client S)
  unfolding read_or_close
  read_text n client next = if n == 0 then next [] client else read_or_close n client next

  -- The writes of a packet, one by one: `WRITE_OR_CLOSE`.
  unfoldable pub write_all : List (List ℕ) → Client S → Client S × Bool
  unfolding ssl_write client_disconnected
  write_all [] client = (client, true)
  write_all (bs ∷ chunks) client = elim (ssl_write bs client.ssl) [
    | none ↦ (client_disconnected client, false)
    | some s ↦ write_all chunks (record client { ssl = s })
  ]

  -- A packet of the given length: for a websocket with the header of a frame before it.
  unfoldable pub send : ℕ → List (List ℕ) → Client S → Client S × Bool
  unfolding write_all client_disconnected
  send n chunks client =
      if client.is_websocket
      then elim (send_header wire n client.ssl) [
        | none ↦ (client_disconnected client, false)
        | some s ↦ write_all chunks (record client { ssl = s })
      ]
      else write_all chunks client
