-- ===== src/Server/Loop.antt =====
-- The loops of src/server.c over the packets of a client, `receive_packet` and
-- `receive_websocket_packet`.
use pokerunicorn_server.Prelude.{
  ℕ, zero, suc, Bool, true, false, Option, none, some, List, [], ◌∷◌, ◌++◌, ◌&&◌, if◌then◌else◌,
  ◌==◌, length,
}
use pokerunicorn_server.Prelude.Result.{Result, ok, fault, ◌>>=◌, endless}
use pokerunicorn_server.Websocket.{Wire, drop, byte, read_header}
use pokerunicorn_server.Websocket.Handshake.{read_http_header}
use pokerunicorn_server.Server.{Client, member, client_disconnected, net_read}
use pokerunicorn_server.Server.Handlers.{check_opcode}

-- A structure over which `bs` has been read.
abbrev pub overlay : List ℕ → List ℕ → List ℕ
overlay bs old = bs ++ drop (length bs) old

-- `header` at its declaration.
abbrev pub no_header : List ℕ
no_header = 0 ∷ 0 ∷ 0 ∷ 0 ∷ 0 ∷ 0 ∷ 0 ∷ 0 ∷ []

-- The first frame of a websocket is the start of a request.
abbrev pub is_get : List ℕ → Bool
is_get bs =
    byte bs 0 == b'G'
    && byte bs 1 == b'E'
    && byte bs 2 == b'T'
    && byte bs 3 == b' '
    && byte bs 4 == b'/'

module _ {S : Type 0} (wire : Wire S) where
  -- The block at RECEIVE_FRAME from the read of a frame's header to the end of its handler: the client
  -- and the header after it, and whether to go on.
  unfoldable pub after_header :
      List ℕ → Client S × Option (List ℕ) → Result (Client S × List ℕ × Bool)
  after_header header (client, none) = ok (client_disconnected client, header, false)
  after_header header (client, some bs) =
      check_opcode wire (member 0 4 (overlay bs header)) client >>= λ done.
      ok (done.0, overlay bs header, done.1)

  unfoldable pub read_frame : List ℕ → Client S → Result (Client S × List ℕ × Bool)
  read_frame header client = after_header header (net_read wire 8 client)

  -- The loop at RECEIVE_FRAME of `receive_packet`, for at most `fuel` frames.
  unfoldable pub receive_frames : ℕ → List ℕ → Client S → Result (Client S)
  receive_frames zero header client = fault endless
  receive_frames (suc fuel) header client = read_frame header client >>= λ done. elim done.2 [
    | true ↦ receive_frames fuel done.1 done.0
    | false ↦ ok done.0
  ]

  -- `receive_websocket_packet`, for at most `fuel` frames of at most `fuel` fragments.
  unfoldable pub receive_websocket_packet : ℕ → ℕ → List ℕ → Client S → Result (Client S)
  receive_websocket_packet fragments zero header client = fault endless
  receive_websocket_packet fragments (suc fuel) header client =
      read_header wire fragments client.websocket client.ssl >>= λ got.
      let client' : Client S = record client { websocket = got.0; ssl = got.1 } in
      elim (got.2 == 0) [
        | true ↦ ok (client_disconnected client')
        | false ↦ read_frame header client' >>= λ done. elim done.2 [
          | true ↦ receive_websocket_packet fragments fuel done.1 done.0
          | false ↦ ok done.0
        ]
      ]

  -- `receive_packet`. The result of the handshake is not looked at.
  unfoldable pub receive_packet : (sha1 : List ℕ → List ℕ) → ℕ → Client S → Result (Client S)
  receive_packet sha1 fuel client = elim (wire.read 8 client.ssl) [
    | none ↦ ok (client_disconnected client)
    | some (header, s) ↦
        if is_get header
        then (read_http_header sha1 wire s >>= λ shaken.
            receive_websocket_packet fuel fuel no_header
              (record client { is_websocket = true; ssl = shaken.1 }))
        else (check_opcode wire (member 0 4 header)
              (record client { is_websocket = false; ssl = s })
            >>= λ done. elim done.1 [
              | true ↦ receive_frames fuel header done.0
              | false ↦ ok done.0
            ])
  ]
