-- ===== src/Tests/Packets.antt =====
-- Runs of the packets of src/server.c.
use pokerunicorn_server.Prelude.{
  ℕ, zero, suc, ◌≡◌, ◌++◌, refl, true, none, some, List, [], ◌∷◌, length, arith, ltb, ◌^◌,
  Bool-cases, inl, inr,
}
use pokerunicorn_server.Prelude.Result.{ok, fault, null_pointer}
use pokerunicorn_server.Tests.Frames.{wire, bytes, wire-IsWire}
use pokerunicorn_server.Websocket.{Wire, init, header_bytes}
use pokerunicorn_server.Websocket.Ssl.{ssl_read, ssl_read_loop}
use pokerunicorn_server.Server.{Task, Client, bytes_le}
use pokerunicorn_server.Server.Opcode
use pokerunicorn_server.Server.Open.{IsOpen, connected}
use pokerunicorn_server.Server.Handlers.{header_frame, check_opcode, call_handler}
use pokerunicorn_server.Server.Loop.{receive_packet}
use pokerunicorn_server.Server.Requests.{Request, bytes_of_all}
use pokerunicorn_server.Server.Rounds.{gone, receive_packet-bytes_of_all, receive_packet-unjoin}
use pokerunicorn_server.Server.Packets.{AccountText, Packet, Item}
use pokerunicorn_server.Server.Packets.Writes.{items_of, send_packet}
use pokerunicorn_server.Server.Packets.Lengths.{bytes_of_items}
use pokerunicorn_server.Server.Packets.Frames.{IsRecorded, send_packet-frame}

closed : (s : List ℕ) (n : ℕ) → s ≡ [] → wire.read n s ≡ none
unfolding wire ssl_read ssl_read_loop
closed [] zero h = refl
closed [] (suc n) h = elim (Bool-cases (ltb (suc n) (2 ^ 31))) [
  | inl b ↦ rw b refl
  | inr b ↦ rw b refl
]
closed (b ∷ s) n h = absurd (cc h)

wire-IsOpen : IsOpen wire bytes
unfolding wire
wire-IsOpen = record {
  delivers = wire-IsWire.delivers;
  closed = closed;
  takes = λ s bs h k. (s, refl, refl);
}

abbrev sent : List (Request × ℕ)
sent =
    (Request.login (1 ∷ 2 ∷ []) (3 ∷ []), 0)
    ∷ (Request.ping, 9)
    ∷ (Request.join 70000 500 3, 0)
    ∷ (Request.signup (4 ∷ []) [] (5 ∷ 6 ∷ []) (7 ∷ []), 1)
    ∷ []

abbrev no_hash : List ℕ → List ℕ
no_hash bs = bs

receive_packet-bytes_of_all_example :
    (t : List ℕ) × (receive_packet wire no_hash 5
        (connected wire bytes wire-IsOpen init (bytes_of_all sent) [])
      ≡ ok (
          gone wire bytes wire-IsOpen init t (
            Task.login (1 ∷ 2 ∷ []) (3 ∷ [])
            ∷ Task.join 70000 500 3
            ∷ Task.signup (4 ∷ []) [] (5 ∷ 6 ∷ []) (7 ∷ [])
            ∷ [])))
receive_packet-bytes_of_all_example =
    receive_packet-bytes_of_all wire bytes wire-IsOpen init no_hash sent 5 (bytes_of_all sent) []
      (omega arith) (omega arith) refl

receive_packet-unjoin_example :
    (t : List ℕ) × (receive_packet wire no_hash 2 (
        connected wire bytes wire-IsOpen init
          ((header_frame Opcode.unjoin 0 ++ bytes_le 8 1000) ++ (1 ∷ 0 ∷ []))
          [])
      ≡ ok (gone wire bytes wire-IsOpen init t []))
receive_packet-unjoin_example =
    receive_packet-unjoin wire bytes wire-IsOpen init no_hash 1000 0 1
      ((header_frame Opcode.unjoin 0 ++ bytes_le 8 1000) ++ (1 ∷ 0 ∷ [])) [] (1 ∷ 0 ∷ [])
      (omega arith) (omega arith) refl

-- The opcode of OVER_CAPACITY passes the check and has no handler.
over_capacity_lem :
    check_opcode wire Opcode.over_capacity (connected wire bytes wire-IsOpen init [] [])
    ≡ fault null_pointer
unfolding check_opcode call_handler
over_capacity_lem = refl

-- A connection that records what is written.
abbrev tape : Wire (List ℕ)
tape = record { read = λ n s. none; write = λ bs s. some (s ++ bs) }

tape-IsRecorded : IsRecorded tape bytes
tape-IsRecorded = record { takes = λ s bs h k. (s ++ bs, refl, refl) }

abbrev someone : AccountText
someone = record {
  xmr_deposit_address = [];
  id_token = 1 ∷ [];
  name = 2 ∷ 3 ∷ [];
  avatar = [];
  id = 7;
  balance = 1000;
}

abbrev client : Client (List ℕ)
client = record { is_websocket = true; websocket = init; ssl = []; is_alive = true; tasks = [] }

-- The writes of the answer to a login: its header, then the account with its token.
abbrev login_items : List Item
unfolding items_of
login_items = elim (items_of (Packet.login_res true true (some someone) (some (9 ∷ [])))) [
  | ok items ↦ items
  | fault why ↦ []
]

send_packet-frame_example :
    (s : List ℕ) × (send_packet tape
        (Packet.login_res true true (some someone) (some (9 ∷ [])))
        client
      ≡ ok (record client { ssl = s }, true))
    × (s ≡ header_bytes (length (bytes_of_items login_items)) ++ bytes_of_items login_items)
unfolding login_items items_of
send_packet-frame_example =
    send_packet-frame tape bytes tape-IsRecorded
      (Packet.login_res true true (some someone) (some (9 ∷ []))) client login_items (omega arith)
      refl refl (omega arith)
