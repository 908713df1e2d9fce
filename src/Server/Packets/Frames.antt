-- ===== src/Server/Packets/Frames.antt =====
-- The frames that src/server.c sends to a websocket.
use mathlib.Core.List.{append_assoc, append-nil}
use pokerunicorn_server.Prelude.{
  ℕ, ◌≡◌, refl, ap, sym, ◌∙◌, Bool, true, some, List, [], ◌∷◌, ◌++◌, if◌then◌else◌, length, ◌≤◌,
  ◌<◌, ◌^◌, ltb, All, Bool-cases, inl, inr, arith,
}
use pokerunicorn_server.Prelude.Result.{Result, ok, ◌>>=◌, ok_injective}
use pokerunicorn_server.Websocket.{Wire, header_bytes, send_header}
use pokerunicorn_server.Server.{Client, write_all}
use pokerunicorn_server.Server.Open.{ssl_write_lem}
use pokerunicorn_server.Server.Packets.{Item, must, may, Packet}
use pokerunicorn_server.Server.Packets.Writes.{
  items_of, frame_length, write_items, send_items, after_frame, send_packet,
}
use pokerunicorn_server.Server.Packets.Lengths.{
  join_all, bytes_of_items, size_items, length-bytes_of_items,
}
use pokerunicorn_server.Server.Packets.Ready.{IsReady, framed}

-- What the senders rely on of a connection that stays open: it takes every write of some bytes within
-- an `int`, and `sent` has grown by them.
pub record IsRecorded {S : Type 0} (wire : Wire S) (sent : S → List ℕ) : Type 0 where
  pub takes :
      (s : S) (bs : List ℕ)
      → 1 ≤ length bs
      → length bs < 2 ^ 31
      → (t : S) × (wire.write bs s ≡ some t) × (sent t ≡ sent s ++ bs)

-- A write of some bytes whose number is an `int`.
abbrev pub IsWritable : List ℕ → Type 0
IsWritable bs = (1 ≤ length bs) × (length bs < 2 ^ 31)

abbrev pub IsWritableItem : Item → Type 0
IsWritableItem (must bs) = IsWritable bs
IsWritableItem (may chunks) = All IsWritable chunks

header_bytes-IsWritable : (n : ℕ) → IsWritable (header_bytes n)
unfolding header_bytes
header_bytes-IsWritable n = elim (Bool-cases (ltb n 126)) [
  | inl a ↦ rw a (omega arith, omega arith)
  | inr a ↦ elim (Bool-cases (ltb n 65536)) [
    | inl b ↦ rw (a, b) (omega arith, omega arith)
    | inr b ↦ rw (a, b) (omega arith, omega arith)
  ]
]

module _ {S : Type 0} (wire : Wire S) (sent : S → List ℕ) (laws : IsRecorded wire sent) where
  write_all_lem :
      (chunks : List (List ℕ)) (client : Client S)
      → All IsWritable chunks
      → (s : S) × (write_all wire chunks client ≡ (record client { ssl = s }, true))
        × (sent s ≡ sent client.ssl ++ join_all chunks)
  unfolding write_all
  write_all_lem [] client w = (client.ssl, refl, sym (append-nil (sent client.ssl)))
  write_all_lem (bs ∷ chunks) client w =
      let (s, taken, grew) = laws.takes client.ssl bs w.0.0 w.0.1 in
      let wrote = ssl_write_lem wire bs client.ssl w.0.0 w.0.1 ∙ taken in
      let (t, rest, grew') = write_all_lem chunks (record client { ssl = s }) w.1 in
      (
        t,
        rw (write_all, wrote) rest,
        grew'
            ∙ ap (λ sofar. sofar ++ join_all chunks) grew
            ∙ append_assoc (sent client.ssl) bs (join_all chunks),
      )

  write_items_lem :
      (items : List Item) (client : Client S)
      → All IsWritableItem items
      → (s : S) × (write_items wire items client ≡ (record client { ssl = s }, true))
        × (sent s ≡ sent client.ssl ++ bytes_of_items items)
  unfolding write_items
  write_items_lem [] client w = (client.ssl, refl, sym (append-nil (sent client.ssl)))
  write_items_lem (must bs ∷ items) client w =
      let (s, taken, grew) = laws.takes client.ssl bs w.0.0 w.0.1 in
      let wrote = ssl_write_lem wire bs client.ssl w.0.0 w.0.1 ∙ taken in
      let (t, rest, grew') = write_items_lem items (record client { ssl = s }) w.1 in
      (
        t,
        rw (write_items, wrote) rest,
        grew'
            ∙ ap (λ sofar. sofar ++ bytes_of_items items) grew
            ∙ append_assoc (sent client.ssl) bs (bytes_of_items items),
      )
  write_items_lem (may chunks ∷ items) client w =
      let (s, wrote, grew) = write_all_lem chunks client w.0 in
      let (t, rest, grew') = write_items_lem items (record client { ssl = s }) w.1 in
      (
        t,
        ap (λ (done : Client S × Bool). write_items wire items done.0) wrote ∙ rest,
        grew'
            ∙ ap (λ sofar. sofar ++ bytes_of_items items) grew
            ∙ append_assoc (sent client.ssl) (join_all chunks) (bytes_of_items items),
      )

  send_header_lem :
      (n : ℕ) (s : S)
      → (t : S) × (send_header wire n s ≡ some t) × (sent t ≡ sent s ++ header_bytes n)
  unfolding send_header
  send_header_lem n s = let w = header_bytes-IsWritable n in laws.takes s (header_bytes n) w.0 w.1

  -- A packet whose parts are known.
  send_packet_lem :
      (packet : Packet) (client : Client S) (items : List Item) (n : ℕ) (s : S)
      {done : Client S × Bool}
      → client.is_websocket ≡ true
      → frame_length packet ≡ ok n
      → send_header wire n client.ssl ≡ some s
      → items_of packet ≡ ok items
      → write_items wire items (record client { ssl = s }) ≡ done
      → send_packet wire packet client ≡ ok done
  unfolding send_packet after_frame send_items
  send_packet_lem packet client items n s {done} websocket counted wrote made rest =
      ap
        (λ b.
          if b
          then (frame_length packet >>= λ m.
              after_frame wire packet client (send_header wire m client.ssl))
          else send_items wire packet client)
        websocket
      ∙ ap
          (λ (m : Result ℕ).
            m >>= λ m. after_frame wire packet client (send_header wire m client.ssl))
          counted
      ∙ ap (after_frame wire packet client) wrote
      ∙ ap
          (λ (i : Result (List Item)).
            i >>= λ items. ok (write_items wire items (record client { ssl = s })))
          made
      ∙ ap ok rest

  -- To a websocket whose connection takes every write of 1 to 2^31 - 1 bytes, let a packet be sent whose
  -- texts are shorter than the members for their lengths allow, whose account and token are there
  -- exactly where it says that the client is logged in, which has fewer than 256 scores, and whose
  -- writes are of 1 to 2^31 - 1 bytes each, so that no text is empty that is written in any case
  -- (lists of tables and sessions can have longer names of tables). Then what is sent is one frame: a
  -- header with the length of these writes, followed by them in their order; and the result is true.
  pub send_packet-frame :
      (packet : Packet) (client : Client S) (items : List Item)
      → IsReady packet
      → client.is_websocket ≡ true
      → items_of packet ≡ ok items
      → All IsWritableItem items
      → (s : S) × (send_packet wire packet client ≡ ok (record client { ssl = s }, true))
        × (sent s
            ≡ sent client.ssl
              ++ (header_bytes (length (bytes_of_items items)) ++ bytes_of_items items))
  unfolding send_packet
  send_packet-frame packet client items h websocket made w =
      let (framed_items, made', sized) = framed packet h in
      let same : framed_items ≡ items = ok_injective (sym made' ∙ made) in
      let n : ℕ = length (bytes_of_items items) in
      let counted : frame_length packet ≡ ok n =
        sized
        ∙ ap (λ (l : List Item). ok (size_items l)) same
        ∙ ap ok (sym (length-bytes_of_items items)) in
      let (s, wrote, grew) = send_header_lem n client.ssl in
      let (t, rest, grew') = write_items_lem items (record client { ssl = s }) w in
      (
        t,
        send_packet_lem packet client items n s websocket counted wrote made rest,
        grew'
            ∙ ap (λ sofar. sofar ++ bytes_of_items items) grew
            ∙ append_assoc (sent client.ssl) (header_bytes n) (bytes_of_items items),
      )
