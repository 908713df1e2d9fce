-- ===== src/Websocket.antt =====
-- The frames of src/websocket.c. Reading and writing go through the callbacks `read` and `write` of
-- `pkrsrv_websocket_t`.
pub mod Lengths
pub mod Ssl
pub mod Masks
pub mod Fragments
pub mod Base64
pub mod Handshake
use Prim.Native.Nat.{bit_xor}
use Prim.Native.String.{String}
use Prim.Native.Char.{code}
use pokerunicorn_server.Prelude.{
  ℕ, zero, suc, ◌+◌, ◌-◌, ◌*◌, ◌/◌, ◌%◌, ◌^◌, ◌<◌, ◌≡◌, Bool, true, false, not, ◌&&◌, ◌||◌, Option,
  none, some, List, [], ◌∷◌, ◌++◌, if◌then◌else◌, ◌==◌, ltb, leb, length, get_elem?,
}
use pokerunicorn_server.Prelude.Result.{Result, ok, fault, endless, overflow}

-- The callbacks: `none` is the result 0. What is read is `length` bytes.
pub record Wire (S : Type 0) : Type 0 where
  pub read : ℕ → S → Option (List ℕ × S)
  pub write : List ℕ → S → Option S

-- The members of a header that the code reads later; without a mask the key is what was in memory.
pub record Header : Type 0 where
  pub fin : Bool
  pub is_masked : Bool
  pub opcode : ℕ
  pub plen : ℕ
  pub mkey : List ℕ

-- `pkrsrv_websocket_t`: the buffer of a fragmented message is as long as `buffer_length` says.
pub record Websocket : Type 0 where
  pub current_header : Option Header
  pub mask_i : ℕ
  pub is_fragmented : Bool
  pub buffer : List ℕ
  pub buffer_readed : ℕ

-- `pkrsrv_websocket_init`
abbrev pub init : Websocket
init = record {
  current_header = none;
  mask_i = 0;
  is_fragmented = false;
  buffer = [];
  buffer_readed = 0;
}

-- `pkrsrv_websocket_reset_fragmentation`
abbrev pub reset_fragmentation : Websocket → Websocket
reset_fragmentation ws = record ws { is_fragmented = false; buffer = []; buffer_readed = 0 }

-- `pkrsrv_websocket_cleanup`
abbrev pub cleanup : Websocket → Websocket
cleanup ws = reset_fragmentation ws

-- The bytes of a text of the source.
abbrev pub codes : String → List ℕ
codes String.[] = []
codes (String.◌∷◌ c s) = code c ∷ codes s

-- A number from its bytes in network order: `ntohs` and `pkrsrv_websocket_ntohll` of what was read.
abbrev pub word_of : ℕ → List ℕ → ℕ
word_of n [] = n
word_of n (b ∷ bs) = word_of (n * 256 + b) bs

-- The bytes of a number in network order: `htons` and `pkrsrv_websocket_htonll` as written.
abbrev pub bytes16 : ℕ → List ℕ
bytes16 n = (n / 256 % 256) ∷ (n % 256) ∷ []

abbrev pub bytes64 : ℕ → List ℕ
bytes64 n =
    (n / 2 ^ 56 % 256)
    ∷ (n / 2 ^ 48 % 256)
    ∷ (n / 2 ^ 40 % 256)
    ∷ (n / 2 ^ 32 % 256)
    ∷ (n / 2 ^ 24 % 256)
    ∷ (n / 2 ^ 16 % 256)
    ∷ (n / 2 ^ 8 % 256)
    ∷ (n % 256)
    ∷ []

-- A byte that has been read.
abbrev pub byte : List ℕ → ℕ → ℕ
byte bs i = elim (get_elem? bs i) [ none ↦ 0 | some b ↦ b ]

-- The loops that take the mask off, from the index `i` on.
abbrev pub unmask : List ℕ → ℕ → List ℕ → List ℕ
unmask mkey i [] = []
unmask mkey i (b ∷ bs) = bit_xor b (byte mkey (i % 4)) ∷ unmask mkey (suc i) bs

abbrev pub unmasked : Header → List ℕ → List ℕ
unmasked header bs = if header.is_masked then unmask header.mkey 0 bs else bs

-- The bytes that `pkrsrv_websocket_send_header` writes.
unfoldable pub header_bytes : ℕ → List ℕ
header_bytes length =
    if ltb length 126
    then 130 ∷ length ∷ []
    else if ltb length 65536
    then 130 ∷ 126 ∷ bytes16 length
    else 130 ∷ 127 ∷ bytes64 length

-- The first elements of a buffer, and the others.
abbrev pub take {ℓ} : {A : Type ℓ} → ℕ → List A → List A
take zero xs = []
take (suc n) [] = []
take (suc n) (x ∷ xs) = x ∷ take n xs

abbrev pub drop {ℓ} : {A : Type ℓ} → ℕ → List A → List A
drop zero xs = xs
drop (suc n) [] = []
drop (suc n) (x ∷ xs) = drop n xs

-- What a frame leaves: the next frame is read, or the function returns.
pub data Next (S : Type 0) : Type 0 where
  again : Websocket → S → Next S
  returns : Websocket → S → ℕ → Next S

module _ {S : Type 0} (wire : Wire S) where
  -- `pkrsrv_websocket_send_header`
  unfoldable pub send_header : ℕ → S → Option S
  unfolding header_bytes
  send_header length s = wire.write (header_bytes length) s

  -- The length in the bytes behind the header's first two.
  unfoldable pub read_extended : ℕ → S → Option (ℕ × S)
  read_extended n s = elim (wire.read n s) [ none ↦ none | some (bs, t) ↦ some (word_of 0 bs, t) ]

  -- The length of a frame, from the second byte of its header on.
  unfoldable pub read_length : ℕ → S → Option (ℕ × S)
  unfolding read_extended
  read_length b1 s =
      if b1 % 128 == 126
      then read_extended 2 s
      else if b1 % 128 == 127
      then read_extended 8 s
      else some (b1 % 128, s)

  unfoldable pub read_key : Bool → S → Option (List ℕ × S)
  read_key true s = wire.read 4 s
  read_key false s = some ([], s)

  -- The header of a frame behind its first two bytes.
  unfoldable pub read_rest : ℕ → ℕ → S → Option (Header × S)
  unfolding read_length read_key
  read_rest b0 b1 s = elim (read_length b1 s) [
    | none ↦ none
    | some (plen, t) ↦ elim (read_key (leb 128 b1) t) [
      | none ↦ none
      | some (mkey, u) ↦ some (
        record {
          fin = leb 128 b0;
          is_masked = leb 128 b1;
          opcode = b0 % 16;
          plen = plen;
          mkey = mkey;
        },
        u,
      )
    ]
  ]

  -- The answer to a ping: a header with the low byte of the length, and the payload.
  unfoldable pub pong : ℕ → List ℕ → S → Option S
  pong plen payload s = elim (wire.write (138 ∷ (plen % 256) ∷ []) s) [
    | none ↦ none
    | some t ↦ if plen == 0 then some t else wire.write payload t
  ]

  -- A ping or a pong.
  unfoldable pub control_frame : Websocket → Header → S → Next S
  unfolding pong
  control_frame ws header s =
      if header.fin
      then elim (wire.read header.plen s) [
        | none ↦ failed
        | some (bs, t) ↦
            if header.opcode == 9
            then elim (pong header.plen (unmasked header bs) t) [
              | none ↦ failed
              | some u ↦ again ws u
            ]
            else again ws t
      ]
      else failed
    where
      failed : Next S
      failed = returns (reset_fragmentation ws) s 0

  -- A frame of a fragmented message after its first.
  unfoldable pub next_fragment : Websocket → Header → S → Result (Next S)
  next_fragment ws header s =
      if header.opcode == 0
      then if ltb (length ws.buffer + header.plen) (2 ^ 31)
        then elim (wire.read header.plen s) [
          | none ↦ ok failed
          | some (bs, t) ↦ ok (extended (ws.buffer ++ unmasked header bs) t)
        ]
        else fault overflow
      else ok failed
    where
      failed : Next S
      failed = returns (reset_fragmentation ws) s 0

      extended : List ℕ → S → Next S
      extended buffer t =
          if header.fin
          then returns (record ws { buffer = buffer }) t (length buffer)
          else again (record ws { buffer = buffer }) t

  -- The first frame of a fragmented message.
  unfoldable pub first_fragment : Websocket → Header → S → Result (Next S)
  first_fragment ws header s =
      if ltb header.opcode 1 || ltb 2 header.opcode
      then ok (returns ws s 0)
      else if ltb header.plen (2 ^ 31)
      then elim (wire.read header.plen s) [
        | none ↦ ok (returns (reset_fragmentation ws) s 0)
        | some (bs, t) ↦ ok (
            again
              (record ws { is_fragmented = true; buffer = unmasked header bs; buffer_readed = 0 })
              t)
      ]
      else fault overflow

  -- A frame whose header has been read.
  unfoldable pub frame : Websocket → Header → S → Result (Next S)
  unfolding control_frame next_fragment first_fragment
  frame ws header s =
      if (header.opcode == 9) || (header.opcode == 10)
      then ok (control_frame ws header s)
      else if not header.fin && not ws.is_fragmented
      then first_fragment ws header s
      else if ws.is_fragmented
      then next_fragment ws header s
      else ok (returns (record ws { current_header = some header; mask_i = 0 }) s header.plen)

  -- A round from `READ_FRAME` on.
  unfoldable pub read_frame : Websocket → S → Result (Next S)
  unfolding read_rest frame
  read_frame ws s = elim (wire.read 2 s) [
    | none ↦ ok (returns ws s 0)
    | some (bs, t) ↦
        if byte bs 0 % 16 == 8
        then ok (returns (reset_fragmentation ws) t 0)
        else elim (read_rest (byte bs 0) (byte bs 1) t) [
          | none ↦ ok (returns ws t 0)
          | some (header, u) ↦ frame ws header u
        ]
  ]

  -- `pkrsrv_websocket_read_header`, for at most `fuel` frames.
  unfoldable pub read_header : ℕ → Websocket → S → Result (Websocket × S × ℕ)
  unfolding read_frame
  read_header zero ws s = fault endless
  read_header (suc fuel) ws s = elim (read_frame ws s) [
    | fault why ↦ fault why
    | ok (again ws' t) ↦ read_header fuel ws' t
    | ok (returns ws' t n) ↦ ok (ws', t, n)
  ]

  -- `pkrsrv_websocket_read_payload`: what is copied to the caller's buffer, or `none` for the result 0.
  unfoldable pub read_payload : Websocket → S → ℕ → Websocket × S × Option (List ℕ)
  read_payload ws s n =
      if ws.is_fragmented
      then if available == 0
        then (ws, s, none)
        else (buffered, s, some (take available (drop ws.buffer_readed ws.buffer)))
      else elim (wire.read n s) [
        | none ↦ (ws, s, none)
        | some (bs, t) ↦ (
          record ws { mask_i = ws.mask_i + (if is_masked then n else 0) },
          t,
          some (if is_masked then unmask mkey ws.mask_i bs else bs),
        )
      ]
    where
      available : ℕ
      available =
          if ltb (length ws.buffer - ws.buffer_readed) n
          then length ws.buffer - ws.buffer_readed
          else n

      buffered : Websocket
      buffered =
          if leb (length ws.buffer) (ws.buffer_readed + available)
          then reset_fragmentation ws
          else record ws { buffer_readed = ws.buffer_readed + available }

      is_masked : Bool
      is_masked = elim ws.current_header [ none ↦ false | some h ↦ h.is_masked ]

      mkey : List ℕ
      mkey = elim ws.current_header [ none ↦ [] | some h ↦ h.mkey ]
