-- ===== src/Websocket/Fragments.antt =====
-- Messages that a client sends in several frames, as `pkrsrv_websocket_read_header` of src/websocket.c
-- puts them together.
use pokerunicorn_server.Prelude.{
  ℕ, zero, suc, ◌+◌, ◌%◌, ◌^◌, ◌<◌, ◌≤◌, ◌≡◌, ◌∙◌, refl, ap, Bool, true, false, Option, none, some,
  List, [], ◌∷◌, ◌++◌, leb, ◌==◌, length, length-append, arith, lt→ltb, All,
}
use pokerunicorn_server.Prelude.Result.{ok}
use pokerunicorn_server.Websocket.{
  Wire, Header, Websocket, again, returns, unmask, read_length, read_key, read_rest, next_fragment,
  first_fragment, frame, read_frame, read_header,
}
use pokerunicorn_server.Websocket.Lengths.{IsWire}
use pokerunicorn_server.Websocket.Masks.{IsBytes, unmask_twice, length-unmask}

-- A fragment of a message, and the key that its frame is masked with.
pub record Fragment : Type 0 where
  pub payload : List ℕ
  pub mkey : List ℕ

-- Its frame, with the first byte `b0`, as a client sends it.
abbrev pub frame_bytes : ℕ → Fragment → List ℕ
frame_bytes b0 f = b0 ∷ (128 + length f.payload) ∷ (f.mkey ++ unmask f.mkey 0 f.payload)

-- Fragments of 1 to 125 bytes.
pub record IsShort (f : Fragment) : Type 0 where
  pub some_bytes : 1 ≤ length f.payload
  pub few : length f.payload < 126
  pub key : length f.mkey ≡ 4
  pub key_bytes : IsBytes f.mkey
  pub bytes : IsBytes f.payload

abbrev header_of : ℕ → Fragment → Header
header_of b0 f = record {
  fin = leb 128 b0;
  is_masked = true;
  opcode = b0 % 16;
  plen = length f.payload;
  mkey = f.mkey;
}

-- In the middle of a fragmented message, with what has come of it.
abbrev pub within : Websocket → List ℕ → Websocket
within ws b = record ws { is_fragmented = true; buffer = b; buffer_readed = 0 }

append_assoc : (xs ys zs : List ℕ) → (xs ++ ys) ++ zs ≡ xs ++ (ys ++ zs)
append_assoc [] ys zs = refl
append_assoc (x ∷ xs) ys zs = ap (λ (l : List ℕ). x ∷ l) (append_assoc xs ys zs)

module _ {S : Type 0} (wire : Wire S) (incoming : S → List ℕ) (laws : IsWire wire incoming) where
  masked_length : (t : S) (n : ℕ) → n < 126 → read_length wire (128 + n) t ≡ some (n, t)
  unfolding read_length
  masked_length t n h =
      let same : (128 + n) % 128 ≡ n = omega (arith, h) in
      let not16 : (n == 126) ≡ false = ground (arith, h) in
      let not64 : (n == 127) ≡ false = ground (arith, h) in rw (same, not16, not64) refl

  masked_rest :
      (t u : S) (b0 : ℕ) (f : Fragment)
      → IsShort f
      → wire.read 4 t ≡ some (f.mkey, u)
      → read_rest wire b0 (128 + length f.payload) t ≡ some (header_of b0 f, u)
  unfolding read_rest read_key
  masked_rest t u b0 f s e =
      let locked : leb 128 (128 + length f.payload) ≡ true = ground arith in
      rw (read_rest, masked_length t (length f.payload) s.few)
        (ap
            (λ (k : Bool). elim (read_key wire k t) as (λ x. Option (Header × S)) [
              | none ↦ none
              | some (mkey, w) ↦ some (
                record {
                  fin = leb 128 b0;
                  is_masked = k;
                  opcode = b0 % 16;
                  plen = length f.payload;
                  mkey = mkey;
                },
                w,
              )
            ])
            locked
          ∙ rw e refl)

  -- Up to the payload of a fragment, whose frame is no close frame.
  fragment_frame :
      (ws : Websocket) (s : S) (b0 : ℕ) (f : Fragment) (rest : List ℕ)
      → IsShort f
      → (b0 % 16 == 8) ≡ false
      → incoming s ≡ frame_bytes b0 f ++ rest
      → (u : S) × (read_frame wire ws s ≡ frame wire ws (header_of b0 f) u)
        × (incoming u ≡ unmask f.mkey 0 f.payload ++ rest)
  unfolding read_frame
  fragment_frame ws s b0 f rest k c i =
      let n = length f.payload in
      let masked = unmask f.mkey 0 f.payload in
      let (t, e, j) =
        laws.delivers s 2 (b0 ∷ (128 + n) ∷ []) (f.mkey ++ (masked ++ rest)) (omega arith)
          (omega arith) refl
          (i ∙ ap (λ (l : List ℕ). b0 ∷ (128 + n) ∷ l) (append_assoc f.mkey masked rest)) in
      let (u, d, h) =
        laws.delivers t 4 f.mkey (masked ++ rest) (omega arith) (omega arith) k.key j in
      (u, rw (read_frame, e, c, masked_rest t u b0 f k d) refl, h)

  -- The payload, unmasked.
  payload_lem :
      (u : S) (f : Fragment) (rest : List ℕ)
      → IsShort f
      → incoming u ≡ unmask f.mkey 0 f.payload ++ rest
      → (w : S) × (wire.read (length f.payload) u ≡ some (unmask f.mkey 0 f.payload, w))
        × (incoming w ≡ rest)
  payload_lem u f rest k i =
      laws.delivers u (length f.payload) (unmask f.mkey 0 f.payload) rest k.some_bytes
        (omega (arith, k.few)) (length-unmask f.mkey 0 f.payload) i

  middle_frame :
      (ws : Websocket) (u w : S) (b : List ℕ) (f : Fragment)
      → IsShort f
      → length b + length f.payload < 2 ^ 31
      → wire.read (length f.payload) u ≡ some (unmask f.mkey 0 f.payload, w)
      → frame wire (within ws b) (header_of 0 f) u ≡ ok (again (within ws (b ++ f.payload)) w)
  unfolding frame next_fragment
  middle_frame ws u w b f k small e =
      let room = lt→ltb (length b + length f.payload) (2 ^ 31) small in
      let clear = unmask_twice f.mkey 0 f.payload k.key_bytes k.bytes in
      rw (frame, next_fragment, room, e, clear) refl

  last_frame :
      (ws : Websocket) (u w : S) (b : List ℕ) (f : Fragment)
      → IsShort f
      → length b + length f.payload < 2 ^ 31
      → wire.read (length f.payload) u ≡ some (unmask f.mkey 0 f.payload, w)
      → frame wire (within ws b) (header_of 128 f) u
        ≡ ok (returns (within ws (b ++ f.payload)) w (length (b ++ f.payload)))
  unfolding frame next_fragment
  last_frame ws u w b f k small e =
      let room = lt→ltb (length b + length f.payload) (2 ^ 31) small in
      let clear = unmask_twice f.mkey 0 f.payload k.key_bytes k.bytes in
      rw (frame, next_fragment, room, e, clear) refl

  first_frame :
      (ws : Websocket) (u w : S) (f : Fragment)
      → IsShort f
      → ws.is_fragmented ≡ false
      → wire.read (length f.payload) u ≡ some (unmask f.mkey 0 f.payload, w)
      → frame wire ws (header_of 2 f) u ≡ ok (again (within ws f.payload) w)
  unfolding frame first_fragment
  first_frame ws u w f k z e =
      let room = lt→ltb (length f.payload) (2 ^ 31) (omega (arith, k.few)) in
      let clear = unmask_twice f.mkey 0 f.payload k.key_bytes k.bytes in
      rw (frame, first_fragment, z, room, e, clear) refl

-- The fragments of a message after its first one, and their frames.
abbrev pub message : List Fragment → Fragment → List ℕ
message [] last = last.payload
message (m ∷ ms) last = m.payload ++ message ms last

abbrev pub message_bytes : List Fragment → Fragment → List ℕ
message_bytes [] last = frame_bytes 128 last
message_bytes (m ∷ ms) last = frame_bytes 0 m ++ message_bytes ms last

module _ {S : Type 0} (wire : Wire S) (incoming : S → List ℕ) (laws : IsWire wire incoming)
    (ws : Websocket) where
  once_more :
      (fuel : ℕ) (x y : Websocket) (s t : S)
      → read_frame wire x s ≡ ok (again y t)
      → read_header wire (suc fuel) x s ≡ read_header wire fuel y t
  unfolding read_header
  once_more fuel x y s t e = rw (read_header, e) refl

  at_last :
      (fuel : ℕ) (x y : Websocket) (s t : S) (n : ℕ)
      → read_frame wire x s ≡ ok (returns y t n)
      → read_header wire (suc fuel) x s ≡ ok (y, t, n)
  unfolding read_header
  at_last fuel x y s t n e = rw (read_header, e) refl

  read_on :
      (fuel : ℕ) (ms : List Fragment) (last : Fragment) (s : S) (b rest : List ℕ)
      → length ms < fuel
      → All IsShort ms
      → IsShort last
      → length b + length (message ms last) < 2 ^ 31
      → incoming s ≡ message_bytes ms last ++ rest
      → let whole = b ++ message ms last in
        (t : S) × (read_header wire fuel (within ws b) s ≡ ok (within ws whole, t, length whole))
        × (incoming t ≡ rest)
  read_on zero ms last s b rest f ks k small i = absurd (omega (arith, f))
  read_on (suc fuel) [] last s b rest f ks k small i =
      let (u, e, j) = fragment_frame wire incoming laws (within ws b) s 128 last rest k refl i in
      let (w, d, h) = payload_lem wire incoming laws u last rest k j in
      let whole = b ++ last.payload in
      (
        w,
        at_last fuel (within ws b) (within ws whole) s w (length whole)
            (e ∙ last_frame wire incoming laws ws u w b last k small d),
        h,
      )
  read_on (suc fuel) (m ∷ ms) last s b rest f ks k small i =
      let after = message_bytes ms last in
      let (u, e, j) =
        fragment_frame wire incoming laws (within ws b) s 0 m (after ++ rest) ks.0 refl
          (i ∙ append_assoc (frame_bytes 0 m) after rest) in
      let (w, d, h) = payload_lem wire incoming laws u m (after ++ rest) ks.0 j in
      let sum = length-append m.payload (message ms last) in
      let sum' = length-append b m.payload in
      let (t, go, out) =
        read_on fuel ms last w (b ++ m.payload) rest (omega (arith, f)) ks.1 k
          (omega (arith, small, sum, sum')) h in
      let same = append_assoc b m.payload (message ms last) in
      (
        t,
        once_more fuel (within ws b) (within ws (b ++ m.payload)) s w
              (e ∙ middle_frame wire incoming laws ws u w b m ks.0 (omega (arith, small, sum)) d)
            ∙ go
            ∙ ap (λ (l : List ℕ). ok (within ws l, t, length l)) same,
        out,
      )

  -- A binary message in a first fragment, any number of fragments between, and a last one, each of 1 to
  -- 125 bytes and masked with its own key, and of fewer than 2^31 bytes in all, comes while no message is
  -- fragmented. With fuel for as many frames as there are, the call returns the length of the whole
  -- message, and the buffer holds it, unmasked and in order; the bytes behind it are still to come.
  pub read_header-message :
      (fuel : ℕ) (first : Fragment) (ms : List Fragment) (last : Fragment) (s : S) (rest : List ℕ)
      → ws.is_fragmented ≡ false
      → length ms + 1 < fuel
      → IsShort first
      → All IsShort ms
      → IsShort last
      → length first.payload + length (message ms last) < 2 ^ 31
      → incoming s ≡ frame_bytes 2 first ++ (message_bytes ms last ++ rest)
      → let whole = first.payload ++ message ms last in
        (t : S) × (read_header wire fuel ws s ≡ ok (within ws whole, t, length whole))
        × (incoming t ≡ rest)
  read_header-message zero first ms last s rest z f k0 ks k small i = absurd (omega (arith, f))
  read_header-message (suc fuel) first ms last s rest z f k0 ks k small i =
      let after = message_bytes ms last ++ rest in
      let (u, e, j) = fragment_frame wire incoming laws ws s 2 first after k0 refl i in
      let (w, d, h) = payload_lem wire incoming laws u first after k0 j in
      let (t, go, out) =
        read_on fuel ms last w first.payload rest (omega (arith, f)) ks k small h in
      (
        t,
        once_more fuel ws (within ws first.payload) s w
              (e ∙ first_frame wire incoming laws ws u w first k0 z d)
            ∙ go,
        out,
      )
