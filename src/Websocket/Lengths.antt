-- ===== src/Websocket/Lengths.antt =====
-- The headers of src/websocket.c as bytes, read from the wire.
use pokerunicorn_server.Prelude.{
  ℕ, suc, ◌%◌, ◌^◌, ◌<◌, ◌≤◌, ◌≡◌, ◌∙◌, refl, ap, Bool, true, false, Option, none, some, List, [],
  ◌∷◌, ◌++◌, ◌==◌, ltb, leb, length, arith, inl, inr, Bool-cases, ltb→lt,
}
use pokerunicorn_server.Prelude.Result.{ok}
use pokerunicorn_server.Websocket.{
  Wire, Header, Websocket, returns, word_of, bytes16, bytes64, header_bytes, read_extended,
  read_length, read_key, read_rest, frame, read_frame, read_header, reset_fragmentation,
  control_frame,
}

-- What the code relies on of `ws->read`: the bytes `incoming` that are to come are read from the front, as many as
-- are asked for within an `int`; and a read of no bytes answers 0.
pub record IsWire {S : Type 0} (wire : Wire S) (incoming : S → List ℕ) : Type 0 where
  pub nothing : (s : S) → wire.read 0 s ≡ none
  pub delivers :
      (s : S) (n : ℕ) (bs rest : List ℕ)
      → 1 ≤ n
      → n < 2 ^ 31
      → length bs ≡ n
      → incoming s ≡ bs ++ rest
      → (t : S) × (wire.read n s ≡ some (bs, t)) × (incoming t ≡ rest)

word16 : (n : ℕ) → n < 65536 → word_of 0 (bytes16 n) ≡ n
word16 n h = omega arith

word64 : (n : ℕ) → n < 2 ^ 64 → word_of 0 (bytes64 n) ≡ n
word64 n h = omega arith

abbrev plain : ℕ → Header
plain n = record { fin = true; is_masked = false; opcode = 2; plen = n; mkey = [] }

abbrev with_header : Websocket → ℕ → Websocket
with_header ws n = record ws { current_header = some (plain n); mask_i = 0 }

module _ {S : Type 0} (wire : Wire S) (incoming : S → List ℕ) (laws : IsWire wire incoming) where
  frame-plain :
      (ws : Websocket) (s : S) (n : ℕ)
      → ws.is_fragmented ≡ false
      → frame wire ws (plain n) s ≡ ok (returns (with_header ws n) s n)
  unfolding frame
  frame-plain ws s n h = rw h refl

  rest_plain :
      (t u : S) (b1 n : ℕ)
      → b1 < 128
      → read_length wire b1 t ≡ some (n, u)
      → read_rest wire 130 b1 t ≡ some (plain n, u)
  unfolding read_rest read_key
  rest_plain t u b1 n h l =
      let open_key : leb 128 b1 ≡ false = ground arith in
      rw (read_rest, l)
        (ap
          (λ (k : Bool). elim (read_key wire k u) as (λ x. Option (Header × S)) [
            | none ↦ none
            | some (mkey, w) ↦
                some (record { fin = true; is_masked = k; opcode = 2; plen = n; mkey = mkey }, w)
          ])
          open_key)

  -- A frame that starts with the two bytes 130 and `b1`, without a mask.
  plain_frame :
      (ws : Websocket) (s t u : S) (b1 n : ℕ)
      → ws.is_fragmented ≡ false
      → b1 < 128
      → wire.read 2 s ≡ some (130 ∷ b1 ∷ [], t)
      → read_length wire b1 t ≡ some (n, u)
      → read_frame wire ws s ≡ ok (returns (with_header ws n) u n)
  unfolding read_frame
  plain_frame ws s t u b1 n f h e l =
      rw (read_frame, e, rest_plain t u b1 n h l) (frame-plain ws u n f)

  -- The length behind the second byte: there, or in two or eight bytes more.
  short_length : (t : S) (n : ℕ) → n < 126 → read_length wire n t ≡ some (n, t)
  unfolding read_length
  short_length t n h =
      let same : n % 128 ≡ n = omega (arith, h) in
      let not16 : (n == 126) ≡ false = ground (arith, h) in
      let not64 : (n == 127) ≡ false = ground (arith, h) in rw (same, not16, not64) refl

  extended :
      (t u : S) (n : ℕ) (bs : List ℕ)
      → wire.read n t ≡ some (bs, u)
      → read_extended wire n t ≡ some (word_of 0 bs, u)
  unfolding read_extended
  extended t u n bs e = rw (read_extended, e) refl

  length16 :
      (t : S) (bs rest : List ℕ)
      → length bs ≡ 2
      → incoming t ≡ bs ++ rest
      → (u : S) × (read_length wire 126 t ≡ some (word_of 0 bs, u)) × (incoming u ≡ rest)
  unfolding read_length
  length16 t bs rest two h =
      let (u, e, k) = laws.delivers t 2 bs rest (omega arith) (omega arith) two h in
      (u, extended t u 2 bs e, k)

  length64 :
      (t : S) (bs rest : List ℕ)
      → length bs ≡ 8
      → incoming t ≡ bs ++ rest
      → (u : S) × (read_length wire 127 t ≡ some (word_of 0 bs, u)) × (incoming u ≡ rest)
  unfolding read_length
  length64 t bs rest eight h =
      let (u, e, k) = laws.delivers t 8 bs rest (omega arith) (omega arith) eight h in
      (u, extended t u 8 bs e, k)

  -- The length of a frame that starts with 130 and `b1` is read as `n`.
  unfoldable ReadsAs : Websocket → S → ℕ → List ℕ → Type 0
  ReadsAs ws s n rest =
      (u : S) × (read_frame wire ws s ≡ ok (returns (with_header ws n) u n)) × (incoming u ≡ rest)

  reads_short :
      (ws : Websocket) (s : S) (n : ℕ) (rest : List ℕ)
      → ws.is_fragmented ≡ false
      → n < 126
      → incoming s ≡ 130 ∷ n ∷ rest
      → ReadsAs ws s n rest
  unfolding ReadsAs
  reads_short ws s n rest f h i =
      let (t, e, k) = laws.delivers s 2 (130 ∷ n ∷ []) rest (omega arith) (omega arith) refl i in
      (t, plain_frame ws s t t n n f (omega (arith, h)) e (short_length t n h), k)

  reads_16 :
      (ws : Websocket) (s : S) (n : ℕ) (rest : List ℕ)
      → ws.is_fragmented ≡ false
      → n < 65536
      → incoming s ≡ 130 ∷ 126 ∷ (bytes16 n ++ rest)
      → ReadsAs ws s n rest
  unfolding ReadsAs
  reads_16 ws s n rest f h i =
      let (t, e, k) =
        laws.delivers s 2 (130 ∷ 126 ∷ []) (bytes16 n ++ rest) (omega arith) (omega arith) refl i in
      let (u, l, m) = length16 t (bytes16 n) rest refl k in
      (
        u,
        plain_frame ws s t u 126 n f (omega arith) e (l ∙ ap (λ (x : ℕ). some (x, u)) (word16 n h)),
        m,
      )

  reads_64 :
      (ws : Websocket) (s : S) (n : ℕ) (rest : List ℕ)
      → ws.is_fragmented ≡ false
      → n < 2 ^ 64
      → incoming s ≡ 130 ∷ 127 ∷ (bytes64 n ++ rest)
      → ReadsAs ws s n rest
  unfolding ReadsAs
  reads_64 ws s n rest f h i =
      let (t, e, k) =
        laws.delivers s 2 (130 ∷ 127 ∷ []) (bytes64 n ++ rest) (omega arith) (omega arith) refl i in
      let (u, l, m) = length64 t (bytes64 n) rest refl k in
      (
        u,
        plain_frame ws s t u 127 n f (omega arith) e (l ∙ ap (λ (x : ℕ). some (x, u)) (word64 n h)),
        m,
      )

  reads_own :
      (ws : Websocket) (s : S) (n : ℕ) (rest : List ℕ)
      → ws.is_fragmented ≡ false
      → n < 2 ^ 63
      → incoming s ≡ header_bytes n ++ rest
      → ReadsAs ws s n rest
  unfolding header_bytes
  reads_own ws s n rest f h i = elim (Bool-cases (ltb n 126)) [
    | inl a ↦ reads_short ws s n rest f (ltb→lt n 126 a) (rw a at i)
    | inr a ↦ elim (Bool-cases (ltb n 65536)) [
      | inl b ↦ reads_16 ws s n rest f (ltb→lt n 65536 b) (rw (a, b) at i)
      | inr b ↦ reads_64 ws s n rest f (omega (arith, h)) (rw (a, b) at i)
    ]
  ]

  -- A header that the server writes for a length that fits a `ssize_t`, read by the same code while no
  -- message is fragmented, gives the length back, and the bytes behind it are still to come.
  pub read_header-header_bytes :
      (fuel : ℕ) (ws : Websocket) (s : S) (n : ℕ) (rest : List ℕ)
      → ws.is_fragmented ≡ false
      → n < 2 ^ 63
      → incoming s ≡ header_bytes n ++ rest
      → (x : Websocket) × ((t : S) × (read_header wire (suc fuel) ws s ≡ ok (x, t, n))
          × (incoming t ≡ rest))
  unfolding read_header ReadsAs
  read_header-header_bytes fuel ws s n rest f h i =
      let (t, e, k) = reads_own ws s n rest f h i in
      (with_header ws n, (t, rw (read_header, e) refl, k))

  -- Where the bytes to come start with the masked frame of an empty ping, the function returns 0.
  pub empty_ping_ends :
      (fuel : ℕ) (ws : Websocket) (s : S) (mkey rest : List ℕ)
      → length mkey ≡ 4
      → incoming s ≡ 137 ∷ 128 ∷ (mkey ++ rest)
      → (x : Websocket) × ((t : S) × (read_header wire (suc fuel) ws s ≡ ok (x, t, 0)))
  unfolding read_header read_frame read_rest read_length read_key frame control_frame
  empty_ping_ends fuel ws s mkey rest four i =
      let (t, e, k) =
        laws.delivers s 2 (137 ∷ 128 ∷ []) (mkey ++ rest) (omega arith) (omega arith) refl i in
      let (u, d, _) = laws.delivers t 4 mkey rest (omega arith) (omega arith) four k in
      (
        reset_fragmentation ws,
        (u, rw (read_header, read_frame, e, read_rest, d, laws.nothing u) refl),
      )
