-- ===== src/Websocket/Handshake/Answer.antt =====
-- The answer of the handshake of src/websocket.c to what a connection delivers.
use pokerunicorn_server.Prelude.{
  ℕ, zero, suc, ◌<◌, ◌^◌, lt→ltb, length-append, ◌+◌, ◌-◌, ◌≤◌, ◌≡◌, refl, ap, subst, ◌∙◌, true,
  false, Option, none, some, List, [], ◌∷◌, ◌++◌, if◌then◌else◌, leb, length, arith, Bool-cases,
  inl, inr, All,
}
use pokerunicorn_server.Prelude.Result.{Result, ok, fault, ◌>>=◌, out_of_bounds}
use pokerunicorn_server.Websocket.{Wire}
use pokerunicorn_server.Websocket.Lengths.{IsWire}
use pokerunicorn_server.Websocket.Base64.{length-base64_encode}
use pokerunicorn_server.Websocket.Handshake.{
  Parser, start, Verdict, again, fail, answer, header_buff_size, read_byte, receive,
  read_http_header, send_answer, generate_ws_accept_key, guid, response, response_start,
  response_end,
}
use pokerunicorn_server.Websocket.Handshake.Request.{
  feed, request, IsTextByte, IsField, key_of, verdict_of, feed-request,
}

abbrev ended : Option (List ℕ) → Result (Verdict × List ℕ)
ended key = ok (verdict_of key, [])

one_test :
    (n : ℕ) (found : Result (Option (List ℕ)))
    → (if leb (8 + n) 1000 then (found >>= ended) else fault out_of_bounds)
      ≡ ((if leb n 992 then found else fault out_of_bounds) >>= ended)
one_test n found = elim (Bool-cases (leb n 992)) [
  | inl fits ↦ let wide : leb (8 + n) 1000 ≡ true = ground arith in rw (fits, wide) refl
  | inr over ↦ let wide : leb (8 + n) 1000 ≡ false = ground arith in rw (over, wide) refl
]

-- What the handshake relies on of a connection that stays open, beside `IsWire`: a read writes nothing,
-- and a write of some bytes within an `int` goes out (`sent` has grown by them) and reads nothing.
pub record IsAnswering {S : Type 0} (wire : Wire S) (incoming sent : S → List ℕ) : Type 0 where
  pub reads : (s t : S) (n : ℕ) (bs : List ℕ) → wire.read n s ≡ some (bs, t) → sent t ≡ sent s
  pub takes :
      (s : S) (bs : List ℕ)
      → 1 ≤ length bs
      → length bs < 2 ^ 31
      → (t : S) × (wire.write bs s ≡ some t) × (incoming t ≡ incoming s) × (sent t ≡ sent s ++ bs)

-- `SHA_DIGEST_LENGTH`
abbrev pub digest_length : ℕ
digest_length = 20

module _ (sha1 : List ℕ → List ℕ) (digest : (bs : List ℕ) → length (sha1 bs) ≡ digest_length) where
  length-accept_key : (key : List ℕ) → length (generate_ws_accept_key sha1 key) ≡ 28
  unfolding generate_ws_accept_key
  length-accept_key key =
      omega (arith, length-base64_encode (sha1 (key ++ guid)), digest (key ++ guid))

  length-response :
      (key : List ℕ) → (1 ≤ length (response sha1 key)) × (length (response sha1 key) < 700)
  unfolding response
  length-response key =
      let accept = generate_ws_accept_key sha1 key in
      let sum = length-append accept response_end in
      let whole = length-append response_start (accept ++ response_end) in
      let n = length-accept_key key in (omega (arith, whole), omega (arith, whole, sum, n))

module _ (sha1 : List ℕ → List ℕ) {S : Type 0} (wire : Wire S) (incoming sent : S → List ℕ)
    (laws : IsWire wire incoming) (answers : IsAnswering wire incoming sent) where
  -- How a run over the connection ends, by what the parser makes of the bytes and leaves of them. Of
  -- `total` bytes with these at the end, those that are left are not received, and `rest` follows;
  -- `before` has been sent.
  abbrev Ends : Result (Verdict × List ℕ) → ℕ → List ℕ → List ℕ → Result (ℕ × S) → Type 0
  Ends (fault why) total rest before run = run ≡ fault why
  Ends (ok (again parser, unread)) total rest before run = Unit {0}
  Ends (ok (fail, unread)) total rest before run =
      (t : S) × (run ≡ ok (0, t)) × (incoming t ≡ unread ++ rest) × (sent t ≡ before)
  Ends (ok (answer key, unread)) total rest before run =
      (t : S) × (run ≡ send_answer sha1 wire (total - length unread) key t)
      × (incoming t ≡ unread ++ rest)
      × (sent t ≡ before)

  Ends-read_byte :
      (outcome : Result Verdict) (bs rest before : List ℕ) (left total : ℕ) (t : S)
      → 1000 - left ≡ total - length bs
      → incoming t ≡ bs ++ rest
      → sent t ≡ before
      → ((p : Parser) → Ends (feed p bs) total rest before (receive sha1 wire left p t))
      → Ends
          (outcome >>= λ verdict. elim verdict [
            | again p ↦ feed p bs
            | fail ↦ ok (fail, bs)
            | answer key ↦ ok (answer key, bs)
          ])
          total
          rest
          before
          (outcome >>= λ verdict. elim verdict [
            | again p ↦ receive sha1 wire left p t
            | fail ↦ ok (0, t)
            | answer key ↦ send_answer sha1 wire (header_buff_size - left) key t
          ])
  Ends-read_byte (fault why) bs rest before left total t e i j ih = refl
  Ends-read_byte (ok (again p)) bs rest before left total t e i j ih = ih p
  Ends-read_byte (ok fail) bs rest before left total t e i j ih = (t, refl, i, j)
  Ends-read_byte (ok (answer key)) bs rest before left total t e i j ih =
      (t, ap (λ n. send_answer sha1 wire n key t) e, i, j)

  Ends-feed :
      (bs rest before : List ℕ) (p : Parser) (left total : ℕ) (s : S)
      → left + total ≡ 1000 + length bs
      → length bs ≤ left
      → incoming s ≡ bs ++ rest
      → sent s ≡ before
      → Ends (feed p bs) total rest before (receive sha1 wire left p s)
  unfolding feed receive
  Ends-feed [] rest before p left total s e h i j = tt
  Ends-feed (b ∷ bs) rest before p zero total s e h i j = absurd (omega (arith, h))
  Ends-feed (b ∷ bs) rest before p (suc left) total s e h i j =
      let (t, got, after) =
        laws.delivers s 1 (b ∷ []) (bs ++ rest) (omega arith) (omega arith) refl i in
      let quiet : sent t ≡ before = answers.reads s t 1 (b ∷ []) got ∙ j in
      rw (got, receive)
        (Ends-read_byte (read_byte p.parser_state p b) bs rest before left total t
          (omega (arith, e, h)) after quiet
          (λ q.
            Ends-feed bs rest before q left total t (omega (arith, e)) (omega (arith, h)) after
              quiet))

  -- How the handshake ends, by the key of the request, where `before` was sent before it: with a write
  -- out of bounds, with 0 and nothing sent where there is no key, or with the answer to the key.
  abbrev pub Answers : Result (Option (List ℕ)) → ℕ → List ℕ → List ℕ → Result (ℕ × S) → Type 0
  Answers (fault why) total rest before run = run ≡ fault why
  Answers (ok none) total rest before run =
      (t : S) × (run ≡ ok (0, t)) × (incoming t ≡ rest) × (sent t ≡ before)
  Answers (ok (some key)) total rest before run =
      (t : S) × (run ≡ ok (total, t)) × (incoming t ≡ rest) × (sent t ≡ before ++ response sha1 key)

  -- The answer goes out: it fits its buffer.
  send_answer_lem :
      ((bs : List ℕ) → length (sha1 bs) ≡ digest_length)
      → (n : ℕ) (key : List ℕ) (s : S)
      → (t : S) × (send_answer sha1 wire n key s ≡ ok (n, t))
        × (incoming t ≡ incoming s)
        × (sent t ≡ sent s ++ response sha1 key)
  unfolding send_answer
  send_answer_lem digest n key s =
      let (some_bytes, few) = length-response sha1 digest key in
      let (t, wrote, same, grew) =
        answers.takes s (response sha1 key) some_bytes (omega (arith, few)) in
      (t, rw (lt→ltb (length (response sha1 key)) 700 few, wrote) refl, same, grew)

  Answers-Ends :
      ((bs : List ℕ) → length (sha1 bs) ≡ digest_length)
      → (found : Result (Option (List ℕ))) (total : ℕ) (rest before : List ℕ) (run : Result (ℕ × S))
      → Ends (found >>= λ key. ok (verdict_of key, [])) total rest before run
      → Answers found total rest before run
  Answers-Ends digest (fault why) total rest before run ends = ends
  Answers-Ends digest (ok none) total rest before run ends = ends
  Answers-Ends digest (ok (some key)) total rest before run ends =
      let all : total - 0 ≡ total = omega arith in
      let (t, wrote, same, grew) = send_answer_lem digest total key ends.0 in
      (
        t,
        subst (λ (n : ℕ). run ≡ send_answer sha1 wire n key ends.0) all ends.1 ∙ wrote,
        same ∙ ends.2,
        grew ∙ ap (λ (sofar : List ℕ). sofar ++ response sha1 key) ends.3,
      )

  -- A request is a first line, then fields, each a name, a colon, a space and a value, then an empty
  -- line, where names hold no colon and nothing holds a carriage return. Where SHA1 gives 20 bytes, and
  -- the connection delivers a request of at most 1000 bytes and takes what is written, the handshake
  -- ends as follows. If the first line is longer than 992 bytes, or a name or a value is longer than
  -- 40, a buffer is written out of its bounds. Otherwise names and values are what stands before their
  -- first zero byte. If no field is named `Sec-WebSocket-Key`, the result is 0 and nothing has been
  -- sent; if one is, the answer to the value of the last such field has been sent, whole and once, and
  -- the result is the length of the request. In these two cases nothing behind the request has been
  -- read. What the first line says makes no difference.
  pub read_http_header-request :
      (line : List ℕ) (fs : List (List ℕ × List ℕ)) (rest : List ℕ) (s : S)
      → ((bs : List ℕ) → length (sha1 bs) ≡ digest_length)
      → All IsTextByte line
      → All IsField fs
      → length (request line fs) ≤ 1000
      → incoming s ≡ request line fs ++ rest
      → Answers
          (if leb (length line) 992 then key_of fs none else fault out_of_bounds)
          (length (request line fs))
          rest
          (sent s)
          (read_http_header sha1 wire s)
  read_http_header-request line fs rest s digest a b h i =
      let found : Result (Option (List ℕ)) =
        if leb (length line) 992 then key_of fs none else fault out_of_bounds in
      Answers-Ends digest found (length (request line fs)) rest (sent s)
        (read_http_header sha1 wire s)
        (subst
          (λ (parsed : Result (Verdict × List ℕ)).
            Ends parsed (length (request line fs)) rest (sent s) (read_http_header sha1 wire s))
          (feed-request line fs a b ∙ one_test (length line) (key_of fs none))
          (Ends-feed (request line fs) rest (sent s) start 1000 (length (request line fs)) s refl h
            i refl))
