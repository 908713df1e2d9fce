-- ===== src/Websocket/Handshake/Request.antt =====
-- What the handshake of src/websocket.c makes of the bytes of a request.
use mathlib.Core.List.{append_assoc, append-nil}
use pokerunicorn_server.Prelude.{
  ℕ, suc, ◌+◌, ◌≡◌, ◌≢◌, refl, ap, ◌∙◌, true, false, ◌&&◌, Option, none, some, List, [], ◌∷◌, ◌++◌,
  if◌then◌else◌, ◌==◌, leb, length, arith, Bool-cases, inl, inr, All, length-append,
}
use pokerunicorn_server.Prelude.Result.{Result, ok, fault, ◌>>=◌, out_of_bounds}
use pokerunicorn_server.Websocket.Handshake.{
  ParserState, Parser, start, Verdict, again, fail, answer, c_string, same_text, carriage_return,
  line_feed, key_name, header_buff_size, prop_buff_size, read_method, read_prop, read_val,
  read_byte,
}

-- The run over bytes until a verdict, with the bytes behind it.
unfoldable pub feed : Parser → List ℕ → Result (Verdict × List ℕ)
feed parser [] = ok (again parser, [])
feed parser (b ∷ bs) = read_byte parser.parser_state parser b >>= λ verdict. elim verdict [
  | again parser' ↦ feed parser' bs
  | fail ↦ ok (fail, bs)
  | answer key ↦ ok (answer key, bs)
]

-- The bytes of a request: its first line, and its fields with their values.
abbrev pub fields : List (List ℕ × List ℕ) → List ℕ
fields [] = carriage_return ∷ line_feed ∷ []
fields ((name, text) ∷ rest) =
    name ++ b':' ∷ b' ' ∷ (text ++ carriage_return ∷ line_feed ∷ fields rest)

abbrev pub request : List ℕ → List (List ℕ × List ℕ) → List ℕ
request line rest = line ++ carriage_return ∷ line_feed ∷ fields rest

-- A byte that ends neither a line nor a name.
abbrev pub IsNameByte : ℕ → Type 0
IsNameByte b = (b ≢ carriage_return) × (b ≢ b':')

abbrev pub IsTextByte : ℕ → Type 0
IsTextByte b = b ≢ carriage_return

abbrev pub IsField : List ℕ × List ℕ → Type 0
IsField (name, text) = All IsNameByte name × All IsTextByte text

-- A parser behind the first line.
abbrev pub parser_in :
    ParserState → ℕ → List ℕ → List ℕ → List ℕ → List ℕ → Option (List ℕ) → Parser
parser_in state i buff name val_buff text key = record {
  parser_state = state;
  is_cr = true;
  header_buff_i = i;
  prop_buff = buff;
  prop_name = name;
  val_buff = val_buff;
  val_text = text;
  ws_key = key;
}

differs : (b c : ℕ) → b ≢ c → (b == c) ≡ false
differs b c h = ground arith

grown :
    (buff : List ℕ) (b : ℕ) (bs : List ℕ)
    → length (buff ++ b ∷ []) + length bs ≡ length buff + suc (length bs)
grown buff b bs = omega (arith, length-append {0} buff (b ∷ []))

still_over : (n m : ℕ) → leb n 40 ≡ false → leb (n + m) 40 ≡ false
still_over n m h = ground arith

-- The two ends of a loop that fills a buffer from its first byte on.
full_or_not {ℓ} :
    {A : Type ℓ} (done : List ℕ → A) (failed : A) (buff : List ℕ)
    → (if leb (length buff) 40 then done buff else failed)
      ≡ (if leb (length buff + 0) 40 then done (buff ++ []) else failed)
full_or_not done failed buff =
    let e : length buff + 0 ≡ length buff = omega arith in rw (append-nil buff, e) refl

one_more {ℓ} :
    {A : Type ℓ} (done : List ℕ → A) (failed : A) (buff : List ℕ) (b : ℕ) (bs : List ℕ)
    → (if leb (length (buff ++ b ∷ []) + length bs) 40
        then done ((buff ++ b ∷ []) ++ bs)
        else failed)
      ≡ (if leb (length buff + suc (length bs)) 40 then done (buff ++ b ∷ bs) else failed)
one_more done failed buff b bs = rw (append_assoc buff (b ∷ []) bs, grown buff b bs) refl

-- A name with its colon goes to its buffer and out of it again if it fits.
feed_name :
    (name buff rest : List ℕ) (i : ℕ) (n v t : List ℕ) (k : Option (List ℕ))
    → All IsNameByte name
    → feed (parser_in ParserState.prop i buff n v t k) (name ++ b':' ∷ rest) ≡ (
        if leb (length buff + length name) 40
        then feed (parser_in ParserState.space i [] (buff ++ name) v t k) rest
        else fault out_of_bounds)
unfolding feed read_byte read_prop
feed_name [] buff rest i n v t k a =
    let done = λ (m : List ℕ). feed (parser_in ParserState.space i [] m v t k) rest in
    elim (Bool-cases (leb (length buff) 40)) [
      | inl fits ↦ rw (← full_or_not done (fault out_of_bounds) buff) (rw fits refl)
      | inr over ↦ rw (← full_or_not done (fault out_of_bounds) buff) (rw over refl)
    ]
feed_name (b ∷ name) buff rest i n v t k a =
    let done = λ (m : List ℕ). feed (parser_in ParserState.space i [] m v t k) rest in
    elim (Bool-cases (leb (length buff) 40)) [
      | inl fits ↦
          rw (differs b 13 a.0.0, differs b 58 a.0.1, fits)
            (feed_name name (buff ++ b ∷ []) rest i n v t k a.1
              ∙ one_more done (fault out_of_bounds) buff b name)
      | inr over ↦
          rw (differs b 58 a.0.1, over, still_over (length buff) (suc (length name)) over) refl
    ]

-- A value with its end of line goes to its buffer and out of it again if it fits.
feed_text :
    (text buff rest : List ℕ) (i : ℕ) (n t : List ℕ) (k : Option (List ℕ))
    → All IsTextByte text
    → feed (parser_in ParserState.val i [] n buff t k) (text ++ carriage_return ∷ rest) ≡ (
        if leb (length buff + length text) 40
        then feed (parser_in ParserState.cr i [] n [] (buff ++ text) k) rest
        else fault out_of_bounds)
unfolding feed read_byte read_val
feed_text [] buff rest i n t k a =
    let done = λ (m : List ℕ). feed (parser_in ParserState.cr i [] n [] m k) rest in
    elim (Bool-cases (leb (length buff) 40)) [
      | inl fits ↦ rw (← full_or_not done (fault out_of_bounds) buff) (rw fits refl)
      | inr over ↦ rw (← full_or_not done (fault out_of_bounds) buff) (rw over refl)
    ]
feed_text (b ∷ text) buff rest i n t k a =
    let done = λ (m : List ℕ). feed (parser_in ParserState.cr i [] n [] m k) rest in
    elim (Bool-cases (leb (length buff) 40)) [
      | inl fits ↦
          rw (differs b 13 a.0, fits)
            (feed_text text (buff ++ b ∷ []) rest i n t k a.1
              ∙ one_more done (fault out_of_bounds) buff b text)
      | inr over ↦
          rw (differs b 13 a.0, over, still_over (length buff) (suc (length text)) over) refl
    ]

-- The key after a field with its value.
abbrev pub keyed : List ℕ → List ℕ → Option (List ℕ) → Option (List ℕ)
keyed name text key = if same_text (c_string name) key_name then some (c_string text) else key

-- The key of a request: that of the last field of its name, where all fields fit their buffers.
abbrev pub key_of : List (List ℕ × List ℕ) → Option (List ℕ) → Result (Option (List ℕ))
key_of [] key = ok key
key_of ((name, text) ∷ rest) key =
    if leb (length name) prop_buff_size && leb (length text) prop_buff_size
    then key_of rest (keyed name text key)
    else fault out_of_bounds

abbrev pub verdict_of : Option (List ℕ) → Verdict
verdict_of none = fail
verdict_of (some key) = answer key

-- A name and a value from the first byte of their buffers on.
feed_name_lem :
    (name rest : List ℕ) (i : ℕ) (n t : List ℕ) (k : Option (List ℕ))
    → All IsNameByte name
    → feed (parser_in ParserState.prop i [] n [] t k) (name ++ b':' ∷ rest) ≡ (
        if leb (length name) 40
        then feed (parser_in ParserState.space i [] name [] t k) rest
        else fault out_of_bounds)
feed_name_lem name rest i n t k a =
    let e : 0 + length name ≡ length name = omega arith in
    feed_name name [] rest i n [] t k a ∙ (rw e refl)

feed_text_lem :
    (text rest : List ℕ) (i : ℕ) (n t : List ℕ) (k : Option (List ℕ))
    → All IsTextByte text
    → feed (parser_in ParserState.val i [] n [] t k) (text ++ carriage_return ∷ rest) ≡ (
        if leb (length text) 40
        then feed (parser_in ParserState.cr i [] n [] text k) rest
        else fault out_of_bounds)
feed_text_lem text rest i n t k a =
    let e : 0 + length text ≡ length text = omega arith in
    feed_text text [] rest i n t k a ∙ (rw e refl)

feed_space :
    (bs : List ℕ) (i : ℕ) (n t : List ℕ) (k : Option (List ℕ))
    → feed (parser_in ParserState.space i [] n [] t k) (b' ' ∷ bs)
      ≡ feed (parser_in ParserState.val i [] n [] t k) bs
unfolding feed read_byte
feed_space bs i n t k = refl

feed_cr :
    (bs : List ℕ) (i : ℕ) (n t : List ℕ) (k : Option (List ℕ))
    → feed (parser_in ParserState.cr i [] n [] t k) (line_feed ∷ bs)
      ≡ feed (parser_in ParserState.prop i [] n [] t (keyed n t k)) bs
unfolding feed read_byte
feed_cr bs i n t k = refl

feed-fields :
    (fs : List (List ℕ × List ℕ)) (i : ℕ) (n t : List ℕ) (k : Option (List ℕ))
    → All IsField fs
    → feed (parser_in ParserState.prop i [] n [] t k) (fields fs)
      ≡ (key_of fs k >>= λ key. ok (verdict_of key, []))
feed-fields [] i n t none a = unfold feed read_byte read_prop in refl
feed-fields [] i n t (some key) a = unfold feed read_byte read_prop in refl
feed-fields ((name, text) ∷ fs) i n t k a =
    feed_name_lem name (b' ' ∷ (text ++ carriage_return ∷ line_feed ∷ fields fs)) i n t k a.0.0
    ∙ elim (Bool-cases (leb (length name) 40)) [
      | inr over ↦ rw over refl
      | inl fits ↦ rw fits (
          feed_space (text ++ carriage_return ∷ line_feed ∷ fields fs) i name t k
          ∙ feed_text_lem text (line_feed ∷ fields fs) i name t k a.0.1
          ∙ elim (Bool-cases (leb (length text) 40)) [
            | inr over ↦ rw over refl
            | inl short ↦ rw short (
                feed_cr (fields fs) i name text k
                ∙ feed-fields fs i name text (keyed name text k) a.1)
          ])
    ]

-- A parser in the first line.
abbrev in_line : ℕ → Parser
in_line i = record start { header_buff_i = i }

feed_line :
    (line rest : List ℕ) (i : ℕ)
    → All IsTextByte line
    → feed (in_line i) (line ++ carriage_return ∷ line_feed ∷ rest) ≡ (
        if leb (i + length line) header_buff_size
        then feed (parser_in ParserState.prop (i + length line + 1) [] [] [] [] none) rest
        else fault out_of_bounds)
unfolding feed read_byte read_method
feed_line [] rest i a = elim (Bool-cases (leb i 1000)) [
  | inl fits ↦ let e : i + 0 ≡ i = omega arith in rw (fits, e, fits) refl
  | inr over ↦ let e : i + 0 ≡ i = omega arith in rw (over, e, over) refl
]
feed_line (b ∷ line) rest i a = elim (Bool-cases (leb i 1000)) [
  | inl fits ↦
      let e : i + 1 + length line ≡ i + suc (length line) = omega arith in
      rw (differs b 13 a.0, fits) (feed_line line rest (i + 1) a.1 ∙ (rw e refl))
  | inr over ↦ let e : leb (i + suc (length line)) 1000 ≡ false = ground arith in rw (over, e) refl
]

-- What the parser makes of a request of any fields.
pub feed-request :
    (line : List ℕ) (fs : List (List ℕ × List ℕ))
    → All IsTextByte line
    → All IsField fs
    → feed start (request line fs) ≡ (
        if leb (8 + length line) header_buff_size
        then (key_of fs none >>= λ key. ok (verdict_of key, []))
        else fault out_of_bounds)
feed-request line fs a b =
    feed_line line (fields fs) 8 a
    ∙ ap
        (λ (run : Result (Verdict × List ℕ)).
          if leb (8 + length line) header_buff_size then run else fault out_of_bounds)
        (feed-fields fs (8 + length line + 1) [] [] none b)
