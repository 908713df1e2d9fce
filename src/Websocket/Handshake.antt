-- ===== src/Websocket/Handshake.antt =====
-- The HTTP handshake of src/websocket.c, `pkrsrv_websocket_read_http_header`. SHA1 comes from
-- OpenSSL and is an argument.
pub mod Request
pub mod Answer
use pokerunicorn_server.Prelude.{
  ℕ, zero, suc, ◌+◌, ◌-◌, ◌≡◌, Bool, true, false, not, ◌&&◌, Option, none, some, List, [], ◌∷◌,
  ◌++◌, if◌then◌else◌, ◌==◌, ltb, leb, length,
}
use pokerunicorn_server.Prelude.Result.{Result, ok, fault, ◌>>=◌, out_of_bounds}
use pokerunicorn_server.Websocket.{Wire, byte, codes}
use pokerunicorn_server.Websocket.Base64.{base64_encode}

-- `HTTP_HEADER_BUFF_SIZE`, and `HTTP_PROP_BUFF_SIZE`, with which `val_buff` is declared too.
abbrev pub header_buff_size : ℕ
header_buff_size = 1000

abbrev pub prop_buff_size : ℕ
prop_buff_size = 40

abbrev pub response_buf_size : ℕ
response_buf_size = 700

-- `PKRSRV_WEBSOCKET_HTTP_HEADER_PARSER_STATE`
pub data ParserState : Type 0 where
  method prop space val cr end : ParserState

-- The variables of the function. A buffer is what has been written to it since its index was 0 last,
-- and `prop_name` and `val_text` are what the buffers held when they were closed with a zero.
-- `header_buff` is never read, since `is_lf` is never set, and is its index alone.
pub record Parser : Type 0 where
  pub parser_state : ParserState
  pub is_cr : Bool
  pub header_buff_i : ℕ
  pub prop_buff : List ℕ
  pub prop_name : List ℕ
  pub val_buff : List ℕ
  pub val_text : List ℕ
  pub ws_key : Option (List ℕ)

abbrev pub start : Parser
start = record {
  parser_state = ParserState.method;
  is_cr = false;
  header_buff_i = 8;
  prop_buff = [];
  prop_name = [];
  val_buff = [];
  val_text = [];
  ws_key = none;
}

-- Where a byte leads: on, to FAIL, or to the answer with the key.
pub data Verdict : Type 0 where
  again : Parser → Verdict
  fail : Verdict
  answer : List ℕ → Verdict

-- What the string functions see of a buffer: the bytes before the first zero.
abbrev pub c_string : List ℕ → List ℕ
c_string [] = []
c_string (b ∷ bs) = if b == 0 then [] else b ∷ c_string bs

-- `strcmp(a, b) == 0`
abbrev pub same_text : List ℕ → List ℕ → Bool
same_text [] [] = true
same_text [] (c ∷ cs) = false
same_text (b ∷ bs) [] = false
same_text (b ∷ bs) (c ∷ cs) = b == c && same_text bs cs

-- A write at the index of a buffer of `size + 1` bytes.
abbrev pub append : ℕ → List ℕ → ℕ → Result (List ℕ)
append size buff b = if leb (length buff) size then ok (buff ++ b ∷ []) else fault out_of_bounds

-- The zero that closes a buffer.
abbrev pub close : ℕ → List ℕ → Result (List ℕ)
close size buff = if leb (length buff) size then ok buff else fault out_of_bounds

abbrev pub carriage_return : ℕ
carriage_return = 13

abbrev pub line_feed : ℕ
line_feed = 10

abbrev pub key_name : List ℕ
key_name = codes "Sec-WebSocket-Key"

-- The branch of METHOD.
pub read_method : Parser → ℕ → Result Verdict
read_method parser b =
    if parser.is_cr && b == line_feed
    then ok (again (record parser { parser_state = ParserState.prop }))
    else if parser.is_cr
    then ok fail
    else if leb parser.header_buff_i header_buff_size
    then ok (
        again (record parser {
          is_cr = b == carriage_return;
          header_buff_i = parser.header_buff_i + 1;
        }))
    else fault out_of_bounds

-- The branch of PROP: the carriage return of an empty line goes to the buffer too.
pub read_prop : Parser → ℕ → Result Verdict
read_prop parser b =
    if b == b':'
    then (close prop_buff_size parser.prop_buff >>= λ name. ok (
        again
          (record parser { parser_state = ParserState.space; prop_buff = []; prop_name = name })))
    else (append prop_buff_size parser.prop_buff b >>= λ buff. ok (
        again (record parser {
          parser_state = if b == carriage_return then ParserState.end else ParserState.prop;
          prop_buff = buff;
        })))

-- The branch of VAL, whose buffer is as long as that of PROP.
pub read_val : Parser → ℕ → Result Verdict
read_val parser b =
    if b == carriage_return
    then (close prop_buff_size parser.val_buff >>= λ text.
        ok
          (again (record parser { parser_state = ParserState.cr; val_buff = []; val_text = text })))
    else (append prop_buff_size parser.val_buff b >>= λ buff.
        ok (again (record parser { val_buff = buff })))

-- The branch of CR, at the line feed.
abbrev pub take_key : Parser → Option (List ℕ)
take_key parser =
    if same_text (c_string parser.prop_name) key_name
    then some (c_string parser.val_text)
    else parser.ws_key

-- What a byte does, by the state.
pub read_byte : ParserState → Parser → ℕ → Result Verdict
unfolding read_method read_prop read_val
read_byte ParserState.method parser b = read_method parser b
read_byte ParserState.prop parser b = read_prop parser b
read_byte ParserState.space parser b =
    if b == b' ' then ok (again (record parser { parser_state = ParserState.val })) else ok fail
read_byte ParserState.val parser b = read_val parser b
read_byte ParserState.cr parser b =
    if b == line_feed
    then ok (again (record parser { parser_state = ParserState.prop; ws_key = take_key parser }))
    else ok fail
read_byte ParserState.end parser b =
    if b == line_feed
    then elim parser.ws_key [ none ↦ ok fail | some key ↦ ok (answer key) ]
    else ok (again parser)

-- `PKRSRV_WEBSOCKET_GUID`
abbrev pub guid : List ℕ
guid = codes "258EAFA5-E914-47DA-95CA-C5AB0DC85B11"

-- What stands before and behind the key in `response_buf`.
abbrev pub response_start : List ℕ
response_start =
    codes
      "HTTP/1.1 101 Switching Protocols\r\nUpgrade: websocket\r\nConnection: Upgrade\r\nSec-WebSocket-Accept: "

abbrev pub response_end : List ℕ
response_end = codes "\r\nAccess-Control-Allow-Origin: *\r\nCompression: None\r\n\r\n"

module _ (sha1 : List ℕ → List ℕ) where
  -- `pkrsrv_websocket_generate_ws_accept_key`
  unfoldable pub generate_ws_accept_key : List ℕ → List ℕ
  generate_ws_accept_key key = base64_encode (sha1 (key ++ guid))

  -- `response_buf`, without the zero at its end.
  unfoldable pub response : List ℕ → List ℕ
  response key = response_start ++ generate_ws_accept_key key ++ response_end

  -- From the branch of END to SUCCESS or FAIL, where `received` bytes have been read.
  unfoldable pub send_answer : {S : Type 0} → Wire S → ℕ → List ℕ → S → Result (ℕ × S)
  send_answer wire received key s =
      if ltb (length (response key)) response_buf_size
      then elim (wire.write (response key) s) [ none ↦ ok (0, s) | some t ↦ ok (received, t) ]
      else fault out_of_bounds

  -- The loop at RECEIVE_PACKET, where `left` more bytes may be read. It gives the function's result.
  pub receive : {S : Type 0} → Wire S → ℕ → Parser → S → Result (ℕ × S)
  receive wire zero parser s = ok (0, s)
  receive wire (suc left) parser s = elim (wire.read 1 s) [
    | none ↦ ok (0, s)
    | some (bs, t) ↦ read_byte parser.parser_state parser (byte bs 0) >>= λ verdict. elim verdict [
      | again parser' ↦ receive wire left parser' t
      | fail ↦ ok (0, t)
      | answer key ↦ send_answer wire (header_buff_size - left) key t
    ]
  ]

  -- `pkrsrv_websocket_read_http_header`
  abbrev pub read_http_header : {S : Type 0} → Wire S → S → Result (ℕ × S)
  read_http_header wire s = receive wire header_buff_size start s
