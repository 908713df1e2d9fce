-- ===== src/Tests/Handshake.antt =====
-- Runs of the handshake of src/websocket.c.
use pokerunicorn_server.Prelude.{
  ℕ, ◌≡◌, ◌++◌, refl, ap, Option, none, some, replicate, List, [], ◌∷◌, length, arith,
}
use pokerunicorn_server.Prelude.Result.{ok, fault, out_of_bounds}
use pokerunicorn_server.Websocket.{Wire, codes}
use pokerunicorn_server.Websocket.Base64.{base64_encode}
use pokerunicorn_server.Websocket.Lengths.{IsWire}
use pokerunicorn_server.Tests.Frames.{wire, wire-IsWire}
use pokerunicorn_server.Websocket.Handshake.{read_http_header}
use pokerunicorn_server.Websocket.Handshake.Request.{request}
use pokerunicorn_server.Websocket.Handshake.Answer.{Answers, IsAnswering, read_http_header-request}

-- A stand-in for SHA1: twenty bytes that add up the text.
abbrev digest : List ℕ → List ℕ
digest bs = replicate 20 (length bs)

digest_lem : (bs : List ℕ) → length (digest bs) ≡ 20
digest_lem bs = refl

-- A connection with the bytes to come and those that have been sent.
abbrev carried : Option (List ℕ × List ℕ) → List ℕ → Option (List ℕ × (List ℕ × List ℕ))
carried none out = none
carried (some (bs, t)) out = some (bs, (t, out))

abbrev pipe : Wire (List ℕ × List ℕ)
pipe = record { read = λ n s. carried (wire.read n s.0) s.1; write = λ bs s. some (s.0, s.1 ++ bs) }

abbrev to_come : List ℕ × List ℕ → List ℕ
to_come s = s.0

abbrev written : List ℕ × List ℕ → List ℕ
written s = s.1

pipe-IsWire : IsWire pipe to_come
pipe-IsWire = record {
  nothing = λ s. ap (λ (got : Option (List ℕ × List ℕ)). carried got s.1) (wire-IsWire.nothing s.0);
  delivers = λ s n bs rest h k l i.
      let (t, e, after) = wire-IsWire.delivers s.0 n bs rest h k l i in
      ((t, s.1), ap (λ (got : Option (List ℕ × List ℕ)). carried got s.1) e, after);
}

carried_lem :
    (got : Option (List ℕ × List ℕ)) (out bs : List ℕ) (t : List ℕ × List ℕ)
    → carried got out ≡ some (bs, t)
    → t.1 ≡ out
carried_lem none out bs t h = absurd (cc h)
carried_lem (some (cs, u)) out bs t h = cc h

pipe_reads :
    (s t : List ℕ × List ℕ) (n : ℕ) (bs : List ℕ)
    → pipe.read n s ≡ some (bs, t)
    → written t ≡ written s
pipe_reads s t n bs h = carried_lem (wire.read n s.0) s.1 bs t h

pipe-IsAnswering : IsAnswering pipe to_come written
pipe-IsAnswering = record {
  reads = pipe_reads;
  takes = λ s bs h k. ((s.0, s.1 ++ bs), refl, refl, refl);
}

abbrev line : List ℕ
line = codes "/x HTTP/1.1"

abbrev fs : List (List ℕ × List ℕ)
fs = (codes "Host", codes "a.b") ∷ (codes "Sec-WebSocket-Key", codes "abc") ∷ []

-- A field with a value of 45 bytes, as browsers send.
abbrev long_fs : List (List ℕ × List ℕ)
long_fs = (codes "User-Agent", codes "Mozilla/5.0 (X11; Linux x86_64; rv:109.0) Gec") ∷ []

read_http_header-request_example :
    Answers digest pipe to_come written pipe-IsWire pipe-IsAnswering
      (ok (some (codes "abc")))
      (length (request line fs))
      (7 ∷ [])
      []
      (read_http_header digest pipe (request line fs ++ 7 ∷ [], []))
read_http_header-request_example =
    read_http_header-request digest pipe to_come written pipe-IsWire pipe-IsAnswering line fs
      (7 ∷ []) (request line fs ++ 7 ∷ [], []) digest_lem (omega arith) (omega arith) (omega arith)
      refl

long_overflows : read_http_header digest pipe (request line long_fs, []) ≡ fault out_of_bounds
long_overflows =
    read_http_header-request digest pipe to_come written pipe-IsWire pipe-IsAnswering line long_fs
      [] (request line long_fs, []) digest_lem (omega arith) (omega arith) (omega arith) refl

-- Base64 of "any carnal pleas", of which one byte is alone in its group, and of a byte less.
padded_lem :
    (base64_encode (codes "any carnal pleas") ≡ codes "YW55IGNhcm5hbCBwbGVhcw==")
    × (base64_encode (codes "any carnal plea") ≡ codes "YW55IGNhcm5hbCBwbGVh")
unfolding base64_encode
padded_lem = (refl, refl)
