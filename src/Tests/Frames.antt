-- ===== src/Tests/Frames.antt =====
-- The theorems on src/websocket.c where `SSL_read` gives one byte at a time.
use pokerunicorn_server.Prelude.{
  ℕ, zero, suc, ◌≡◌, ◌++◌, refl, Option, none, some, List, [], ◌∷◌, length, arith, ◌≤◌, ◌<◌, ◌⊎◌,
}
use pokerunicorn_server.Prelude.Result.{ok}
use pokerunicorn_server.Websocket.{Wire, Websocket, init, header_bytes, read_header}
use pokerunicorn_server.Websocket.Ssl.{IsSsl, ssl_read, ssl_read-IsWire, ssl_read_lem}
use pokerunicorn_server.Websocket.Lengths.{IsWire, read_header-header_bytes, empty_ping_ends}
use pokerunicorn_server.Websocket.Fragments.{
  Fragment, IsShort, within, frame_bytes, message, message_bytes, read_header-message,
}

abbrev pub one_by_one : ℕ → List ℕ → Option (List ℕ × List ℕ)
one_by_one zero s = none
one_by_one (suc n) [] = none
one_by_one (suc n) (b ∷ bs) = some (b ∷ [], bs)

one_by_one-some_of :
    (s : List ℕ) (n b : ℕ) (bs : List ℕ)
    → 1 ≤ n
    → s ≡ b ∷ bs
    → (cs : List ℕ) × ((t : List ℕ) × (one_by_one n s ≡ some (cs, t))
        × (1 ≤ length cs)
        × (length cs ≤ n)
        × (s ≡ cs ++ t))
one_by_one-some_of s zero b bs h i = absurd (omega (arith, h))
one_by_one-some_of [] (suc n) b bs h i = absurd (cc i)
one_by_one-some_of (c ∷ cs) (suc n) b bs h i = (c ∷ [], (cs, refl, omega arith, omega arith, refl))

one_by_one-closed : (s : List ℕ) (n : ℕ) → s ≡ [] → one_by_one n s ≡ none
one_by_one-closed [] zero h = refl
one_by_one-closed [] (suc n) h = refl
one_by_one-closed (b ∷ s) n h = absurd (cc h)

abbrev pub bytes : List ℕ → List ℕ
bytes s = s

one_by_one-IsSsl : IsSsl one_by_one bytes
one_by_one-IsSsl = record {
  nothing = λ s. refl;
  closed = one_by_one-closed;
  some_of = one_by_one-some_of;
}

unfoldable pub wire : Wire (List ℕ)
unfolding ssl_read
wire = record { read = ssl_read one_by_one; write = λ bs s. some s }

abbrev two : List ℕ
two = 5 ∷ 6 ∷ []

abbrev three : List ℕ
three = 5 ∷ 6 ∷ 7 ∷ []

ssl_read_lem_example :
    ((t : List ℕ) × (ssl_read one_by_one 2 three ≡ some (two, t)) × (length two ≡ 2) × (t ≡ 7 ∷ []))
    ⊎ ((length three < 2) × (ssl_read one_by_one 2 three ≡ none))
ssl_read_lem_example =
    ssl_read_lem one_by_one bytes one_by_one-IsSsl 2 (5 ∷ 6 ∷ 7 ∷ []) (omega arith) (omega arith)

pub wire-IsWire : IsWire wire bytes
unfolding wire
wire-IsWire = ssl_read-IsWire one_by_one bytes one_by_one-IsSsl (λ bs s. some s)

read_header-header_bytes_example :
    (x : Websocket) × ((t : List ℕ) × (read_header wire 1 init (header_bytes 70000 ++ (1 ∷ 2 ∷ []))
        ≡ ok (x, t, 70000))
      × (t ≡ 1 ∷ 2 ∷ []))
read_header-header_bytes_example =
    read_header-header_bytes wire bytes wire-IsWire 0 init (header_bytes 70000 ++ (1 ∷ 2 ∷ []))
      70000 (1 ∷ 2 ∷ []) refl (omega arith) refl

empty_ping_ends_example :
    (x : Websocket) × ((t : List ℕ) × (read_header wire 1 init (137 ∷ 128 ∷ 1 ∷ 2 ∷ 3 ∷ 4 ∷ 5 ∷ [])
        ≡ ok (x, t, 0)))
empty_ping_ends_example =
    empty_ping_ends wire bytes wire-IsWire 0 init (137 ∷ 128 ∷ 1 ∷ 2 ∷ 3 ∷ 4 ∷ 5 ∷ [])
      (1 ∷ 2 ∷ 3 ∷ 4 ∷ []) (5 ∷ []) refl refl

abbrev fragment : List ℕ → Fragment
fragment bs = record { payload = bs; mkey = 17 ∷ 34 ∷ 51 ∷ 68 ∷ [] }

fragment-IsShort : (b c : ℕ) → b < 256 → c < 256 → IsShort (fragment (b ∷ c ∷ []))
fragment-IsShort b c h k = record {
  some_bytes = omega arith;
  few = omega arith;
  key = refl;
  key_bytes = ground arith;
  bytes = (h, (k, tt));
}

-- Six bytes in three frames.
abbrev sent : List ℕ
sent =
    frame_bytes 2 (fragment (1 ∷ 2 ∷ []))
    ++ (message_bytes (fragment (3 ∷ 4 ∷ []) ∷ []) (fragment (5 ∷ 6 ∷ [])) ++ (9 ∷ []))

read_header-message_example :
    let whole = 1 ∷ 2 ∷ message (fragment (3 ∷ 4 ∷ []) ∷ []) (fragment (5 ∷ 6 ∷ [])) in
    (t : List ℕ) × (read_header wire 3 init sent ≡ ok (within init whole, t, length whole))
    × (t ≡ 9 ∷ [])
read_header-message_example =
    read_header-message wire bytes wire-IsWire init 3 (fragment (1 ∷ 2 ∷ []))
      (fragment (3 ∷ 4 ∷ []) ∷ []) (fragment (5 ∷ 6 ∷ [])) sent (9 ∷ []) refl (omega arith)
      (fragment-IsShort 1 2 (omega arith) (omega arith))
      (fragment-IsShort 3 4 (omega arith) (omega arith), tt)
      (fragment-IsShort 5 6 (omega arith) (omega arith)) (omega arith) refl
