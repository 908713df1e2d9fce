-- ===== src/Server/Open.antt =====
-- Reads of src/server.c from a client without a websocket that is still connected.
use mathlib.Core.Path.{fun_ext}
use pokerunicorn_server.Prelude.{
  ℕ, suc, ◌%◌, ◌^◌, ◌<◌, leb, ◌||◌, ◌≤◌, ◌≡◌, refl, ap, ◌∙◌, true, false, none, some, List, [], ◌∷◌,
  ◌++◌, ◌==◌, ltb, length, arith,
}
use pokerunicorn_server.Websocket.{Wire, Websocket, take}
use pokerunicorn_server.Server.{
  Task, Client, net_read, after_read, read_or_close, read_text, ssl_write, write_all, send,
}

take_all : (bs : List ℕ) → take (length bs) bs ≡ bs
take_all [] = refl
take_all (b ∷ bs) = ap (λ (l : List ℕ). b ∷ l) (take_all bs)

-- What the server relies on of a connection over TLS: it delivers the bytes `incoming` from the front, as many as
-- are asked for within an `int`, answers 0 to a read at their end, and takes the writes of some bytes
-- within an `int`.
pub record IsOpen {S : Type 0} (wire : Wire S) (incoming : S → List ℕ) : Type 0 where
  pub delivers :
      (s : S) (n : ℕ) (bs rest : List ℕ)
      → 1 ≤ n
      → n < 2 ^ 31
      → length bs ≡ n
      → incoming s ≡ bs ++ rest
      → (t : S) × (wire.read n s ≡ some (bs, t)) × (incoming t ≡ rest)
  pub closed : (s : S) (n : ℕ) → incoming s ≡ [] → wire.read n s ≡ none
  pub takes :
      (s : S) (bs : List ℕ)
      → 1 ≤ length bs
      → length bs < 2 ^ 31
      → (t : S) × (wire.write bs s ≡ some t) × (incoming t ≡ incoming s)

-- A write of some bytes within an `int` goes out whole.
pub ssl_write_lem :
    {S : Type 0} (wire : Wire S) (bs : List ℕ) (s : S)
    → 1 ≤ length bs
    → length bs < 2 ^ 31
    → ssl_write wire bs s ≡ wire.write bs s
unfolding ssl_write
ssl_write_lem wire bs s h k =
    let num : length bs % 2 ^ 32 ≡ length bs = omega (arith, k) in
    let some_bytes : (length bs == 0 || leb (2 ^ 31) (length bs)) ≡ false = ground (arith, h, k) in
    rw (num, some_bytes, take_all bs) refl

module _ {S : Type 0} (wire : Wire S) (incoming : S → List ℕ) (laws : IsOpen wire incoming)
    (ws : Websocket) where
  -- A client that is connected, without a websocket.
  abbrev pub connected : S → List Task → Client S
  connected s tasks = record {
    is_websocket = false;
    websocket = ws;
    ssl = s;
    is_alive = true;
    tasks = tasks;
  }

  pub net_read_lem :
      (s : S) (tasks : List Task) (n : ℕ) (bs rest : List ℕ)
      → 1 ≤ n
      → n < 2 ^ 31
      → length bs ≡ n
      → incoming s ≡ bs ++ rest
      → (t : S) × (net_read wire n (connected s tasks) ≡ (connected t tasks, some bs))
        × (incoming t ≡ rest)
  unfolding net_read
  net_read_lem s tasks n bs rest h k l i =
      let (t, got, after) = laws.delivers s n bs rest h k l i in (t, rw got refl, after)

  pub read_or_close_lem :
      (s : S) (tasks : List Task) (n : ℕ) (bs rest : List ℕ)
      → 1 ≤ n
      → n < 2 ^ 31
      → length bs ≡ n
      → incoming s ≡ bs ++ rest
      → (t : S) × (read_or_close wire n (connected s tasks) ≡ (λ next. next bs (connected t tasks)))
        × (incoming t ≡ rest)
  unfolding read_or_close after_read
  read_or_close_lem s tasks n bs rest h k l i =
      let (t, got, after) = net_read_lem s tasks n bs rest h k l i in
      let whole : ltb (length bs) n ≡ false = ground (arith, l) in
      let few : leb (2 ^ 31) (length bs) ≡ false = ground (arith, l, k) in
      (t, fun_ext λ next. ap (after_read wire n next) got ∙ (rw (few, whole) refl), after)

  pub read_text_lem :
      (s : S) (tasks : List Task) (bs rest : List ℕ)
      → length bs < 2 ^ 31
      → incoming s ≡ bs ++ rest
      → (t : S) × (read_text wire (length bs) (connected s tasks)
          ≡ (λ next. next bs (connected t tasks)))
        × (incoming t ≡ rest)
  unfolding read_text
  read_text_lem s tasks [] rest k i = (s, refl, i)
  read_text_lem s tasks (b ∷ bs) rest k i =
      let (t, runs, after) =
        read_or_close_lem s tasks (suc (length bs)) (b ∷ bs) rest (omega arith) k refl i in
      let more : (suc (length bs) == 0) ≡ false = ground arith in
      (t, fun_ext λ next. rw more (ap (λ run. run next) runs), after)

  pub send_lem :
      (s : S) (tasks : List Task) (n : ℕ) (bs : List ℕ)
      → 1 ≤ length bs
      → length bs < 2 ^ 31
      → (t : S) × (send wire n (bs ∷ []) (connected s tasks) ≡ (connected t tasks, true))
        × (incoming t ≡ incoming s)
  unfolding send write_all
  send_lem s tasks n bs h k =
      let (t, taken, after) = laws.takes s bs h k in
      let wrote = ssl_write_lem wire bs s h k ∙ taken in (t, rw (wrote, write_all) refl, after)

  pub net_read_end :
      (s : S) (tasks : List Task) (n : ℕ)
      → incoming s ≡ []
      → net_read wire n (connected s tasks) ≡ (connected s tasks, none)
  unfolding net_read
  net_read_end s tasks n i = rw (laws.closed s n i) refl
