-- ===== src/Websocket/Ssl.antt =====
-- `pkrsrv_server_ssl_read` of src/server.c, over `SSL_read` of OpenSSL.
use pokerunicorn_server.Prelude.{
  ℕ, zero, suc, ◌^◌, ◌<◌, ◌⊎◌, if◌then◌else◌, lt→ltb, ◌+◌, ◌-◌, ◌≤◌, ◌≡◌, ◌∙◌, refl, ap, sym, true,
  false, Option, none, some, List, [], ◌∷◌, ◌++◌, ltb, length, length-append, arith, inl, inr,
  Bool-cases, ltb→lt, not_ltb→le,
}
use pokerunicorn_server.Websocket.{take, drop}
use pokerunicorn_server.Websocket.Lengths.{IsWire}

-- What the code relies on of `SSL_read`: asked for no bytes it receives none; where bytes are to come
-- before the connection ends (`incoming`) it receives some, from the front, and no more than it is asked for;
-- and at the end it fails.
pub record IsSsl {S : Type 0} (received : ℕ → S → Option (List ℕ × S)) (incoming : S → List ℕ)
    : Type 0 where
  pub nothing : (s : S) → received 0 s ≡ none
  pub closed : (s : S) (n : ℕ) → incoming s ≡ [] → received n s ≡ none
  pub some_of :
      (s : S) (n b : ℕ) (bs : List ℕ)
      → 1 ≤ n
      → incoming s ≡ b ∷ bs
      → (cs : List ℕ) × ((t : S) × (received n s ≡ some (cs, t))
          × (1 ≤ length cs)
          × (length cs ≤ n)
          × (incoming s ≡ cs ++ incoming t))

-- One list starts with another that is no longer, where they start a common list.
prefix :
    (bs cs rest more : List ℕ)
    → length cs ≤ length bs
    → bs ++ rest ≡ cs ++ more
    → (ds : List ℕ) × (bs ≡ cs ++ ds) × (more ≡ ds ++ rest)
prefix bs [] rest more h e = (bs, refl, sym e)
prefix [] (c ∷ cs) rest more h e = absurd (omega (arith, h))
prefix (b ∷ bs) (c ∷ cs) rest more h e =
    let heads : b ≡ c = cc e in
    let tails : bs ++ rest ≡ cs ++ more = cc e in
    let (ds, same, after) = prefix bs cs rest more (omega (arith, h)) tails in
    (ds, cc (heads, same), after)

pub take-drop :
    (n : ℕ) (xs : List ℕ) → n ≤ length xs → (length (take n xs) ≡ n) × (xs ≡ take n xs ++ drop n xs)
take-drop zero xs h = (refl, refl)
take-drop (suc n) [] h = absurd (omega (arith, h))
take-drop (suc n) (x ∷ xs) h =
    let (whole, split) = take-drop n xs (omega (arith, h)) in
    (ap suc whole, ap (λ (l : List ℕ). x ∷ l) split)

append_nil : (bs : List ℕ) → bs ++ [] ≡ bs
append_nil [] = refl
append_nil (b ∷ bs) = ap (λ (l : List ℕ). b ∷ l) (append_nil bs)

length_zero : (bs : List ℕ) → length bs ≡ 0 → bs ≡ []
length_zero [] h = refl
length_zero (b ∷ bs) h = absurd (omega (arith, h))

module _ {S : Type 0} (received : ℕ → S → Option (List ℕ × S)) where
  -- The loop of `pkrsrv_server_ssl_read` for the `n` bytes that are missing.
  unfoldable pub ssl_read_loop : ℕ → ℕ → S → Option (List ℕ × S)
  ssl_read_loop zero n s = none
  ssl_read_loop (suc fuel) n s = elim (received n s) [
    | none ↦ none
    | some (bs, t) ↦ elim (ltb (length bs) n) [
      | true ↦ elim (ssl_read_loop fuel (n - length bs) t) [
        | none ↦ none
        | some (cs, u) ↦ some (bs ++ cs, u)
      ]
      | false ↦ some (bs, t)
    ]
  ]

  -- `pkrsrv_server_ssl_read`. A round receives a byte at least, so `n` rounds are enough. `SSL_read`
  -- takes the number of the bytes that are missing as an `int`: from 2^31 bytes on it is negative at
  -- once, or it is 0 when bytes are still missing, and neither is a success.
  unfoldable pub ssl_read : ℕ → S → Option (List ℕ × S)
  unfolding ssl_read_loop
  ssl_read n s = if ltb n (2 ^ 31) then ssl_read_loop (suc n) n s else none

module _ {S : Type 0} (received : ℕ → S → Option (List ℕ × S)) (incoming : S → List ℕ)
    (laws : IsSsl received incoming) where
  last_round :
      (fuel n : ℕ) (s t : S) (cs : List ℕ)
      → received n s ≡ some (cs, t)
      → ltb (length cs) n ≡ false
      → ssl_read_loop received (suc fuel) n s ≡ some (cs, t)
  unfolding ssl_read_loop
  last_round fuel n s t cs e h = rw (ssl_read_loop, e, h) refl

  round :
      (fuel n : ℕ) (s t u : S) (cs ds : List ℕ)
      → received n s ≡ some (cs, t)
      → ltb (length cs) n ≡ true
      → ssl_read_loop received fuel (n - length cs) t ≡ some (ds, u)
      → ssl_read_loop received (suc fuel) n s ≡ some (cs ++ ds, u)
  unfolding ssl_read_loop
  round fuel n s t u cs ds e h k = rw (ssl_read_loop, e, h, k) refl

  no_bytes : (s : S) → ssl_read received 0 s ≡ none
  unfolding ssl_read ssl_read_loop
  no_bytes s = rw (ssl_read_loop, laws.nothing s) refl

  loop_delivers :
      (fuel n : ℕ) (s : S) (bs rest : List ℕ)
      → n ≤ fuel
      → 1 ≤ n
      → length bs ≡ n
      → incoming s ≡ bs ++ rest
      → (t : S) × (ssl_read_loop received fuel n s ≡ some (bs, t)) × (incoming t ≡ rest)
  loop_delivers zero n s bs rest f h l i = absurd (omega (arith, f, h))
  loop_delivers (suc fuel) n s [] rest f h l i = absurd (omega (arith, h, l))
  loop_delivers (suc fuel) n s (b ∷ bs) rest f h l i =
      let (cs, (t, e, one, few, k)) = laws.some_of s n b (bs ++ rest) h i in
      let (ds, whole, more) =
        prefix (b ∷ bs) cs rest (incoming t) (omega (arith, few, l)) (sym i ∙ k) in
      let sum : length (b ∷ bs) ≡ length cs + length ds =
        ap (λ (x : List ℕ). length x) whole ∙ length-append cs ds in
      elim (Bool-cases (ltb (length cs) n)) [
        | inl c ↦
            let less = ltb→lt (length cs) n c in
            let (u, again, j) =
              loop_delivers fuel (n - length cs) t ds rest (omega (arith, f, one))
                (omega (arith, less)) (omega (arith, sum, l)) more in
            (
              u,
              round fuel n s t u cs ds e c again ∙ ap (λ (x : List ℕ). some (x, u)) (sym whole),
              j,
            )
        | inr c ↦
            let all = not_ltb→le (length cs) n c in
            let empty : ds ≡ [] = length_zero ds (omega (arith, sum, l, all)) in
            let same : b ∷ bs ≡ cs = whole ∙ ap (λ (x : List ℕ). cs ++ x) empty ∙ append_nil cs in
            (
              t,
              last_round fuel n s t cs e c ∙ ap (λ (x : List ℕ). some (x, t)) (sym same),
              more ∙ ap (λ (x : List ℕ). x ++ rest) empty,
            )
      ]

  ends : (fuel n : ℕ) (s : S) → received n s ≡ none → ssl_read_loop received (suc fuel) n s ≡ none
  unfolding ssl_read_loop
  ends fuel n s e = rw (ssl_read_loop, e) refl

  round_ends :
      (fuel n : ℕ) (s t : S) (cs : List ℕ)
      → received n s ≡ some (cs, t)
      → ltb (length cs) n ≡ true
      → ssl_read_loop received fuel (n - length cs) t ≡ none
      → ssl_read_loop received (suc fuel) n s ≡ none
  unfolding ssl_read_loop
  round_ends fuel n s t cs e h k = rw (ssl_read_loop, e, h, k) refl

  read_small :
      (n : ℕ) (s : S) → n < 2 ^ 31 → ssl_read received n s ≡ ssl_read_loop received (suc n) n s
  unfolding ssl_read
  read_small n s h = rw (lt→ltb n (2 ^ 31) h) refl

  -- Where the connection ends before the bytes are complete.
  loop_falls_short :
      (fuel n : ℕ) (s : S) → length (incoming s) < n → ssl_read_loop received fuel n s ≡ none
  loop_falls_short zero n s h = unfold ssl_read_loop in refl
  loop_falls_short (suc fuel) n s h = by_bytes (incoming s) refl (λ t m. loop_falls_short fuel m t)
    where
      by_bytes :
          (bs : List ℕ)
          → incoming s ≡ bs
          → ((t : S) (m : ℕ) → length (incoming t) < m → ssl_read_loop received fuel m t ≡ none)
          → ssl_read_loop received (suc fuel) n s ≡ none
      by_bytes [] i again = ends fuel n s (laws.closed s n i)
      by_bytes (b ∷ bs) i again =
          let (cs, (t, e, one, few, k)) = laws.some_of s n b bs (omega (arith, h)) i in
          let sum : length (incoming s) ≡ length cs + length (incoming t) =
            ap (λ (x : List ℕ). length x) k ∙ length-append cs (incoming t) in
          round_ends fuel n s t cs e (ground (arith, h, sum))
            (again t (n - length cs) (omega (arith, h, sum)))

  -- Over `SSL_read`, the reads of the server's connections do what the code of the frames relies on.
  pub ssl_read-IsWire :
      (write : List ℕ → S → Option S)
      → IsWire (record { read = ssl_read received; write = write }) incoming
  unfolding ssl_read
  ssl_read-IsWire write = record {
    nothing = no_bytes;
    delivers = λ s n bs rest h k l i.
        let (t, e, after) = loop_delivers (suc n) n s bs rest (omega arith) h l i in
        (t, read_small n s k ∙ e, after);
  }

  -- However the bytes arrive, a read of `n` of them, where 1 ≤ n < 2^31, delivers the first `n` and
  -- leaves the rest where so many are to come before the connection ends, and answers 0 where fewer
  -- are.
  pub ssl_read_lem :
      (n : ℕ) (s : S)
      → 1 ≤ n
      → n < 2 ^ 31
      → ((t : S) × (ssl_read received n s ≡ some (take n (incoming s), t))
          × (length (take n (incoming s)) ≡ n)
          × (incoming t ≡ drop n (incoming s)))
        ⊎ ((length (incoming s) < n) × (ssl_read received n s ≡ none))
  ssl_read_lem n s h k = elim (Bool-cases (ltb (length (incoming s)) n)) [
    | inl few ↦
        let less = ltb→lt (length (incoming s)) n few in
        inr (less, read_small n s k ∙ loop_falls_short (suc n) n s less)
    | inr many ↦
        let (whole, split) = take-drop n (incoming s) (not_ltb→le (length (incoming s)) n many) in
        let (t, e, after) =
          loop_delivers (suc n) n s (take n (incoming s)) (drop n (incoming s)) (omega arith) h
            whole split in
        inl (t, read_small n s k ∙ e, whole, after)
  ]
