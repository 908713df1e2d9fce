-- ===== src/Websocket/Base64.antt =====
-- `pkrsrv_util_base64_encode` of src/util.c, which the handshake of src/websocket.c calls.
use pokerunicorn_server.Prelude.{
  ℕ, zero, suc, ◌+◌, ◌-◌, ◌*◌, ◌/◌, ◌%◌, ◌^◌, ◌≤◌, ◌≡◌, refl, none, some, List, [], ◌∷◌, ◌++◌,
  get_elem?, replicate, length-replicate, length, length-append, arith,
}
use pokerunicorn_server.Websocket.{take, codes}
use pokerunicorn_server.Websocket.Ssl.{take-drop}

abbrev pub base64_chars : List ℕ
base64_chars = codes "ABCDEFGHIJKLMNOPQRSTUVWXYZabcdefghijklmnopqrstuvwxyz0123456789+/"

-- How many characters a text of this length over groups of three pads.
abbrev pub base64_mod_table : ℕ → ℕ
base64_mod_table zero = 0
base64_mod_table (suc zero) = 2
base64_mod_table (suc (suc n)) = 1

-- The character of six bits.
abbrev base64_char : ℕ → ℕ
base64_char n = elim (get_elem? base64_chars (n % 64)) [ none ↦ 0 | some c ↦ c ]

-- The characters of three bytes.
abbrev pub quad : ℕ → ℕ → ℕ → List ℕ
quad a b c =
    base64_char (triple / 2 ^ 18)
    ∷ base64_char (triple / 2 ^ 12)
    ∷ base64_char (triple / 2 ^ 6)
    ∷ base64_char triple
    ∷ []
  where
    triple : ℕ
    triple = a * 2 ^ 16 + b * 2 ^ 8 + c

-- The loop over the bytes: behind the last one it takes zeros.
unfoldable pub quads : List ℕ → List ℕ
quads [] = []
quads (a ∷ []) = quad a 0 0
quads (a ∷ b ∷ []) = quad a b 0
quads (a ∷ b ∷ c ∷ bytes) = quad a b c ++ quads bytes

-- The loop at the end writes over the last characters.
unfoldable pub base64_encode : List ℕ → List ℕ
unfolding quads
base64_encode bytes =
    let encoded = quads bytes in
    let pads = base64_mod_table (length bytes % 3) in
    take (length encoded - pads) encoded ++ replicate pads b'='

-- `len_encoded` is the number of characters that the loop writes.
length-quads : (bytes : List ℕ) → length (quads bytes) ≡ (length bytes + 2) / 3 * 4
unfolding quads
length-quads [] = refl
length-quads (a ∷ []) = refl
length-quads (a ∷ b ∷ []) = refl
length-quads (a ∷ b ∷ c ∷ bytes) = omega (arith, length-quads bytes)

pads_fit : (n : ℕ) → base64_mod_table (n % 3) ≤ (n + 2) / 3 * 4
pads_fit zero = omega arith
pads_fit (suc n) = at_most_two (suc n % 3)
  where
    at_most_two : (m : ℕ) → base64_mod_table m ≤ (suc n + 2) / 3 * 4
    at_most_two zero = omega arith
    at_most_two (suc zero) = omega arith
    at_most_two (suc (suc m)) = omega arith

pub length-base64_encode :
    (bytes : List ℕ) → length (base64_encode bytes) ≡ (length bytes + 2) / 3 * 4
unfolding base64_encode
length-base64_encode bytes =
    let encoded = quads bytes in
    let pads = base64_mod_table (length bytes % 3) in
    let fit : pads ≤ length encoded = omega (arith, pads_fit (length bytes), length-quads bytes) in
    let (whole, _) = take-drop (length encoded - pads) encoded (omega arith) in
    omega (
      arith,
      length-append (take (length encoded - pads) encoded) (replicate pads b'='),
      whole,
      length-replicate {A = ℕ} pads b'=',
      length-quads bytes,
      fit,
    )
