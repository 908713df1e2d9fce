-- ===== src/Websocket/Masks.antt =====
-- The masks of the frames of src/websocket.c.
use Prim.Native.Nat.{bit_xor}
use pokerunicorn_server.Prelude.{
  ℕ, zero, suc, ◌+◌, ◌*◌, ◌/◌, ◌%◌, ◌<◌, ◌≡◌, refl, ap, Bool, true, ◌&&◌, List, [], ◌∷◌, ◌==◌,
  ==_iff, All, arith, length,
}
use pokerunicorn_server.Websocket.{unmask, byte}

-- A test on all numbers below a bound.
all_below : ℕ → (ℕ → Bool) → Bool
all_below zero p = true
all_below (suc n) p = p n && all_below n p

all_below_lem : (n : ℕ) (p : ℕ → Bool) (x : ℕ) → all_below n p ≡ true → x < n → p x ≡ true
unfolding all_below
all_below_lem zero p x h k = absurd (omega (arith, k))
all_below_lem (suc n) p x h k = ground (arith, all_below_lem n p x)

table : all_below 65536 (λ x. bit_xor (bit_xor (x / 256) (x % 256)) (x % 256) == x / 256) ≡ true
unfolding all_below
table = refl

xor_twice : (a k : ℕ) → a < 256 → k < 256 → bit_xor (bit_xor a k) k ≡ a
xor_twice a k h g =
    let x = a * 256 + k in
    let high : x / 256 ≡ a = omega (arith, g) in
    let low : x % 256 ≡ k = omega (arith, g) in
    let here =
      all_below_lem 65536 (λ x. bit_xor (bit_xor (x / 256) (x % 256)) (x % 256) == x / 256) x table
        (omega (arith, h, g)) in
    let same = (==_iff (bit_xor (bit_xor (x / 256) (x % 256)) (x % 256)) (x / 256)).0 here in
    rw (high, low) at same

abbrev pub IsBytes : List ℕ → Type 0
IsBytes bs = All (λ b. b < 256) bs

byte-lt : (bs : List ℕ) (i : ℕ) → IsBytes bs → byte bs i < 256
byte-lt [] i h = omega arith
byte-lt (b ∷ bs) zero h = h.0
byte-lt (b ∷ bs) (suc i) h = byte-lt bs i h.1

-- A mask that is put on a second time, from the same index on, is off again.
pub unmask_twice :
    (mkey : List ℕ) (i : ℕ) (bs : List ℕ)
    → IsBytes mkey
    → IsBytes bs
    → unmask mkey i (unmask mkey i bs) ≡ bs
unmask_twice mkey i [] k h = refl
unmask_twice mkey i (b ∷ bs) k h = cc (
  xor_twice b (byte mkey (i % 4)) h.0 (byte-lt mkey (i % 4) k),
  unmask_twice mkey (suc i) bs k h.1,
)

pub length-unmask : (mkey : List ℕ) (i : ℕ) (bs : List ℕ) → length (unmask mkey i bs) ≡ length bs
length-unmask mkey i [] = refl
length-unmask mkey i (b ∷ bs) = ap suc (length-unmask mkey (suc i) bs)
