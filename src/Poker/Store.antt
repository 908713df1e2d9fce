-- ===== src/Poker/Store.antt =====
-- Facts of the list of players as a store of addresses: what a write changes, and the chips it holds.
use pokerunicorn_server.Prelude.{
  ℕ, ◌+◌, ◌≡◌, ◌≢◌, refl, Bool, some, List, [], ◌∷◌, arith, ◌==◌, All, find, length, length-map,
  subst, ◌≤◌, inl, inr, Bool-cases, ==_refl,
}
use pokerunicorn_server.Poker.Types.{Player, Poker, deref, write}

-- No two players stand at one address.
abbrev pub AreApart : List Player → Type 0
AreApart [] = Unit {0}
AreApart (p ∷ ps) = All (λ q. q.addr ≢ p.addr) ps × AreApart ps

-- The chips that the players hold.
abbrev pub chips : List Player → ℕ
chips [] = 0
chips (p ∷ ps) = p.balance + chips ps

-- The chips of the players and of the pot.
abbrev pub total : Poker → ℕ
total poker = chips poker.players + poker.pot_amount

pub deref_addr : (a : ℕ) (ps : List Player) (p : Player) → deref a ps ≡ some p → p.addr ≡ a
deref_addr a [] p e = absurd (cc e)
deref_addr a (q ∷ ps) p e = ground (arith, deref_addr a ps p)

-- Where no player stands at the address, a write changes nothing.
pub write_none :
    (a : ℕ) (f : Player → Player) (ps : List Player) → All (λ q. q.addr ≢ a) ps → write a f ps ≡ ps
write_none a f [] h = refl
write_none a f (q ∷ ps) h = ground (arith, h.0, write_none a f ps h.1)

-- A write of one player moves the sum by the difference of the balances.
pub chips-write :
    (a : ℕ) (p q : Player) (ps : List Player)
    → AreApart ps
    → deref a ps ≡ some p
    → chips (write a (λ _. q) ps) + p.balance ≡ chips ps + q.balance
chips-write a p q [] h e = absurd (cc e)
chips-write a p q (r ∷ ps) h e = elim (Bool-cases (r.addr == a)) [
  | inl s ↦
      let here : r.addr ≡ a = ground (arith, s) in
      let apart : All (λ x. x.addr ≢ a) ps = subst (λ n. All (λ x. x.addr ≢ n) ps) here h.0 in
      let same : r ≡ p = ground (arith, s, e) in
      rw (s, write_none a (λ _. q) ps apart, same) (omega arith)
  | inr s ↦
      let there : deref a ps ≡ some p = rw s at e in
      rw s (omega (arith, chips-write a p q ps h.1 there))
]

pub deref-write_self :
    (a : ℕ) (p q : Player) (ps : List Player)
    → q.addr ≡ a
    → deref a ps ≡ some p
    → deref a (write a (λ _. q) ps) ≡ some q
deref-write_self a p q [] k e = absurd (cc e)
deref-write_self a p q (r ∷ ps) k e = elim (Bool-cases (r.addr == a)) [
  | inl s ↦ rw (s, k, ==_refl a)
  | inr s ↦
      let there : deref a ps ≡ some p = rw s at e in rw (s, s) (deref-write_self a p q ps k there)
]

pub deref-write_ne :
    (a b : ℕ) (q : Player) (ps : List Player)
    → q.addr ≡ a
    → a ≢ b
    → deref b (write a (λ _. q) ps) ≡ deref b ps
deref-write_ne a b q [] k e = refl
deref-write_ne a b q (r ∷ ps) k e = ground (arith, k, e, deref-write_ne a b q ps k e)

write-ne_addr :
    (n a : ℕ) (q : Player) (ps : List Player)
    → q.addr ≡ a
    → All (λ x. x.addr ≢ n) ps
    → All (λ x. x.addr ≢ n) (write a (λ _. q) ps)
write-ne_addr n a q [] k h = tt
write-ne_addr n a q (r ∷ ps) k h = elim (Bool-cases (r.addr == a)) [
  | inl s ↦ rw s (ground (arith, h.0, s, k), write-ne_addr n a q ps k h.1)
  | inr s ↦ rw s (h.0, write-ne_addr n a q ps k h.1)
]

pub write-AreApart :
    (a : ℕ) (q : Player) (ps : List Player)
    → q.addr ≡ a
    → AreApart ps
    → AreApart (write a (λ _. q) ps)
write-AreApart a q [] k h = tt
write-AreApart a q (r ∷ ps) k h = elim (Bool-cases (r.addr == a)) [
  | inl s ↦
      let here : r.addr ≡ q.addr = ground (arith, s, k) in
      rw s (
        subst (λ n. All (λ x. x.addr ≢ n) (write a (λ _. q) ps)) here
            (write-ne_addr r.addr a q ps k h.0),
        write-AreApart a q ps k h.1,
      )
  | inr s ↦ rw s (write-ne_addr r.addr a q ps k h.0, write-AreApart a q ps k h.1)
]

pub length-write :
    (a : ℕ) (f : Player → Player) (ps : List Player) → length (write a f ps) ≡ length ps
length-write a f ps = length-map _ ps

-- One player's chips are among all.
pub balance-le-chips :
    (a : ℕ) (p : Player) (ps : List Player) → deref a ps ≡ some p → p.balance ≤ chips ps
balance-le-chips a p [] e = absurd (cc e)
balance-le-chips a p (r ∷ ps) e = ground (arith, balance-le-chips a p ps)

-- A second write at an address replaces the first.
pub write_twice :
    (a : ℕ) (q r : Player) (ps : List Player)
    → q.addr ≡ a
    → write a (λ _. r) (write a (λ _. q) ps) ≡ write a (λ _. r) ps
write_twice a q r [] k = refl
write_twice a q r (x ∷ ps) k = elim (Bool-cases (x.addr == a)) [
  | inl s ↦ rw (s, k, ==_refl a, write_twice a q r ps k)
  | inr s ↦ rw (s, s, write_twice a q r ps k)
]

found_ne :
    (n : ℕ) (test : Player → Bool) (ps : List Player) (w : Player)
    → All (λ q. q.addr ≢ n) ps
    → find test ps ≡ some w
    → w.addr ≢ n
found_ne n test [] w h e = absurd (cc e)
found_ne n test (r ∷ ps) w h e = elim (Bool-cases (test r)) [
  | inl s ↦ let same : r ≡ w = ground (arith, s, e) in subst (λ (x : Player). x.addr ≢ n) same h.0
  | inr s ↦ found_ne n test ps w h.1 (rw s at e)
]

-- A player that a search finds stands at its own address.
pub deref_found :
    (test : Player → Bool) (ps : List Player) (w : Player)
    → AreApart ps
    → find test ps ≡ some w
    → deref w.addr ps ≡ some w
deref_found test [] w h e = absurd (cc e)
deref_found test (r ∷ ps) w h e = elim (Bool-cases (test r)) [
  | inl s ↦
      let same : r ≡ w = ground (arith, s, e) in
      subst (λ (x : Player). deref x.addr (r ∷ ps) ≡ some x) same (rw (==_refl r.addr))
  | inr s ↦
      let there : find test ps ≡ some w = rw s at e in
      let other : w.addr ≢ r.addr = found_ne r.addr test ps w h.0 there in
      ground (arith, other, deref_found test ps w h.1 there)
]
